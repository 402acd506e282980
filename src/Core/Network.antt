-- ===== src/Core/Network.antt =====
-- `Network::execute` of crates/aster_fsd_core/src/network/mod.rs, and the steps that the shared
-- state takes.
use aster_fsd.Prelude.{Text, ok, ◌≡◌}
use aster_fsd.Model.Command.{Command}
use aster_fsd.Model.Float.{FloatOps}
use aster_fsd.Model.Session.{ConnectionId, ProtocolDialect}
use aster_fsd.Core.Authentication.{identify, login}
use aster_fsd.Core.Commands.{execute_active}
use aster_fsd.Core.Effects.{Effects}
use aster_fsd.Core.Lifecycle.{register, disconnect, empty_state}
use aster_fsd.Core.Ports.{Authenticator, WeatherProvider, CoreConfig}
use aster_fsd.Core.State.{NetworkState, SocketAddr}
use aster_fsd.Core.Weather.{weather_request}

-- `Network`, less its state: the policy, the two ports, and the arithmetic of `f64`.
pub record Network : Type 0 where
  pub config : CoreConfig
  pub authenticator : Authenticator
  pub weather_provider : WeatherProvider
  pub floats : FloatOps

module _ (network : Network) where
  open network use {config, authenticator, weather_provider, floats}

  -- `before` is the state under the first lock of `Identify`, `Login` and `WeatherRequest`, `state`
  -- the one under the write lock.
  unfoldable pub execute :
      (before state : NetworkState) → ConnectionId → Command → NetworkState × Effects
  execute before state connection_id (Command.identify command) =
      identify authenticator before state connection_id command
  execute before state connection_id (Command.login command) =
      login config authenticator before state connection_id command
  execute before state connection_id (Command.weather_request source station parsed) =
      (state, weather_request weather_provider before connection_id source station parsed)
  execute before state connection_id command = execute_active floats state connection_id command

  -- One step of the shared state. `executed` has an arbitrary state for the first lock, so every
  -- interleaving of the handshake of one connection with the commands of the others is a sequence
  -- of steps.
  pub data Step : NetworkState → NetworkState → Type 0 where
    registered :
        (state state' : NetworkState) (id : ConnectionId) (peer : SocketAddr)
        (dialect : ProtocolDialect)
        → register config state id peer dialect ≡ ok state'
        → Step state state'
    executed :
        (before state : NetworkState) (id : ConnectionId) (command : Command)
        → Step state (execute before state id command).0
    disconnected :
        (state : NetworkState) (id : ConnectionId) (reason : Text)
        → Step state (disconnect state id reason).0

  pub data Reachable : NetworkState → Type 0 where
    start : Reachable empty_state
    next : {state state' : NetworkState} → Reachable state → Step state state' → Reachable state'
