-- ===== src/Server/Config.antt =====
-- crates/aster_fsd_server/src/config.rs, error.rs, backend_registry.rs and server.rs: the configuration
-- of the server, its checks, and binding.
pub mod Binding
use aster_fsd.Prelude.{
  ℕ, zero, suc, Text, Result, ok, err, ◌>>=◌, Option, none, some, Bool, ◌||◌, List, [], ◌∷◌, any,
  is_empty, ◌==◌, nat_eq, decimal, ◌++◌, bytes, if◌then◌else◌,
}
use aster_fsd.Prelude.Map.{Map, get, insert}
use aster_fsd.Model.Session.{ProtocolDialect, dialect_eq}
use aster_fsd.Protocol.{ProtocolBackend}
use aster_fsd.Core.Network.{Network}
use aster_fsd.Core.State.{SocketAddr}

pub record ListenerConfig : Type 0 where
  pub name : Text
  pub address : Text
  pub port : ℕ
  pub protocol : ProtocolDialect
  pub max_frame_bytes : ℕ
  pub idle_timeout_seconds : ℕ

pub record ServerConfig : Type 0 where
  pub server_name : Text
  pub server_version : Text
  pub mailbox_capacity : ℕ
  pub wind_delta_interval_seconds : ℕ
  pub listeners : List ListenerConfig

-- `ServerError`, over the `std::io::Error` of the listeners.
pub data ServerError (IoError : Type 0) : Type 0 where
  missing_backend : (listener : Text) → ServerError IoError
  listener_io : (listener : Text) (source : IoError) → ServerError IoError
  listener_task : Text → ServerError IoError
  invalid_mailbox_capacity invalid_interval no_listeners : ServerError IoError

abbrev pub BackendRegistry : Type 0
BackendRegistry = Map ProtocolDialect ProtocolBackend

-- `BackendRegistry::register`
unfoldable pub register_backend : BackendRegistry → ProtocolBackend → BackendRegistry
register_backend registry backend = insert backend.dialect backend registry

-- `BackendRegistry::get`
unfoldable pub backend_for : BackendRegistry → ProtocolDialect → Option ProtocolBackend
backend_for registry dialect = get dialect registry

-- `Server`: its connections are empty and its next connection is 1 until it runs.
pub record Server : Type 0 where
  pub config : ServerConfig
  pub network : Network
  pub registry : BackendRegistry

-- `Server::new`
unfoldable pub new_server :
    {IoError : Type 0}
    → ServerConfig
    → Network
    → BackendRegistry
    → Result Server (ServerError IoError)
new_server config network registry =
    if config.mailbox_capacity == 0
    then err invalid_mailbox_capacity
    else if is_empty config.listeners
    then err no_listeners
    else if config.wind_delta_interval_seconds == 0
        || any (λ listener. listener.idle_timeout_seconds == 0) config.listeners
    then err invalid_interval
    else ok (record { config = config; network = network; registry = registry })

-- `tokio::net::TcpListener`, of which the server uses these two calls. A call may change what the
-- operating system answers next.
pub record Sockets : Type 1 where
  pub World : Type 0
  pub Listener : Type 0
  pub IoError : Type 0
  pub bind : World → Text → World × Result Listener IoError
  pub local_addr : Listener → Result SocketAddr IoError

-- `format!("{}:{}", address, port)`
abbrev pub socket_text : ListenerConfig → Text
socket_text config = config.address ++ (bytes ":" ++ decimal 5 config.port)

module _ (sockets : Sockets) where
  open sockets use {World, Listener, IoError, bind, local_addr}

  -- A listener that was bound, its configuration and its backend.
  pub record BoundListener : Type 0 where
    pub config : ListenerConfig
    pub listener : Listener
    pub backend : ProtocolBackend
    pub local_address : SocketAddr

  abbrev pub io_result {ℓ} :
      {A : Type ℓ} → ListenerConfig → Result A IoError → Result A (ServerError IoError)
  io_result config (ok a) = ok a
  io_result config (err source) = err (listener_io config.name source)

  -- The body of the loop of `bind`.
  unfoldable pub bind_listener :
      BackendRegistry → World → ListenerConfig → World × Result BoundListener (ServerError IoError)
  unfolding backend_for
  bind_listener registry world config = elim (backend_for registry config.protocol) [
    | none ↦ (world, err (missing_backend config.name))
    | some backend ↦
        let (world', bound) = bind world (socket_text config) in
        (
          world',
          io_result config bound >>= λ listener.
              io_result config (local_addr listener) >>= λ local_address. ok (record {
                config = config;
                listener = listener;
                backend = backend;
                local_address = local_address;
              }),
        )
  ]

  unfoldable pub bind_rest :
      BoundListener
      → World × Result (List BoundListener) (ServerError IoError)
      → World × Result (List BoundListener) (ServerError IoError)
  bind_rest bound (world, rest) = (world, rest >>= λ bounds. ok (bound ∷ bounds))

  -- `Server::bind`: the first failure ends the loop.
  unfoldable pub bind_all :
      BackendRegistry
      → World
      → List ListenerConfig
      → World × Result (List BoundListener) (ServerError IoError)
  unfolding bind_listener bind_rest
  bind_all registry world [] = (world, ok [])
  bind_all registry world (config ∷ configs) =
      let (world', bound) = bind_listener registry world config in
      elim bound [
        | err error ↦ (world', err error)
        | ok listener ↦ bind_rest listener (bind_all registry world' configs)
      ]
