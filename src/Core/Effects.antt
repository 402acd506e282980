-- ===== src/Core/Effects.antt =====
-- crates/aster_fsd_core/src/effects.rs and the constructors of effects in network/lifecycle.rs.
use aster_fsd.Prelude.{
  Text, Option, none, some, Bool, ◌&&◌, not, List, [], ◌∷◌, ◌++◌, is_empty, if◌then◌else◌,
}
use aster_fsd.Prelude.Map.{is_some}
use aster_fsd.Model.Callsign.{Callsign}
use aster_fsd.Model.Error.{ErrorCode, description}
use aster_fsd.Model.Event.{Event}
use aster_fsd.Model.Session.{ConnectionId}

pub record Delivery : Type 0 where
  pub recipients : List ConnectionId
  pub event : Event

pub record CloseConnection : Type 0 where
  pub connection_id : ConnectionId
  pub reason : Text

pub record Effects : Type 0 where
  pub deliveries : List Delivery
  pub close : Option CloseConnection

-- `Effects::default()`
abbrev pub no_effects : Effects
no_effects = record { deliveries = []; close = none }

-- `Effects::is_empty`
unfoldable pub effects_are_empty : Effects → Bool
effects_are_empty effects = is_empty effects.deliveries && not (is_some effects.close)

unfoldable pub last_close : Option CloseConnection → Option CloseConnection → Option CloseConnection
last_close first none = first
last_close first (some second) = some second

-- `Effects::extend`
unfoldable pub extend : Effects → Effects → Effects
unfolding last_close
extend effects other = record {
  deliveries = effects.deliveries ++ other.deliveries;
  close = last_close effects.close other.close;
}

unfoldable pub send : List ConnectionId → Event → Effects
send recipients event = if is_empty recipients then no_effects else record {
  deliveries = record { recipients = recipients; event = event } ∷ [];
  close = none;
}

unfoldable pub error_effect : ConnectionId → Option Callsign → ErrorCode → Text → Effects
unfolding send
error_effect connection_id callsign code environment =
    send (connection_id ∷ []) (Event.error callsign code environment (description code))

unfoldable pub error_and_close : ConnectionId → Option Callsign → ErrorCode → Text → Effects
unfolding error_effect
error_and_close connection_id callsign code environment =
    let effects = error_effect connection_id callsign code environment in
    record effects {
      close = some (record { connection_id = connection_id; reason = description code });
    }
