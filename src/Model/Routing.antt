-- ===== src/Model/Routing.antt =====
-- crates/aster_fsd_model/src/routing.rs: destinations, query kinds and direct exchanges.
pub mod Reaching
use aster_fsd.Prelude.{
  ℕ, Text, bytes, Result, ok, err, ◌>>=◌, Bool, true, false, ◌==◌, nat_eq, list_eq, [], ◌∷◌,
  to_ascii_uppercase, if◌then◌else◌,
}
use aster_fsd.Model.Error.{ModelError, empty_destination}
use aster_fsd.Model.Callsign.{Callsign}
use aster_fsd.Model.Callsign

pub data Destination : Type 0 where
  server : Destination
  direct : Callsign → Destination
  all : Destination
  atc : Destination
  pilots : Destination
  range : Text → Destination

-- `value.starts_with(byte)`
abbrev pub starts_with : ℕ → Text → Bool
starts_with byte [] = false
starts_with byte (b ∷ rest) = b == byte

unfoldable pub parse : Text → Result Destination ModelError
parse [] = err empty_destination
parse (b ∷ rest) =
    let value : Text = b ∷ rest in
    let upper = to_ascii_uppercase value in
    if upper == bytes "SERVER"
    then ok server
    else if upper == bytes "*"
    then ok all
    else if upper == bytes "*A"
    then ok atc
    else if upper == bytes "*P"
    then ok pilots
    else if starts_with b'@' value
    then ok (range value)
    else Callsign.parse value >>= λ callsign. ok (direct callsign)

-- `destination == Destination::Server`
abbrev pub is_server : Destination → Bool
is_server server = true
is_server _ = false

pub data QueryKind : Type 0 where
  real_name flight_plan capabilities atis system_info aircraft_configuration : QueryKind
  raw : Text → QueryKind

pub data HandoffKind : Type 0 where
  request accept : HandoffKind

pub data ClientDataKind : Type 0 where
  squawk_box pro_controller communication_request communication_reply : ClientDataKind
