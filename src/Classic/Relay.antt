-- ===== src/Classic/Relay.antt =====
-- What a client sends and another receives, through the classic backend: the events that
-- crates/aster_fsd_core/src/network/commands.rs makes of commands, encoded by
-- crates/aster_fsd_protocol_classic/src/encode/routed.rs, and decode/routed.rs.
pub mod Wire
pub mod Words
pub mod Fields
pub mod Kinds
pub mod Directed
pub mod Address
pub mod Parsed
pub mod Sent
pub mod RoundTrip
use aster_fsd.Prelude.{
  Text, ok, Option, none, some, option_map, is_empty, Bool, true, false, List, [], ◌∷◌, ◌≡◌, All,
}
use aster_fsd.Model.Callsign.{Callsign}
use aster_fsd.Model.Callsign
use aster_fsd.Model.Command.{Command}
use aster_fsd.Model.Event.{Event}
use aster_fsd.Model.Routing.{Destination, QueryKind, ClientDataKind}
use aster_fsd.Model.Routing
use aster_fsd.Codec.Packet.Faithful.{IsField}
use aster_fsd.Codec.Utf8.{is_utf8}
use aster_fsd.Classic.Output.{destination_text}
use aster_fsd.Classic.Routed.{query_kind}
use aster_fsd.Classic.Encode.Routed.{query_kind_text}
use aster_fsd.Core.Commands.{routed}

-- The event that a command reaches other clients as.
unfoldable pub relayed : Command → Option Event
relayed (Command.ping source destination payload) = some (Event.ping source destination payload)
relayed (Command.query source destination kind arguments) =
    some (Event.query source.as_str destination kind arguments)
relayed command = option_map (λ r. r.2) (routed command)

-- A text that is one field.
abbrev pub IsWord : Text → Type 0
IsWord t = IsField t × (is_utf8 t ≡ true)

-- A callsign that parses to itself.
abbrev pub IsOwn : Callsign → Type 0
IsOwn c = Callsign.parse c.as_str ≡ ok c

-- A destination that is parsed from its text.
abbrev pub IsAddress : Destination → Type 0
IsAddress d = (Routing.parse (destination_text d) ≡ ok d) × IsWord (destination_text d)

-- A query kind that is parsed from its text.
abbrev pub IsKind : QueryKind → Type 0
IsKind kind = (query_kind (query_kind_text kind) ≡ kind) × IsWord (query_kind_text kind)

abbrev pub IsFilled : List Text → Type 0
IsFilled fields = is_empty fields ≡ false

abbrev pub is_direct : Destination → Bool
is_direct (Destination.direct c) = true
is_direct _ = false

-- A communication reply has a field.
abbrev pub IsAnswer : ClientDataKind → List Text → Type 0
IsAnswer ClientDataKind.communication_reply fields = IsFilled fields
IsAnswer _ fields = Unit {0}

-- The commands that the classic protocol has a frame for, of those that other clients receive.
abbrev pub IsRelayable : Command → Type 0
IsRelayable (Command.text source destination message) =
    IsOwn source × IsAddress destination × (is_utf8 message ≡ true)
IsRelayable (Command.query source destination kind arguments) =
    IsOwn source × IsAddress destination × IsKind kind × All IsWord arguments
IsRelayable (Command.response source destination kind arguments) =
    IsOwn source
    × IsAddress destination
    × (is_direct destination ≡ true)
    × IsKind kind
    × IsFilled arguments
    × All IsWord arguments
IsRelayable (Command.ping source destination payload) =
    IsOwn source × IsAddress destination × (is_utf8 payload ≡ true)
IsRelayable (Command.pong source destination payload) =
    IsOwn source × IsAddress destination × (is_utf8 payload ≡ true)
IsRelayable (Command.handoff source target kind fields) =
    IsOwn source × IsAddress (Destination.direct target) × IsFilled fields × All IsWord fields
IsRelayable (Command.client_data source target kind fields) =
    IsOwn source × IsAddress (Destination.direct target) × IsAnswer kind fields × All IsWord fields
IsRelayable _ = Unit {0}
