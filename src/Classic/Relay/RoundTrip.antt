-- ===== src/Classic/Relay/RoundTrip.antt =====
-- Sending a command and receiving its event (crates/aster_fsd_protocol_classic/src/encode/mod.rs and
-- decode/mod.rs).
use aster_fsd.Prelude.{
  Text, subst, Result, ok, err, ◌>>=◌, some, none, Option, [], ◌∷◌, ◌≡◌, arith, nat_eq, list_eq,
}
use aster_fsd.Model.Command.{Command}
use aster_fsd.Model.Event.{Event}
use aster_fsd.Protocol.{ProtocolError, WireFrame}
use aster_fsd.Classic.Numbers.{FloatText}
use aster_fsd.Classic.Decode.{decode_frame}
use aster_fsd.Classic.Encode.{encode_event, encode_one}
use aster_fsd.Classic.Encode.Routed.{encode_routed, encode_query, encode_client_data}
use aster_fsd.Classic.Relay.{relayed, IsRelayable}
use aster_fsd.Classic.Relay.Sent.{decode_frame-IsRelayable}
use aster_fsd.Core.Commands.{routed}
use aster_fsd.Classic.Relay.Kinds.{
  text-decode, ping-decode, pong-decode, query-decode, response-decode,
}
use aster_fsd.Classic.Relay.Directed.{handoff-decode, client_data-decode}

-- The frame of an event of one frame.
frame_ok :
    (r : Result WireFrame ProtocolError) (f : WireFrame)
    → (r >>= λ frame. ok (frame ∷ [])) ≡ ok (f ∷ [])
    → r ≡ ok f
frame_ok (ok g) f h = ground arith
frame_ok (err e) f h = ground arith

-- The event's frame, where it has one frame, is decoded to the command.
abbrev Returns : FloatText → Command → Event → Type 0
Returns floats command event =
    (f : WireFrame)
    → encode_event floats event ≡ ok (f ∷ [])
    → decode_frame floats f.as_bytes ≡ ok command

abbrev OnEvent : (Event → Type 0) → Option Event → Type 0
OnEvent P none = Unit {0}
OnEvent P (some event) = P event

relayed-Returns :
    (floats : FloatText) (command : Command)
    → IsRelayable command
    → OnEvent (Returns floats command) (relayed command)
unfolding relayed routed encode_event encode_one encode_routed encode_query encode_client_data
relayed-Returns floats (Command.text source d message) (own, address, text) =
    λ f h. text-decode floats source f own d message address text (frame_ok _ f h)
relayed-Returns floats (Command.query source d kind arguments) (own, address, is_kind, words) =
    λ f h. query-decode floats source f own d kind arguments address is_kind words (frame_ok _ f h)
relayed-Returns floats (Command.response source d kind arguments)
      (own, address, direct, is_kind, filled, words) =
    λ f h.
      response-decode floats source f own d kind arguments address direct is_kind filled words
        (frame_ok _ f h)
relayed-Returns floats (Command.ping source d payload) (own, address, text) =
    λ f h. ping-decode floats source f own d payload address text (frame_ok _ f h)
relayed-Returns floats (Command.pong source d payload) (own, address, text) =
    λ f h. pong-decode floats source f own d payload address text (frame_ok _ f h)
relayed-Returns floats (Command.handoff source target kind fields) (own, address, filled, words) =
    λ f h.
      handoff-decode floats source f own target kind fields address filled words (frame_ok _ f h)
relayed-Returns floats (Command.client_data source target kind fields)
      (own, address, answer, words) =
    λ f h.
      client_data-decode floats source f own target kind fields address answer words
        (frame_ok _ f h)
relayed-Returns floats _ h = tt

-- A relayable command, by its event.
pub encode_event-decode :
    (floats : FloatText) (command : Command) (event : Event) (f : WireFrame)
    → IsRelayable command
    → relayed command ≡ some event
    → encode_event floats event ≡ ok (f ∷ [])
    → decode_frame floats f.as_bytes ≡ ok command
encode_event-decode floats command event f h e encoded =
    (subst (OnEvent (Returns floats command)) e (relayed-Returns floats command h)) f encoded

-- Where a client's frame is decoded to a command that other clients receive as an event, and the event
-- is encoded as a frame, that frame is decoded to the same command.
pub relayed-decode_frame :
    (floats : FloatText) (frame : Text) (command : Command) (event : Event) (f : WireFrame)
    → decode_frame floats frame ≡ ok command
    → relayed command ≡ some event
    → encode_event floats event ≡ ok (f ∷ [])
    → decode_frame floats f.as_bytes ≡ ok command
relayed-decode_frame floats frame command event f decoded =
    encode_event-decode floats command event f
      (decode_frame-IsRelayable floats frame command decoded)
