-- ===== src/Classic/Relay/Fields.antt =====
-- The identifiers and fields of a relayed command (crates/aster_fsd_protocol_classic/src/decode/mod.rs).
use aster_fsd.Prelude.{
  refl, ℕ, Text, ok, List, [], ◌∷◌, ◌≡◌, ◌≤◌, length, is_empty, arith, true, false, All, nat_eq,
  list_eq,
}
use mathlib.Core.List.{append-nil}
use aster_fsd.Model.Callsign.{Callsign}
use aster_fsd.Model.Error.{ErrorCode}
use aster_fsd.Model.Routing.{Destination}
use aster_fsd.Codec.Packet.{RawPacketKind, RawPacket}
use aster_fsd.Codec.Packet.Faithful.{IsField, is_report}
use aster_fsd.Codec.Packet.Refield.{refield, refield-IsField}
use aster_fsd.Codec.Packet.Split.{split, join-split}
use aster_fsd.Codec.Utf8.{is_utf8}
use aster_fsd.Protocol.{WireFrame}
use aster_fsd.Classic.Numbers.{FloatText}
use aster_fsd.Classic.Fields.{
  callsign, destination, direct_destination, direct_callsign, require_fields, join_fields,
}
use aster_fsd.Classic.Decode.{decode_frame, decode_packet}
use aster_fsd.Classic.Output.{command_frame, destination_text}
use aster_fsd.Classic.Relay.{IsOwn, IsAddress, IsWord, is_direct}
use aster_fsd.Classic.Relay.Wire.{IsLetters, addressed, command_frame-decode}

-- The fields of a message are joined to the message.
pub join_fields-refield : (message : Text) → join_fields (refield (message ∷ [])) ≡ message
unfolding join_fields
join_fields-refield message = rw (append-nil (split message).1) (join-split message)

pub callsign-own : (c : Callsign) (code : ErrorCode) → IsOwn c → callsign c.as_str code ≡ ok c
unfolding callsign
callsign-own c code h = rw (h, callsign) refl

pub destination-address : (d : Destination) → IsAddress d → destination (destination_text d) ≡ ok d
unfolding destination
destination-address d (h, _) = rw (h, destination) refl

filled-length : (fs : List Text) → is_empty fs ≡ false → 1 ≤ length fs
filled-length [] h = ground arith
filled-length (f ∷ fs) h = omega arith

-- A packet with enough fields.
pub require_fields-enough :
    (p : RawPacket) (n : ℕ) → n ≤ length p.fields → require_fields p n ≡ ok tt
unfolding require_fields
require_fields-enough p n h = ground arith

pub require_fields-filled : (p : RawPacket) → is_empty p.fields ≡ false → require_fields p 1 ≡ ok tt
require_fields-filled p h = require_fields-enough p 1 (filled-length p.fields h)

pub direct_destination-address :
    (d : Destination) (command : Text)
    → IsAddress d
    → is_direct d ≡ true
    → direct_destination (destination_text d) command ≡ ok d
unfolding direct_destination
direct_destination-address (Destination.direct c) command address direct =
    rw (destination-address (Destination.direct c) address) refl
direct_destination-address _ command address direct = cc

pub direct_callsign-address :
    (c : Callsign) (command : Text)
    → IsAddress (Destination.direct c)
    → direct_callsign c.as_str command ≡ ok c
unfolding direct_callsign destination_text direct_destination
direct_callsign-address c command address =
    let e : destination c.as_str ≡ ok (Destination.direct c) =
      destination-address (Destination.direct c) address in
    rw (e, direct_callsign) refl

pub words-utf8 : (fs : List Text) → All IsWord fs → All (λ t. is_utf8 t ≡ true) fs
words-utf8 [] hs = tt
words-utf8 (f ∷ fs) (h, hs) = (h.1, words-utf8 fs hs)

words-IsField : (fs : List Text) → All IsWord fs → All IsField fs
words-IsField [] hs = tt
words-IsField (f ∷ fs) (h, hs) = (h.0, words-IsField fs hs)

-- A frame of words is decoded as the packet of the words.
pub words-decode :
    (floats : FloatText) (k : RawPacketKind) (a b : ℕ) (c : Callsign) (second : Text)
    (fields : List Text) (f : WireFrame)
    → is_report k ≡ false
    → IsLetters a b
    → IsOwn c
    → IsWord second
    → All IsWord fields
    → command_frame k (a ∷ b ∷ []) c.as_str second fields ≡ ok f
    → decode_frame floats f.as_bytes ≡ decode_packet floats (addressed k a b c.as_str second fields)
words-decode floats k a b c second fields f n letters own word words h =
    let decoded =
      command_frame-decode floats k a b c second fields f n letters own word
        (words-utf8 fields words) h in
    rw (refield-IsField fields (words-IsField fields words)) at decoded
