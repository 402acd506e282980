-- ===== src/Classic/Relay/Wire.antt =====
-- The frame of a relayed event and its packet (crates/aster_fsd_protocol_classic/src/encode/mod.rs and
-- decode/mod.rs).
use aster_fsd.Prelude.{
  ap, refl, ℕ, Text, bytes, ok, List, [], ◌∷◌, ◌++◌, ◌≡◌, arith, true, false, any, is_ascii, All,
  ◌==◌, nat_eq, list_eq, Result-cases, inl, inr,
}
use aster_fsd.Model.Callsign.{Callsign, is_reserved}
use aster_fsd.Model.Callsign
use aster_fsd.Model.Callsign.Normal.{parse-IsNormal}
use aster_fsd.Codec.Packet.{RawPacketKind, RawPacket, render}
use aster_fsd.Codec.Packet
use aster_fsd.Codec.Packet.Faithful.{IsField, is_report}
use aster_fsd.Codec.Packet.Refield.{refield, parse-render-refield}
use aster_fsd.Codec.Packet.Split.{join}
use aster_fsd.Codec.Utf8.{is_utf8}
use aster_fsd.Codec.Utf8.Joining.{is_utf8-append, is_utf8-ascii}
use aster_fsd.Protocol.{WireFrame, wire_frame}
use aster_fsd.Classic.Numbers.{FloatText}
use aster_fsd.Classic.Output.{bounded_frame, classic_frame, command_frame}
use aster_fsd.Classic.Decode.{decode_frame, decode_packet, frame_of}
use aster_fsd.Classic.Encode.Bounds.{packet_encode_ok}

-- The bytes of a frame that is made are the packet's rendering.
pub bounded_frame-render :
    (limit : ℕ) (p : RawPacket) (f : WireFrame)
    → bounded_frame limit p ≡ ok f
    → f.as_bytes ≡ render p
unfolding bounded_frame wire_frame
bounded_frame-render limit p f h = elim (Result-cases (Packet.encode p limit)) [
  | inr (e, refused) ↦ ground arith
  | inl (output, made) ↦ let (same, _, _) = packet_encode_ok p limit output made in ground arith
]

pub free-IsField : (t : Text) → any is_reserved t ≡ false → IsField t
unfolding is_reserved
free-IsField [] h = refl
free-IsField (b ∷ t) h = ground (arith, free-IsField t)

pub join-utf8 : (fs : List Text) → All (λ t. is_utf8 t ≡ true) fs → is_utf8 (join fs) ≡ true
unfolding join is_ascii
join-utf8 [] hs = unfold is_utf8 in refl
join-utf8 (f ∷ fs) (h, hs) =
    is_utf8-append (58 ∷ []) (f ++ join fs) (is_utf8-ascii (58 ∷ []) refl)
      (is_utf8-append f (join fs) h (join-utf8 fs hs))

-- The letters of a command other than `DI`.
abbrev pub IsLetters : ℕ → ℕ → Type 0
IsLetters a b =
    (((a ∷ b ∷ []) == bytes "DI") ≡ false) × (is_ascii (a ∷ b ∷ []) ≡ true) × IsField (a ∷ b ∷ [])

letters-ascii :
    (a b : ℕ) (t : Text)
    → is_ascii (a ∷ b ∷ []) ≡ true
    → is_ascii t ≡ true
    → is_ascii (a ∷ b ∷ t) ≡ true
unfolding is_ascii
letters-ascii a b t h ht = ground arith

letters-IsField : (a b : ℕ) (t : Text) → IsField (a ∷ b ∷ []) → IsField t → IsField (a ∷ b ∷ t)
letters-IsField a b t h ht = ground arith

-- The packet of two letters of command.
abbrev pub addressed : RawPacketKind → (a b : ℕ) → (first second : Text) → List Text → RawPacket
addressed k a b first second fields = record {
  kind = k;
  command = a ∷ b ∷ [];
  source = first;
  destination = second;
  fields = fields;
}

-- A frame that is made of a packet that claims a callsign is decoded as that packet, but for its
-- fields.
pub command_frame-decode :
    (floats : FloatText) (k : RawPacketKind) (a b : ℕ) (c : Callsign) (second : Text)
    (fields : List Text) (f : WireFrame)
    → is_report k ≡ false
    → IsLetters a b
    → Callsign.parse c.as_str ≡ ok c
    → IsField second × (is_utf8 second ≡ true)
    → All (λ t. is_utf8 t ≡ true) fields
    → command_frame k (a ∷ b ∷ []) c.as_str second fields ≡ ok f
    → decode_frame floats f.as_bytes
      ≡ decode_packet floats (addressed k a b c.as_str second (refield fields))
unfolding command_frame classic_frame decode_frame
command_frame-decode floats k a b c second fields f n (other, plain, own) c-own (field, text) texts
      h =
    let (normal, _) = parse-IsNormal c.as_str c c-own in
    let ascii : is_ascii (a ∷ b ∷ c.as_str) ≡ true =
      letters-ascii a b c.as_str plain normal.ascii in
    let utf8 : is_utf8 ((a ∷ b ∷ c.as_str) ++ join (second ∷ fields)) ≡ true =
      is_utf8-append (a ∷ b ∷ c.as_str) (join (second ∷ fields)) (is_utf8-ascii _ ascii)
        (join-utf8 (second ∷ fields) (text, texts)) in
    rw (bounded_frame-render 511 _ f h) (
      ap (frame_of floats) (
        parse-render-refield k a b c.as_str second fields n other ascii
          (letters-IsField a b c.as_str own (free-IsField c.as_str normal.free)) field utf8))
