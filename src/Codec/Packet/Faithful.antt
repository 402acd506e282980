-- ===== src/Codec/Packet/Faithful.antt =====
-- Rendering a packet and parsing it again (`RawPacket` of crates/aster_fsd_codec/src/lib.rs).
use aster_fsd.Prelude.{
  ℕ, Text, is_ascii, ok, ◌≡◌, refl, ap, ◌∙◌, arith, Bool, true, false, List, [], ◌∷◌, ◌++◌, any,
  is_empty, All, ◌==◌, nat_eq, list_eq,
}
use aster_fsd.Codec.Packet.{
  RawPacketKind, pilot_position, atc_position, RawPacket, prefix, is_mode, routing_of,
  routing_bytes, command_routing, render, parse, parse_body, parse_pilot, parse_atc, parse_command,
  pilot_fields, separate_callsign, command_fields, command_packet, pilot_packet,
}
use aster_fsd.Codec.Packet.Lossless.{
  from_prefix-prefix, command_packet-kind, command_packet-fields, command_packet_routing,
}
use aster_fsd.Codec.Packet.Split.{split, join}
use aster_fsd.Codec.Utf8.{is_utf8}

-- A text that is one field.
abbrev pub IsField : Text → Type 0
IsField t = any (λ b. b == b':') t ≡ false

abbrev atc_packet : Text → List Text → RawPacket
atc_packet source fields = record {
  kind = atc_position;
  command = [];
  source = source;
  destination = [];
  fields = fields;
}

-- The kinds that have no command and no destination.
abbrev pub is_report : RawPacketKind → Bool
is_report pilot_position = true
is_report atc_position = true
is_report _ = false

split-join :
    (a : Text) (fs : List Text) → IsField a → All IsField fs → split (a ++ join fs) ≡ (a, fs)
unfolding split join
split-join [] [] h hs = refl
split-join [] (f ∷ fs) h (hf, hs) = rw (split-join f fs hf hs) refl
split-join (b ∷ a) fs h hs = rw (split-join a fs (ground arith) hs) (ground arith)

-- The packets that have a frame: each identifier and field is free of separators, and is there where
-- its kind needs it.
pub data IsWellFormed : RawPacket → Type 0 where
  pilot_report :
      (mode : ℕ) (source : Text) (fields : List Text)
      → is_mode mode ≡ true
      → is_empty source ≡ false
      → All IsField (source ∷ fields)
      → IsWellFormed (pilot_packet mode source fields)
  atc_report :
      (source : Text) (fields : List Text)
      → is_empty source ≡ false
      → All IsField (source ∷ fields)
      → IsWellFormed (atc_packet source fields)
  directed :
      (k : RawPacketKind) (a b : ℕ) (first second : Text) (fields : List Text)
      → is_report k ≡ false
      → is_ascii (a ∷ b ∷ first) ≡ true
      → All IsField ((a ∷ b ∷ first) ∷ second ∷ fields)
      → IsWellFormed (command_packet k (a ∷ b ∷ []) first second fields)

mode-IsField : (mode : ℕ) → is_mode mode ≡ true → IsField (mode ∷ [])
unfolding is_mode
mode-IsField mode h = ground arith

parse_pilot-join :
    (mode : ℕ) (source : Text) (fields : List Text)
    → is_mode mode ≡ true
    → is_empty source ≡ false
    → All IsField (source ∷ fields)
    → parse_pilot ((mode ∷ []) ++ join (source ∷ fields)) ≡ ok (pilot_packet mode source fields)
unfolding parse_pilot pilot_fields separate_callsign
parse_pilot-join mode source fields h e hs =
    rw (split-join (mode ∷ []) (source ∷ fields) (mode-IsField mode h) hs) (rw (h, e) refl)

parse_atc-join :
    (source : Text) (fields : List Text)
    → is_empty source ≡ false
    → All IsField (source ∷ fields)
    → parse_atc (source ++ join fields) ≡ ok (atc_packet source fields)
unfolding parse_atc
parse_atc-join source fields e (h, hs) = rw (split-join source fields h hs) (rw e refl)

parse_command-join :
    (k : RawPacketKind) (a b : ℕ) (first second : Text) (fields : List Text)
    → is_ascii (a ∷ b ∷ first) ≡ true
    → All IsField ((a ∷ b ∷ first) ∷ second ∷ fields)
    → parse_command k ((a ∷ b ∷ first) ++ join (second ∷ fields))
      ≡ ok (command_packet k (a ∷ b ∷ []) first second fields)
unfolding parse_command command_fields
parse_command-join k a b first second fields h (own, hs) =
    rw (split-join (a ∷ b ∷ first) (second ∷ fields) own hs) (rw h refl)

pub parse-prefix :
    (k : RawPacketKind) (body : Text)
    → is_utf8 body ≡ true
    → parse (prefix k ∷ body) ≡ parse_body k body
unfolding parse
parse-prefix k body h = rw (from_prefix-prefix k) (rw h refl)

pub routing_of_directed :
    (k : RawPacketKind) (p : RawPacket) → is_report k ≡ false → routing_of k p ≡ command_routing p
unfolding routing_of
routing_of_directed k p n = ground arith

pub parse_body_directed :
    (k : RawPacketKind) (body : Text)
    → is_report k ≡ false
    → parse_body k body ≡ parse_command k body
unfolding parse_body
parse_body_directed k body n = ground arith

directed_text :
    (k : RawPacketKind) (a b : ℕ) (first second : Text) (fields : List Text)
    → command_routing (command_packet k (a ∷ b ∷ []) first second fields)
        ++ join (command_packet k (a ∷ b ∷ []) first second fields).fields
      ≡ (a ∷ b ∷ first) ++ join (second ∷ fields)
directed_text k a b first second fields =
    rw (command_packet-fields k (a ∷ b ∷ []) first second fields)
      (command_packet_routing k (a ∷ b ∷ []) first second fields)

directed_render :
    (k : RawPacketKind) (p : RawPacket) (body : Text)
    → is_report k ≡ false
    → p.kind ≡ k
    → command_routing p ++ join p.fields ≡ body
    → is_utf8 (routing_bytes p ++ join p.fields) ≡ true
    → parse_command k body ≡ ok p
    → parse (render p) ≡ ok p
unfolding render routing_bytes
directed_render k p body n kind text u parsed =
    let plain = ap is_report kind ∙ n in
    parse-prefix p.kind _ u
    ∙ (parse_body_directed p.kind _ plain
        ∙ rw (routing_of_directed p.kind p plain)
            (rw text (ap (λ (j : RawPacketKind). parse_command j body) kind ∙ parsed)))

-- A well-formed packet, whose rendered body is UTF-8, is what its rendering parses to.
pub parse-render :
    (p : RawPacket)
    → IsWellFormed p
    → is_utf8 (routing_bytes p ++ join p.fields) ≡ true
    → parse (render p) ≡ ok p
unfolding render routing_bytes routing_of parse_body join
parse-render p (pilot_report mode source fields h e hs) u =
    parse-prefix pilot_position _ u ∙ parse_pilot-join mode source fields h e hs
parse-render p (atc_report source fields e hs) u =
    parse-prefix atc_position _ u ∙ parse_atc-join source fields e hs
parse-render p (directed k a b first second fields n h hs) u =
    directed_render k _ ((a ∷ b ∷ first) ++ join (second ∷ fields)) n
      (command_packet-kind k (a ∷ b ∷ []) first second fields)
      (directed_text k a b first second fields) u
      (parse_command-join k a b first second fields h hs)
