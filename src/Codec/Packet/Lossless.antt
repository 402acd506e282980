-- ===== src/Codec/Packet/Lossless.antt =====
-- Parsing a frame and rendering its packet (`RawPacket` of crates/aster_fsd_codec/src/lib.rs).
use aster_fsd.Prelude.{
  ℕ, Text, bytes, Result, ok, err, Bool, true, false, List, [], ◌∷◌, ◌++◌, ◌≡◌, refl, sym, ap, ap₂,
  subst, ◌∙◌, arith, ◌==◌, nat_eq, list_eq, Bool-cases, Result-cases, inl, inr, is_ascii, is_empty,
  length, any, ◌≤◌,
}
use mathlib.Core.List.{append_assoc}
use aster_fsd.Codec.Error.{CodecError, is_delimiter}
use aster_fsd.Codec.Utf8.{is_utf8}
use aster_fsd.Codec.Packet.{
  RawPacketKind, request, client, pilot_position, atc_position, ivao_specific, ivao_data,
  ivao_other, from_prefix, prefix, RawPacket, is_mode, command_packet, command_fields,
  parse_command, parse_atc, parse_pilot, pilot_fields, separate_callsign, parse_body, parse,
  command_routing, routing_of, routing_bytes, render, encode,
}
use aster_fsd.Codec.Packet.Split.{split, join, join-split}

prefix-from_prefix : (b : ℕ) (k : RawPacketKind) → from_prefix b ≡ ok k → prefix k ≡ b
unfolding from_prefix prefix
prefix-from_prefix b k h = ground arith

pub from_prefix-prefix : (k : RawPacketKind) → from_prefix (prefix k) ≡ ok k
unfolding from_prefix prefix
from_prefix-prefix k = ground arith

pub command_packet_routing :
    (k : RawPacketKind) (c first second : Text) (fields : List Text)
    → command_routing (command_packet k c first second fields) ++ join fields
      ≡ c ++ (first ++ join (second ∷ fields))
unfolding command_routing join
command_packet_routing k c first second fields = elim (Bool-cases (c == bytes "DI")) [
  | inl di ↦ rw di (rw di (simp append_assoc))
  | inr other ↦ rw other (rw other (simp append_assoc))
]

-- A predicate on the packet of a successful parse.
abbrev pub OnOk : (RawPacket → Type 0) → Result RawPacket CodecError → Type 0
OnOk P (ok p) = P p
OnOk P (err e) = Unit {0}

pub command_packet-kind :
    (k : RawPacketKind) (c first second : Text) (fields : List Text)
    → (command_packet k c first second fields).kind ≡ k
command_packet-kind k c first second fields = elim (Bool-cases (c == bytes "DI")) [
  | inl di ↦ rw di
  | inr other ↦ rw other
]

pub command_packet-fields :
    (k : RawPacketKind) (c first second : Text) (fields : List Text)
    → (command_packet k c first second fields).fields ≡ fields
command_packet-fields k c first second fields = elim (Bool-cases (c == bytes "DI")) [
  | inl di ↦ rw di
  | inr other ↦ rw other
]

-- The packet is of the kind, and its command routing and fields are the text.
abbrev IsCommand : RawPacketKind → Text → RawPacket → Type 0
IsCommand k body p = (p.kind ≡ k) × (command_routing p ++ join p.fields ≡ body)

command_fields-IsCommand :
    (k : RawPacketKind) (head : Text) (fields : List Text)
    → OnOk (IsCommand k (head ++ join fields)) (command_fields k head fields)
unfolding command_fields
command_fields-IsCommand k head [] = tt
command_fields-IsCommand k [] (second ∷ fields) = tt
command_fields-IsCommand k (a ∷ []) (second ∷ fields) = tt
command_fields-IsCommand k (a ∷ b ∷ first) (second ∷ fields) =
    elim (Bool-cases (is_ascii (a ∷ b ∷ first))) [
      | inr wide ↦ rw wide tt
      | inl plain ↦ rw plain (
        command_packet-kind k (a ∷ b ∷ []) first second fields,
        ap
              (λ (fs : List Text).
                command_routing (command_packet k (a ∷ b ∷ []) first second fields) ++ join fs)
              (command_packet-fields k (a ∷ b ∷ []) first second fields)
            ∙ command_packet_routing k (a ∷ b ∷ []) first second fields,
      )
    ]

parse_command-IsCommand :
    (k : RawPacketKind) (body : Text) → OnOk (IsCommand k body) (parse_command k body)
unfolding parse_command
parse_command-IsCommand k body =
    subst (λ (t : Text). OnOk (IsCommand k t) (command_fields k (split body).0 (split body).1))
      (join-split body) (command_fields-IsCommand k (split body).0 (split body).1)

-- The routing bytes and the fields of a packet of kind `k` are the text.
abbrev IsTokenized : RawPacketKind → Text → RawPacket → Type 0
IsTokenized k body p = (p.kind ≡ k) × (routing_bytes p ++ join p.fields ≡ body)

parse_atc-IsTokenized : (body : Text) → OnOk (IsTokenized atc_position body) (parse_atc body)
unfolding parse_atc routing_bytes
parse_atc-IsTokenized body = elim (Bool-cases (is_empty (split body).0)) [
  | inl nameless ↦ rw nameless tt
  | inr named ↦ rw named (refl, join-split body)
]

abbrev pub is_pilot_kind : RawPacketKind → Bool
is_pilot_kind pilot_position = true
is_pilot_kind _ = false

abbrev is_atc_kind : RawPacketKind → Bool
is_atc_kind atc_position = true
is_atc_kind _ = false

routing_of-command :
    (k : RawPacketKind) (p : RawPacket)
    → is_pilot_kind k ≡ false
    → is_atc_kind k ≡ false
    → routing_of k p ≡ command_routing p
unfolding routing_of
routing_of-command k p h g = ground arith

IsTokenized-of_command :
    (k : RawPacketKind) (body : Text) (r : Result RawPacket CodecError)
    → is_pilot_kind k ≡ false
    → is_atc_kind k ≡ false
    → OnOk (IsCommand k body) r
    → OnOk (IsTokenized k body) r
unfolding routing_bytes
IsTokenized-of_command k body (err e) h g c = tt
IsTokenized-of_command k body (ok p) h g (kind, text) = (
  kind,
  ap (λ (t : Text). t ++ join p.fields)
        (ap (λ (j : RawPacketKind). routing_of j p) kind ∙ routing_of-command k p h g)
      ∙ text,
)

parse_body-IsTokenized :
    (k : RawPacketKind) (body : Text)
    → is_pilot_kind k ≡ false
    → OnOk (IsTokenized k body) (parse_body k body)
unfolding parse_body
parse_body-IsTokenized pilot_position body h = cc
parse_body-IsTokenized atc_position body h = parse_atc-IsTokenized body
parse_body-IsTokenized request body h =
    IsTokenized-of_command request body _ refl refl (parse_command-IsCommand request body)
parse_body-IsTokenized client body h =
    IsTokenized-of_command client body _ refl refl (parse_command-IsCommand client body)
parse_body-IsTokenized ivao_specific body h =
    IsTokenized-of_command ivao_specific body _ refl refl
      (parse_command-IsCommand ivao_specific body)
parse_body-IsTokenized ivao_data body h =
    IsTokenized-of_command ivao_data body _ refl refl (parse_command-IsCommand ivao_data body)
parse_body-IsTokenized ivao_other body h =
    IsTokenized-of_command ivao_other body _ refl refl (parse_command-IsCommand ivao_other body)

abbrev Renders : Text → RawPacket → Type 0
Renders frame p = render p ≡ frame

rendered :
    (b : ℕ) (k : RawPacketKind) (body : Text) (p : RawPacket)
    → from_prefix b ≡ ok k
    → IsTokenized k body p
    → render p ≡ b ∷ body
unfolding render
rendered b k body p h (kind, text) =
    ap₂ (λ (c : ℕ) (t : Text). c ∷ t) (ap prefix kind ∙ prefix-from_prefix b k h) text

-- What a successful parse has established.
pub parse_ok :
    (b : ℕ) (body : Text) (p : RawPacket)
    → parse (b ∷ body) ≡ ok p
    → (k : RawPacketKind) × (from_prefix b ≡ ok k)
      × (is_utf8 body ≡ true)
      × (parse_body k body ≡ ok p)
unfolding parse
parse_ok b body p h = elim (Result-cases (from_prefix b)) [
  | inr (e, unknown) ↦ ground arith
  | inl (k, known) ↦ (k, known, ground arith, ground arith)
]

pub parse_pilot-kind : (body : Text) → OnOk (λ p. p.kind ≡ pilot_position) (parse_pilot body)
unfolding parse_pilot pilot_fields separate_callsign
parse_pilot-kind body = pilot_kind (split body).0 (split body).1
  where
    separate :
        (mode : ℕ) (fields : List Text)
        → OnOk (λ p. p.kind ≡ pilot_position) (separate_callsign mode fields)
    separate mode [] = tt
    separate mode (s ∷ fields) = elim (Bool-cases (is_empty s)) [
      | inl e ↦ rw e tt
      | inr e ↦ rw e refl
    ]

    pilot_kind :
        (first : Text) (fields : List Text)
        → OnOk (λ p. p.kind ≡ pilot_position) (pilot_fields first fields)
    pilot_kind [] fields = tt
    pilot_kind (mode ∷ compact) fields = elim (Bool-cases (is_mode mode)) [
      | inr e ↦ rw e tt
      | inl e ↦ rw e (elim (Bool-cases (is_empty compact)) [
        | inl e' ↦ rw e' (separate mode fields)
        | inr e' ↦ rw e' refl
      ])
    ]

not_pilot :
    (k : RawPacketKind) (body : Text) (p : RawPacket)
    → parse_body k body ≡ ok p
    → is_pilot_kind p.kind ≡ false
    → is_pilot_kind k ≡ false
unfolding parse_body
not_pilot pilot_position body p h n =
    let kind = subst (OnOk (λ q. q.kind ≡ pilot_position)) h (parse_pilot-kind body) in
    sym (ap is_pilot_kind kind) ∙ n
not_pilot _ body p h n = refl

-- A frame that is not a pilot position is what its packet renders to.
pub render-parse :
    (frame : Text) (p : RawPacket)
    → parse frame ≡ ok p
    → is_pilot_kind p.kind ≡ false
    → render p ≡ frame
render-parse [] p h n = unfold parse in cc
render-parse (b ∷ body) p h n =
    let (k, known, _, parsed) = parse_ok b body p h in
    rendered b k body p known (
      subst (OnOk (IsTokenized k body)) parsed
        (parse_body-IsTokenized k body (not_pilot k body p parsed n)))

-- A frame that parses to a packet other than a pilot position, is within the limit and holds no
-- delimiter is what encoding the packet gives.
pub encode-parse :
    (frame : Text) (p : RawPacket) (max : ℕ)
    → parse frame ≡ ok p
    → is_pilot_kind p.kind ≡ false
    → length frame ≤ max
    → any is_delimiter frame ≡ false
    → encode p max ≡ ok frame
unfolding encode
encode-parse frame p max h n fits clean = let same = render-parse frame p h n in ground arith
