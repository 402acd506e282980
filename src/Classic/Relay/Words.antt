-- ===== src/Classic/Relay/Words.antt =====
-- The fields of a received frame: the packets of crates/aster_fsd_codec/src/lib.rs.
use aster_fsd.Prelude.{
  subst, refl, ℕ, Text, bytes, ok, List, [], ◌∷◌, ◌++◌, ◌≡◌, arith, true, is_ascii, is_empty, All,
  ◌==◌, nat_eq, list_eq, Bool-cases, inl, inr,
}
use mathlib.Core.List.{append-nil}
use aster_fsd.Codec.Packet.{
  RawPacketKind, RawPacket, command_packet, command_fields, parse_command, parse_body, parse,
  request, client, pilot_position, atc_position, ivao_specific, ivao_data, ivao_other,
  separate_callsign, pilot_fields, parse_pilot, parse_atc, is_mode,
}
use aster_fsd.Codec.Packet.Faithful.{IsField}
use aster_fsd.Codec.Packet.Lossless.{parse_ok, OnOk}
use aster_fsd.Codec.Packet.Split.{split, join, join-split}
use aster_fsd.Codec.Utf8.{is_utf8, utf8_from}
use aster_fsd.Codec.Utf8.Joining.{is_utf8_parted, is_utf8-ascii}
use aster_fsd.Classic.Relay.{IsWord}

-- Each field that a text splits into is a field.
split-All_IsField : (t : Text) → IsField (split t).0 × All IsField (split t).1
unfolding split
split-All_IsField [] = (refl, tt)
split-All_IsField (b ∷ t) =
    let (first, rest) = split-All_IsField t in
    elim (Bool-cases (b == b':')) [
      | inl sep ↦ rw sep (refl, (first, rest))
      | inr other ↦ rw other (rw other first, rest)
    ]

append_join-utf8 :
    (a : Text) (fs : List Text)
    → is_utf8 (a ++ join fs) ≡ true
    → (is_utf8 a ≡ true) × All (λ t. is_utf8 t ≡ true) fs
unfolding join
append_join-utf8 a [] h = (rw (append-nil a) at h, tt)
append_join-utf8 a (f ∷ fs) h =
    let (before, behind) = is_utf8_parted a (f ++ join fs) h in
    (before, append_join-utf8 f fs behind)

both-IsWord : (fs : List Text) → All IsField fs → All (λ t. is_utf8 t ≡ true) fs → All IsWord fs
both-IsWord [] hs us = tt
both-IsWord (f ∷ fs) (h, hs) (u, us) = ((h, u), both-IsWord fs hs us)

split-All_IsWord : (t : Text) → is_utf8 t ≡ true → All IsWord ((split t).0 ∷ (split t).1)
split-All_IsWord t h =
    both-IsWord ((split t).0 ∷ (split t).1) (split-All_IsField t)
      (append_join-utf8 (split t).0 (split t).1 (rw (join-split t) h))

empty-IsWord : IsWord []
unfolding is_utf8 utf8_from
empty-IsWord = (refl, refl)

-- The destination and the fields of a packet are words.
abbrev pub IsSent : RawPacket → Type 0
IsSent p = IsWord p.destination × All IsWord p.fields

command_packet-IsSent :
    (k : RawPacketKind) (c first second : Text) (fields : List Text)
    → IsWord first
    → IsWord second
    → All IsWord fields
    → IsSent (command_packet k c first second fields)
command_packet-IsSent k c first second fields own word words = elim (Bool-cases (c == bytes "DI")) [
  | inl di ↦ rw di (own, words)
  | inr other ↦ rw other (word, words)
]

-- What follows the letters of a command.
rest-IsWord :
    (a b : ℕ) (first : Text)
    → is_ascii (a ∷ b ∷ first) ≡ true
    → IsField (a ∷ b ∷ first)
    → IsWord first
unfolding is_ascii
rest-IsWord a b first plain field = (ground arith, is_utf8-ascii first (ground arith))

command_fields-IsSent :
    (k : RawPacketKind) (head : Text) (fields : List Text)
    → IsField head
    → All IsWord fields
    → OnOk IsSent (command_fields k head fields)
unfolding command_fields
command_fields-IsSent k head [] field words = tt
command_fields-IsSent k [] (second ∷ fields) field words = tt
command_fields-IsSent k (a ∷ []) (second ∷ fields) field words = tt
command_fields-IsSent k (a ∷ b ∷ first) (second ∷ fields) field (word, words) =
    elim (Bool-cases (is_ascii (a ∷ b ∷ first))) [
      | inr wide ↦ rw wide tt
      | inl plain ↦ rw plain (
          command_packet-IsSent k (a ∷ b ∷ []) first second fields
            (rest-IsWord a b first plain field) word words)
    ]

parse_command-IsSent :
    (k : RawPacketKind) (body : Text) → is_utf8 body ≡ true → OnOk IsSent (parse_command k body)
unfolding parse_command
parse_command-IsSent k body h =
    let ((head, _), words) = split-All_IsWord body h in
    command_fields-IsSent k (split body).0 (split body).1 head words

separate_callsign-IsSent :
    (mode : ℕ) (fields : List Text)
    → All IsWord fields
    → OnOk IsSent (separate_callsign mode fields)
unfolding separate_callsign
separate_callsign-IsSent mode [] words = tt
separate_callsign-IsSent mode (s ∷ fields) (_, words) = elim (Bool-cases (is_empty s)) [
  | inl e ↦ rw e tt
  | inr e ↦ rw e (empty-IsWord, words)
]

pilot_fields-IsSent :
    (first : Text) (fields : List Text)
    → All IsWord fields
    → OnOk IsSent (pilot_fields first fields)
unfolding pilot_fields
pilot_fields-IsSent [] fields words = tt
pilot_fields-IsSent (mode ∷ compact) fields words = elim (Bool-cases (is_mode mode)) [
  | inr e ↦ rw e tt
  | inl e ↦ rw e (elim (Bool-cases (is_empty compact)) [
    | inl e' ↦ rw e' (separate_callsign-IsSent mode fields words)
    | inr e' ↦ rw e' (empty-IsWord, words)
  ])
]

parse_atc-IsSent : (body : Text) → is_utf8 body ≡ true → OnOk IsSent (parse_atc body)
unfolding parse_atc
parse_atc-IsSent body h = elim (Bool-cases (is_empty (split body).0)) [
  | inl nameless ↦ rw nameless tt
  | inr named ↦ rw named (empty-IsWord, (split-All_IsWord body h).1)
]

parse_body-IsSent :
    (k : RawPacketKind) (body : Text) → is_utf8 body ≡ true → OnOk IsSent (parse_body k body)
unfolding parse_body parse_pilot
parse_body-IsSent pilot_position body h =
    pilot_fields-IsSent (split body).0 (split body).1 (split-All_IsWord body h).1
parse_body-IsSent atc_position body h = parse_atc-IsSent body h
parse_body-IsSent request body h = parse_command-IsSent request body h
parse_body-IsSent client body h = parse_command-IsSent client body h
parse_body-IsSent ivao_specific body h = parse_command-IsSent ivao_specific body h
parse_body-IsSent ivao_data body h = parse_command-IsSent ivao_data body h
parse_body-IsSent ivao_other body h = parse_command-IsSent ivao_other body h

-- The destination and the fields of a packet that is parsed are words.
pub parse-IsSent : (frame : Text) (p : RawPacket) → parse frame ≡ ok p → IsSent p
parse-IsSent [] p h = unfold parse in cc
parse-IsSent (b ∷ body) p h =
    let (k, _, utf8, parsed) = parse_ok b body p h in
    subst (OnOk IsSent) parsed (parse_body-IsSent k body utf8)
