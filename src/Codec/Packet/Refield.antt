-- ===== src/Codec/Packet/Refield.antt =====
-- Rendering a packet whose fields may hold separators (`RawPacket` of crates/aster_fsd_codec/src/lib.rs):
-- the text of a message, which the decoders join again.
use aster_fsd.Prelude.{
  ℕ, Text, bytes, is_ascii, ok, ◌≡◌, refl, ap, ◌∙◌, arith, true, false, List, [], ◌∷◌, ◌++◌, All,
  ◌==◌, nat_eq, list_eq, Bool-cases, inl, inr,
}
use mathlib.Core.List.{append_assoc}
use aster_fsd.Codec.Packet.{
  RawPacketKind, RawPacket, routing_bytes, command_routing, render, parse, parse_command,
  command_fields,
}
use aster_fsd.Codec.Packet.Faithful.{
  IsField, is_report, parse-prefix, routing_of_directed, parse_body_directed,
}
use aster_fsd.Codec.Packet.Split.{split, join}
use aster_fsd.Codec.Utf8.{is_utf8}

-- The fields that fields are parsed to.
abbrev pub refield : List Text → List Text
refield [] = []
refield (f ∷ fs) = (split f).0 ∷ ((split f).1 ++ refield fs)

split-append_join :
    (a : Text) (fs : List Text) → split (a ++ join fs) ≡ ((split a).0, (split a).1 ++ refield fs)
unfolding split join
split-append_join [] [] = refl
split-append_join [] (f ∷ fs) = rw (split-append_join f fs) refl
split-append_join (b ∷ a) fs = elim (Bool-cases (b == b':')) [
  | inl sep ↦ rw (sep, split-append_join a fs) refl
  | inr other ↦ rw (other, split-append_join a fs) refl
]

pub split-IsField : (a : Text) → IsField a → split a ≡ (a, [])
unfolding split
split-IsField [] h = refl
split-IsField (b ∷ a) h = rw (split-IsField a (ground arith)) (ground arith)

-- Fields without separators stay as they are.
pub refield-IsField : (fs : List Text) → All IsField fs → refield fs ≡ fs
refield-IsField [] hs = refl
refield-IsField (f ∷ fs) (h, hs) = rw (split-IsField f h, refield-IsField fs hs) refl

parse_command-refield :
    (k : RawPacketKind) (a b : ℕ) (first second : Text) (fields : List Text)
    → ((a ∷ b ∷ []) == bytes "DI") ≡ false
    → is_ascii (a ∷ b ∷ first) ≡ true
    → IsField (a ∷ b ∷ first)
    → IsField second
    → parse_command k ((a ∷ b ∷ first) ++ join (second ∷ fields))
      ≡ ok (record {
        kind = k;
        command = a ∷ b ∷ [];
        source = first;
        destination = second;
        fields = refield fields;
      })
unfolding parse_command command_fields
parse_command-refield k a b first second fields other plain own next =
    rw (split-append_join (a ∷ b ∷ first) (second ∷ fields)) (
      rw (split-IsField (a ∷ b ∷ first) own)
        (rw (split-IsField second next) (rw (plain, other) refl)))

command_routing_text :
    (p : RawPacket)
    → (p.command == bytes "DI") ≡ false
    → command_routing p ++ join p.fields
      ≡ (p.command ++ p.source) ++ join (p.destination ∷ p.fields)
unfolding command_routing join
command_routing_text p other = rw other (simp append_assoc)

-- A packet of a command other than `DI`, with its identifiers free of separators, is parsed from its
-- rendering but for its fields.
pub parse-render-refield :
    (k : RawPacketKind) (a b : ℕ) (first second : Text) (fields : List Text)
    → is_report k ≡ false
    → ((a ∷ b ∷ []) == bytes "DI") ≡ false
    → is_ascii (a ∷ b ∷ first) ≡ true
    → IsField (a ∷ b ∷ first)
    → IsField second
    → (let p : RawPacket = record {
      kind = k;
      command = a ∷ b ∷ [];
      source = first;
      destination = second;
      fields = fields;
    } in
        is_utf8 ((a ∷ b ∷ first) ++ join (second ∷ fields)) ≡ true
        → parse (render p) ≡ ok (record p { fields = refield fields }))
unfolding render routing_bytes
parse-render-refield k a b first second fields n other plain own next u =
    let p : RawPacket = record {
      kind = k;
      command = a ∷ b ∷ [];
      source = first;
      destination = second;
      fields = fields;
    } in
    let text =
      ap (λ (r : Text). r ++ join fields) (routing_of_directed k p n)
      ∙ command_routing_text p other in
    parse-prefix k _ (rw text u)
    ∙ (parse_body_directed k _ n
        ∙ (ap (parse_command k) text
            ∙ parse_command-refield k a b first second fields other plain own next))
