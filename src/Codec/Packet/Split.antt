-- ===== src/Codec/Packet/Split.antt =====
-- `str::split(':')` and its inverse, for the tokens of crates/aster_fsd_codec/src/lib.rs.
use aster_fsd.Prelude.{
  ℕ, Text, Bool, List, [], ◌∷◌, ◌++◌, ◌≡◌, refl, ap, ◌==◌, nat_eq, eqb_iff, if◌then◌else◌,
  Bool-cases, inl, inr,
}

abbrev cut : Bool → ℕ → Text × List Text → Text × List Text
cut at_separator b (first, rest) = if at_separator then ([], first ∷ rest) else (b ∷ first, rest)

-- The first field, and the others.
unfoldable pub split : Text → Text × List Text
split [] = ([], [])
split (b ∷ t) = cut (b == b':') b (split t)

-- Each field behind a separator.
unfoldable pub join : List Text → Text
join [] = []
join (f ∷ fs) = b':' ∷ (f ++ join fs)

-- Joining what was split gives the text back.
pub join-split : (t : Text) → (split t).0 ++ join (split t).1 ≡ t
unfolding split join
join-split [] = refl
join-split (b ∷ t) = elim (Bool-cases (b == b':')) [
  | inl sep ↦ rw (sep, (eqb_iff b 58).0 sep) (ap (λ (u : Text). 58 ∷ u) (join-split t))
  | inr other ↦ rw other (ap (λ (u : Text). b ∷ u) (join-split t))
]
