-- ===== src/Codec/Utf8/Joining.antt =====
-- UTF-8 of joined texts, and of what stands behind a separator (the `&str` slices of
-- crates/aster_fsd_codec/src/lib.rs).
use aster_fsd.Prelude.{
  ℕ, zero, suc, Text, Option, none, some, Bool, true, false, [], ◌∷◌, ◌++◌, ◌≡◌, ◌≤◌, refl, sym,
  ◌∙◌, arith, ltb, leb, is_ascii, Option-cases, inl, inr, nat_eq,
}
use aster_fsd.Codec.Utf8.{lead, utf8_from, is_utf8}

-- Between characters the range is not read.
utf8_from_between :
    (low high low' high' : ℕ) (t : Text) → utf8_from 0 low high t ≡ utf8_from 0 low' high' t
unfolding utf8_from
utf8_from_between low high low' high' [] = refl
utf8_from_between low high low' high' (b ∷ t) = refl

-- The texts whose first byte leads a character: what follows it is as that says.
abbrev after : Option (ℕ × ℕ × ℕ) → Text → Bool
after none t = false
after (some (n, low, high)) t = utf8_from n low high t

utf8_from-lead : (low high b : ℕ) (t : Text) → utf8_from 0 low high (b ∷ t) ≡ after (lead b) t
unfolding utf8_from
utf8_from-lead low high b t = elim (Option-cases (lead b)) [
  | inl e ↦ rw (e, utf8_from) refl
  | inr (_, e) ↦ rw (e, utf8_from) refl
]

-- The byte is within the range, and the rest is UTF-8 behind it.
utf8_from_inside :
    (n low high b : ℕ) (t : Text)
    → utf8_from (suc n) low high (b ∷ t) ≡ true
    → (leb low b ≡ true) × (leb b high ≡ true) × (utf8_from n 0x80 0xbf t ≡ true)
unfolding utf8_from
utf8_from_inside n low high b t h = (ground arith, ground arith, ground arith)

utf8_from_inside' :
    (n low high b : ℕ) (t : Text)
    → leb low b ≡ true
    → leb b high ≡ true
    → utf8_from n 0x80 0xbf t ≡ true
    → utf8_from (suc n) low high (b ∷ t) ≡ true
unfolding utf8_from
utf8_from_inside' n low high b t l g h = rw (l, g) h

after-append :
    (l : Option (ℕ × ℕ × ℕ)) (t u : Text)
    → ((n low high : ℕ) → utf8_from n low high t ≡ true → utf8_from n low high (t ++ u) ≡ true)
    → after l t ≡ true
    → after l (t ++ u) ≡ true
after-append none t u further e = e
after-append (some (n, low, high)) t u further e = further n low high e

utf8_from-append :
    (n low high : ℕ) (t u : Text)
    → utf8_from n low high t ≡ true
    → is_utf8 u ≡ true
    → utf8_from n low high (t ++ u) ≡ true
utf8_from-append zero low high [] u h hu =
    unfold is_utf8 in rw (utf8_from_between low high 0x80 0xbf u) hu
utf8_from-append (suc n) low high [] u h hu = unfold utf8_from in cc
utf8_from-append zero low high (b ∷ t) u h hu =
    utf8_from-lead low high b (t ++ u)
    ∙ after-append (lead b) t u (λ n low' high' e. utf8_from-append n low' high' t u e hu)
        (sym (utf8_from-lead low high b t) ∙ h)
utf8_from-append (suc n) low high (b ∷ t) u h hu =
    let (l, g, rest) = utf8_from_inside n low high b t h in
    utf8_from_inside' n low high b (t ++ u) l g (utf8_from-append n 0x80 0xbf t u rest hu)

pub is_utf8-append : (t u : Text) → is_utf8 t ≡ true → is_utf8 u ≡ true → is_utf8 (t ++ u) ≡ true
unfolding is_utf8
is_utf8-append t u h hu = utf8_from-append 0 0x80 0xbf t u h hu

lead-ascii : (b : ℕ) → ltb b 128 ≡ true → lead b ≡ some (0, 0x80, 0xbf)
unfolding lead
lead-ascii b h = rw h refl

pub is_utf8-ascii : (t : Text) → is_ascii t ≡ true → is_utf8 t ≡ true
unfolding is_utf8 is_ascii
is_utf8-ascii [] h = unfold utf8_from in refl
is_utf8-ascii (b ∷ t) h =
    utf8_from-lead 0x80 0xbf b t ∙ rw (lead-ascii b (ground arith)) (is_utf8-ascii t (ground arith))

-- The bytes after the leading ones are not separators.
lead-low : (b n low high : ℕ) → lead b ≡ some (n, low, high) → 0x80 ≤ low
unfolding lead
lead-low b n low high h = ground arith

-- The text before a separator ends a character, and the one behind it is UTF-8.
abbrev Parted : (n low high : ℕ) → Text → Text → Type 0
Parted n low high t u = (utf8_from n low high t ≡ true) × (is_utf8 u ≡ true)

lead-Parted :
    (b : ℕ) (t u : Text)
    → ((n low high : ℕ)
        → 0x80 ≤ low
        → utf8_from n low high (t ++ (b':' ∷ u)) ≡ true
        → Parted n low high t u)
    → (l : Option (ℕ × ℕ × ℕ)) → lead b ≡ l
    → after l (t ++ (b':' ∷ u)) ≡ true
    → (after l t ≡ true) × (is_utf8 u ≡ true)
lead-Parted b t u further none e g = cc
lead-Parted b t u further (some (n, low, high)) e g = further n low high (lead-low b n low high e) g

utf8_from-Parted :
    (n low high : ℕ) (t u : Text)
    → 0x80 ≤ low
    → utf8_from n low high (t ++ (b':' ∷ u)) ≡ true
    → Parted n low high t u
utf8_from-Parted zero low high [] u le h = (
  unfold utf8_from in refl,
  unfold is_utf8 in (rw (lead-ascii 58 refl) at (sym (utf8_from-lead low high 58 u) ∙ h)),
)
utf8_from-Parted (suc n) low high [] u le h =
    let (l, _, _) = utf8_from_inside n low high 58 u h in ground arith
utf8_from-Parted zero low high (b ∷ t) u le h =
    let (before, behind) =
      lead-Parted b t u (λ n low' high' le' e. utf8_from-Parted n low' high' t u le' e) (lead b)
        refl (sym (utf8_from-lead low high b (t ++ (b':' ∷ u))) ∙ h) in
    (utf8_from-lead low high b t ∙ before, behind)
utf8_from-Parted (suc n) low high (b ∷ t) u le h =
    let (l, g, rest) = utf8_from_inside n low high b (t ++ (b':' ∷ u)) h in
    let (before, behind) = utf8_from-Parted n 0x80 0xbf t u (omega arith) rest in
    (utf8_from_inside' n low high b t l g before, behind)

-- What stands before and behind a separator of UTF-8 is UTF-8.
pub is_utf8_parted :
    (t u : Text) → is_utf8 (t ++ (b':' ∷ u)) ≡ true → (is_utf8 t ≡ true) × (is_utf8 u ≡ true)
unfolding is_utf8
is_utf8_parted t u h = utf8_from-Parted 0 0x80 0xbf t u (omega arith) h
