-- ===== src/Model/Rating/Wire.antt =====
-- The wire values of certifications (crates/aster_fsd_model/src/identity.rs): conversions and the
-- login check.
use aster_fsd.Prelude.{ok, err, Bool, true, false, ◌≡◌, ◌↔◌, arith, Result-cases, inl, inr, ◌||◌}
use aster_fsd.Prelude.Int.{ℤ, pos, leb_ℤ, eqb_ℤ}
use aster_fsd.Model.Error.{ModelError}
use aster_fsd.Model.Rating.{
  AtcRating, PilotRating, is_suspended, is_unrated, atc_wire_value, atc_try_from,
  atc_allows_wire_value, pilot_wire_value, pilot_try_from, pilot_allows_wire_value,
}

-- A value converts to a controller certification exactly when it is its wire value.
pub atc_wire_iff : (v : ℤ) (r : AtcRating) → (atc_try_from v ≡ ok r) ↔ (atc_wire_value r ≡ v)
unfolding atc_try_from atc_wire_value
atc_wire_iff v r = (λ h. ground arith, λ h. ground arith)

-- A value converts to a pilot certification exactly when it is its wire value.
pub pilot_wire_iff :
    (v : ℤ) (r : PilotRating) → (pilot_try_from v ≡ ok r) ↔ (pilot_wire_value r ≡ v)
unfolding pilot_try_from pilot_wire_value
pilot_wire_iff v r = (λ h. ground arith, λ h. ground arith)

-- The levels at which a controller of certification `r` may log in.
abbrev pub AtcGrants : AtcRating → ℤ → Type 0
AtcGrants r v =
    (q : AtcRating) × (atc_wire_value q ≡ v)
    × (is_suspended q ≡ false)
    × (leb_ℤ v (atc_wire_value r) ≡ true)

abbrev pub PilotGrants : PilotRating → ℤ → Type 0
PilotGrants r v =
    (q : PilotRating) × (pilot_wire_value q ≡ v)
    × (is_unrated q ≡ false)
    × (leb_ℤ v (pilot_wire_value r) ≡ true)

leb_ℤ_refl : (v : ℤ) → leb_ℤ v v ≡ true
leb_ℤ_refl v = ground arith

atc_wire_bounds :
    (q : AtcRating)
    → is_suspended q ≡ false
    → (leb_ℤ (pos 1) (atc_wire_value q) ≡ true) × (leb_ℤ (atc_wire_value q) (pos 12) ≡ true)
unfolding atc_wire_value
atc_wire_bounds q h = (ground arith, ground arith)

atc_suspended_wire :
    (q : AtcRating) (v : ℤ)
    → leb_ℤ (pos 1) v ≡ true
    → leb_ℤ v (atc_wire_value q) ≡ true
    → is_suspended q ≡ false
unfolding atc_wire_value
atc_suspended_wire q v h k = ground arith

atc_unnamed :
    (r : AtcRating) (v : ℤ) (x : ModelError)
    → atc_try_from v ≡ err x
    → atc_allows_wire_value r v ≡ false
unfolding atc_try_from atc_allows_wire_value
atc_unnamed r v x e = ground arith

-- A controller may log in at a level exactly when it is the wire value of a certification that is
-- not suspended and not above its own.
pub atc_allows_iff : (r : AtcRating) (v : ℤ) → (atc_allows_wire_value r v ≡ true) ↔ AtcGrants r v
unfolding atc_allows_wire_value
atc_allows_iff r v = (
  λ h. elim (Result-cases (atc_try_from v)) [
    | inl (q, e) ↦
        let wire = (atc_wire_iff v q).0 e in
        (q, wire, atc_suspended_wire q v (ground arith) (rw wire (leb_ℤ_refl v)), ground arith)
    | inr (x, e) ↦ cc (atc_unnamed r v x e)
  ],
  λ (q, e, named, low).
      let bounds = atc_wire_bounds q named in
      let least = rw e at bounds.0 in
      let most = rw e at bounds.1 in ground (arith, atc_suspended_wire r v),
)

-- The second test of `allows_wire_value`.
abbrev is_listed : ℤ → Bool
is_listed v =
    eqb_ℤ v (pos 1)
    || eqb_ℤ v (pos 3)
    || eqb_ℤ v (pos 7)
    || eqb_ℤ v (pos 15)
    || eqb_ℤ v (pos 31)
    || eqb_ℤ v (pos 63)

pilot_rated_wire :
    (q : PilotRating) (v : ℤ) → pilot_wire_value q ≡ v → is_listed v ≡ true → is_unrated q ≡ false
unfolding pilot_wire_value
pilot_rated_wire q v e h = ground arith

pilot_wire_listed : (q : PilotRating) → is_unrated q ≡ false → is_listed (pilot_wire_value q) ≡ true
unfolding pilot_wire_value
pilot_wire_listed q h = ground arith

pilot_unrated_wire :
    (q : PilotRating) (v : ℤ)
    → is_listed v ≡ true
    → leb_ℤ v (pilot_wire_value q) ≡ true
    → is_unrated q ≡ false
unfolding pilot_wire_value
pilot_unrated_wire q v h k = ground arith

pilot_unnamed :
    (r : PilotRating) (v : ℤ) (x : ModelError)
    → pilot_try_from v ≡ err x
    → pilot_allows_wire_value r v ≡ false
unfolding pilot_try_from pilot_allows_wire_value
pilot_unnamed r v x e = ground arith

-- A pilot or observer may log in at a level exactly when it is the wire value of a certification
-- other than unrated and not above its own.
pub pilot_allows_iff :
    (r : PilotRating) (v : ℤ) → (pilot_allows_wire_value r v ≡ true) ↔ PilotGrants r v
unfolding pilot_allows_wire_value
pilot_allows_iff r v = (
  λ h. elim (Result-cases (pilot_try_from v)) [
    | inl (q, e) ↦
        let wire = (pilot_wire_iff v q).0 e in
        (q, wire, pilot_rated_wire q v wire (ground arith), ground arith)
    | inr (x, e) ↦ cc (pilot_unnamed r v x e)
  ],
  λ (q, e, named, low).
      let listed = pilot_wire_listed q named in
      let known = rw e at listed in ground (arith, pilot_unrated_wire r v),
)
