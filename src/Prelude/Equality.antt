-- ===== src/Prelude/Equality.antt =====
-- Boolean equality as an interface: the `PartialEq` of the source's key types.
use Prim.Native.Nat.{ℕ}
use mathlib.Core.Path.{◌≡◌, refl}
use mathlib.Core.Logic.{◌↔◌}
use mathlib.Core.Bool.{Bool, true, false, ◌&&◌, ◌||◌}
use mathlib.Core.List.{List, [], ◌∷◌}
use native.Mathlib.Omega.{arith}
use aster_fsd.Prelude.Tests.{eqb, eqb_iff}

pub record PartialEq {ℓ} (K : Type ℓ) : Type ℓ where
  pub is_eq : K → K → Bool
  pub is_eq_iff : (x y : K) → (is_eq x y ≡ true) ↔ (x ≡ y)

infix 50 ◌==◌
abbrev pub ◌==◌ {ℓ} : {K : Type ℓ} ⦃same : PartialEq K⦄ → (x y : K) → Bool
◌==◌ ⦃same⦄ = same.is_eq

instance abbrev pub nat_eq : PartialEq ℕ
nat_eq = record { is_eq = eqb; is_eq_iff = eqb_iff }

module _ {ℓ} {A : Type ℓ} ⦃e : PartialEq A⦄ where
  -- `unfoldable`, not `abbrev`: a comparison with a long text stays one call in a goal.
  unfoldable pub list_eqb : List A → List A → Bool
  list_eqb [] [] = true
  list_eqb (x ∷ xs) (y ∷ ys) = x == y && list_eqb xs ys
  list_eqb _ _ = false

  list_eqb→eq : (xs ys : List A) → list_eqb xs ys ≡ true → xs ≡ ys
  unfolding list_eqb
  list_eqb→eq [] [] h = refl
  list_eqb→eq (x ∷ xs) (y ∷ ys) h = ground (arith, e.is_eq_iff x y, list_eqb→eq xs ys)
  list_eqb→eq [] (y ∷ ys) h = cc
  list_eqb→eq (x ∷ xs) [] h = cc

  pub list_eqb_refl : (xs : List A) → list_eqb xs xs ≡ true
  unfolding list_eqb
  list_eqb_refl [] = refl
  list_eqb_refl (x ∷ xs) = ground (arith, e.is_eq_iff x x, list_eqb_refl xs)

  pub list_eqb_iff : (xs ys : List A) → (list_eqb xs ys ≡ true) ↔ (xs ≡ ys)
  list_eqb_iff xs ys = (list_eqb→eq xs ys, λ p. rw p (list_eqb_refl ys))

  instance abbrev pub list_eq : PartialEq (List A)
  list_eq = record { is_eq = list_eqb; is_eq_iff = list_eqb_iff }

  -- `slice.contains(&value)`
  abbrev pub contains : A → List A → Bool
  contains a [] = false
  contains a (x ∷ xs) = x == a || contains a xs
