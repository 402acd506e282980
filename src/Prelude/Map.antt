-- ===== src/Prelude/Map.antt =====
-- The standard library's `HashMap` as an association list. The order of its entries stands for the
-- unspecified iteration order.
use Prim.Native.Nat.{suc, ◌≤◌}
use mathlib.Core.Path.{◌≡◌, refl, sym, subst, ◌∙◌}
use mathlib.Core.Logic.{inl, inr}
use mathlib.Core.Bool.{Bool, true, false}
use mathlib.Core.Option.{Option, none, some}
use mathlib.Core.List.{List, [], ◌∷◌, map}
use native.Mathlib.Omega.{arith}
use aster_fsd.Prelude.Tests.{if◌then◌else◌, Bool-cases}
use aster_fsd.Prelude.Lists.{length}
use aster_fsd.Prelude.Strings.{option_map}
use aster_fsd.Prelude.Equality.{PartialEq, ◌==◌}

abbrev pub Map {ℓ κ} : Type ℓ → Type κ → Type (ℓ ⊔ κ)
Map K V = List (K × V)

abbrev pub is_some {ℓ} : {A : Type ℓ} → Option A → Bool
is_some none = false
is_some (some a) = true

pub some_inj {ℓ} : {A : Type ℓ} (a b : A) → some a ≡ some b → a ≡ b
some_inj a b h = cc

pub option_map_id {ℓ} : {A : Type ℓ} (o : Option A) → option_map (λ a. a) o ≡ o
option_map_id none = refl
option_map_id (some a) = refl

module _ {ℓ κ} {K : Type ℓ} {V : Type κ} where
  abbrev pub values : Map K V → List V
  values m = map (λ e. e.1) m

module _ {ℓ κ} {K : Type ℓ} {V : Type κ} ⦃e : PartialEq K⦄ where
  unfoldable pub get : K → Map K V → Option V
  get k [] = none
  get k ((j, v) ∷ m) = if j == k then some v else get k m

  -- An existing entry is overwritten in place.
  unfoldable pub insert : K → V → Map K V → Map K V
  insert k v [] = (k, v) ∷ []
  insert k v ((j, w) ∷ m) = let rest = insert k v m in if j == k then (j, v) ∷ m else (j, w) ∷ rest

  unfoldable pub remove : K → Map K V → Map K V
  remove k [] = []
  remove k ((j, w) ∷ m) = let rest = remove k m in if j == k then rest else (j, w) ∷ rest

  abbrev pub contains_key : K → Map K V → Bool
  contains_key k m = is_some (get k m)

  pub get-insert :
      (k j : K) (v : V) (m : Map K V) → get j (insert k v m) ≡ (if k == j then some v else get j m)
  unfolding get insert
  get-insert k j v [] = refl
  get-insert k j v ((i, w) ∷ m) =
      ground (arith, e.is_eq_iff k j, e.is_eq_iff i k, e.is_eq_iff i j, get-insert k j v m)

  pub get-remove : (k j : K) (m : Map K V) → get j (remove k m) ≡ (if k == j then none else get j m)
  unfolding get remove
  get-remove k j [] = ground arith
  get-remove k j ((i, w) ∷ m) =
      ground (arith, e.is_eq_iff k j, e.is_eq_iff i k, e.is_eq_iff i j, get-remove k j m)

  pub length-insert :
      (k : K) (v : V) (m : Map K V)
      → length (insert k v m) ≡ (if contains_key k m then length m else suc (length m))
  unfolding get insert
  length-insert k v [] = refl
  length-insert k v ((i, w) ∷ m) = ground (arith, length-insert k v m)

  pub length-remove-le : (k : K) (m : Map K V) → length (remove k m) ≤ length m
  unfolding remove
  length-remove-le k [] = omega arith
  length-remove-le k ((i, w) ∷ m) = ground (arith, length-remove-le k m)

  -- Each key has one entry.
  abbrev pub IsUnique : Map K V → Type κ
  IsUnique [] = Unit
  IsUnique ((k, v) ∷ m) = (get k m ≡ none) × IsUnique m

  pub insert-IsUnique : (k : K) (v : V) (m : Map K V) → IsUnique m → IsUnique (insert k v m)
  unfolding insert get
  insert-IsUnique k v [] h = (refl, tt)
  insert-IsUnique k v ((i, w) ∷ m) (h, u) = elim (Bool-cases (i == k)) [
    | inl same ↦ rw same (h, u)
    | inr other ↦ rw other (
      ground (arith, get-insert k i v m, e.is_eq_iff i k, e.is_eq_iff k i),
      insert-IsUnique k v m u,
    )
  ]

  pub remove-IsUnique : (k : K) (m : Map K V) → IsUnique m → IsUnique (remove k m)
  unfolding remove get
  remove-IsUnique k [] h = tt
  remove-IsUnique k ((i, w) ∷ m) (h, u) = elim (Bool-cases (i == k)) [
    | inl same ↦ rw same (remove-IsUnique k m u)
    | inr other ↦ rw other (ground (arith, get-remove k i m), remove-IsUnique k m u)
  ]

  -- Updating the entry of a key, seen from each key.
  pub get-insert_update :
      (f : K → V → V) (k j : K) (v : V) (m : Map K V)
      → get k m ≡ some v
      → get j (insert k (f k v) m) ≡ option_map (λ w. if k == j then f j w else w) (get j m)
  get-insert_update f k j v m h = elim (Bool-cases (k == j)) [
    | inl same ↦
        let one = (e.is_eq_iff k j).0 same in
        rw (get-insert k j (f k v) m) (rw same (rw (sym one) (rw h refl)))
    | inr other ↦ rw (get-insert k j (f k v) m) (rw other (sym (option_map_id (get j m))))
  ]

  -- A key without an entry has none to update.
  pub get-absent_update :
      (f : K → V → V) (k j : K) (m : Map K V)
      → get k m ≡ none
      → get j m ≡ option_map (λ w. if k == j then f j w else w) (get j m)
  get-absent_update f k j m h = elim (Bool-cases (k == j)) [
    | inl same ↦ let one = (e.is_eq_iff k j).0 same in rw (sym one) (rw h refl)
    | inr other ↦ rw other (sym (option_map_id (get j m)))
  ]

  -- What holds of every value still does after one more is inserted.
  pub insert-each {μ} :
      (P : V → Type μ) (k : K) (v : V) (m : Map K V)
      → ((j : K) (w : V) → get j m ≡ some w → P w)
      → P v
      → (j : K) (w : V) → get j (insert k v m) ≡ some w
      → P w
  insert-each P k v m each own j w h = elim (Bool-cases (k == j)) [
    | inl same ↦ subst P (some_inj v w (rw same at (sym (get-insert k j v m) ∙ h))) own
    | inr other ↦ each j w (rw other at (sym (get-insert k j v m) ∙ h))
  ]
