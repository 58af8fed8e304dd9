-- ===== src/Base/Dict.antt =====
-- Go maps as association lists. A write replaces the entry in place or adds one; an iteration
-- visits the entries in the order of the list, and a theorem for all lists is one for all orders.
use mathlib.Core.Path.{◌≡◌, refl}
use mathlib.Core.Option.{Option, none, some}
use mathlib.Core.List.{List, [], ◌∷◌}
use native.Mathlib.Omega.{arith}
use eventing_manager.Base.Tests.{Eq, ◌==◌, if◌then◌else◌}

abbrev pub Dict {ℓ κ} : Type ℓ → Type κ → Type (ℓ ⊔ κ)
Dict K V = List (K × V)

module _ {ℓ κ} {K : Type ℓ} {V : Type κ} ⦃e : Eq K⦄ where
  unfoldable pub lookup : K → Dict K V → Option V
  lookup k [] = none
  lookup k ((j, v) ∷ m) = if j == k then some v else lookup k m

  unfoldable pub insert : K → V → Dict K V → Dict K V
  insert key value [] = (key, value) ∷ []
  insert key value ((k, v) ∷ m) =
      let rest = insert key value m in if k == key then (key, value) ∷ m else (k, v) ∷ rest

  -- `delete(m, k)`, or `delete` of package sync for a `sync.Map`
  unfoldable pub erase : K → Dict K V → Dict K V
  erase k [] = []
  erase k ((j, w) ∷ m) = let rest = erase k m in if j == k then rest else (j, w) ∷ rest

  pub lookup-nil : (k : K) → lookup k [] ≡ none
  unfolding lookup
  lookup-nil k = refl

  pub lookup-cons :
      (k j : K) (v : V) (m : Dict K V)
      → lookup k ((j, v) ∷ m) ≡ (if j == k then some v else lookup k m)
  unfolding lookup
  lookup-cons k j v m = refl

  pub lookup-insert :
      (key k : K) (value : V) (m : Dict K V)
      → lookup k (insert key value m) ≡ (if key == k then some value else lookup k m)
  unfolding insert lookup
  lookup-insert key k value [] = refl
  lookup-insert key k value ((j, v) ∷ m) =
      ground (arith, e.beq_iff key k, e.beq_iff j key, e.beq_iff j k, lookup-insert key k value m)

  pub lookup-erase :
      (k j : K) (m : Dict K V) → lookup j (erase k m) ≡ (if k == j then none else lookup j m)
  unfolding lookup erase
  lookup-erase k j [] = ground arith
  lookup-erase k j ((i, w) ∷ m) =
      ground (arith, e.beq_iff k j, e.beq_iff i k, e.beq_iff i j, lookup-erase k j m)

pub ruleset dict_laws = (lookup-nil, lookup-cons, lookup-insert, lookup-erase)
