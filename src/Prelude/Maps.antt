-- ===== src/Prelude/Maps.antt =====
-- Go's maps, as the lists of their entries, over a Boolean equality of keys.
use pob.Prelude.Tests.{if◌then◌else◌, Bool-cases}
use mathlib.Core.Path.{◌≡◌, refl, ap}
use mathlib.Core.Logic.{inl, inr}
use mathlib.Core.Bool.{Bool, true, false}
use mathlib.Core.Option.{Option, none, some}
use mathlib.Core.List.{List, [], ◌∷◌}

module _ {ℓ κ} {K : Type ℓ} {V : Type κ} (same : K → K → Bool) where
  -- `m[k]`
  unfoldable pub lookup : K → List (K × V) → Option V
  lookup k [] = none
  lookup k ((j, v) ∷ rest) = let behind = lookup k rest in if same k j then some v else behind

  -- `m[k] = v`
  unfoldable pub update : K → V → List (K × V) → List (K × V)
  update k v [] = (k, v) ∷ []
  update k v ((j, w) ∷ rest) =
      let behind = update k v rest in if same k j then (j, v) ∷ rest else (j, w) ∷ behind

  -- `delete(m, k)`
  unfoldable pub erase : K → List (K × V) → List (K × V)
  erase k [] = []
  erase k ((j, w) ∷ rest) =
      let behind = erase k rest in if same k j then behind else (j, w) ∷ behind

  pub lookup-update :
      (k : K) (v : V) (m : List (K × V)) → same k k ≡ true → lookup k (update k v m) ≡ some v
  unfolding lookup update
  lookup-update k v [] e = rw e refl
  lookup-update k v ((j, w) ∷ rest) e = elim (Bool-cases (same k j)) [
    | inl y ↦ rw (y, update) (rw (y, lookup) refl)
    | inr n ↦ rw (n, update) (rw (n, lookup) (lookup-update k v rest e))
  ]

  pub lookup-erase : (k : K) (m : List (K × V)) → lookup k (erase k m) ≡ none
  unfolding lookup erase
  lookup-erase k [] = refl
  lookup-erase k ((j, w) ∷ rest) = elim (Bool-cases (same k j)) [
    | inl y ↦ rw (y, erase) (lookup-erase k rest)
    | inr n ↦ rw (n, erase) (rw (n, lookup) (lookup-erase k rest))
  ]

  pub lookup-update-ne :
      (o k : K) (v : V) (m : List (K × V))
      → ((j : K) → same k j ≡ true → same o j ≡ false)
      → same o k ≡ false
      → lookup o (update k v m) ≡ lookup o m
  unfolding lookup update
  lookup-update-ne o k v [] apart ne = rw ne refl
  lookup-update-ne o k v ((j, w) ∷ rest) apart ne = elim (Bool-cases (same k j)) [
    | inl y ↦ rw (y, update) (rw (apart j y, lookup) refl)
    | inr n ↦
        rw (n, update)
          (ap (λ behind. if same o j then some w else behind)
            (lookup-update-ne o k v rest apart ne))
  ]

  pub lookup-erase-ne :
      (o k : K) (m : List (K × V))
      → ((j : K) → same k j ≡ true → same o j ≡ false)
      → lookup o (erase k m) ≡ lookup o m
  unfolding lookup erase
  lookup-erase-ne o k [] apart = refl
  lookup-erase-ne o k ((j, w) ∷ rest) apart = elim (Bool-cases (same k j)) [
    | inl y ↦ rw (y, erase) (rw (apart j y, lookup) (lookup-erase-ne o k rest apart))
    | inr n ↦
        rw (n, erase)
          (ap (λ behind. if same o j then some w else behind) (lookup-erase-ne o k rest apart))
  ]
