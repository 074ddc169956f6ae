-- ===== src/Tests/SkipLists.antt =====
-- A skip list that is the list of its elements, for the tests.
use pob.Prelude.{refl, Bool-cases, inl, inr, List, [], ◌∷◌}
use pob.Prelude.Int.{ℤ, pos, ltb_ℤ}
use pob.Sdk.{SkipListOps}
use pob.Sdk.Skip.{
  same_key, placed, without, found, Sets, added, updated, Removes, unchanged, removed,
}

module _ {K V : Type 0} (compare : K → K → ℤ) where
  pub placed-Sets :
      (k : K) (v : V) (xs : List (K × V)) → Sets compare k v xs (placed compare k v xs)
  unfolding placed
  placed-Sets k v [] = added []
  placed-Sets k v ((j, w) ∷ rest) = elim (Bool-cases (same_key compare k j)) [
    | inl y ↦ rw (y, placed) (updated j w rest y)
    | inr n ↦ elim (Bool-cases (ltb_ℤ (pos 0) (compare k j))) [
      | inl y ↦ rw (n, placed, y) (added ((j, w) ∷ rest))
      | inr o ↦ rw (n, placed, o) (Sets.further (j, w) rest _ (placed-Sets k v rest))
    ]
  ]

  pub without-Removes : (k : K) (xs : List (K × V)) → Removes compare k xs (without compare k xs)
  unfolding without
  without-Removes k [] = unchanged []
  without-Removes k ((j, w) ∷ rest) = elim (Bool-cases (same_key compare k j)) [
    | inl y ↦ rw (y, without) (removed j w rest y)
    | inr n ↦ rw (n, without) (Removes.further (j, w) rest _ (without-Removes k rest))
  ]

  abbrev pub list_ops : SkipListOps V compare
  list_ops = record {
    SkipList = List (K × V);
    new = [];
    elements = λ s. s;
    set = placed compare;
    get = found compare;
    remove = without compare;
    elements-new = refl;
    set-Sets = placed-Sets;
    remove-Removes = without-Removes;
    elements-set = λ o k v s. refl;
    elements-remove = λ o k s. refl;
    get_lem = λ o k s. refl;
  }
