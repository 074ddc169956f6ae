-- ===== src/Sdk/Skip.antt =====
-- The skip list of github.com/huandu/skiplist, whose code is not in the repository: a parameter with its documented
-- behaviour. Set on a key that is there updates the value of its element; LessThanFunc puts the larger keys first. The
-- list searches by its comparison, so that where an element is found is known only where that is an order; whatever the
-- comparison is, Set updates or adds one element, and Remove takes out at most one.
use pob.Prelude.{◌≡◌, Bool, true, false, Option, none, some, List, [], ◌∷◌, if◌then◌else◌}
use pob.Prelude.Int.{ℤ, pos, ltb_ℤ}

-- Neither key is before the other.
abbrev pub same_key {ℓ} : {K : Type ℓ} → (K → K → ℤ) → K → K → Bool
same_key compare k j =
    if ltb_ℤ (compare k j) (pos 0)
    then false
    else if ltb_ℤ (pos 0) (compare k j)
    then false
    else true

-- A comparison that is a total order of its keys, up to those that are equal by it.
pub record IsOrder {K : Type 0} (compare : K → K → ℤ) : Type 0 where
  pub reflexive : (a : K) → compare a a ≡ pos 0
  pub opposite : (a b : K) → ltb_ℤ (compare a b) (pos 0) ≡ ltb_ℤ (pos 0) (compare b a)
  pub transitive :
      (a b c : K)
      → ltb_ℤ (pos 0) (compare a b) ≡ false
      → ltb_ℤ (pos 0) (compare b c) ≡ false
      → ltb_ℤ (pos 0) (compare a c) ≡ false

module _ {K V : Type 0} (compare : K → K → ℤ) where
  unfoldable pub placed : K → V → List (K × V) → List (K × V)
  placed k v [] = (k, v) ∷ []
  placed k v ((j, w) ∷ rest) =
      let behind = placed k v rest in
      if same_key compare k j
      then (j, v) ∷ rest
      else if ltb_ℤ (pos 0) (compare k j)
      then (k, v) ∷ (j, w) ∷ rest
      else (j, w) ∷ behind

  unfoldable pub without : K → List (K × V) → List (K × V)
  without k [] = []
  without k ((j, w) ∷ rest) =
      let behind = without k rest in if same_key compare k j then rest else (j, w) ∷ behind

  unfoldable pub found : K → List (K × V) → Option V
  found k [] = none
  found k ((j, w) ∷ rest) =
      let behind = found k rest in if same_key compare k j then some w else behind

  -- An element is added somewhere, or the value of one with an equal key is replaced.
  pub data Sets (k : K) (v : V) : List (K × V) → List (K × V) → Type 0 where
    added : (xs : List (K × V)) → Sets k v xs ((k, v) ∷ xs)
    updated :
        (j : K) (w : V) (xs : List (K × V))
        → same_key compare k j ≡ true
        → Sets k v ((j, w) ∷ xs) ((j, v) ∷ xs)
    further : (e : K × V) (xs ys : List (K × V)) → Sets k v xs ys → Sets k v (e ∷ xs) (e ∷ ys)

  -- One element with an equal key is gone, or none.
  pub data Removes (k : K) : List (K × V) → List (K × V) → Type 0 where
    unchanged : (xs : List (K × V)) → Removes k xs xs
    removed :
        (j : K) (w : V) (xs : List (K × V))
        → same_key compare k j ≡ true
        → Removes k ((j, w) ∷ xs) xs
    further : (e : K × V) (xs ys : List (K × V)) → Removes k xs ys → Removes k (e ∷ xs) (e ∷ ys)

-- `new` is skiplist.New of a LessThanFunc, and `elements` what Front and Next go through.
pub record SkipListOps {K : Type 0} (V : Type 0) (compare : K → K → ℤ) : Type 1 where
  pub SkipList : Type 0
  pub new : SkipList
  pub elements : SkipList → List (K × V)
  pub set : K → V → SkipList → SkipList
  pub get : K → SkipList → Option V
  pub remove : K → SkipList → SkipList
  pub elements-new : elements new ≡ []
  pub set-Sets :
      (k : K) (v : V) (s : SkipList) → Sets compare k v (elements s) (elements (set k v s))
  pub remove-Removes :
      (k : K) (s : SkipList) → Removes compare k (elements s) (elements (remove k s))
  pub elements-set :
      IsOrder compare
      → (k : K) (v : V) (s : SkipList) → elements (set k v s) ≡ placed compare k v (elements s)
  pub elements-remove :
      IsOrder compare
      → (k : K) (s : SkipList) → elements (remove k s) ≡ without compare k (elements s)
  pub get_lem : IsOrder compare → (k : K) (s : SkipList) → get k s ≡ found compare k (elements s)
