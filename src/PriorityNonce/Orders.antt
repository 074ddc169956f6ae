-- ===== src/PriorityNonce/Orders.antt =====
-- The comparisons of blockbuster/priority_nonce.go are orders: skiplistComparable where that of the priorities is one, and
-- that of nonces always.
use pob.Prelude.{◌≡◌, refl, sym, ◌∙◌, arith, Bool, true, false, ◌&&◌, ◌||◌, not, if◌then◌else◌}
use pob.Prelude.Int.{ℤ, pos, ltb_ℤ}
use pob.Sdk.Skip.{same_key, IsOrder}
use pob.PriorityNonce.Defs.{Comparables, TxMeta, nonce_compare, skiplist_comparable}

-- The second comparison decides where the first finds keys equal.
abbrev first_of : {K : Type 0} → (K → K → ℤ) → (K → K → ℤ) → K → K → ℤ
first_of f g a b = if same_key f a b then g a b else f a b

abbrev is_after : {K : Type 0} → (K → K → ℤ) → K → K → Bool
is_after f a b = ltb_ℤ (pos 0) (f a b)

module _ (x y : ℤ) where
  abbrev chosen : ℤ
  chosen =
      if (if ltb_ℤ x (pos 0) then false else if ltb_ℤ (pos 0) x then false else true) then y else x

  chosen-after :
      ltb_ℤ (pos 0) chosen ≡ ltb_ℤ (pos 0) x || (not (ltb_ℤ x (pos 0)) && ltb_ℤ (pos 0) y)
  chosen-after = ground arith

  chosen-before :
      ltb_ℤ chosen (pos 0) ≡ ltb_ℤ x (pos 0) || (not (ltb_ℤ (pos 0) x) && ltb_ℤ y (pos 0))
  chosen-before = ground arith

  chosen-zero : x ≡ pos 0 → y ≡ pos 0 → chosen ≡ pos 0
  chosen-zero e d = rw (e, d) refl

not_after :
    (fab fba fbc fcb fac fca gab gbc gac : Bool)
    → (fab ≡ false → fbc ≡ false → fac ≡ false)
    → (fca ≡ false → fab ≡ false → fcb ≡ false)
    → (fbc ≡ false → fca ≡ false → fba ≡ false)
    → (gab ≡ false → gbc ≡ false → gac ≡ false)
    → fab || (not fba && gab) ≡ false
    → fbc || (not fcb && gbc) ≡ false
    → fac || (not fca && gac) ≡ false
not_after fab fba fbc fcb fac fca gab gbc gac t u v w h k = ground (arith, t, u, v, w, h, k)

module _ {K : Type 0} (f g : K → K → ℤ) (o : IsOrder f) (p : IsOrder g) where
  first_of-after :
      (a b : K)
      → is_after (first_of f g) a b ≡ is_after f a b || (not (is_after f b a) && is_after g a b)
  first_of-after a b = chosen-after (f a b) (g a b) ∙ rw (o.opposite a b) refl

  first_of_trans :
      (a b c : K)
      → is_after (first_of f g) a b ≡ false
      → is_after (first_of f g) b c ≡ false
      → is_after (first_of f g) a c ≡ false
  first_of_trans a b c h k =
      let hab : is_after f a b || (not (is_after f b a) && is_after g a b) ≡ false =
        sym (first_of-after a b) ∙ h in
      let hbc : is_after f b c || (not (is_after f c b) && is_after g b c) ≡ false =
        sym (first_of-after b c) ∙ k in
      first_of-after a c
      ∙ not_after (is_after f a b) (is_after f b a) (is_after f b c) (is_after f c b)
          (is_after f a c) (is_after f c a) (is_after g a b) (is_after g b c) (is_after g a c)
          (o.transitive a b c) (o.transitive c a b) (o.transitive b c a) (p.transitive a b c) hab
          hbc

  first_of-IsOrder : IsOrder (first_of f g)
  first_of-IsOrder = record {
    reflexive = λ a. chosen-zero (f a a) (g a a) (o.reflexive a) (p.reflexive a);
    opposite = λ a b.
        chosen-before (f a b) (g a b)
        ∙ rw (o.opposite a b, p.opposite a b) (sym (first_of-after b a));
    transitive = first_of_trans;
  }

-- A comparison of the keys by what `part` takes of them.
by_part :
    {K A : Type 0} (part : K → A) (f : A → A → ℤ)
    → IsOrder f
    → IsOrder (λ (a b : K). f (part a) (part b))
by_part part f o = record {
  reflexive = λ a. o.reflexive (part a);
  opposite = λ a b. o.opposite (part a) (part b);
  transitive = λ a b c. o.transitive (part a) (part b) (part c);
}

module _ {C : Type 0} (cs : Comparables C) where
  uint64-IsOrder : IsOrder cs.compare_uint64
  uint64-IsOrder = record {
    reflexive = λ n. (cs.compare_uint64_iff n n).1 refl;
    opposite = λ n m. cs.compare_uint64_lt n m ∙ sym (cs.compare_uint64_gt m n);
    transitive = λ n m k.
        rw (cs.compare_uint64_gt n m, cs.compare_uint64_gt m k, cs.compare_uint64_gt n k)
          (λ h i. ground (arith, h, i));
  }

  pub nonce-IsOrder : IsOrder (nonce_compare cs)
  nonce-IsOrder = record {
    reflexive = λ a. uint64-IsOrder.reflexive a.nonce;
    opposite = λ a b. uint64-IsOrder.opposite b.nonce a.nonce;
    transitive = λ a b c h i. uint64-IsOrder.transitive c.nonce b.nonce a.nonce i h;
  }

  pub comparable-IsOrder :
      (compare : C → C → ℤ) → IsOrder compare → IsOrder (skiplist_comparable compare cs)
  unfolding skiplist_comparable
  comparable-IsOrder compare o =
      first_of-IsOrder _ _ (by_part (λ (k : TxMeta C). k.priority) compare o) (
        first_of-IsOrder _ _ (by_part (λ (k : TxMeta C). k.weight) compare o) (
          first_of-IsOrder _ _
            (by_part (λ (k : TxMeta C). k.sender) cs.compare_string cs.compare_string-IsOrder)
            (by_part (λ (k : TxMeta C). k.nonce) cs.compare_uint64 uint64-IsOrder)))
