-- ===== src/PriorityNonce/Comparing.antt =====
-- skiplistComparable of blockbuster/priority_nonce.go: which keys are equal.
use pob.Prelude.{
  ◌≡◌, ◌↔◌, refl, sym, ap, ◌∙◌, arith, Bool, true, false, ◌&&◌, Bool-cases, inl, inr, if◌then◌else◌,
}
use pob.Prelude.Int.{ℤ, pos, negsuc, ltb_ℤ}
use pob.Sdk.Skip.{same_key}
use pob.PriorityNonce.Defs.{Comparables, TxMeta, skiplist_comparable}
use pob.PriorityNonce.Distinct.{same_id, same_id_iff}

abbrev is_zero : ℤ → Bool
is_zero x = if ltb_ℤ x (pos 0) then false else if ltb_ℤ (pos 0) x then false else true

is_zero_iff : (x : ℤ) → (is_zero x ≡ true) ↔ (x ≡ pos 0)
is_zero_iff (pos n) = ground arith
is_zero_iff (negsuc n) = ground arith

-- The first result that is not zero is zero exactly if all are.
is_zero-first :
    (p w s n : ℤ)
    → is_zero (if is_zero p then if is_zero w then if is_zero s then n else s else w else p)
      ≡ is_zero p && (is_zero w && (is_zero s && is_zero n))
is_zero-first p w s n = elim (Bool-cases (is_zero p)) [
  | inr f ↦ rw f f
  | inl t ↦ elim (Bool-cases (is_zero w)) [
    | inr f ↦ rw (t, f) f
    | inl u ↦ elim (Bool-cases (is_zero s)) [ inr f ↦ rw (t, u, f) f | inl v ↦ rw (t, u, v) refl ]
  ]
]

and_true : (a b : Bool) → a && b ≡ true → (a ≡ true) × (b ≡ true)
and_true a b h = ground (arith, h)

module _ {C : Type 0} (compare : C → C → ℤ) (cs : Comparables C) where
  same_key-first :
      (a b : TxMeta C)
      → same_key (skiplist_comparable compare cs) a b
        ≡ same_key compare a.priority b.priority
          && (same_key compare a.weight b.weight
              && (same_key cs.compare_string a.sender b.sender
                  && same_key cs.compare_uint64 a.nonce b.nonce))
  unfolding skiplist_comparable
  same_key-first a b =
      is_zero-first (compare a.priority b.priority) (compare a.weight b.weight)
        (cs.compare_string a.sender b.sender) (cs.compare_uint64 a.nonce b.nonce)

  -- Keys that compare as equal have a sender and a nonce in common.
  pub comparable_sound :
      (a b : TxMeta C)
      → same_key (skiplist_comparable compare cs) a b ≡ true
      → same_id a.sender a.nonce b ≡ true
  comparable_sound a b h =
      let (p, h1) = and_true _ _ (sym (same_key-first a b) ∙ h) in
      let (w, h2) = and_true _ _ h1 in
      let (s, n) = and_true _ _ h2 in
      (same_id_iff a.sender a.nonce b).1 (
        (cs.compare_string_iff a.sender b.sender).0 ((is_zero_iff _).0 s),
        (cs.compare_uint64_iff a.nonce b.nonce).0 ((is_zero_iff _).0 n),
      )

  pub comparable_complete :
      ((p : C) → compare p p ≡ pos 0)
      → (a b : TxMeta C) → a.priority ≡ b.priority
      → a.weight ≡ b.weight
      → same_id a.sender a.nonce b ≡ true
      → same_key (skiplist_comparable compare cs) a b ≡ true
  comparable_complete reflexive a b p w h =
      let (s, n) = (same_id_iff a.sender a.nonce b).0 h in
      same_key-first a b
      ∙ rw
          (
            (is_zero_iff _).1 (ap (compare a.priority) (sym p) ∙ reflexive a.priority),
            (is_zero_iff _).1 (ap (compare a.weight) (sym w) ∙ reflexive a.weight),
            (is_zero_iff _).1 ((cs.compare_string_iff a.sender b.sender).1 s),
            (is_zero_iff _).1 ((cs.compare_uint64_iff a.nonce b.nonce).1 n),
          )
          refl
