-- ===== src/PriorityNonce/Indexed.antt =====
-- The senders' indices of blockbuster/priority_nonce.go, whatever the comparison of priorities is: they ascend by nonce, and
-- every sender of the priority index has one.
use pob.Prelude.{
  ℕ, ◌≡◌, refl, sym, ap, ◌∙◌, subst, true, String, List, [], ◌∷◌, All, Bool-cases, inl, inr,
  if◌then◌else◌, str_eq, eq_iff,
}
use pob.Prelude.Int.{ℤ}
use pob.Prelude.Maps.{lookup, update, lookup-update, lookup-update-ne}
use pob.Sdk.{Sdk, Tx, SkipListOps}
use pob.Sdk.Skip.{Sets, added, updated, further, Removes, unchanged, removed}
use pob.PriorityNonce.Defs.{
  Comparables, PriorityNonceMempoolConfig, TxMeta, nonce_compare, skiplist_comparable, index_of,
  with_index, drop_old, key_of, put, new_priority_mempool,
}
use pob.PriorityNonce.Ascending.{IsAscending, by_nonce_placed, placed-nonce, placed-IsAscending}
use pob.PriorityNonce.Orders.{nonce-IsOrder}
use pob.PriorityNonce.Consistent.{Mempool, nodes, own_txs}
use pob.PriorityNonce.Opened.{own-update, own-indexed, str_apart}
use pob.PriorityNonce.Drained.{is_some}

module _ {C : Type 0} (compare : TxMeta C → TxMeta C → ℤ) (P : String → Type 0) where
  -- What is true of the senders of a list, and of a new one, is so behind Set.
  pub Sets-All :
      (k : TxMeta C) (tx : Tx) (xs ys : List (TxMeta C × Tx))
      → Sets compare k tx xs ys
      → P k.sender
      → All (λ e. P (e.0).sender) xs
      → All (λ e. P (e.0).sender) ys
  Sets-All k tx _ _ (added xs) h a = (h, a)
  Sets-All k tx _ _ (updated j w xs y) h (b, bs) = (b, bs)
  Sets-All k tx _ _ (further e us vs r) h (b, bs) = (b, Sets-All k tx us vs r h bs)

  pub Removes-All :
      (k : TxMeta C) (xs ys : List (TxMeta C × Tx))
      → Removes compare k xs ys
      → All (λ e. P (e.0).sender) xs
      → All (λ e. P (e.0).sender) ys
  Removes-All k _ _ (unchanged xs) a = a
  Removes-All k _ _ (removed j w xs y) (b, bs) = bs
  Removes-All k _ _ (further e us vs r) (b, bs) = (b, Removes-All k us vs r bs)

-- Whether a sender has an index, behind an update of one.
pub is_some-update :
    {A : Type 0} (s t : String) (a : A) (m : List (String × A))
    → is_some (lookup str_eq t m) ≡ true
    → is_some (lookup str_eq t (update str_eq s a m)) ≡ true
is_some-update s t a m h = elim (Bool-cases (str_eq t s)) [
  | inl y ↦
      ap (λ x. is_some (lookup str_eq t (update str_eq x a m))) (sym ((eq_iff t s).0 y))
      ∙ ap is_some (lookup-update str_eq t a m ((eq_iff t t).1 refl))
  | inr n ↦ ap is_some (lookup-update-ne str_eq t s a m (λ j. str_apart t s j n) n) ∙ h
]

is_some-updated :
    {A : Type 0} (s : String) (a : A) (m : List (String × A))
    → is_some (lookup str_eq s (update str_eq s a m)) ≡ true
is_some-updated s a m = ap is_some (lookup-update str_eq s a m ((eq_iff s s).1 refl))

pub All-map {ℓ κ} :
    {A : Type 0} {P : A → Type ℓ} {Q : A → Type κ} (f : (a : A) → P a → Q a) (xs : List A)
    → All P xs
    → All Q xs
All-map f [] a = tt
All-map f (x ∷ xs) (p, ps) = (f x p, All-map f xs ps)

module _ (sdk : Sdk) {C : Type 0} (cs : Comparables C) (cfg : PriorityNonceMempoolConfig sdk C)
    (by_priority : SkipListOps Tx (skiplist_comparable cfg.tx_priority.compare cs))
    (by_nonce : SkipListOps Tx (nonce_compare cs)) where
  abbrev M : Type 0
  M = Mempool sdk cs cfg by_priority by_nonce

  abbrev own : String → M → List (TxMeta C × Tx)
  own = own_txs sdk cs cfg by_priority by_nonce

  abbrev index_in : String → M → by_nonce.SkipList
  index_in = index_of sdk cs cfg by_priority by_nonce

  abbrev order : TxMeta C → TxMeta C → ℤ
  order = skiplist_comparable cfg.tx_priority.compare cs

  -- The sender has an index.
  abbrev pub Knows : M → String → Type 0
  Knows mp s = is_some (lookup str_eq s mp.sender_indices) ≡ true

  pub record IsFiled (mp : M) : Type 0 where
    pub ascending : (s : String) → IsAscending (own s mp)
    pub indexed : All (λ e. Knows mp (e.0).sender) (nodes sdk cs cfg by_priority by_nonce mp)

  pub new-IsFiled : IsFiled (new_priority_mempool sdk cs cfg by_priority by_nonce)
  unfolding new_priority_mempool lookup
  new-IsFiled = record {
    ascending = λ s. rw (by_nonce.elements-new) tt;
    indexed = rw (by_priority.elements-new) tt;
  }

  abbrev indexed_pool : String → M → M
  indexed_pool s mp = with_index sdk cs cfg by_priority by_nonce s (index_in s mp) mp

  pub with_index-IsFiled : (s : String) (mp : M) → IsFiled mp → IsFiled (indexed_pool s mp)
  with_index-IsFiled s mp f = record {
    ascending = λ t.
        subst IsAscending (sym (own-indexed sdk cs cfg by_priority by_nonce s t mp))
          (f.ascending t);
    indexed =
        All-map (λ e. is_some-update s (e.0).sender (index_in s mp) mp.sender_indices) _ f.indexed;
  }

  pub drop_old-IsFiled :
      (s : String) (n : ℕ) (old : TxMeta C) (mp : M)
      → IsFiled mp
      → IsFiled (drop_old sdk cs cfg by_priority by_nonce s n old mp)
  unfolding drop_old
  drop_old-IsFiled s n old mp f = record {
    ascending = f.ascending;
    indexed =
        Removes-All order (Knows mp) _ _ _ (by_priority.remove-Removes _ mp.priority_index)
          f.indexed;
  }

  module _ (s : String) (n : ℕ) (priority : C) (tx : Tx) (mp : M) (f : IsFiled mp) where
    abbrev own_key : TxMeta C
    own_key = key_of sdk cs cfg by_priority by_nonce s n priority cs.zero

    abbrev behind : M
    behind = put sdk cs cfg by_priority by_nonce s n priority tx mp

    own-put :
        (t : String)
        → own t behind ≡ (if str_eq t s then by_nonce_placed own_key tx (own s mp) else own t mp)
    unfolding put
    own-put t =
        own-update sdk cs cfg by_priority by_nonce s t _ mp behind refl
        ∙ ap (λ x. if str_eq t s then x else own t mp)
            (by_nonce.elements-set (nonce-IsOrder cs) _ tx (index_in s mp)
              ∙ placed-nonce cs _ tx (own s mp))

    put-IsAscending : (t : String) → IsAscending (own t behind)
    put-IsAscending t = subst IsAscending (sym (own-put t)) (elim (Bool-cases (str_eq t s)) [
      | inl y ↦ rw y (placed-IsAscending _ tx (own s mp) (f.ascending s))
      | inr o ↦ rw o (f.ascending t)
    ])

    pub put-IsFiled : IsFiled behind
    unfolding put
    put-IsFiled = record {
      ascending = put-IsAscending;
      indexed =
          Sets-All order (Knows behind) _ tx _ _ (by_priority.set-Sets _ tx mp.priority_index)
            (is_some-updated s _ mp.sender_indices)
            (All-map (λ e. is_some-update s (e.0).sender _ mp.sender_indices) _ f.indexed);
    }
