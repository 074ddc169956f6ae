-- ===== src/PriorityNonce/Capacity.antt =====
-- The capacity of the mempool of blockbuster/priority_nonce.go.
use pob.Prelude.{
  ℕ, zero, suc, ◌≤◌, ◌≡◌, refl, arith, Bool, false, ◌&&◌, String, some, List, length, Bool-cases,
  Option-cases, inl, inr,
}
use pob.Prelude.Int.{ℤ, pos, negsuc, ltb_ℤ, leb_ℤ}
use pob.Prelude.Maps.{lookup}
use pob.Prelude.Outcome.{err, Outcome-cases, max_capacity}
use pob.Sdk.{Sdk, Tx, SkipListOps}
use pob.Sdk.Skip.{Sets, added, updated, further, Removes, unchanged, removed}
use pob.Lane.{Env}
use pob.PriorityNonce.Defs.{
  Comparables, PriorityNonceMempoolConfig, TxMeta, PriorityNonceMempool, nonce_compare,
  skiplist_comparable, count_tx, put, drop_old, insert_key, insert, signed_key, check_replacement,
  key_of, index_of, with_index, same_score,
}

module _ {K V : Type 0} (compare : K → K → ℤ) where
  Sets-length :
      (k : K) (v : V) (xs ys : List (K × V)) → Sets compare k v xs ys → length ys ≤ suc (length xs)
  Sets-length k v _ _ (added xs) = omega arith
  Sets-length k v _ _ (updated j w zs y) = omega arith
  Sets-length k v _ _ (further e us vs r) = omega (arith, Sets-length k v us vs r)

  Removes-length : (k : K) (xs ys : List (K × V)) → Removes compare k xs ys → length ys ≤ length xs
  Removes-length k _ _ (unchanged xs) = omega arith
  Removes-length k _ _ (removed j w zs y) = omega arith
  Removes-length k _ _ (further e us vs r) = omega (arith, Removes-length k us vs r)

module _ (sdk : Sdk) {C : Type 0} (cs : Comparables C) (cfg : PriorityNonceMempoolConfig sdk C)
    (by_priority : SkipListOps Tx (skiplist_comparable cfg.tx_priority.compare cs))
    (by_nonce : SkipListOps Tx (nonce_compare cs)) where
  abbrev Mempool : Type 0
  Mempool = PriorityNonceMempool sdk cs cfg by_priority by_nonce

  abbrev count : Mempool → ℕ
  count = count_tx sdk cs cfg by_priority by_nonce

  count-put :
      (sender : String) (nonce : ℕ) (priority : C) (tx : Tx) (mp : Mempool)
      → count (put sdk cs cfg by_priority by_nonce sender nonce priority tx mp) ≤ suc (count mp)
  unfolding put count_tx
  count-put sender nonce priority tx mp =
      Sets-length (skiplist_comparable cfg.tx_priority.compare cs) _ tx
        (by_priority.elements mp.priority_index) _ (by_priority.set-Sets _ tx mp.priority_index)

  count-drop_old :
      (sender : String) (nonce : ℕ) (old : TxMeta C) (mp : Mempool)
      → count (drop_old sdk cs cfg by_priority by_nonce sender nonce old mp) ≤ count mp
  unfolding drop_old count_tx
  count-drop_old sender nonce old mp =
      Removes-length (skiplist_comparable cfg.tx_priority.compare cs) _
        (by_priority.elements mp.priority_index) _ (by_priority.remove-Removes _ mp.priority_index)

  count-insert_key :
      (sender : String) (nonce : ℕ) (priority : C) (tx : Tx) (mp : Mempool)
      → count (insert_key sdk cs cfg by_priority by_nonce sender nonce priority tx mp).1
        ≤ suc (count mp)
  unfolding insert_key count_tx
  count-insert_key sender nonce priority tx mp =
      elim (Option-cases (lookup same_score (sender, nonce) mp.scores)) [
        | inl e ↦ rw (e, insert_key) (count-put sender nonce priority tx indexed)
        | inr (old, e) ↦ replaced old e
      ]
    where
      indexed : Mempool
      indexed =
          with_index sdk cs cfg by_priority by_nonce sender
            (index_of sdk cs cfg by_priority by_nonce sender mp) mp

      replaced :
          (old : TxMeta C)
          → lookup same_score (sender, nonce) mp.scores ≡ some old
          → count (insert_key sdk cs cfg by_priority by_nonce sender nonce priority tx mp).1
            ≤ suc (count mp)
      replaced old e =
          elim (Outcome-cases (
            check_replacement sdk cs cfg by_priority by_nonce old.priority priority
              (by_nonce.get (key_of sdk cs cfg by_priority by_nonce sender nonce priority cs.zero)
                (index_of sdk cs cfg by_priority by_nonce sender mp))
              tx)) [
                | inl (u, c) ↦
                    rw (e, insert_key, c)
                      (omega (
                        arith,
                        count-put sender nonce priority tx
                            (drop_old sdk cs cfg by_priority by_nonce sender nonce old indexed),
                        count-drop_old sender nonce old indexed,
                      ))
                | inr (inl (x, c)) ↦ rw (e, insert_key, c) (omega arith)
                | inr (inr c) ↦ rw (e, insert_key, c) (omega arith)
              ]

  abbrev is_full : ℤ → ℕ → Bool
  is_full max n = ltb_ℤ (pos 0) max && leb_ℤ max (pos n)

  has_room :
      (max : ℤ) (m n : ℕ)
      → max ≡ pos (suc m)
      → is_full max n ≡ false
      → (n ≤ m) × (ltb_ℤ max (pos 0) ≡ false)
  has_room (pos (suc k)) m n e h = ground (arith, e, h)
  has_room (pos zero) m n e h = absurd (cc e)
  has_room (negsuc k) m n e h = absurd (cc e)

  -- With a capacity, Insert never makes the mempool larger than it: where it held at most so many transactions, it does
  -- after Insert too; and Insert into a full one is an error that changes nothing.
  pub insert_bounded :
      (ctx : Env sdk) (tx : Tx) (mp : Mempool) (m : ℕ)
      → cfg.max_tx ≡ pos (suc m)
      → count mp ≤ suc m
      → (count (insert sdk cs cfg by_priority by_nonce ctx tx mp).1 ≤ suc m)
        × (count mp ≡ suc m
            → insert sdk cs cfg by_priority by_nonce ctx tx mp ≡ (err max_capacity, mp))
  unfolding insert
  insert_bounded ctx tx mp m capped h = elim (Bool-cases (is_full cfg.max_tx (count mp))) [
    | inl full ↦ rw full (h, λ e. refl)
    | inr room ↦
        let (fewer, on) = has_room cfg.max_tx m (count mp) capped room in
        (below fewer room on, λ e. absurd (omega (arith, fewer, e)))
  ]
    where
      below :
          count mp ≤ m
          → is_full cfg.max_tx (count mp) ≡ false
          → ltb_ℤ cfg.max_tx (pos 0) ≡ false
          → count (insert sdk cs cfg by_priority by_nonce ctx tx mp).1 ≤ suc m
      below fewer room on =
          elim (Outcome-cases (signed_key sdk cs cfg by_priority by_nonce ctx tx)) [
            | inl (key, s) ↦
                rw (room, insert, on, s)
                  (omega (arith, fewer, count-insert_key key.0 key.1 key.2 tx mp))
            | inr (inl (e, s)) ↦ rw (room, insert, on, s) (omega (arith, h))
            | inr (inr s) ↦ rw (room, insert, on, s) (omega (arith, h))
          ]
