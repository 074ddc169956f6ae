-- ===== src/PriorityNonce/Filed.antt =====
-- Insert, Remove and Select of blockbuster/priority_nonce.go keep the senders' indices, whatever the comparison of priorities
-- is.
use pob.Prelude.{
  ℕ, sym, subst, ◌==◌, ◌&&◌, String, List, [], ◌∷◌, All, Bool-cases, Option-cases, inl, inr, str_eq,
}
use pob.Prelude.Int.{ℤ, pos, ltb_ℤ, leb_ℤ}
use pob.Prelude.Maps.{lookup, update, erase}
use pob.Prelude.Outcome.{◌>>=◌, Outcome-cases}
use pob.Sdk.{Sdk, Tx, Signature, SkipListOps}
use pob.Lane.{Env}
use pob.PriorityNonce.Defs.{
  Comparables, PriorityNonceMempoolConfig, TxMeta, nonce_compare, skiplist_comparable, same_score,
  index_of, with_index, key_of, insert_key, insert, check_replacement, signed_key, remove,
  remove_key, remove_signed, first_signature, count_tx, count_of,
}
use pob.PriorityNonce.Ascending.{IsAscending, without-IsAscending}
use pob.PriorityNonce.Consistent.{Mempool, own_txs}
use pob.PriorityNonce.Taken.{remove_key-behind, own-behind}
use pob.PriorityNonce.Indexed.{
  Sets-All, Removes-All, is_some-update, All-map, IsFiled, Knows, with_index-IsFiled,
  drop_old-IsFiled, put-IsFiled,
}
use pob.PriorityNonce.Ties.{
  select, reorder_priority_ties, reorder_loop, reordering, sender_weight, element_of,
}

module _ (sdk : Sdk) {C : Type 0} (cs : Comparables C) (cfg : PriorityNonceMempoolConfig sdk C)
    (by_priority : SkipListOps Tx (skiplist_comparable cfg.tx_priority.compare cs))
    (by_nonce : SkipListOps Tx (nonce_compare cs)) where
  abbrev M : Type 0
  M = Mempool sdk cs cfg by_priority by_nonce

  abbrev own : String → M → List (TxMeta C × Tx)
  own = own_txs sdk cs cfg by_priority by_nonce

  abbrev Filed : M → Type 0
  Filed = IsFiled sdk cs cfg by_priority by_nonce

  abbrev order : TxMeta C → TxMeta C → ℤ
  order = skiplist_comparable cfg.tx_priority.compare cs

  insert_key-IsFiled :
      (s : String) (n : ℕ) (priority : C) (tx : Tx) (mp : M)
      → Filed mp
      → Filed (insert_key sdk cs cfg by_priority by_nonce s n priority tx mp).1
  unfolding insert_key
  insert_key-IsFiled s n priority tx mp f =
      elim (Option-cases (lookup same_score (s, n) mp.scores)) [
        | inl e ↦
            rw (e, insert_key)
              (put-IsFiled sdk cs cfg by_priority by_nonce s n priority tx indexed filed)
        | inr (old, e) ↦
            elim (Outcome-cases (
              check_replacement sdk cs cfg by_priority by_nonce old.priority priority
                (by_nonce.get (key_of sdk cs cfg by_priority by_nonce s n priority cs.zero)
                  (index_of sdk cs cfg by_priority by_nonce s mp))
                tx)) [
                  | inl (u, c) ↦
                      rw (e, insert_key, c)
                        (put-IsFiled sdk cs cfg by_priority by_nonce s n priority tx _
                          (drop_old-IsFiled sdk cs cfg by_priority by_nonce s n old indexed filed))
                  | inr (inl (x, c)) ↦ rw (e, insert_key, c) filed
                  | inr (inr c) ↦ rw (e, insert_key, c) filed
                ]
      ]
    where
      indexed : M
      indexed =
          with_index sdk cs cfg by_priority by_nonce s
            (index_of sdk cs cfg by_priority by_nonce s mp) mp

      filed : Filed indexed
      filed = with_index-IsFiled sdk cs cfg by_priority by_nonce s mp f

  pub insert-IsFiled :
      (ctx : Env sdk) (tx : Tx) (mp : M)
      → Filed mp
      → Filed (insert sdk cs cfg by_priority by_nonce ctx tx mp).1
  unfolding insert
  insert-IsFiled ctx tx mp f =
      elim (Bool-cases (
        ltb_ℤ (pos 0) cfg.max_tx
        && leb_ℤ cfg.max_tx (pos (count_tx sdk cs cfg by_priority by_nonce mp)))) [
          | inl full ↦ rw full f
          | inr room ↦ elim (Bool-cases (ltb_ℤ cfg.max_tx (pos 0))) [
            | inl off ↦ rw (room, insert, off) f
            | inr on ↦ elim (Outcome-cases (signed_key sdk cs cfg by_priority by_nonce ctx tx)) [
              | inl ((s, n, priority), e) ↦
                  rw (room, insert, on, e) (insert_key-IsFiled s n priority tx mp f)
              | inr (inl (x, e)) ↦ rw (room, insert, on, e) f
              | inr (inr e) ↦ rw (room, insert, on, e) f
            ]
          ]
        ]

  module _ (s : String) (n : ℕ) (score : TxMeta C) (mp : M) (f : Filed mp) where
    abbrev tk : TxMeta C
    tk = key_of sdk cs cfg by_priority by_nonce s n score.priority score.weight

    remove_key-IsFiled : Filed (remove_key sdk cs cfg by_priority by_nonce s n score mp).1
    unfolding remove_key
    remove_key-IsFiled = elim (Option-cases (lookup str_eq s mp.sender_indices)) [
      | inl e ↦ rw (e, remove_key) f
      | inr (index, e) ↦
          rw (remove_key-behind sdk cs cfg by_priority by_nonce s n score mp index e) (record {
            ascending = λ t.
                subst IsAscending
                  (sym (own-behind sdk cs cfg by_priority by_nonce s n score mp index e t))
                  (elim (Bool-cases (str_eq t s)) [
                    | inl y ↦ rw y (without-IsAscending n (own s mp) (f.ascending s))
                    | inr o ↦ rw o (f.ascending t)
                  ]);
            indexed =
                All-map (λ e. is_some-update s (e.0).sender _ mp.sender_indices) _
                  (Removes-All order (Knows sdk cs cfg by_priority by_nonce mp) _ _ _
                    (by_priority.remove-Removes tk mp.priority_index) f.indexed);
          })
    ]

  remove_signed-IsFiled :
      (sig : Signature) (mp : M)
      → Filed mp
      → Filed (remove_signed sdk cs cfg by_priority by_nonce sig mp).1
  unfolding remove_signed
  remove_signed-IsFiled sig mp f =
      elim (Option-cases (lookup same_score (sdk.acc_string sig.address, sig.sequence) mp.scores)) [
        | inl e ↦ rw (e, remove_signed) f
        | inr (score, e) ↦
            rw (e, remove_signed)
              (remove_key-IsFiled (sdk.acc_string sig.address) sig.sequence score mp f)
      ]

  pub remove-IsFiled :
      (tx : Tx) (mp : M) → Filed mp → Filed (remove sdk cs cfg by_priority by_nonce tx mp).1
  unfolding remove
  remove-IsFiled tx mp f = elim (Outcome-cases (tx.signatures >>= first_signature)) [
    | inl (sig, e) ↦ rw (e, remove) (remove_signed-IsFiled sig mp f)
    | inr (inl (x, e)) ↦ rw (e, remove) f
    | inr (inr e) ↦ rw (e, remove) f
  ]

  -- The elements that are put in again are of senders with an index.
  reordering-IsFiled :
      (start : M) (xs : List (TxMeta C × Tx)) (mp : M)
      → Filed mp
      → All (λ e. Knows sdk cs cfg by_priority by_nonce mp (e.0).sender) xs
      → Filed (
          reorder_loop sdk cs cfg by_priority by_nonce
            (reordering sdk cs cfg by_priority by_nonce start xs)
            mp)
  unfolding reorder_loop reordering
  reordering-IsFiled start [] mp f a = f
  reordering-IsFiled start ((key, tx) ∷ rest) mp f (h, hs) =
      elim (Bool-cases (
        ltb_ℤ (pos 1)
          (count_of sdk cs cfg by_priority by_nonce key.priority start.priority_counts))) [
            | inr o ↦ rw (o, reordering) (reordering-IsFiled start rest mp f hs)
            | inl y ↦
                let new : TxMeta C = record key {
                  weight =
                      sender_weight sdk cs cfg by_priority by_nonce
                        (element_of sdk cs cfg by_priority by_nonce key start);
                } in
                rw (y, reordering, reorder_loop)
                  (reordering-IsFiled start rest
                    (record mp {
                      priority_index =
                          by_priority.set new tx (by_priority.remove key mp.priority_index);
                      scores =
                          update same_score (key.sender, key.nonce) new
                            (erase same_score (key.sender, key.nonce) mp.scores);
                    })
                    (record {
                      ascending = f.ascending;
                      indexed =
                          Sets-All order (Knows sdk cs cfg by_priority by_nonce mp) new tx _ _
                            (by_priority.set-Sets new tx (by_priority.remove key mp.priority_index))
                            h
                            (Removes-All order (Knows sdk cs cfg by_priority by_nonce mp) _ _ _
                              (by_priority.remove-Removes key mp.priority_index) f.indexed);
                    })
                    hs)
          ]

  pub reorder-IsFiled :
      (mp : M) → Filed mp → Filed (reorder_priority_ties sdk cs cfg by_priority by_nonce mp)
  unfolding reorder_priority_ties
  reorder-IsFiled mp f = reordering-IsFiled mp _ mp f f.indexed

  pub select-IsFiled : (mp : M) → Filed mp → Filed (select sdk cs cfg by_priority by_nonce mp).1
  unfolding select
  select-IsFiled mp f = elim (Bool-cases (count_tx sdk cs cfg by_priority by_nonce mp == 0)) [
    | inl y ↦ rw (y, select) f
    | inr n ↦ rw (n, select) (reorder-IsFiled mp f)
  ]
