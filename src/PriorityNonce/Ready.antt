-- ===== src/PriorityNonce/Ready.antt =====
-- Reordering and Select of blockbuster/priority_nonce.go on a consistent mempool.
use pob.Prelude.{
  ℕ, ◌≡◌, refl, ap, ◌∙◌, subst, ◌==◌, String, Option, none, some, List, [], ◌∷◌, All, Bool-cases,
  inl, inr, str_eq,
}
use pob.Prelude.Maps.{lookup}
use pob.Prelude.Outcome.{ok}
use pob.Sdk.{Sdk, Tx, SkipListOps}
use pob.Sdk.Skip.{IsOrder}
use pob.PriorityNonce.Defs.{
  Comparables, PriorityNonceMempoolConfig, TxMeta, nonce_compare, skiplist_comparable, or_new,
  count_tx,
}
use pob.PriorityNonce.Distinct.{tx_at, IsFresh, IsDistinct, same_id_iff, same_id_sym}
use pob.PriorityNonce.Consistent.{Mempool, own_txs, nodes, IsConsistent}
use pob.PriorityNonce.Reordered.{IsReady, Keeps, reorder_loop-Keeps}
use pob.PriorityNonce.Ties.{select, reorder_priority_ties, reorder_loop, reordering, ReorderKey}
use pob.PriorityNonce.Iterate.{PriorityNonceIterator, drain}
use pob.PriorityNonce.Handed.{HandsOut, handed_all, left, drain-HandsOut, iterate_priority-IsStepOf}

module _ (sdk : Sdk) {C : Type 0} (cs : Comparables C) (cfg : PriorityNonceMempoolConfig sdk C)
    (by_priority : SkipListOps Tx (skiplist_comparable cfg.tx_priority.compare cs))
    (by_nonce : SkipListOps Tx (nonce_compare cs)) where
  abbrev M : Type 0
  M = Mempool sdk cs cfg by_priority by_nonce

  abbrev IsSound : M → Type 0
  IsSound = IsConsistent sdk cs cfg by_priority by_nonce

  -- Every element is the one with its sender and nonce.
  pub each-tx_at :
      (xs : List (TxMeta C × Tx))
      → IsDistinct xs
      → All (λ e. tx_at (e.0).sender (e.0).nonce xs ≡ some e.1) xs
  each-tx_at [] d = tt
  each-tx_at ((k, tx) ∷ rest) (f, d) = (
    rw ((same_id_iff k.sender k.nonce k).1 (refl, refl)) refl,
    behind_head rest rest f (each-tx_at rest d),
  )
    where
      behind_head :
          (ys xs : List (TxMeta C × Tx))
          → IsFresh k.sender k.nonce xs
          → All (λ e. tx_at (e.0).sender (e.0).nonce ys ≡ some e.1) xs
          → All (λ e. tx_at (e.0).sender (e.0).nonce ((k, tx) ∷ ys) ≡ some e.1) xs
      behind_head ys [] f a = tt
      behind_head ys ((j, w) ∷ more) (f, fs) (h, hs) =
          (rw (same_id_sym j k ∙ f) h, behind_head ys more fs hs)

  both {ℓ κ} :
      {A : Type 0} (P : A → Type ℓ) (Q : A → Type κ) (xs : List A)
      → All P xs
      → All Q xs
      → All (λ a. P a × Q a) xs
  both P Q [] a b = tt
  both P Q (x ∷ xs) (p, ps) (q, qs) = ((p, q), both P Q xs ps qs)

  All-IsReady :
      (ordered : IsOrder cfg.tx_priority.compare) (mp : M)
      → IsSound mp
      → All
          (IsReady sdk cs cfg by_priority by_nonce ordered mp)
          (nodes sdk cs cfg by_priority by_nonce mp)
  All-IsReady ordered mp sound = both _ _ _ sound.scored (each-tx_at _ sound.distinct)

  -- Reordering leaves the senders' indices.
  reorder_loop-indices :
      (ks : List (ReorderKey sdk cs cfg by_priority by_nonce)) (mp : M)
      → (reorder_loop sdk cs cfg by_priority by_nonce ks mp).sender_indices ≡ mp.sender_indices
  unfolding reorder_loop
  reorder_loop-indices [] mp = refl
  reorder_loop-indices (k ∷ ks) mp = reorder_loop-indices ks _

  pub own-reorder :
      (mp : M)
      → left sdk cs cfg by_priority by_nonce
          (reorder_priority_ties sdk cs cfg by_priority by_nonce mp)
          []
        ≡ (λ s. own_txs sdk cs cfg by_priority by_nonce s mp)
  unfolding reorder_priority_ties lookup
  own-reorder mp =
      ap
        (λ (indices : List (String × by_nonce.SkipList)).
          λ s. by_nonce.elements (or_new sdk cs cfg by_priority by_nonce (lookup str_eq s indices)))
        (reorder_loop-indices
          (reordering sdk cs cfg by_priority by_nonce mp (nodes sdk cs cfg by_priority by_nonce mp))
          mp)

  pub from_own :
      (mp : M) (fuel : ℕ) (i : Option (PriorityNonceIterator sdk cs cfg by_priority by_nonce))
      (txs : List Tx)
      → (select sdk cs cfg by_priority by_nonce mp).0 ≡ ok i
      → drain sdk cs cfg by_priority by_nonce
          (reorder_priority_ties sdk cs cfg by_priority by_nonce mp)
          fuel
          i
        ≡ ok (some txs)
      → HandsOut (λ s. own_txs sdk cs cfg by_priority by_nonce s mp) txs
  unfolding drain select
  from_own mp fuel none txs e d = subst (HandsOut _) (cc d) (handed_all _)
  from_own mp fuel (some i) txs e d =
      elim (Bool-cases (count_tx sdk cs cfg by_priority by_nonce mp == 0)) [
        | inl y ↦ absurd (cc (rw (y, select) at e))
        | inr n ↦
            subst (λ l. HandsOut l txs) (own-reorder mp)
              (drain-HandsOut sdk cs cfg by_priority by_nonce
                (reorder_priority_ties sdk cs cfg by_priority by_nonce mp) fuel [] i txs
                (iterate_priority-IsStepOf sdk cs cfg by_priority by_nonce
                  (reorder_priority_ties sdk cs cfg by_priority by_nonce mp) [] _ i
                  (rw (n, select) at e))
                d)
      ]

  module _ (ordered : IsOrder cfg.tx_priority.compare) where
    reorder-Keeps :
        (mp : M)
        → IsSound mp
        → Keeps sdk cs cfg by_priority by_nonce ordered mp
            (reorder_priority_ties sdk cs cfg by_priority by_nonce mp)
    unfolding reorder_priority_ties
    reorder-Keeps mp sound =
        reorder_loop-Keeps sdk cs cfg by_priority by_nonce ordered mp mp
          (nodes sdk cs cfg by_priority by_nonce mp) sound sound.distinct
          (All-IsReady ordered mp sound)

    -- Select keeps a consistent mempool consistent, and changes none of its transactions by sender and nonce.
    pub select-Keeps :
        (mp : M)
        → IsSound mp
        → Keeps sdk cs cfg by_priority by_nonce ordered mp
            (select sdk cs cfg by_priority by_nonce mp).1
    unfolding select
    select-Keeps mp sound = elim (Bool-cases (count_tx sdk cs cfg by_priority by_nonce mp == 0)) [
      | inl y ↦ rw (y, select) (sound, λ t m. refl)
      | inr n ↦ rw (n, select) (reorder-Keeps mp sound)
    ]
