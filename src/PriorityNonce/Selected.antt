-- ===== src/PriorityNonce/Selected.antt =====
-- Select of blockbuster/priority_nonce.go, and the loops over what it returns, come to an end.
use pob.Prelude.{
  ℕ, ◌≤◌, ◌≡◌, ◌∙◌, refl, arith, true, false, ◌==◌, Option, none, some, List, [], length, inl, inr,
  Bool-cases,
}
use pob.Prelude.Outcome.{Outcome, ok}
use pob.Sdk.{Sdk, Tx, SkipListOps}
use pob.PriorityNonce.Defs.{
  Comparables, PriorityNonceMempoolConfig, PriorityNonceMempool, nonce_compare, skiplist_comparable,
  count_tx,
}
use pob.PriorityNonce.Iterate.{PriorityNonceIterator, iterate_priority, drain}
use pob.PriorityNonce.Ties.{select, reorder_priority_ties}
use pob.PriorityNonce.Drained.{total, IsIndexed}
use pob.PriorityNonce.Ends.{iterate_priority-Steps, drain_ends}

module _ (sdk : Sdk) {C : Type 0} (cs : Comparables C) (cfg : PriorityNonceMempoolConfig sdk C)
    (by_priority : SkipListOps Tx (skiplist_comparable cfg.tx_priority.compare cs))
    (by_nonce : SkipListOps Tx (nonce_compare cs)) where
  abbrev selected :
      PriorityNonceMempool sdk cs cfg by_priority by_nonce
      → Outcome (Option (PriorityNonceIterator sdk cs cfg by_priority by_nonce))
  selected mp = (select sdk cs cfg by_priority by_nonce mp).0

  -- An iterator is returned, or none; and going through it, with this much fuel, gives a list.
  abbrev pub Ends :
      PriorityNonceMempool sdk cs cfg by_priority by_nonce
      → Outcome (Option (PriorityNonceIterator sdk cs cfg by_priority by_nonce))
      → ℕ
      → Type 0
  Ends mp r fuel =
      (i : Option (PriorityNonceIterator sdk cs cfg by_priority by_nonce)) × (r ≡ ok i)
      × (txs : List Tx) × (drain sdk cs cfg by_priority by_nonce mp fuel i ≡ ok (some txs))
      × (length txs ≤ fuel)

  drain-none :
      (mp : PriorityNonceMempool sdk cs cfg by_priority by_nonce) (fuel : ℕ)
      → drain sdk cs cfg by_priority by_nonce mp fuel none ≡ ok (some [])
  unfolding drain
  drain-none mp fuel = refl

  iterated :
      (mp : PriorityNonceMempool sdk cs cfg by_priority by_nonce)
      → IsIndexed sdk cs cfg by_priority by_nonce mp (by_priority.elements mp.priority_index)
      → Ends mp
          (iterate_priority sdk cs cfg by_priority by_nonce mp []
            (by_priority.elements mp.priority_index))
          (total sdk cs cfg by_priority by_nonce mp [] (by_priority.elements mp.priority_index))
  iterated mp indexed =
      elim (iterate_priority-Steps sdk cs cfg by_priority by_nonce mp []
        (by_priority.elements mp.priority_index) indexed) [
          | inl e ↦ (none, e, [], drain-none mp _, omega arith)
          | inr (i, e, placed, less) ↦
              let (txs, d, b) =
                drain_ends sdk cs cfg by_priority by_nonce mp
                  (total sdk cs cfg by_priority by_nonce mp []
                    (by_priority.elements mp.priority_index))
                  i placed less in
              (some i, e, txs, d, omega (arith, b, less))
        ]

  module _ (mp : PriorityNonceMempool sdk cs cfg by_priority by_nonce) where
    abbrev reordered : PriorityNonceMempool sdk cs cfg by_priority by_nonce
    reordered = reorder_priority_ties sdk cs cfg by_priority by_nonce mp

    selected-none :
        (count_tx sdk cs cfg by_priority by_nonce mp == 0) ≡ true → selected mp ≡ ok none
    unfolding select
    selected-none e = rw (e, selected, select) refl

    selected-some :
        (count_tx sdk cs cfg by_priority by_nonce mp == 0) ≡ false
        → selected mp
          ≡ iterate_priority sdk cs cfg by_priority by_nonce reordered []
              (by_priority.elements reordered.priority_index)
    unfolding select
    selected-some n = rw (n, selected, select) refl

    -- Select does not panic, and going through the iterator that it returns ends, where the senders of all transactions in the
    -- reordered priority index have an index: fuel for every element of the senders' indices, counted once for each
    -- transaction of the sender, gives a list of transactions.
    pub select-Ends :
        IsIndexed sdk cs cfg by_priority by_nonce reordered
          (by_priority.elements reordered.priority_index)
        → Ends reordered (selected mp) (
            total sdk cs cfg by_priority by_nonce reordered []
              (by_priority.elements reordered.priority_index))
    select-Ends indexed = elim (Bool-cases (count_tx sdk cs cfg by_priority by_nonce mp == 0)) [
      | inl e ↦ (none, selected-none e, [], drain-none reordered _, omega arith)
      | inr n ↦
          let (i, e, txs, d, b) = iterated reordered indexed in (i, selected-some n ∙ e, txs, d, b)
    ]
