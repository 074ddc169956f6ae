-- ===== src/PriorityNonce/Reachable.antt =====
-- The mempools that blockbuster/priority_nonce.go comes to: Insert, Remove and Select, one after another, from
-- NewPriorityMempool on.
use pob.Prelude.{ℕ, ◌≡◌, String, Option, some, List, []}
use pob.Prelude.Outcome.{ok}
use pob.Sdk.{Sdk, Tx, SkipListOps}
use pob.Lane.{Env}
use pob.Sdk.Skip.{IsOrder}
use pob.PriorityNonce.Defs.{
  Comparables, PriorityNonceMempoolConfig, nonce_compare, skiplist_comparable, new_priority_mempool,
  insert, remove,
}
use pob.PriorityNonce.Ascending.{IsAscending}
use pob.PriorityNonce.Consistent.{Mempool, own_txs, nodes, IsConsistent, new-IsConsistent}
use pob.PriorityNonce.Refined.{insert-IsConsistent}
use pob.PriorityNonce.Removed.{remove-IsConsistent}
use pob.PriorityNonce.Ties.{select, reorder_priority_ties}
use pob.PriorityNonce.Iterate.{PriorityNonceIterator, drain}
use pob.PriorityNonce.Handed.{HandsOut}
use pob.PriorityNonce.Drained.{total}
use pob.PriorityNonce.Selected.{Ends, select-Ends}
use pob.PriorityNonce.Indexed.{IsFiled, new-IsFiled}
use pob.PriorityNonce.Filed.{insert-IsFiled, remove-IsFiled, reorder-IsFiled, select-IsFiled}
use pob.PriorityNonce.Ready.{from_own, select-Keeps}

module _ (sdk : Sdk) {C : Type 0} (cs : Comparables C) (cfg : PriorityNonceMempoolConfig sdk C)
    (by_priority : SkipListOps Tx (skiplist_comparable cfg.tx_priority.compare cs))
    (by_nonce : SkipListOps Tx (nonce_compare cs)) where
  abbrev M : Type 0
  M = Mempool sdk cs cfg by_priority by_nonce

  abbrev IsSound : M → Type 0
  IsSound = IsConsistent sdk cs cfg by_priority by_nonce

  pub data Reachable : M → Type 0 where
    starting : Reachable (new_priority_mempool sdk cs cfg by_priority by_nonce)
    inserting :
        (ctx : Env sdk) (tx : Tx) (mp : M)
        → Reachable mp
        → Reachable (insert sdk cs cfg by_priority by_nonce ctx tx mp).1
    removing :
        (tx : Tx) (mp : M)
        → Reachable mp
        → Reachable (remove sdk cs cfg by_priority by_nonce tx mp).1
    selecting : (mp : M) → Reachable mp → Reachable (select sdk cs cfg by_priority by_nonce mp).1

  module _ (ordered : IsOrder cfg.tx_priority.compare) where
    -- In every mempool that Insert, Remove and Select come to, from an empty one on and whatever they answer with, where
    -- the comparison of priorities is an order: the senders' indices ascend by nonce, no two elements of the priority index
    -- have a sender and a nonce in common, each has its score, and both indices and the scores have the same transactions.
    pub Reachable-IsConsistent : (mp : M) → Reachable mp → IsSound mp
    Reachable-IsConsistent mp starting = new-IsConsistent sdk cs cfg by_priority by_nonce
    Reachable-IsConsistent mp (inserting ctx tx before r) =
        insert-IsConsistent sdk cs cfg by_priority by_nonce ordered ctx tx before
          (Reachable-IsConsistent before r)
    Reachable-IsConsistent mp (removing tx before r) =
        remove-IsConsistent sdk cs cfg by_priority by_nonce ordered tx before
          (Reachable-IsConsistent before r)
    Reachable-IsConsistent mp (selecting before r) =
        (select-Keeps sdk cs cfg by_priority by_nonce ordered before
          (Reachable-IsConsistent before r)).0

  -- In every such mempool the senders' indices ascend by nonce, and each sender of an element by priority has one.
  pub Reachable-IsFiled : (mp : M) → Reachable mp → IsFiled sdk cs cfg by_priority by_nonce mp
  Reachable-IsFiled mp starting = new-IsFiled sdk cs cfg by_priority by_nonce
  Reachable-IsFiled mp (inserting ctx tx before r) =
      insert-IsFiled sdk cs cfg by_priority by_nonce ctx tx before (Reachable-IsFiled before r)
  Reachable-IsFiled mp (removing tx before r) =
      remove-IsFiled sdk cs cfg by_priority by_nonce tx before (Reachable-IsFiled before r)
  Reachable-IsFiled mp (selecting before r) =
      select-IsFiled sdk cs cfg by_priority by_nonce before (Reachable-IsFiled before r)

  -- On every mempool that Insert, Remove and Select come to, whatever the comparison of priorities is, Select does
  -- not panic, and going through the iterator that it returns ends: fuel for every element of the senders' indices, counted
  -- once for each transaction of the sender, gives a list of transactions.
  pub Reachable-Ends :
      (mp : M)
      → Reachable mp
      → Ends sdk cs cfg by_priority by_nonce
          (reorder_priority_ties sdk cs cfg by_priority by_nonce mp)
          (select sdk cs cfg by_priority by_nonce mp).0
          (total sdk cs cfg by_priority by_nonce
            (reorder_priority_ties sdk cs cfg by_priority by_nonce mp)
            []
            (nodes sdk cs cfg by_priority by_nonce
              (reorder_priority_ties sdk cs cfg by_priority by_nonce mp)))
  Reachable-Ends mp r =
      select-Ends sdk cs cfg by_priority by_nonce mp
        ((reorder-IsFiled sdk cs cfg by_priority by_nonce mp (Reachable-IsFiled mp r)).indexed)

  -- On every mempool that Insert, Remove and Select come to, whatever the comparison of priorities is: what is
  -- handed out on going through the iterator that Select returns is, one after another, the first of what is left of the
  -- index of a sender, all of which ascend by nonce. So of each sender a beginning of its transactions is handed out, in the
  -- order of their nonces and none of them twice.
  pub Reachable-HandsOut :
      (mp : M)
      → Reachable mp
      → (i : Option (PriorityNonceIterator sdk cs cfg by_priority by_nonce)) × (fuel : ℕ)
        × (txs : List Tx) × ((select sdk cs cfg by_priority by_nonce mp).0 ≡ ok i)
        × (drain sdk cs cfg by_priority by_nonce
              (reorder_priority_ties sdk cs cfg by_priority by_nonce mp)
              fuel
              i
            ≡ ok (some txs))
        × HandsOut (λ s. own_txs sdk cs cfg by_priority by_nonce s mp) txs
        × ((s : String) → IsAscending (own_txs sdk cs cfg by_priority by_nonce s mp))
  Reachable-HandsOut mp r =
      let (i, e, txs, d, b) = Reachable-Ends mp r in
      (
        i,
        total sdk cs cfg by_priority by_nonce
            (reorder_priority_ties sdk cs cfg by_priority by_nonce mp) []
            (nodes sdk cs cfg by_priority by_nonce
              (reorder_priority_ties sdk cs cfg by_priority by_nonce mp)),
        txs,
        e,
        d,
        from_own sdk cs cfg by_priority by_nonce mp _ i txs e d,
        (Reachable-IsFiled mp r).ascending,
      )
