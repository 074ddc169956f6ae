-- ===== src/Lanes/Tops.antt =====
-- Select of the mempool of a lane and GetTopAuctionTx of the top-of-block lane, behind any operations of the mempool.
use pob.Prelude.{ℕ, ◌≡◌, ◌∷◌, Option, none, some, List, []}
use pob.Prelude.Outcome.{Outcome, ok}
use pob.Sdk.{Sdk, Tx, SkipListOps}
use pob.Lane.{Env}
use pob.PriorityNonce.{
  Comparables, PriorityNonceMempoolConfig, PriorityNonceMempool, nonce_compare, skiplist_comparable,
}
use pob.PriorityNonce.Iterate.{PriorityNonceIterator, drain}
use pob.PriorityNonce.Ties.{select, reorder_priority_ties}
use pob.Lanes.Pool.{Pool, select_cached, handed_out}
use pob.Lanes.Held.{Held}

-- The first of a list, where there is one.
abbrev pub first : List Tx → Option Tx
first [] = none
first (tx ∷ rest) = some tx

abbrev with_first : Tx → Option (List Tx) → Outcome (Option (List Tx))
with_first tx (some txs) = ok (some (tx ∷ txs))
with_first tx none = ok none

module _ (sdk : Sdk) {C : Type 0} (cs : Comparables C) (cfg : PriorityNonceMempoolConfig sdk C)
    (by_priority : SkipListOps Tx (skiplist_comparable cfg.tx_priority.compare cs))
    (by_nonce : SkipListOps Tx (nonce_compare cs)) where
  abbrev Index : Type 0
  Index = PriorityNonceMempool sdk cs cfg by_priority by_nonce

  abbrev Iterator : Type 0
  Iterator = PriorityNonceIterator sdk cs cfg by_priority by_nonce

  abbrev handed : Index → Outcome (Option Iterator) → List Tx
  handed = handed_out sdk cs cfg by_priority by_nonce

  module _ (ctx : Env sdk) (cm : Pool sdk cs cfg by_priority by_nonce) where
    abbrev ordered : Index
    ordered = reorder_priority_ties sdk cs cfg by_priority by_nonce cm.index

    -- The list that Select hands out comes from an iterator, to its end.
    pub record IsDrained : Type 0 where
      pub index : Index
      pub iterator : Option Iterator
      pub fuel : ℕ
      pub selects : select sdk cs cfg by_priority by_nonce cm.index ≡ (ok iterator, index)
      pub drains :
          drain sdk cs cfg by_priority by_nonce index fuel iterator
          ≡ ok (some (select_cached sdk cs cfg by_priority by_nonce ctx cm).0)
