-- ===== src/Lanes/Pool.antt =====
-- The mempool of a lane: ConstructorMempool of blockbuster/lane_mempool.go as a LaneMempool, the iterator that Select returns
-- as the list of what it hands out; and GetTopAuctionTx of blockbuster/lanes/auction/mempool.go.
use pob.Prelude.{ℕ, Option, none, some, List, []}
use pob.Prelude.Int.{ℤ}
use pob.Prelude.Outcome.{Outcome, ok, err, panic, ◌>>=◌}
use pob.Sdk.{Sdk, Tx, SkipListOps}
use pob.Lane.{Env, LaneMempool}
use pob.PriorityNonce.{
  Comparables, TxPriority, PriorityNonceMempoolConfig, PriorityNonceMempool, nonce_compare,
  skiplist_comparable,
}
use pob.PriorityNonce.Iterate.{PriorityNonceIterator, iterator_tx, drain}
use pob.PriorityNonce.Ties.{select}
use pob.PriorityNonce.Drained.{total}
use pob.PriorityNonce.Cached.{
  ConstructorMempool, insert_cached, remove_cached, count_cached, contains_cached, compare_txs,
}

-- The configuration of the index that NewConstructorMempool makes.
abbrev pub config_of :
    {sdk : Sdk} {C : Type 0} → TxPriority sdk C → ℤ → PriorityNonceMempoolConfig sdk C
config_of tx_priority max_tx = record {
  tx_priority = tx_priority;
  tx_replacement = none;
  max_tx = max_tx;
}

module _ (sdk : Sdk) {C : Type 0} (cs : Comparables C) (cfg : PriorityNonceMempoolConfig sdk C)
    (by_priority : SkipListOps Tx (skiplist_comparable cfg.tx_priority.compare cs))
    (by_nonce : SkipListOps Tx (nonce_compare cs)) where
  abbrev pub Pool : Type 0
  Pool = ConstructorMempool sdk cs cfg by_priority by_nonce

  abbrev pub Index : Type 0
  Index = PriorityNonceMempool sdk cs cfg by_priority by_nonce

  -- The list of what an iterator over an index hands out, empty where it panics.
  abbrev pub or_empty : Outcome (Option (List Tx)) → List Tx
  or_empty (ok (some txs)) = txs
  or_empty (ok none) = []
  or_empty (err e) = []
  or_empty panic = []

  abbrev pub enough : Index → ℕ
  enough index =
      total sdk cs cfg by_priority by_nonce index [] (by_priority.elements index.priority_index)

  unfoldable pub handed_out :
      Index → Outcome (Option (PriorityNonceIterator sdk cs cfg by_priority by_nonce)) → List Tx
  handed_out index r =
      or_empty (do i ← r; drain sdk cs cfg by_priority by_nonce index (enough index) i)

  -- Select
  unfoldable pub select_cached : Env sdk → Pool → List Tx × Pool
  select_cached ctx cm =
      let (r, index) = select sdk cs cfg by_priority by_nonce cm.index in
      (handed_out index r, record cm { index = index })

  -- ConstructorMempool as a LaneMempool
  unfoldable pub pool_ops : LaneMempool sdk Pool
  pool_ops = record {
    insert = insert_cached sdk cs cfg by_priority by_nonce;
    remove = remove_cached sdk cs cfg by_priority by_nonce;
    select = select_cached;
    count_tx = count_cached sdk cs cfg by_priority by_nonce;
    contains = contains_cached sdk cs cfg by_priority by_nonce;
    compare = compare_txs sdk cs cfg by_priority by_nonce;
  }

  -- Tx of the iterator, nil where there is none.
  unfoldable pub tx_of :
      Index → Option (PriorityNonceIterator sdk cs cfg by_priority by_nonce) → Outcome (Option Tx)
  tx_of index none = ok none
  tx_of index (some i) = do tx ← iterator_tx sdk cs cfg by_priority by_nonce index i; ok (some tx)

  -- GetTopAuctionTx
  unfoldable pub get_top_auction_tx : Env sdk → Pool → Outcome (Option Tx) × Pool
  get_top_auction_tx ctx cm =
      let (r, index) = select sdk cs cfg by_priority by_nonce cm.index in
      (do i ← r; tx_of index i, record cm { index = index })
