-- ===== src/Lanes/Held.antt =====
-- The mempools of lanes that Insert, Remove and Select of blockbuster/lane_mempool.go come to: what Select and
-- GetTopAuctionTx return.
use pob.Prelude.{Bool-cases, inl, inr}
use pob.Prelude.Outcome.{Outcome-cases}
use pob.Sdk.{Sdk, Tx, SkipListOps}
use pob.Lane.{Env}
use pob.Mempool.{counts}
use pob.PriorityNonce.{
  Comparables, PriorityNonceMempoolConfig, nonce_compare, skiplist_comparable, insert, remove,
}
use pob.PriorityNonce.Reachable.{Reachable, starting, inserting, removing, selecting}
use pob.PriorityNonce.Cached.{
  new_constructor_mempool, insert_cached, remove_cached, cache, uncache, get_tx_hash_str,
}
use pob.Lanes.Pool.{Pool, select_cached, get_top_auction_tx}

module _ (sdk : Sdk) {C : Type 0} (cs : Comparables C) (cfg : PriorityNonceMempoolConfig sdk C)
    (by_priority : SkipListOps Tx (skiplist_comparable cfg.tx_priority.compare cs))
    (by_nonce : SkipListOps Tx (nonce_compare cs)) where
  abbrev P : Type 0
  P = Pool sdk cs cfg by_priority by_nonce

  -- The mempools of a lane, by its operations from NewConstructorMempool on.
  pub data Held : P → Type 0 where
    made : Held (new_constructor_mempool sdk cs cfg by_priority by_nonce)
    inserted :
        (ctx : Env sdk) (tx : Tx) (cm : P)
        → Held cm
        → Held (insert_cached sdk cs cfg by_priority by_nonce ctx tx cm).1
    removed :
        (tx : Tx) (cm : P) → Held cm → Held (remove_cached sdk cs cfg by_priority by_nonce tx cm).1
    selected :
        (ctx : Env sdk) (cm : P)
        → Held cm
        → Held (select_cached sdk cs cfg by_priority by_nonce ctx cm).1
    topped :
        (ctx : Env sdk) (cm : P)
        → Held cm
        → Held (get_top_auction_tx sdk cs cfg by_priority by_nonce ctx cm).1

  abbrev IsReached : P → Type 0
  IsReached cm = Reachable sdk cs cfg by_priority by_nonce cm.index

  uncache-IsReached :
      (tx : Tx) (cm : P)
      → IsReached cm
      → IsReached (uncache sdk cs cfg by_priority by_nonce tx cm).1
  unfolding uncache
  uncache-IsReached tx cm r = elim (Outcome-cases (get_tx_hash_str sdk tx)) [
    | inl (h, e) ↦ rw (e, uncache) r
    | inr (inl (x, e)) ↦ rw (e, uncache) r
    | inr (inr e) ↦ rw (e, uncache) r
  ]

  remove_cached-IsReached :
      (tx : Tx) (cm : P)
      → IsReached cm
      → IsReached (remove_cached sdk cs cfg by_priority by_nonce tx cm).1
  unfolding remove_cached
  remove_cached-IsReached tx cm r =
      let left =
        uncache-IsReached tx
          (record cm { index = (remove sdk cs cfg by_priority by_nonce tx cm.index).1 })
          (removing tx cm.index r) in
      elim (Outcome-cases (remove sdk cs cfg by_priority by_nonce tx cm.index).0) [
        | inl (u, e) ↦ rw (e, remove_cached) left
        | inr (inl (x, e)) ↦ elim (Bool-cases (counts x)) [
          | inl y ↦ rw (e, remove_cached, y) (removing tx cm.index r)
          | inr n ↦ rw (e, remove_cached, n) left
        ]
        | inr (inr e) ↦ rw (e, remove_cached) (removing tx cm.index r)
      ]

  cache-IsReached :
      (tx : Tx) (cm : P) → IsReached cm → IsReached (cache sdk cs cfg by_priority by_nonce tx cm).1
  unfolding cache
  cache-IsReached tx cm r = elim (Outcome-cases (get_tx_hash_str sdk tx)) [
    | inl (h, e) ↦ rw (e, cache) r
    | inr (inl (x, e)) ↦
        elim (Outcome-cases (remove_cached sdk cs cfg by_priority by_nonce tx cm).0) [
          | inl (u, f) ↦ rw (e, cache, f) (remove_cached-IsReached tx cm r)
          | inr (inl (y, f)) ↦ rw (e, cache, f) (remove_cached-IsReached tx cm r)
          | inr (inr f) ↦ rw (e, cache, f) (remove_cached-IsReached tx cm r)
        ]
    | inr (inr e) ↦ rw (e, cache) r
  ]

  insert_cached-IsReached :
      (ctx : Env sdk) (tx : Tx) (cm : P)
      → IsReached cm
      → IsReached (insert_cached sdk cs cfg by_priority by_nonce ctx tx cm).1
  unfolding insert_cached
  insert_cached-IsReached ctx tx cm r =
      elim (Outcome-cases (insert sdk cs cfg by_priority by_nonce ctx tx cm.index).0) [
        | inl (u, e) ↦
            rw (e, insert_cached)
              (cache-IsReached tx
                (record cm { index = (insert sdk cs cfg by_priority by_nonce ctx tx cm.index).1 })
                (inserting ctx tx cm.index r))
        | inr (inl (x, e)) ↦ rw (e, insert_cached) (inserting ctx tx cm.index r)
        | inr (inr e) ↦ rw (e, insert_cached) (inserting ctx tx cm.index r)
      ]

  pub held-IsReached : (cm : P) → Held cm → IsReached cm
  unfolding new_constructor_mempool select_cached get_top_auction_tx
  held-IsReached cm made = starting
  held-IsReached cm (inserted ctx tx before h) =
      insert_cached-IsReached ctx tx before (held-IsReached before h)
  held-IsReached cm (removed tx before h) =
      remove_cached-IsReached tx before (held-IsReached before h)
  held-IsReached cm (selected ctx before h) = selecting before.index (held-IsReached before h)
  held-IsReached cm (topped ctx before h) = selecting before.index (held-IsReached before h)
