-- ===== src/Lanes/Made.antt =====
-- NewTOBLane of blockbuster/lanes/auction/lane.go: the lane that it returns.
use pob.Prelude.{◌≡◌, ◌↔◌, refl, ap, ◌∙◌, String, some}
use mathlib.Core.Option.{some-injective}
use pob.Prelude.Int.{ℤ}
use pob.Prelude.Outcome.{ok, >>=-eq-ok}
use pob.Sdk.{Sdk, Tx, SkipListOps}
use pob.Lane.{Lane, LaneMempool}
use pob.Lane.Construct.{
  Unchecked, new_lane_constructor, set_prepare_lane_handler, set_process_lane_handler,
  set_check_order_handler,
}
use pob.Lane.Valid.{IsConfigured, IsMade, made, new_lane_constructor_iff}
use pob.Auction.{Factory, prepare_lane_handler, process_lane_handler, check_order_handler}
use pob.PriorityNonce.{Comparables, nonce_compare, skiplist_comparable}
use pob.PriorityNonce.Cached.{new_constructor_mempool}
use pob.Lanes.Priority.{CoinTexts, tx_priority}
use pob.Lanes.Pool.{config_of, pool_ops}
use pob.Lanes.Build.{Given, PoolOf, over_mempool, new_tob_lane}

module _ (sdk : Sdk) (cs : Comparables String)
    (lists : (compare : String → String → ℤ) → SkipListOps Tx (skiplist_comparable compare cs))
    (by_nonce : SkipListOps Tx (nonce_compare cs)) (texts : CoinTexts) (given : Given sdk)
    (factory : Factory sdk) where
  abbrev L : Type 0
  L = Lane sdk (PoolOf sdk cs lists by_nonce (tx_priority texts sdk factory) given.cfg.max_txs)

  abbrev ops :
      LaneMempool sdk
        (PoolOf sdk cs lists by_nonce (tx_priority texts sdk factory) given.cfg.max_txs)
  ops =
      pool_ops sdk cs (config_of (tx_priority texts sdk factory) given.cfg.max_txs)
        (lists (tx_priority texts sdk factory).compare) by_nonce

  abbrev pub unchecked :
      Unchecked sdk (PoolOf sdk cs lists by_nonce (tx_priority texts sdk factory) given.cfg.max_txs)
  unchecked =
      over_mempool sdk cs lists by_nonce "top-of-block" (tx_priority texts sdk factory)
        (some factory.match_handler) given

  -- The handlers of the auction.
  abbrev dressed : L → L
  dressed l = record l {
    prepare_lane_handler = prepare_lane_handler sdk factory;
    process_lane_handler = process_lane_handler sdk factory;
    check_order_handler = check_order_handler sdk factory;
  }

  -- An empty mempool of bids, the factory's matcher, and the handlers of the auction.
  abbrev pub tob_lane : L
  tob_lane = record {
    self = record {
      cfg = given.cfg;
      lane_name = "top-of-block";
      mempool = ops;
      pool =
          new_constructor_mempool sdk cs
            (config_of (tx_priority texts sdk factory) given.cfg.max_txs)
            (lists (tx_priority texts sdk factory).compare) by_nonce;
      match_handler = factory.match_handler;
    };
    prepare_lane_handler = prepare_lane_handler sdk factory;
    process_lane_handler = process_lane_handler sdk factory;
    check_order_handler = check_order_handler sdk factory;
  }

  of_made : (l : L) → IsMade sdk unchecked l → made sdk unchecked ops factory.match_handler ≡ l
  unfolding over_mempool
  of_made l m =
      ap (λ o. made sdk unchecked o factory.match_handler) (some-injective _ _ m.has_mempool)
      ∙ ap (λ h. made sdk unchecked m.mempool h) (some-injective _ _ m.has_match)
      ∙ m.is_made

  -- NewTOBLane succeeds exactly with a logger, an encoder, a decoder and a share of the block between 0 and 1, and the lane
  -- that it returns has the given configuration, an empty mempool ordered by bids, the matcher of the factory, and the three
  -- handlers of the auction.
  pub new_tob_lane_iff :
      (l : L)
      → (new_tob_lane sdk cs lists by_nonce texts given factory ≡ ok l)
        ↔ (IsConfigured sdk unchecked × (tob_lane ≡ l))
  unfolding new_tob_lane set_prepare_lane_handler set_process_lane_handler set_check_order_handler
      over_mempool
  new_tob_lane_iff l = (forward, backward)
    where
      forward :
          new_tob_lane sdk cs lists by_nonce texts given factory ≡ ok l
          → IsConfigured sdk unchecked × (tob_lane ≡ l)
      forward h =
          let (bare, b, r) = >>=-eq-ok (new_lane_constructor sdk unchecked) _ h in
          let m = (new_lane_constructor_iff sdk unchecked bare).0 b in
          (m.configured, ap dressed (of_made bare m) ∙ cc r)

      backward :
          IsConfigured sdk unchecked × (tob_lane ≡ l)
          → new_tob_lane sdk cs lists by_nonce texts given factory ≡ ok l
      backward (c, e) =
          rw
            ((new_lane_constructor_iff sdk unchecked
                (made sdk unchecked ops factory.match_handler)).1
              (record {
                configured = c;
                named = refl;
                mempool = ops;
                has_mempool = refl;
                match_handler = factory.match_handler;
                has_match = refl;
                is_made = refl;
              }))
            (ap ok e)
