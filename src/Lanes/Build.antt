-- ===== src/Lanes/Build.antt =====
-- NewDefaultLane, NewFreeLane and NewTOBLane of blockbuster/lanes: a lane constructor over a mempool with the priorities and
-- the matcher of the lane; and NewBaseLaneConfig of blockbuster/types.go.
use pob.Prelude.{Bool, String, Option, none, some, []}
use pob.Prelude.Int.{ℤ, pos}
use pob.Prelude.Outcome.{Outcome, ◌>>=◌}
use pob.Sdk.{Sdk, Tx, SkipListOps}
use pob.Lane.{MatchHandler, AnteHandler, LaneConfig, Lane}
use pob.Lane.Handlers.{default_match_handler}
use pob.Lane.Construct.{
  Unchecked, new_lane_constructor, set_prepare_lane_handler, set_process_lane_handler,
  set_check_order_handler,
}
use pob.Auction.{Factory, prepare_lane_handler, process_lane_handler, check_order_handler}
use pob.PriorityNonce.{Comparables, TxPriority, nonce_compare, skiplist_comparable}
use pob.PriorityNonce.Cached.{new_constructor_mempool}
use pob.Lanes.Priority.{CoinTexts, default_tx_priority, tx_priority}
use pob.Lanes.Pool.{config_of, Pool, pool_ops}

-- A LaneConfig as it is before ValidateBasic: of the logger, the encoder and the decoder only whether they are nil is read.
pub record Given (sdk : Sdk) : Type 0 where
  pub has_logger : Bool
  pub has_tx_encoder : Bool
  pub has_tx_decoder : Bool
  pub cfg : LaneConfig sdk

module _ (sdk : Sdk) where
  -- NewBaseLaneConfig, which sets no ignore list and no limit on the mempool.
  unfoldable pub new_base_lane_config :
      Bool → Bool → Bool → Option (AnteHandler sdk) → sdk.decimals.LegacyDec → Given sdk
  new_base_lane_config has_logger has_tx_encoder has_tx_decoder ante_handler max_block_space =
      record {
        has_logger = has_logger;
        has_tx_encoder = has_tx_encoder;
        has_tx_decoder = has_tx_decoder;
        cfg = record {
          ante_handler = ante_handler;
          max_block_space = max_block_space;
          ignore_list = [];
          max_txs = pos 0;
        };
      }

  module _ (cs : Comparables String)
      (lists : (compare : String → String → ℤ) → SkipListOps Tx (skiplist_comparable compare cs))
      (by_nonce : SkipListOps Tx (nonce_compare cs)) where
    -- The state of the mempool of a lane with these priorities.
    abbrev pub PoolOf : TxPriority sdk String → ℤ → Type 0
    PoolOf priority max_txs =
        Pool sdk cs (config_of priority max_txs) (lists priority.compare) by_nonce

    -- The arguments of NewLaneConstructor for a lane over NewConstructorMempool.
    unfoldable pub over_mempool :
        (name : String) (priority : TxPriority sdk String)
        → Option (MatchHandler sdk)
        → (given : Given sdk) → Unchecked sdk (PoolOf priority given.cfg.max_txs)
    over_mempool name priority match_handler given = record {
      has_logger = given.has_logger;
      has_tx_encoder = given.has_tx_encoder;
      has_tx_decoder = given.has_tx_decoder;
      cfg = given.cfg;
      lane_name = name;
      lane_mempool = some (
          pool_ops sdk cs (config_of priority given.cfg.max_txs) (lists priority.compare) by_nonce);
      pool =
          new_constructor_mempool sdk cs (config_of priority given.cfg.max_txs)
            (lists priority.compare) by_nonce;
      match_handler = match_handler;
      prepare_lane_handler = none;
      process_lane_handler = none;
      check_order_handler = none;
    }

    -- NewFreeLane
    unfoldable pub new_free_lane :
        (given : Given sdk) (priority : TxPriority sdk String)
        → Option (MatchHandler sdk)
        → Outcome (Lane sdk (PoolOf priority given.cfg.max_txs))
    new_free_lane given priority match_handler =
        new_lane_constructor sdk (over_mempool "free" priority match_handler given)

    -- NewDefaultLane
    unfoldable pub new_default_lane :
        (texts : CoinTexts) (given : Given sdk)
        → Outcome (Lane sdk (PoolOf (default_tx_priority texts sdk) given.cfg.max_txs))
    new_default_lane texts given = new_lane_constructor sdk (
        over_mempool "default" (default_tx_priority texts sdk) (some (default_match_handler sdk))
          given)

    -- NewTOBLane
    unfoldable pub new_tob_lane :
        (texts : CoinTexts) (given : Given sdk) (factory : Factory sdk)
        → Outcome (Lane sdk (PoolOf (tx_priority texts sdk factory) given.cfg.max_txs))
    new_tob_lane texts given factory = do
      bare ← new_lane_constructor sdk (
          over_mempool "top-of-block" (tx_priority texts sdk factory) (some factory.match_handler)
            given)
      preparing ← set_prepare_lane_handler sdk (some (prepare_lane_handler sdk factory)) bare
      processing ← set_process_lane_handler sdk (some (process_lane_handler sdk factory)) preparing
      set_check_order_handler sdk (some (check_order_handler sdk factory)) processing
