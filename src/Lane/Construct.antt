-- ===== src/Lane/Construct.antt =====
-- blockbuster/lane_constructor.go and types.go: NewLaneConstructor, ValidateBasic of a lane and of its configuration, and the
-- setters of the handlers; the constructor of blockbuster/lanes/base/lane.go, and the matcher of blockbuster/lanes/free/lane.go.
use pob.Prelude.{Bool, true, false, not, ◌||◌, String, Option, none, some, any, str_eq}
use pob.Prelude.Outcome.{
  Outcome, ok, err, panic, ◌>>=◌, ◌>>◌, guard, nil_logger, nil_encoder, nil_decoder,
  bad_block_space, empty_name, nil_mempool, nil_match,
}
use pob.Sdk.{Sdk, Msg, delegate, begin_redelegate, cancel_unbonding, auction_bid, other}
use pob.Lane.Defs.{
  MatchHandler, AnteHandler, LaneMempool, LaneConfig, PrepareLaneHandler, ProcessLaneHandler,
  CheckOrderHandler, Lane,
}
use pob.Lane.Handlers.{
  default_prepare_lane_handler, default_process_lane_handler, default_check_order_handler,
}

-- A lane as it is before ValidateBasic: what may be nil is an option, and of the logger, the encoder and the decoder only
-- this is read.
pub record Unchecked (sdk : Sdk) (Pool : Type 0) : Type 0 where
  pub has_logger : Bool
  pub has_tx_encoder : Bool
  pub has_tx_decoder : Bool
  pub cfg : LaneConfig sdk
  pub lane_name : String
  pub lane_mempool : Option (LaneMempool sdk Pool)
  pub pool : Pool
  pub match_handler : Option (MatchHandler sdk)
  pub prepare_lane_handler : Option (PrepareLaneHandler sdk Pool)
  pub process_lane_handler : Option (ProcessLaneHandler sdk Pool)
  pub check_order_handler : Option (CheckOrderHandler sdk Pool)

-- `if x == nil { x = default }`
abbrev pub or_default {ℓ} : {A : Type ℓ} → Option A → A → A
or_default (some a) default = a
or_default none default = default

-- `if x == nil { return err }`
abbrev pub need {ℓ} : {A : Type ℓ} → Option A → Outcome A → Outcome A
need (some a) missing = ok a
need none missing = missing

module _ (sdk : Sdk) {Pool : Type 0} where
  open sdk use {decimals}

  -- LaneConfig.ValidateBasic
  unfoldable pub config_validate_basic : Unchecked sdk Pool → Outcome (Unit {0})
  config_validate_basic u = do
    guard u.has_logger nil_logger
    guard u.has_tx_encoder nil_encoder
    guard u.has_tx_decoder nil_decoder
    let space = u.cfg.max_block_space
    guard
        (not (
          decimals.is_nil space
          || decimals.is_negative space
          || decimals.gt space decimals.one_dec))
        bad_block_space

  -- LaneConstructor.ValidateBasic, which sets the missing handlers to the default ones.
  unfoldable pub lane_validate_basic : Unchecked sdk Pool → Outcome (Lane sdk Pool)
  lane_validate_basic u = do
    config_validate_basic u
    guard (not (str_eq u.lane_name "")) empty_name
    mempool ← need u.lane_mempool (err nil_mempool)
    match_handler ← need u.match_handler (err nil_match)
    ok (record {
      self = record {
        cfg = u.cfg;
        lane_name = u.lane_name;
        mempool = mempool;
        pool = u.pool;
        match_handler = match_handler;
      };
      prepare_lane_handler = or_default u.prepare_lane_handler (default_prepare_lane_handler sdk);
      process_lane_handler = or_default u.process_lane_handler (default_process_lane_handler sdk);
      check_order_handler = or_default u.check_order_handler (default_check_order_handler sdk);
    })

  -- NewLaneConstructor, which panics on an invalid lane.
  unfoldable pub new_lane_constructor : Unchecked sdk Pool → Outcome (Lane sdk Pool)
  new_lane_constructor u =
      let bare : Unchecked sdk Pool = record u {
        prepare_lane_handler = none;
        process_lane_handler = none;
        check_order_handler = none;
      } in
      elim (lane_validate_basic bare) [ ok l ↦ ok l | err e ↦ panic | panic ↦ panic ]

  -- SetPrepareLaneHandler, SetProcessLaneHandler and SetCheckOrderHandler, which panic on a nil handler.
  unfoldable pub set_prepare_lane_handler :
      Option (PrepareLaneHandler sdk Pool) → Lane sdk Pool → Outcome (Lane sdk Pool)
  set_prepare_lane_handler (some handler) l = ok (record l { prepare_lane_handler = handler })
  set_prepare_lane_handler none l = panic

  unfoldable pub set_process_lane_handler :
      Option (ProcessLaneHandler sdk Pool) → Lane sdk Pool → Outcome (Lane sdk Pool)
  set_process_lane_handler (some handler) l = ok (record l { process_lane_handler = handler })
  set_process_lane_handler none l = panic

  unfoldable pub set_check_order_handler :
      Option (CheckOrderHandler sdk Pool) → Lane sdk Pool → Outcome (Lane sdk Pool)
  set_check_order_handler (some handler) l = ok (record l { check_order_handler = handler })
  set_check_order_handler none l = panic

  -- SetAnteHandler
  unfoldable pub set_ante_handler : AnteHandler sdk → Lane sdk Pool → Lane sdk Pool
  set_ante_handler handler l = record l {
    self = record (l.self) { cfg = record (l.self.cfg) { ante_handler = some handler } };
  }

-- The messages that make a transaction free.
unfoldable pub is_free_msg : Msg → Bool
is_free_msg (auction_bid m) = false
is_free_msg delegate = true
is_free_msg begin_redelegate = true
is_free_msg cancel_unbonding = true
is_free_msg other = false

-- DefaultMatchHandler of the free lane.
unfoldable pub free_match_handler : (sdk : Sdk) → MatchHandler sdk
free_match_handler sdk ctx tx = any is_free_msg tx.msgs
