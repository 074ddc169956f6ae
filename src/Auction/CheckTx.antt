-- ===== src/Auction/CheckTx.antt =====
-- blockbuster/lanes/auction/check_tx.go: CheckTxHandler. A context that is cached and discarded leaves the committed store as
-- it is, so the model passes its store along and drops it.
use pob.Prelude.{ℕ, true, false, String, Option, none, some, List, [], ◌∷◌}
use pob.Prelude.Int.{ℤ, pos, wrap64}
use pob.Prelude.Outcome.{Outcome, Error, ok, err, panic, wrap, bundled_bid, recovered}
use pob.Sdk.{Sdk, Bytes, Tx, ContextOps}
use pob.Lane.{Env, AnteHandler, LaneMempool}
use pob.Builder.{BidInfo}
use pob.Auction.Bids.{Factory}

-- The types of a RequestCheckTx; `unknown` is any other number.
pub data CheckTxType : Type 0 where
  new recheck unknown : CheckTxType

pub record RequestCheckTx : Type 0 where
  pub tx : Bytes
  pub check_type : CheckTxType

-- What the handler sets of a ResponseCheckTx.
pub record ResponseCheckTx : Type 0 where
  pub code : ℕ
  pub gas_wanted : ℤ
  pub gas_used : ℤ

-- What CheckTx returns: a response, and an error or none.
pub record Answer : Type 0 where
  pub response : ResponseCheckTx
  pub error : Option Error

-- The interface BaseApp, over the state of the application, and ResponseCheckTxWithEvents. A panic of its CheckTx is
-- `none`.
pub record BaseApp (sdk : Sdk) (ops : ContextOps sdk.Ctx) (App : Type 0) : Type 0 where
  pub committed : App → sdk.Store
  pub check_tx : RequestCheckTx → App → Option Answer × App
  pub last_block_height : App → ℤ
  pub get_consensus_params : Env sdk → App → ops.ConsensusParams
  pub chain_id : App → String
  pub error_response : Error → ℕ → ℕ → ResponseCheckTx

-- sdk.GasInfo
pub record GasInfo : Type 0 where
  pub wanted : ℕ
  pub used : ℕ

abbrev pub no_gas : GasInfo
no_gas = record { wanted = 0; used = 0 }

-- The response to a valid bid.
abbrev pub accepted : GasInfo → Answer
accepted gas = record {
  response = record {
    code = 0;
    gas_wanted = wrap64 (pos gas.wanted);
    gas_used = wrap64 (pos gas.used);
  };
  error = none;
}

-- The check that a bundled transaction is no bid; an error of GetAuctionBidInfo is ignored.
unfoldable pub is_no_bid : Outcome (Option BidInfo) → Outcome (Unit {0})
is_no_bid (ok (some info)) = err bundled_bid
is_no_bid (ok none) = ok tt
is_no_bid (err e) = ok tt
is_no_bid panic = panic

module _ (sdk : Sdk) (ops : ContextOps sdk.Ctx) (factory : Factory sdk)
    (ante_handler : AnteHandler sdk) where
  -- A round of ValidateBidTx's loop over the bundle.
  unfoldable pub validate_bundled : Env sdk → Bytes → Env sdk × Outcome (Unit {0})
  validate_bundled ctx raw = elim (factory.wrap_bundle_transaction raw) [
    | ok bundled_tx ↦ elim (is_no_bid (factory.get_auction_bid_info bundled_tx)) [
      | ok _ ↦ ante_handler ctx bundled_tx false
      | err e ↦ (ctx, err e)
      | panic ↦ (ctx, panic)
    ]
    | err e ↦ (ctx, err e)
    | panic ↦ (ctx, panic)
  ]

  unfoldable pub validate_loop : Env sdk → List Bytes → Outcome (Unit {0})
  validate_loop ctx [] = ok tt
  validate_loop ctx (raw ∷ rest) =
      let (ctx', r) = validate_bundled ctx raw in
      elim r [ ok _ ↦ validate_loop ctx' rest | err e ↦ err (wrap e) | panic ↦ panic ]

  abbrev pub gas_info : Env sdk → GasInfo
  gas_info ctx = record { wanted = ops.gas_limit ctx.values; used = ops.gas_consumed ctx.values }

  -- ValidateBidTx
  unfoldable pub validate_bid_tx : Env sdk → Tx → BidInfo → GasInfo × Outcome (Unit {0})
  validate_bid_tx ctx bid_tx bid_info =
      let (ctx', r) = ante_handler ctx bid_tx false in
      elim r [
        | ok _ ↦ (gas_info ctx', validate_loop ctx' bid_info.transactions)
        | err e ↦ (no_gas, err (wrap e))
        | panic ↦ (no_gas, panic)
      ]

  module _ {App Pool : Type 0} (base_app : BaseApp sdk ops App)
      (mempool : LaneMempool sdk Pool) where
    abbrev pub with_values : Env sdk → sdk.Ctx → Env sdk
    with_values ctx values = record ctx { values = values }

    -- The values that GetContextForBidTx sets at the end.
    abbrev pub with_request : RequestCheckTx → App → Env sdk → Env sdk
    with_request req app ctx = with_values ctx (
        ops.with_consensus_params (base_app.get_consensus_params ctx app)
          (ops.with_tx_bytes req.tx ctx.values))

    abbrev pub committed_ctx : App → Env sdk
    committed_ctx app = record {
      values = ops.new_context (base_app.last_block_height app) (base_app.chain_id app) true;
      store = base_app.committed app;
    }

    -- GetContextForBidTx
    unfoldable pub get_context_for_bid_tx : RequestCheckTx → App → Outcome (Env sdk)
    get_context_for_bid_tx req app =
        let ctx = committed_ctx app in
        elim req.check_type [
          | new ↦ ok (with_request req app (with_values ctx (ops.with_is_check_tx true ctx.values)))
          | recheck ↦
              ok (with_request req app (with_values ctx (ops.with_is_recheck_tx true ctx.values)))
          | unknown ↦ panic
        ]

    abbrev pub failed : Error → GasInfo → Answer
    failed e gas = record {
      response = base_app.error_response (wrap e) gas.wanted gas.used;
      error = some e;
    }

    -- The deferred function's answer to a panic.
    abbrev pub panicked : Answer
    panicked = record { response = base_app.error_response recovered 0 0; error = some recovered }

    unfoldable pub insert_bid : Env sdk → Tx → GasInfo → App → Pool → Answer × App × Pool
    insert_bid ctx tx gas app pool =
        let (r, pool') = mempool.insert ctx tx pool in
        elim r [
          | ok _ ↦ (accepted gas, app, pool')
          | err e ↦ (failed e gas, app, pool')
          | panic ↦ (panicked, app, pool')
        ]

    unfoldable pub check_bid : Env sdk → Tx → BidInfo → App → Pool → Answer × App × Pool
    check_bid ctx tx bid_info app pool =
        let (gas, r) = validate_bid_tx ctx tx bid_info in
        elim r [
          | ok _ ↦ insert_bid ctx tx gas app pool
          | err e ↦ (failed e gas, app, pool)
          | panic ↦ (panicked, app, pool)
        ]

    -- A transaction that is no bid is executed normally.
    unfoldable pub check_other : RequestCheckTx → App → Pool → Answer × App × Pool
    check_other req app pool =
        let (r, app') = base_app.check_tx req app in
        elim r [ some answer ↦ (answer, app', pool) | none ↦ (panicked, app', pool) ]

    unfoldable pub check_decoded :
        RequestCheckTx → Tx → Option BidInfo → App → Pool → Answer × App × Pool
    check_decoded req tx none app pool = check_other req app pool
    check_decoded req tx (some bid_info) app pool = elim (get_context_for_bid_tx req app) [
      | ok ctx ↦ check_bid ctx tx bid_info app pool
      | err e ↦ (failed e no_gas, app, pool)
      | panic ↦ (panicked, app, pool)
    ]

    -- CheckTx. An ante handler that reads the lane's mempool, as BuilderDecorator does, may reorder its ties; here it leaves the
    -- mempool, and the caching of the committed store is left out.
    unfoldable pub check_tx_handler : RequestCheckTx → App → Pool → Answer × App × Pool
    check_tx_handler req app pool = elim (sdk.decode req.tx) [
      | ok tx ↦ elim (factory.get_auction_bid_info tx) [
        | ok info ↦ check_decoded req tx info app pool
        | err e ↦ (failed e no_gas, app, pool)
        | panic ↦ (panicked, app, pool)
      ]
      | err e ↦ (failed e no_gas, app, pool)
      | panic ↦ (panicked, app, pool)
    ]
