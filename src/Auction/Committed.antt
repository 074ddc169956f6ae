-- ===== src/Auction/Committed.antt =====
-- GetContextForBidTx of blockbuster/lanes/auction/check_tx.go: the context in which a bid is checked.
use pob.Prelude.{◌≡◌, refl, ◌∙◌, subst, true}
use pob.Prelude.Outcome.{Outcome, ok, panic}
use pob.Sdk.{Sdk, ContextOps}
use pob.Lane.{Env, AnteHandler, LaneMempool}
use pob.Auction.Bids.{Factory}
use pob.Auction.CheckTx.{
  CheckTxType, new, recheck, unknown, RequestCheckTx, BaseApp, with_request, get_context_for_bid_tx,
}

module _ (sdk : Sdk) (ops : ContextOps sdk.Ctx) (factory : Factory sdk)
    (ante_handler : AnteHandler sdk) {App Pool : Type 0} (base_app : BaseApp sdk ops App)
    (mempool : LaneMempool sdk Pool) where
  -- A context in a check mode over the state and the height of the last block.
  pub record IsCommitted (app : App) (ctx : Env sdk) : Type 0 where
    pub at_state : ctx.store ≡ base_app.committed app
    pub at_height : ops.block_height ctx.values ≡ base_app.last_block_height app
    pub checks : ops.is_check_tx ctx.values ≡ true

  request-IsCommitted :
      (req : RequestCheckTx) (app : App) (ctx : Env sdk)
      → IsCommitted app ctx
      → IsCommitted app (with_request sdk ops factory ante_handler base_app mempool req app ctx)
  request-IsCommitted req app ctx c = record {
    at_state = c.at_state;
    at_height =
        rw (ops.block_height-with_consensus_params, ops.block_height-with_tx_bytes) c.at_height;
    checks = rw (ops.is_check_tx-with_consensus_params, ops.is_check_tx-with_tx_bytes) c.checks;
  }

  -- Where GetContextForBidTx gives a context, this is in a check mode, at the height of the last block and over the committed
  -- state.
  pub get_context_for_bid_tx-IsCommitted :
      (req : RequestCheckTx) (app : App) (ctx : Env sdk)
      → get_context_for_bid_tx sdk ops factory ante_handler base_app mempool req app ≡ ok ctx
      → IsCommitted app ctx
  unfolding get_context_for_bid_tx
  get_context_for_bid_tx-IsCommitted req app ctx h = of_type req.check_type refl
    where
      base : sdk.Ctx
      base = ops.new_context (base_app.last_block_height app) (base_app.chain_id app) true

      same : {a b : Env sdk} → ok a ≡ ok b → IsCommitted app a → IsCommitted app b
      same i = subst (IsCommitted app) (cc i)

      of_type : (t : CheckTxType) → req.check_type ≡ t → IsCommitted app ctx
      of_type new e = same (rw (e, get_context_for_bid_tx) at h) (
          request-IsCommitted req app
            (record { values = ops.with_is_check_tx true base; store = base_app.committed app })
            (record {
              at_state = refl;
              at_height =
                  ops.block_height-with_is_check_tx true base
                  ∙ ops.block_height-new_context (base_app.last_block_height app)
                      (base_app.chain_id app) true;
              checks = ops.is_check_tx-with_is_check_tx true base;
            }))
      of_type recheck e = same (rw (e, get_context_for_bid_tx) at h) (
          request-IsCommitted req app
            (record { values = ops.with_is_recheck_tx true base; store = base_app.committed app })
            (record {
              at_state = refl;
              at_height =
                  ops.block_height-with_is_recheck_tx true base
                  ∙ ops.block_height-new_context (base_app.last_block_height app)
                      (base_app.chain_id app) true;
              checks = ops.is_check_tx-with_is_recheck_tx base;
            }))
      of_type unknown e = absurd (refuse (rw (e, get_context_for_bid_tx) at h))
        where
          refuse : ◌≡◌ {A = Outcome (Env sdk)} panic (ok ctx) → ⊥
          refuse i = cc i
