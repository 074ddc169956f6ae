-- ===== src/Auction/Outbid.antt =====
-- CheckTxHandler of blockbuster/lanes/auction/check_tx.go with BuilderDecorator of x/builder/ante/ante.go as its ante
-- handler: what an admitted bid has to beat.
use pob.Prelude.{
  ℕ, ◌+◌, ◌^◌, ◌≤◌, ◌<◌, ◌≡◌, refl, ap, ◌∙◌, subst, true, false, not, ◌||◌, String, none, some, inl,
  inr, if◌then◌else◌,
}
use pob.Prelude.Bytes.{equal}
use pob.Prelude.Int.{ℤ, pos, ◌≤ℤ◌, wrap64}
use pob.Prelude.Outcome.{ok, guard, not_in_mempool, Outcome-cases, >>-eq-ok}
use pob.Sdk.{Sdk, Bytes, Tx, coin, ContextOps}
use pob.Lane.{Env, AnteHandler, LaneMempool}
use pob.Builder.{BidInfo, Params, BuilderDeps, get_params}
use pob.Builder.Ante.{
  AuctionView, is_checking, validate_timeout, validate_bid, check_tx, builder_ante_handle,
}
use pob.Builder.Bid.{OutBids}
use pob.Builder.Modes.{validate_timeout_iff, check_tx-OutBids}
use pob.Auction.Bids.{Factory}
use pob.Auction.CheckTx.{RequestCheckTx, Answer, BaseApp, check_tx_handler}
use pob.Auction.Admission.{check_tx_handler_iff}
use pob.Auction.Committed.{IsCommitted, get_context_for_bid_tx-IsCommitted}

module _ (sdk : Sdk) (ops : ContextOps sdk.Ctx) (deps : BuilderDeps sdk) (view : AuctionView sdk)
    (next : AnteHandler sdk) where
  -- The ante handler of the application: the decorator before the others.
  abbrev pub decorated : AnteHandler sdk
  decorated ctx tx simulate = builder_ante_handle sdk ops deps view ctx tx simulate next

  decorated-checks :
      (ctx after : Env sdk) (tx : Tx)
      → decorated ctx tx false ≡ (after, ok tt)
      → check_tx sdk ops deps view ctx tx ≡ ok tt
  unfolding builder_ante_handle
  decorated-checks ctx after tx h = elim (Outcome-cases (check_tx sdk ops deps view ctx tx)) [
    | inl (u, e) ↦ e
    | inr (inl (x, e)) ↦ absurd (cc (ap (λ r. r.1) (rw (e, builder_ante_handle) at h)))
    | inr (inr e) ↦ absurd (cc (ap (λ r. r.1) (rw (e, builder_ante_handle) at h)))
  ]

  in_time :
      (ctx : Env sdk) (tx : Tx) (info : BidInfo)
      → view.get_auction_bid_info tx ≡ ok (some info)
      → check_tx sdk ops deps view ctx tx ≡ ok tt
      → validate_timeout sdk ops deps view ctx (wrap64 (pos info.timeout)) ≡ ok tt
  unfolding check_tx validate_bid
  in_time ctx tx info known h =
      let (passed, k) =
        >>-eq-ok (guard (not (ops.is_recheck_tx ctx.values) || view.contains tx) not_in_mempool) _
          h in
      (>>-eq-ok (validate_timeout sdk ops deps view ctx (wrap64 (pos info.timeout))) _
        (rw known at k)).0

  committed-checking :
      {factory : Factory sdk} {App Pool : Type 0} {base_app : BaseApp sdk ops App}
      {mempool : LaneMempool sdk Pool} (app : App) (ctx : Env sdk)
      → IsCommitted sdk ops factory decorated base_app mempool app ctx
      → is_checking sdk ops ctx ≡ true
  committed-checking app ctx c = rw (c.checks) refl

  module _ (factory : Factory sdk) {App Pool : Type 0} (base_app : BaseApp sdk ops App)
      (mempool : LaneMempool sdk Pool) where
    -- A bid that CheckTx admits, with BuilderDecorator before the rest of the ante handler, while another transaction is the
    -- top one of the auction: its timeout is an int64 and not below the height after the last block, which is below 2^62,
    -- and by the committed parameters, all amounts in one denomination, it is at least the reserve fee and at least the top
    -- bid and the increment, and its bidder's committed balance covers it.
    pub admitted-OutBids :
        (req : RequestCheckTx) (tx top : Tx) (info top_info : BidInfo) (app : App)
        (pool pool' : Pool) (answer : Answer) (own other : Bytes) (params : Params sdk) (d : String)
        (h : ℕ) (reserve increment bid highest balance : ℤ)
        → sdk.decode req.tx ≡ ok tx
        → factory.get_auction_bid_info tx ≡ ok (some info)
        → view.get_auction_bid_info tx ≡ ok (some info)
        → ((ctx : Env sdk) → view.get_top_auction_tx ctx ≡ ok (some top))
        → view.get_auction_bid_info top ≡ ok (some top_info)
        → sdk.encode tx ≡ ok own
        → sdk.encode top ≡ ok other
        → equal other own ≡ false
        → base_app.last_block_height app ≡ pos h
        → h < 2 ^ 62
        → info.timeout < 2 ^ 64
        → get_params sdk deps (base_app.committed app) ≡ ok params
        → params.reserve_fee ≡ coin d reserve
        → params.min_bid_increment ≡ coin d increment
        → info.bid ≡ coin d bid
        → top_info.bid ≡ coin d highest
        → deps.get_balance (base_app.committed app) info.bidder d ≡ coin d balance
        → check_tx_handler sdk ops factory decorated base_app mempool req app pool
          ≡ (answer, app, pool')
        → answer.error ≡ none
        → (info.timeout < 2 ^ 63)
          × (h + 1 ≤ info.timeout)
          × (reserve ≤ℤ bid)
          × OutBids (some highest) increment bid
          × (bid ≤ℤ balance)
    admitted-OutBids req tx top info top_info app pool pool' answer own other params d h reserve
          increment bid highest balance decoded is_bid known has_top top_known encoded top_encoded
          differ height small fits stored is_reserve is_increment is_amount is_top held answered
          no_error =
        let a =
          (check_tx_handler_iff sdk ops factory decorated base_app mempool req tx info app pool
              decoded is_bid answer pool').0
            (answered, no_error) in
        let c =
          get_context_for_bid_tx-IsCommitted sdk ops factory decorated base_app mempool req app
            a.ctx a.in_context in
        let on = committed-checking app a.ctx c in
        let checked = decorated-checks a.ctx a.is_valid.after tx a.is_valid.bid_passes in
        let (low, late) =
          (validate_timeout_iff sdk ops deps view a.ctx h info.timeout (c.at_height ∙ height) small
              fits).0
            (in_time a.ctx tx info known checked) in
        let (above_reserve, beats, covered) =
          check_tx-OutBids sdk ops deps view a.ctx tx top info top_info own other params d reserve
            increment bid highest balance on known (has_top a.ctx) top_known encoded top_encoded
            differ (ap (get_params sdk deps) c.at_state ∙ stored) is_reserve is_increment is_amount
            is_top (ap (λ s. deps.get_balance s info.bidder d) c.at_state ∙ held) checked in
        (
          low,
          subst (λ b. (if b then h + 1 else h) ≤ info.timeout) on late,
          above_reserve,
          beats,
          covered,
        )
