-- ===== src/Builder/Modes.antt =====
-- BuilderDecorator of x/builder/ante/ante.go in the modes of a transaction: the timeout of a bid, the independence of
-- execution from the mempool, and the outbidding of the highest bid in CheckTx.
use pob.Prelude.{
  ℕ, ◌+◌, ◌^◌, ◌≤◌, ◌<◌, ◌≡◌, ◌↔◌, refl, ap, fun_ext, subst, arith, ltb, Bool, true, false, not,
  ◌||◌, String, Option, none, some, Bool-cases, inl, inr, if◌then◌else◌,
}
use pob.Prelude.Bytes.{equal}
use pob.Prelude.Int.{ℤ, pos, ◌≤ℤ◌, ltb_ℤ, wrap64, add64, add64-pos}
use pob.Prelude.Outcome.{
  Outcome, ok, err, panic, ◌>>=◌, guard, wrapped, timed_out, not_in_mempool, >>-eq-ok, >>=-eq-ok,
}
use pob.Sdk.{Sdk, Bytes, Tx, Coin, coin, ContextOps}
use pob.Lane.{Env, AnteHandler}
use pob.Builder.Types.{BidInfo, BuilderDeps, Params}
use pob.Builder.Keeper.{get_params, validate_bid_info, validate_auction_bid, validate_bundle_size}
use pob.Builder.Bid.{OutBids, validate_auction_bid_iff}
use pob.Builder.Ante.{
  AuctionView, nil_coin, is_checking, validate_timeout, other_top_bid, top_bid, validate_bid,
  check_tx, builder_ante_handle,
}

-- The int64 of a uint64 keeps the numbers below 2^63, and makes the others negative.
wrapped_timeout :
    (n c : ℕ) → n < 2 ^ 64 → ltb_ℤ (wrap64 (pos n)) (pos c) ≡ not (ltb n (2 ^ 63)) || ltb n c
unfolding wrap64
wrapped_timeout n c h = ground (arith, h)

module _ (sdk : Sdk) (ops : ContextOps sdk.Ctx) (deps : BuilderDeps sdk) where
  module _ (view : AuctionView sdk) (ctx : Env sdk) where
    current_height :
        (h : ℕ)
        → h < 2 ^ 62
        → (b : Bool) → (if b then add64 (pos h) (pos 1) else pos h) ≡ pos (if b then h + 1 else h)
    current_height h small true = add64-pos h 1 (omega (arith, small))
    current_height h small false = refl

    -- A bid's timeout, a uint64, passes exactly if it is below 2^63 and at least the height of the block, which is below
    -- 2^62; in CheckTx and ReCheckTx it must be at least the next height.
    pub validate_timeout_iff :
        (h timeout : ℕ)
        → ops.block_height ctx.values ≡ pos h
        → h < 2 ^ 62
        → timeout < 2 ^ 64
        → (validate_timeout sdk ops deps view ctx (wrap64 (pos timeout)) ≡ ok tt)
          ↔ ((timeout < 2 ^ 63) × ((if is_checking sdk ops ctx then h + 1 else h) ≤ timeout))
    unfolding validate_timeout
    validate_timeout_iff h timeout e small fits =
        rw
          (
            e,
            current_height h small (is_checking sdk ops ctx),
            wrapped_timeout timeout (if is_checking sdk ops ctx then h + 1 else h) fits,
          )
          (bounded (if is_checking sdk ops ctx then h + 1 else h))
      where
        bounded :
            (c : ℕ)
            → (guard (not (not (ltb timeout (2 ^ 63)) || ltb timeout c)) timed_out ≡ ok tt)
              ↔ ((timeout < 2 ^ 63) × (c ≤ timeout))
        bounded c = elim (Bool-cases (not (ltb timeout (2 ^ 63)) || ltb timeout c)) [
          | inl y ↦ rw y ground (arith, y)
          | inr n ↦ rw n ground (arith, n)
        ]

  -- Outside of CheckTx and ReCheckTx there is no bid to beat.
  no_top :
      (v : AuctionView sdk) (ctx : Env sdk) (tx : Tx)
      → is_checking sdk ops ctx ≡ false
      → top_bid sdk ops deps v ctx tx ≡ ok nil_coin
  unfolding top_bid
  no_top v ctx tx off = rw off refl

  same_bid :
      (view other : AuctionView sdk) (ctx : Env sdk) (tx : Tx)
      → is_checking sdk ops ctx ≡ false
      → (info : Option BidInfo)
      → validate_bid sdk ops deps view ctx tx info ≡ validate_bid sdk ops deps other ctx tx info
  unfolding validate_bid validate_timeout
  same_bid view other ctx tx off none = refl
  same_bid view other ctx tx off (some info) =
      rw (no_top view ctx tx off, no_top other ctx tx off) refl

  same_check :
      (view other : AuctionView sdk) (ctx : Env sdk) (tx : Tx)
      → is_checking sdk ops ctx ≡ false
      → ((t : Tx) → view.get_auction_bid_info t ≡ other.get_auction_bid_info t)
      → check_tx sdk ops deps view ctx tx ≡ check_tx sdk ops deps other ctx tx
  unfolding check_tx
  same_check view other ctx tx off agree =
      rw (not_recheck, agree tx)
        (ap (λ (f : Option BidInfo → Outcome (Unit {0})). other.get_auction_bid_info tx >>= f)
          (fun_ext (same_bid view other ctx tx off)))
    where
      not_recheck : ops.is_recheck_tx ctx.values ≡ false
      not_recheck = ground (arith, off)

  -- Outside of CheckTx and ReCheckTx the decorator does the same whatever the mempool holds: two that agree on what a bid
  -- says agree on every transaction.
  pub builder_ante_handle-eq :
      (view other : AuctionView sdk) (ctx : Env sdk) (tx : Tx) (simulate : Bool)
      (next : AnteHandler sdk)
      → is_checking sdk ops ctx ≡ false
      → ((t : Tx) → view.get_auction_bid_info t ≡ other.get_auction_bid_info t)
      → builder_ante_handle sdk ops deps view ctx tx simulate next
        ≡ builder_ante_handle sdk ops deps other ctx tx simulate next
  unfolding builder_ante_handle
  builder_ante_handle-eq view other ctx tx simulate next off agree =
      rw (builder_ante_handle, same_check view other ctx tx off agree) refl

  module _ (view : AuctionView sdk) (ctx : Env sdk) (tx top : Tx) (info top_info : BidInfo)
      (own other : Bytes) (on : is_checking sdk ops ctx ≡ true)
      (known : view.get_auction_bid_info tx ≡ ok (some info))
      (has_top : view.get_top_auction_tx ctx ≡ ok (some top))
      (top_known : view.get_auction_bid_info top ≡ ok (some top_info))
      (encoded : sdk.encode tx ≡ ok own) (top_encoded : sdk.encode top ≡ ok other)
      (differ : equal other own ≡ false) where
    highest_is_top : top_bid sdk ops deps view ctx tx ≡ ok top_info.bid
    unfolding top_bid other_top_bid
    highest_is_top = rw on (rw has_top (rw (top_encoded, encoded) (rw (differ, top_known) refl)))

    beats_top :
        check_tx sdk ops deps view ctx tx ≡ ok tt
        → wrapped (validate_bid_info sdk deps ctx.store top_info.bid info) ≡ ok tt
    unfolding check_tx validate_bid
    beats_top h =
        let (passed, k) =
          >>-eq-ok (guard (not (ops.is_recheck_tx ctx.values) || view.contains tx) not_in_mempool) _
            h in
        let (in_time, m) =
          >>-eq-ok (validate_timeout sdk ops deps view ctx (wrap64 (pos info.timeout))) _
            (rw known at k) in
        rw highest_is_top at m

  bid_is_valid :
      (store : sdk.Store) (highest : Coin) (info : BidInfo)
      → wrapped (validate_bid_info sdk deps store highest info) ≡ ok tt
      → validate_auction_bid sdk deps store info.bidder info.bid highest ≡ ok tt
  unfolding validate_bid_info
  bid_is_valid store highest info h =
      let (params, got, k) =
        >>=-eq-ok (get_params sdk deps store) _
          (unwrapped (validate_bid_info sdk deps store highest info) h) in
      let (small, m) =
        >>-eq-ok (validate_bundle_size sdk deps params.max_bundle_size info.transactions) _ k in
      (>>-eq-ok (validate_auction_bid sdk deps store info.bidder info.bid highest) _ m).0
    where
      unwrapped : (r : Outcome (Unit {0})) → wrapped r ≡ ok tt → r ≡ ok tt
      unwrapped (ok _) e = refl
      unwrapped (err x) e = cc e
      unwrapped panic e = cc e

  -- With the parameters stored, their amounts and the bids in one denomination: a bid that AnteHandle's checks accept in
  -- CheckTx or ReCheckTx, while another transaction is the top one of the mempool, is at least the reserve fee and at least
  -- the top bid and the increment, and its bidder's balance covers it.
  pub check_tx-OutBids :
      (view : AuctionView sdk) (ctx : Env sdk) (tx top : Tx) (info top_info : BidInfo)
      (own other : Bytes) (params : Params sdk) (d : String) (reserve increment bid : ℤ)
      (highest : ℤ) (balance : ℤ)
      → is_checking sdk ops ctx ≡ true
      → view.get_auction_bid_info tx ≡ ok (some info)
      → view.get_top_auction_tx ctx ≡ ok (some top)
      → view.get_auction_bid_info top ≡ ok (some top_info)
      → sdk.encode tx ≡ ok own
      → sdk.encode top ≡ ok other
      → equal other own ≡ false
      → get_params sdk deps ctx.store ≡ ok params
      → params.reserve_fee ≡ coin d reserve
      → params.min_bid_increment ≡ coin d increment
      → info.bid ≡ coin d bid
      → top_info.bid ≡ coin d highest
      → deps.get_balance ctx.store info.bidder d ≡ coin d balance
      → check_tx sdk ops deps view ctx tx ≡ ok tt
      → (reserve ≤ℤ bid) × OutBids (some highest) increment bid × (bid ≤ℤ balance)
  check_tx-OutBids view ctx tx top info top_info own other params d reserve increment bid highest
        balance on known has_top top_known encoded top_encoded differ stored is_reserve is_increment
        is_bid is_top held h =
      let (same, r, o, f) =
        (validate_auction_bid_iff sdk deps ctx.store params d reserve increment stored is_reserve
            is_increment info.bidder d bid (some highest) balance held).0
          (subst
            (λ (c : Coin).
              validate_auction_bid sdk deps ctx.store info.bidder c (coin d highest) ≡ ok tt)
            is_bid
            (subst
              (λ (c : Coin). validate_auction_bid sdk deps ctx.store info.bidder info.bid c ≡ ok tt)
              is_top
              (bid_is_valid ctx.store top_info.bid info (
                beats_top view ctx tx top info top_info own other on known has_top top_known encoded
                  top_encoded differ h)))) in
      (r, o, f)
