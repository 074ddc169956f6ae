-- ===== src/Builder/Ante.antt =====
-- x/builder/ante/ante.go: BuilderDecorator; and blockbuster/utils/ante.go: IgnoreDecorator.
use pob.Prelude.{Bool, not, ◌||◌, Option, none, some, List, any, if◌then◌else◌}
use pob.Prelude.Bytes.{equal}
use pob.Prelude.Int.{ℤ, pos, ltb_ℤ, wrap64, add64}
use pob.Prelude.Outcome.{
  Outcome, ok, err, panic, ◌>>=◌, ◌>>◌, guard, wrapped, not_in_mempool, timed_out,
}
use pob.Sdk.{Sdk, Tx, Coin, ContextOps}
use pob.Lane.{Env, AnteHandler, MatchHandler}
use pob.Builder.Types.{BidInfo, BuilderDeps}
use pob.Builder.Keeper.{validate_bid_info}

-- sdk.AnteDecorator
abbrev pub AnteDecorator : Sdk → Type 0
AnteDecorator sdk = Env sdk → Tx → Bool → AnteHandler sdk → Env sdk × Outcome (Unit {0})

-- sdk.Coin{}
abbrev pub nil_coin : Coin
nil_coin = record { denom = ""; amount = none }

-- The interfaces Mempool and TOBLane: what the decorator asks of the mempool and of the auction lane.
pub record AuctionView (sdk : Sdk) : Type 0 where
  pub contains : Tx → Bool
  pub get_auction_bid_info : Tx → Outcome (Option BidInfo)
  pub get_top_auction_tx : Env sdk → Outcome (Option Tx)

-- `ctx.IsCheckTx() || ctx.IsReCheckTx()`
abbrev pub is_checking : (sdk : Sdk) → ContextOps sdk.Ctx → Env sdk → Bool
is_checking sdk ops ctx = ops.is_check_tx ctx.values || ops.is_recheck_tx ctx.values

module _ (sdk : Sdk) (ops : ContextOps sdk.Ctx) (deps : BuilderDeps sdk)
    (view : AuctionView sdk) where
  -- ValidateTimeout, of an int64
  unfoldable pub validate_timeout : Env sdk → ℤ → Outcome (Unit {0})
  validate_timeout ctx timeout =
      let height = ops.block_height ctx.values in
      let current = if is_checking sdk ops ctx then add64 height (pos 1) else height in
      guard (not (ltb_ℤ timeout current)) timed_out

  -- The bid of the highest bidder; a nil info makes the code panic.
  abbrev pub bid_of : Option BidInfo → Outcome Coin
  bid_of (some info) = ok info.bid
  bid_of none = panic

  -- The highest bid, where it is not this transaction's.
  unfoldable pub other_top_bid : Tx → Option Tx → Outcome Coin
  other_top_bid tx none = ok nil_coin
  other_top_bid tx (some top_bid_tx) = do
    top_bid_bz ← sdk.encode top_bid_tx
    current_tx_bz ← sdk.encode tx
    let other = view.get_auction_bid_info top_bid_tx >>= bid_of
    if equal top_bid_bz current_tx_bz then ok nil_coin else other

  unfoldable pub top_bid : Env sdk → Tx → Outcome Coin
  top_bid ctx tx =
      let checked = (view.get_top_auction_tx ctx >>= other_top_bid tx) in
      if is_checking sdk ops ctx then checked else ok nil_coin

  -- The validation of a transaction that is a bid, or none.
  unfoldable pub validate_bid : Env sdk → Tx → Option BidInfo → Outcome (Unit {0})
  validate_bid ctx tx none = ok tt
  validate_bid ctx tx (some info) = do
    validate_timeout ctx (wrap64 (pos info.timeout))
    highest ← top_bid ctx tx
    wrapped (validate_bid_info sdk deps ctx.store highest info)

  -- The checks of AnteHandle.
  unfoldable pub check_tx : Env sdk → Tx → Outcome (Unit {0})
  check_tx ctx tx = do
    guard (not (ops.is_recheck_tx ctx.values) || view.contains tx) not_in_mempool
    info ← view.get_auction_bid_info tx
    validate_bid ctx tx info

  -- BuilderDecorator.AnteHandle
  unfoldable pub builder_ante_handle : AnteDecorator sdk
  builder_ante_handle ctx tx simulate next = elim (check_tx ctx tx) [
    | ok _ ↦ next ctx tx simulate
    | err e ↦ (ctx, err e)
    | panic ↦ (ctx, panic)
  ]

-- IgnoreDecorator.AnteHandle
unfoldable pub ignore_ante_handle :
    (sdk : Sdk) → AnteDecorator sdk → List (MatchHandler sdk) → AnteDecorator sdk
ignore_ante_handle sdk decorator lanes ctx tx simulate next =
    if any (λ m. m ctx tx) lanes then next ctx tx simulate else decorator ctx tx simulate next
