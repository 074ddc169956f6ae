-- ===== src/Builder/Keeper.antt =====
-- x/builder/keeper: keeper.go and auction.go.
use pob.Prelude.{
  ℕ, ◌%◌, ◌^◌, Bool, true, false, not, String, List, [], ◌∷◌, length, leb, ◌==◌, str_eq,
  if◌then◌else◌,
}
use pob.Prelude.Outcome.{
  Outcome, ok, err, ◌>>=◌, ◌>>◌, guard, no_params, bundle_too_large, nil_bid, wrong_denom,
  below_reserve, wrong_increment_denom, below_min_bid, insufficient_funds, front_running,
}
use pob.Sdk.{Sdk, Bytes, Coin}
use pob.Proposal.{has_key}
use pob.Builder.Types.{BidInfo, Params, BuilderDeps}

-- KeyParams of x/builder/types/keys.go
abbrev pub key_params : Bytes
key_params = 1 ∷ []

-- filterSigners, which deletes from the first set in place.
unfoldable pub filter_signers : List String → List String → List String
filter_signers [] tx_signers = []
filter_signers (s ∷ rest) tx_signers =
    let kept = filter_signers rest tx_signers in if has_key s tx_signers then s ∷ kept else kept

-- The loop of ValidateAuctionBundle. With no signer left of those before, the bidder must have signed, and
-- is from then on the one to look for; that may happen once.
unfoldable pub bundle_loop : String → List String → Bool → List (List String) → Outcome (Unit {0})
bundle_loop bidder prev seen [] = ok tt
bundle_loop bidder prev seen (tx_signers ∷ rest) = elim (filter_signers prev tx_signers) [
  | s ∷ others ↦ bundle_loop bidder (s ∷ others) seen rest
  | [] ↦ elim seen [
    | true ↦ err front_running
    | false ↦ elim (filter_signers (bidder ∷ []) tx_signers) [
      | [] ↦ err front_running
      | s ∷ others ↦ bundle_loop bidder (s ∷ others) true rest
    ]
  ]
]

module _ (sdk : Sdk) (deps : BuilderDeps sdk) where
  -- GetParams
  unfoldable pub get_params : sdk.Store → Outcome (Params sdk)
  get_params store =
      let bz = deps.kv_get store key_params in
      if length bz == 0 then err no_params else deps.unmarshal bz

  -- SetParams
  unfoldable pub set_params : sdk.Store → Params sdk → Outcome sdk.Store
  set_params store params = do bz ← deps.marshal params; ok (deps.kv_set store key_params bz)

  -- The check of the bundle's size, in uint32.
  unfoldable pub validate_bundle_size : ℕ → List Bytes → Outcome (Unit {0})
  validate_bundle_size max_bundle_size txs =
      guard (leb (length txs % 2 ^ 32) max_bundle_size) bundle_too_large

  -- The part of ValidateAuctionBid that compares with the highest bid; a nil bid is no bid.
  unfoldable pub validate_min_bid : sdk.Store → Coin → Coin → Outcome (Unit {0})
  validate_min_bid store bid highest_bid =
      let increased = (do
        params ← get_params store
        guard (str_eq params.min_bid_increment.denom bid.denom) wrong_increment_denom
        min_bid ← sdk.coins.add highest_bid params.min_bid_increment
        enough ← sdk.coins.is_gte bid min_bid
        guard enough below_min_bid) in
      if sdk.coins.is_nil highest_bid then ok tt else increased

  -- ValidateAuctionBid
  unfoldable pub validate_auction_bid : sdk.Store → Bytes → Coin → Coin → Outcome (Unit {0})
  validate_auction_bid store bidder bid highest_bid = do
    guard (not (sdk.coins.is_nil bid)) nil_bid
    params ← get_params store
    guard (str_eq bid.denom params.reserve_fee.denom) wrong_denom
    above ← sdk.coins.is_gte bid params.reserve_fee
    guard above below_reserve
    validate_min_bid store bid highest_bid
    funded ← sdk.coins.is_gte (deps.get_balance store bidder bid.denom) bid
    guard funded insufficient_funds

  -- ValidateAuctionBundle
  unfoldable pub validate_auction_bundle : Bytes → List (List String) → Outcome (Unit {0})
  validate_auction_bundle bidder [] = ok tt
  validate_auction_bundle bidder (first ∷ rest) =
      let name = sdk.acc_string bidder in bundle_loop name first (has_key name first) rest

  -- ValidateBidInfo
  unfoldable pub validate_bid_info : sdk.Store → Coin → BidInfo → Outcome (Unit {0})
  validate_bid_info store highest_bid bid_info = do
    params ← get_params store
    validate_bundle_size params.max_bundle_size bid_info.transactions
    validate_auction_bid store bid_info.bidder bid_info.bid highest_bid
    protected ← get_params store
    let checked = validate_auction_bundle bid_info.bidder bid_info.signers
    if protected.front_running_protection then checked else ok tt
