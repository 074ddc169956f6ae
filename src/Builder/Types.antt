-- ===== src/Builder/Types.antt =====
-- x/builder/types: BidInfo, Params with Validate (params.go), and the messages with ValidateBasic (msgs.go).
use pob.Prelude.{
  ℕ, Bool, true, false, not, String, Option, none, some, List, [], ◌∷◌, ◌≡◌, ◌≢◌, length, ◌==◌, ◌<◌,
  ◌^◌, str_eq,
}
use pob.Prelude.Int.{pos}
use pob.Prelude.Outcome.{
  Outcome, ok, ◌>>=◌, ◌>>◌, guard, wrapped, nil_escrow, nil_fee, zero_increment, mismatched_denoms,
  nil_proposer_fee, negative_proposer_fee, large_proposer_fee, no_bid, no_transactions,
  empty_transaction,
}
use pob.Sdk.{Sdk, Bytes, Coin, coin, MsgAuctionBid}

-- bid_info.go. The signers of a bundled transaction are a set of addresses.
pub record BidInfo : Type 0 where
  pub bidder : Bytes
  pub bid : Coin
  pub transactions : List Bytes
  pub timeout : ℕ
  pub signers : List (List String)

-- A nil byte slice as the escrow address is `none`.
pub record Params (sdk : Sdk) : Type 0 where
  pub max_bundle_size : ℕ
  pub escrow_account_address : Option Bytes
  pub reserve_fee : Coin
  pub min_bid_increment : Coin
  pub front_running_protection : Bool
  pub proposer_fee : sdk.decimals.LegacyDec

pub record MsgUpdateParams (sdk : Sdk) : Type 0 where
  pub authority : String
  pub params : Params sdk

-- Parameters that the generated codec of Params keeps: the size of a uint32, an escrow address that is not empty, since an
-- empty one is read back as nil, and amounts and a share that are not nil, which would be read back as zero.
pub record IsStorable (sdk : Sdk) (p : Params sdk) : Type 0 where
  pub small : p.max_bundle_size < 2 ^ 32
  pub has_escrow : (x : ℕ) × (xs : Bytes) × (p.escrow_account_address ≡ some (x ∷ xs))
  pub has_reserve : sdk.coins.is_nil p.reserve_fee ≡ false
  pub has_increment : sdk.coins.is_nil p.min_bid_increment ≡ false
  pub has_share : sdk.decimals.is_nil p.proposer_fee ≡ false

-- What the keeper calls: the generated codec of Params, the KV store of the module, the bank keeper, the
-- rewards address provider; and its authority. `kv_get` of a missing key is empty.
pub record BuilderDeps (sdk : Sdk) : Type 0 where
  pub marshal : Params sdk → Outcome Bytes
  pub unmarshal : Bytes → Outcome (Params sdk)
  pub kv_get : sdk.Store → Bytes → Bytes
  pub kv_set : sdk.Store → Bytes → Bytes → sdk.Store
  pub get_balance : sdk.Store → Bytes → String → Coin
  pub send_coins : Bytes → Bytes → List Coin → sdk.Store → Outcome (Unit {0}) × sdk.Store
  pub get_rewards_address : sdk.Store → Outcome Bytes
  pub authority : String
  pub unmarshal-marshal :
      (p : Params sdk) (bz : Bytes) → IsStorable sdk p → marshal p ≡ ok bz → unmarshal bz ≡ ok p
  pub marshal-ne-nil : (p : Params sdk) (bz : Bytes) → marshal p ≡ ok bz → bz ≢ []
  pub kv_get-kv_set : (s : sdk.Store) (k v : Bytes) → kv_get (kv_set s k v) k ≡ v

module _ (sdk : Sdk) where
  -- validateFee
  unfoldable pub validate_fee : Coin → Outcome (Unit {0})
  validate_fee fee = do guard (not (sdk.coins.is_nil fee)) nil_fee; sdk.coins.validate fee

  -- validateProposerFee
  unfoldable pub validate_proposer_fee : sdk.decimals.LegacyDec → Outcome (Unit {0})
  validate_proposer_fee v = do
    guard (not (sdk.decimals.is_nil v)) nil_proposer_fee
    guard (not (sdk.decimals.is_negative v)) negative_proposer_fee
    guard (not (sdk.decimals.gt v sdk.decimals.one_dec)) large_proposer_fee

  abbrev pub is_set : Option Bytes → Bool
  is_set none = false
  is_set (some bz) = true

  -- Params.Validate. The map of the two denominations has one key exactly if they are equal.
  unfoldable pub validate_params : Params sdk → Outcome (Unit {0})
  validate_params p = do
    guard (is_set p.escrow_account_address) nil_escrow
    wrapped (validate_fee p.reserve_fee)
    wrapped (validate_fee p.min_bid_increment)
    zero ← sdk.coins.is_lte p.min_bid_increment (coin p.min_bid_increment.denom (pos 0))
    guard (not zero) zero_increment
    guard (str_eq p.reserve_fee.denom p.min_bid_increment.denom) mismatched_denoms
    validate_proposer_fee p.proposer_fee

  -- MsgUpdateParams.ValidateBasic
  unfoldable pub update_params_validate_basic : MsgUpdateParams sdk → Outcome (Unit {0})
  update_params_validate_basic m = do
    _ ← wrapped (sdk.acc_from_bech32 m.authority)
    validate_params m.params

  -- The loop over the transactions of a bid.
  unfoldable pub check_transactions : List Bytes → Outcome (Unit {0})
  check_transactions [] = ok tt
  check_transactions (tx ∷ txs) =
      guard (not (length tx == 0)) empty_transaction >> check_transactions txs

  -- MsgAuctionBid.ValidateBasic
  unfoldable pub auction_bid_validate_basic : MsgAuctionBid → Outcome (Unit {0})
  auction_bid_validate_basic m = do
    _ ← wrapped (sdk.acc_from_bech32 m.bidder)
    guard (not (sdk.coins.is_nil m.bid)) no_bid
    wrapped (sdk.coins.validate m.bid)
    guard (not (length m.transactions == 0)) no_transactions
    check_transactions m.transactions
