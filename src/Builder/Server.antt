-- ===== src/Builder/Server.antt =====
-- x/builder/keeper: msg_server.go and genesis.go; x/builder/rewards.
use pob.Prelude.{Option, none, some, [], ◌∷◌, length, ◌==◌, str_eq, if◌then◌else◌}
use pob.Prelude.Outcome.{
  Outcome, ok, err, panic, ◌>>=◌, ◌>>◌, guard, bad_authority, empty_rewards_address,
}
use pob.Sdk.{Sdk, Bytes, Coin, MsgAuctionBid}
use pob.Builder.Types.{Params, MsgUpdateParams, BuilderDeps}
use pob.Builder.Keeper.{get_params, set_params, validate_bundle_size}

-- A nil address is empty.
abbrev pub or_empty : Option Bytes → Bytes
or_empty none = []
or_empty (some bz) = bz

module _ (sdk : Sdk) (deps : BuilderDeps sdk) where
  -- A step that writes to the store, and may fail after it.
  abbrev pub Step : Type 0
  Step = sdk.Store → Outcome (Unit {0}) × sdk.Store

  infixl 5 ◌then_do◌
  abbrev pub ◌then_do◌ : Step → Step → Step
  ◌then_do◌ m k s =
      let (r, s') = m s in elim r [ ok _ ↦ k s' | err e ↦ (err e, s') | panic ↦ (panic, s') ]

  abbrev pub with_value {ℓ} : {A : Type ℓ} → Outcome A → (A → Step) → Step
  with_value (ok a) k s = k a s
  with_value (err e) k s = (err e, s)
  with_value panic k s = (panic, s)

  -- The address for the proposer's share; where the provider has none, the escrow account.
  abbrev pub rewards_or_escrow : Outcome Bytes → Bytes → Outcome Bytes
  rewards_or_escrow (ok a) escrow = ok a
  rewards_or_escrow (err e) escrow = ok escrow
  rewards_or_escrow panic escrow = panic

  -- The payment with a proposer fee: the truncated share to the proposer, then the rest to the escrow account.
  unfoldable pub pay_with_reward : Bytes → Bytes → Coin → sdk.decimals.LegacyDec → Step
  pay_with_reward bidder escrow bid fee store =
      with_value (rewards_or_escrow (deps.get_rewards_address store) escrow)
        (λ rewards. with_value (sdk.dec_coins.from_coins (bid ∷ [])) (λ total.
          let reward =
            (sdk.dec_coins.truncate_decimal (sdk.dec_coins.mul_dec_truncate total fee)).0 in
          deps.send_coins bidder rewards reward
          then_do (with_value (sdk.dec_coins.from_coins reward) (λ paid.
              with_value (sdk.dec_coins.sub total paid)
                (λ left. deps.send_coins bidder escrow (sdk.dec_coins.truncate_decimal left).0)))))
        store

  -- The transfers of AuctionBid.
  unfoldable pub pay_bid : Bytes → Bytes → Coin → sdk.decimals.LegacyDec → Step
  pay_bid bidder escrow bid fee =
      if sdk.decimals.is_zero fee
      then with_value (sdk.coins.new_coins (bid ∷ [])) (deps.send_coins bidder escrow)
      else pay_with_reward bidder escrow bid fee

  -- The checks of AuctionBid: the bidder and the parameters, if the bundle is not too large.
  unfoldable pub check_bid_msg : MsgAuctionBid → sdk.Store → Outcome (Bytes × Params sdk)
  check_bid_msg msg store = do
    bidder ← sdk.acc_from_bech32 msg.bidder
    params ← get_params sdk deps store
    validate_bundle_size sdk deps params.max_bundle_size msg.transactions
    ok (bidder, params)

  -- AuctionBid. The event that it emits is left out.
  unfoldable pub auction_bid : MsgAuctionBid → Step
  auction_bid msg store =
      with_value (check_bid_msg msg store)
        (λ (bp : Bytes × Params sdk).
          pay_bid bp.0 (or_empty bp.1.escrow_account_address) msg.bid bp.1.proposer_fee)
        store

  -- UpdateParams
  unfoldable pub update_params : MsgUpdateParams sdk → sdk.Store → Outcome sdk.Store
  update_params msg store = do
    guard (str_eq msg.authority deps.authority) bad_authority
    set_params sdk deps store msg.params

  -- InitGenesis panics on an error, and so does ExportGenesis.
  abbrev pub or_panic {ℓ} : {A : Type ℓ} → Outcome A → Outcome A
  or_panic (ok a) = ok a
  or_panic (err e) = panic
  or_panic panic = panic

  unfoldable pub init_genesis : sdk.Store → Params sdk → Outcome sdk.Store
  init_genesis store params = or_panic (set_params sdk deps store params)

  unfoldable pub export_genesis : sdk.Store → Outcome (Params sdk)
  export_genesis store = or_panic (get_params sdk deps store)

-- FixedAddressRewardsAddressProvider.GetRewardsAddress
unfoldable pub fixed_rewards_address : Bytes → Outcome Bytes
fixed_rewards_address address =
    if length address == 0 then err empty_rewards_address else ok address

-- ProposerRewardsAddressProvider.GetRewardsAddress, over the distribution and staking keepers' answers.
unfoldable pub proposer_rewards_address : Outcome Bytes → (Bytes → Outcome Bytes) → Outcome Bytes
proposer_rewards_address previous_proposer operator_of = do
  cons_addr ← previous_proposer
  operator ← operator_of cons_addr
  ok operator
