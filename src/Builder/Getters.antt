-- ===== src/Builder/Getters.antt =====
-- The getters of x/builder/keeper/keeper.go for one parameter each, and QueryServer.Params of x/builder/keeper/grpc_query.go.
use pob.Prelude.{ℕ, Bool, Option}
use pob.Prelude.Outcome.{Outcome, ok, ◌>>=◌}
use pob.Sdk.{Sdk, Bytes, Coin}
use pob.Builder.Types.{Params, BuilderDeps}
use pob.Builder.Keeper.{get_params}

module _ (sdk : Sdk) (deps : BuilderDeps sdk) (store : sdk.Store) where
  -- GetMaxBundleSize
  unfoldable pub get_max_bundle_size : Outcome ℕ
  get_max_bundle_size = do params ← get_params sdk deps store; ok params.max_bundle_size

  -- GetEscrowAccount
  unfoldable pub get_escrow_account : Outcome (Option Bytes)
  get_escrow_account = do params ← get_params sdk deps store; ok params.escrow_account_address

  -- GetReserveFee
  unfoldable pub get_reserve_fee : Outcome Coin
  get_reserve_fee = do params ← get_params sdk deps store; ok params.reserve_fee

  -- GetMinBidIncrement
  unfoldable pub get_min_bid_increment : Outcome Coin
  get_min_bid_increment = do params ← get_params sdk deps store; ok params.min_bid_increment

  -- GetProposerFee
  unfoldable pub get_proposer_fee : Outcome sdk.decimals.LegacyDec
  get_proposer_fee = do params ← get_params sdk deps store; ok params.proposer_fee

  -- FrontRunningProtectionEnabled
  unfoldable pub front_running_protection_enabled : Outcome Bool
  front_running_protection_enabled = do
    params ← get_params sdk deps store
    ok params.front_running_protection

  -- QueryServer.Params
  unfoldable pub query_params : Outcome (Params sdk)
  query_params = do params ← get_params sdk deps store; ok params
