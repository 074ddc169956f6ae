-- ===== src/Builder/Genesis.antt =====
-- x/builder/types/params.go (NewParams, DefaultParams), x/builder/types/genesis.go, the genesis methods and ProvideModule of
-- x/builder/module.go, the constructors of x/builder/keeper/keeper.go, and the signers of x/builder/types/msgs.go.
use pob.Prelude.{
  ◌≡◌, ℕ, Bool, true, String, Option, none, some, List, [], ◌∷◌, str_eq, if◌then◌else◌,
}
use pob.Prelude.Int.{pos}
use pob.Prelude.Outcome.{Outcome, ok, err, panic, ◌>>=◌, ◌>>◌, wrapped}
use pob.Sdk.{Sdk, Bytes, Coin, coin, MsgAuctionBid}
use pob.Builder.Types.{Params, MsgUpdateParams, BuilderDeps, validate_params}
use pob.Builder.Server.{or_panic, init_genesis, export_genesis, proposer_rewards_address}

pub record GenesisState (sdk : Sdk) : Type 0 where
  pub params : Params sdk

-- The JSON codec of the genesis state: MustMarshalJSON and UnmarshalJSON.
pub record JsonCodec (sdk : Sdk) : Type 0 where
  pub must_marshal_json : GenesisState sdk → Outcome Bytes
  pub unmarshal_json : Bytes → Outcome (GenesisState sdk)
  pub unmarshal_json-marshal :
      (gs : GenesisState sdk) (bz : Bytes)
      → must_marshal_json gs ≡ ok bz
      → unmarshal_json bz ≡ ok gs

-- What x/auth gives: NewModuleAddress, NewModuleAddressOrBech32Address, and GetModuleAddress of the account keeper.
pub record Accounts : Type 0 where
  pub new_module_address : String → Bytes
  pub new_module_address_or_bech32 : String → Bytes
  pub get_module_address : String → Option Bytes
  pub new_module_address-some :
      (name : String) → (x : ℕ) × (xs : Bytes) × (new_module_address name ≡ x ∷ xs)

module _ (sdk : Sdk) where
  -- NewParams
  unfoldable pub new_params :
      ℕ → Option Bytes → Coin → Coin → Bool → sdk.decimals.LegacyDec → Params sdk
  new_params max_bundle_size escrow reserve_fee min_bid_increment protection proposer_fee = record {
    max_bundle_size = max_bundle_size;
    escrow_account_address = escrow;
    reserve_fee = reserve_fee;
    min_bid_increment = min_bid_increment;
    front_running_protection = protection;
    proposer_fee = proposer_fee;
  }

  -- DefaultParams
  unfoldable pub default_params : Accounts → Params sdk
  default_params accounts =
      new_params 2 (some (accounts.new_module_address "builder")) (coin "stake" (pos 1))
        (coin "stake" (pos 1)) true sdk.decimals.zero_dec

  -- NewGenesisState
  abbrev pub new_genesis_state : Params sdk → GenesisState sdk
  new_genesis_state params = record { params = params }

  -- DefaultGenesisState
  unfoldable pub default_genesis_state : Accounts → GenesisState sdk
  default_genesis_state accounts = new_genesis_state (default_params accounts)

  -- GenesisState.Validate
  unfoldable pub genesis_validate : GenesisState sdk → Outcome (Unit {0})
  genesis_validate gs = validate_params sdk gs.params

  -- AppModuleBasic.DefaultGenesis
  unfoldable pub default_genesis : Accounts → JsonCodec sdk → Outcome Bytes
  default_genesis accounts codec = codec.must_marshal_json (default_genesis_state accounts)

  -- AppModuleBasic.ValidateGenesis
  unfoldable pub validate_genesis : JsonCodec sdk → Bytes → Outcome (Unit {0})
  validate_genesis codec bz = do gs ← wrapped (codec.unmarshal_json bz); genesis_validate gs

  -- AppModule.InitGenesis
  unfoldable pub module_init_genesis :
      JsonCodec sdk → BuilderDeps sdk → sdk.Store → Bytes → Outcome sdk.Store
  module_init_genesis codec deps store bz = do
    gs ← or_panic sdk deps (codec.unmarshal_json bz)
    init_genesis sdk deps store gs.params

  -- AppModule.ExportGenesis
  unfoldable pub module_export_genesis : JsonCodec sdk → BuilderDeps sdk → sdk.Store → Outcome Bytes
  module_export_genesis codec deps store = do
    params ← export_genesis sdk deps store
    codec.must_marshal_json (new_genesis_state params)

  -- `if x == nil { panic }`
  abbrev pub not_nil : Option Bytes → Outcome (Unit {0})
  not_nil (some bz) = ok tt
  not_nil none = panic

  -- NewKeeperWithRewardsAddressProvider; what the keeper calls is given, the provider among it.
  unfoldable pub new_keeper_with : Accounts → BuilderDeps sdk → String → Outcome (BuilderDeps sdk)
  new_keeper_with accounts deps authority = do
    _ ← or_panic sdk deps (sdk.acc_from_bech32 authority)
    not_nil (accounts.get_module_address "builder")
    ok (record deps { authority = authority })

  -- NewKeeper, with the provider of the proposer's address over the two keepers' answers.
  unfoldable pub new_keeper :
      Accounts
      → BuilderDeps sdk
      → (sdk.Store → Outcome Bytes)
      → (sdk.Store → Bytes → Outcome Bytes)
      → String
      → Outcome (BuilderDeps sdk)
  new_keeper accounts deps previous_proposer operator_of authority =
      new_keeper_with accounts
        (record deps {
          get_rewards_address =
              λ store. proposer_rewards_address (previous_proposer store) (operator_of store);
        })
        authority

  -- The authority that ProvideModule takes: the governance account, unless the configuration names one.
  unfoldable pub authority_of : Accounts → String → Bytes
  authority_of accounts configured =
      if str_eq configured ""
      then accounts.new_module_address "gov"
      else accounts.new_module_address_or_bech32 configured

  -- ProvideModule, as the keeper of the module.
  unfoldable pub provide_module :
      Accounts
      → BuilderDeps sdk
      → (sdk.Store → Outcome Bytes)
      → (sdk.Store → Bytes → Outcome Bytes)
      → String
      → Outcome (BuilderDeps sdk)
  provide_module accounts deps previous_proposer operator_of configured =
      new_keeper accounts deps previous_proposer operator_of
        (sdk.acc_string (authority_of accounts configured))

  -- NewMsgAuctionBid
  unfoldable pub new_msg_auction_bid : Bytes → Coin → List Bytes → MsgAuctionBid
  new_msg_auction_bid bidder bid transactions = record {
    bidder = sdk.acc_string bidder;
    bid = bid;
    transactions = transactions;
  }

  -- The address of a text, nil where it is none.
  abbrev pub address_or_nil : Outcome Bytes → Outcome Bytes
  address_or_nil (ok address) = ok address
  address_or_nil (err e) = ok []
  address_or_nil panic = panic

  -- MsgAuctionBid.GetSigners
  unfoldable pub auction_bid_signers : MsgAuctionBid → Outcome (List Bytes)
  auction_bid_signers m = do
    address ← address_or_nil (sdk.acc_from_bech32 m.bidder)
    ok (address ∷ [])

  -- MsgUpdateParams.GetSigners
  unfoldable pub update_params_signers : MsgUpdateParams sdk → Outcome (List Bytes)
  update_params_signers m = do
    address ← address_or_nil (sdk.acc_from_bech32 m.authority)
    ok (address ∷ [])
