-- ===== src/Builder/Defaults.antt =====
-- The genesis of x/builder, and its keeper as ProvideModule makes it.
use pob.Prelude.{◌≡◌, refl, sym, ap, ◌∙◌, arith, false, some, String}
use pob.Prelude.Int.{pos}
use pob.Prelude.Outcome.{Outcome, ok, err, panic, >>=-eq-ok, >>-eq-ok}
use pob.Sdk.{Sdk, Bytes, coin}
use pob.Builder.Types.{MsgUpdateParams, IsStorable, BuilderDeps}
use pob.Builder.Keeper.{get_params}
use pob.Builder.Server.{
  or_panic, init_genesis, export_genesis, update_params, proposer_rewards_address,
}
use pob.Builder.Checks.{IsValidParams, validate_params_iff}
use pob.Builder.Authority.{set_params-get_params, update_params-get_params}
use pob.Builder.Genesis.{
  JsonCodec, Accounts, new_params, default_params, default_genesis_state, genesis_validate,
  default_genesis, validate_genesis, module_init_genesis, module_export_genesis, new_keeper_with,
  new_keeper, authority_of, not_nil, provide_module,
}

or_panic-ok :
    (sdk : Sdk) (deps : BuilderDeps sdk) {A : Type 0} (r : Outcome A) (a : A)
    → or_panic sdk deps r ≡ ok a
    → r ≡ ok a
or_panic-ok sdk deps (ok x) a h = h
or_panic-ok sdk deps (err e) a h = absurd (cc h)
or_panic-ok sdk deps panic a h = absurd (cc h)

made_authority :
    {sdk : Sdk} (k keeper : BuilderDeps sdk) → ok k ≡ ok keeper → k.authority ≡ keeper.authority
made_authority {sdk} k keeper h = ap (or_authority k.authority) h
  where
    or_authority : String → Outcome (BuilderDeps sdk) → String
    or_authority other (ok made) = made.authority
    or_authority other (err e) = other
    or_authority other panic = other

module _ (sdk : Sdk) (accounts : Accounts) where
  module _ (one_stake : sdk.coins.validate (coin "stake" (pos 1)) ≡ ok tt)
      (zero_set : sdk.decimals.is_nil sdk.decimals.zero_dec ≡ false) where
    default_params-IsValid : IsValidParams sdk (default_params sdk accounts)
    unfolding default_params new_params
    default_params-IsValid = record {
      escrow = (accounts.new_module_address "builder", refl);
      reserve = record { not_nil = sdk.coins.is_nil-coin "stake" (pos 1); valid = one_stake };
      increment = record { not_nil = sdk.coins.is_nil-coin "stake" (pos 1); valid = one_stake };
      positive = (pos 1, refl, ground arith);
      one_denom = refl;
      share_not_nil = zero_set;
      share_from_zero = rw (sdk.decimals.scaled-zero_dec) (ground arith);
      share_to_one = rw (sdk.decimals.scaled-zero_dec) (ground arith);
    }

    default_params-IsStorable : IsStorable sdk (default_params sdk accounts)
    unfolding default_params new_params
    default_params-IsStorable = record {
      small = omega arith;
      has_escrow =
          let (x, xs, e) = accounts.new_module_address-some "builder" in (x, xs, ap some e);
      has_reserve = sdk.coins.is_nil-coin "stake" (pos 1);
      has_increment = sdk.coins.is_nil-coin "stake" (pos 1);
      has_share = zero_set;
    }

    -- The genesis that DefaultGenesis writes passes ValidateGenesis, and where InitGenesis takes it, ExportGenesis writes it
    -- again: where one unit of the stake passes the coins' validation, and the decimal zero is not nil.
    pub default_genesis-export :
        (codec : JsonCodec sdk) (deps : BuilderDeps sdk) (store store' : sdk.Store) (bz : Bytes)
        → default_genesis sdk accounts codec ≡ ok bz
        → module_init_genesis sdk codec deps store bz ≡ ok store'
        → (validate_genesis sdk codec bz ≡ ok tt)
          × (module_export_genesis sdk codec deps store' ≡ ok bz)
    unfolding default_genesis validate_genesis genesis_validate module_init_genesis
        module_export_genesis default_genesis_state init_genesis export_genesis
    default_genesis-export codec deps store store' bz d i =
        let read = codec.unmarshal_json-marshal (default_genesis_state sdk accounts) bz d in
        let kept =
          set_params-get_params sdk deps store store' (default_params sdk accounts)
            default_params-IsStorable (or_panic-ok sdk deps _ store' (rw read at i)) in
        (
          rw read
              ((validate_params_iff sdk (default_params sdk accounts)).1 default_params-IsValid),
          rw kept d,
        )

  module _ (deps keeper : BuilderDeps sdk) (previous_proposer : sdk.Store → Outcome Bytes)
      (operator_of : sdk.Store → Bytes → Outcome Bytes) (configured : String)
      (provided : provide_module sdk accounts deps previous_proposer operator_of configured
        ≡ ok keeper) where
    provide_module-authority :
        keeper.authority ≡ sdk.acc_string (authority_of sdk accounts configured)
    unfolding provide_module new_keeper new_keeper_with
    provide_module-authority =
        let (address, a, h1) =
          >>=-eq-ok
            (or_panic sdk deps
              (sdk.acc_from_bech32 (sdk.acc_string (authority_of sdk accounts configured))))
            _ provided in
        let (u, h2) = >>-eq-ok (not_nil sdk (accounts.get_module_address "builder")) _ h1 in
        sym (
          made_authority
            (record deps {
              get_rewards_address =
                  λ store. proposer_rewards_address (previous_proposer store) (operator_of store);
              authority = sdk.acc_string (authority_of sdk accounts configured);
            })
            keeper h2)

    -- Where UpdateParams succeeds on a keeper that ProvideModule made, with parameters that the generated codec keeps (a size of
    -- 32 bits, an escrow address that is not empty, amounts and a share that are not nil), its message came from the governance account, or from
    -- the configured one where there is one, and from then on the keeper has the parameters of the message.
    pub provide_module-update_params :
        (msg : MsgUpdateParams sdk) (store store' : sdk.Store)
        → IsStorable sdk msg.params
        → update_params sdk keeper msg store ≡ ok store'
        → (msg.authority ≡ sdk.acc_string (authority_of sdk accounts configured))
          × (get_params sdk keeper store' ≡ ok msg.params)
    provide_module-update_params msg store store' t h =
        let (a, g) = update_params-get_params sdk keeper msg store store' t h in
        (a ∙ provide_module-authority, g)
