-- ===== src/Tests/Starting.antt =====
-- The genesis of the builder module, its keeper, and the constructors of lanes at concrete inputs.
use pob.Prelude.{◌≡◌, refl, arith, true, some, [], ◌∷◌}
use pob.Prelude.Outcome.{Outcome, ok, ◌>>=◌}
use pob.Sdk.{Bytes}
use pob.Builder.{
  MsgUpdateParams, IsStorable, BuilderDeps, get_params, set_params, update_params, init_genesis,
  proposer_rewards_address,
}
use pob.Builder.Genesis.{
  GenesisState, JsonCodec, Accounts, default_genesis, default_genesis_state, default_params,
  new_params, validate_genesis, module_init_genesis, module_export_genesis, provide_module,
  new_keeper, new_keeper_with, authority_of,
}
use pob.Builder.Defaults.{default_genesis-export, provide_module-update_params}
use pob.Tests.Fixture.{simple_sdk}
use pob.Tests.Deps.{simple_deps, encode_params, decode_params, round_trip, params_of}

abbrev accounts : Accounts
accounts = record {
  new_module_address = λ name. 9 ∷ [];
  new_module_address_or_bech32 = λ text. 8 ∷ [];
  get_module_address = λ name. some (9 ∷ []);
  new_module_address-some = λ name. (9, [], refl);
}

abbrev encode_genesis : GenesisState simple_sdk → Outcome Bytes
encode_genesis gs = encode_params gs.params

abbrev decode_genesis : Bytes → Outcome (GenesisState simple_sdk)
decode_genesis bz = do params ← decode_params bz; ok (record { params = params })

decode_encoded :
    (gs : GenesisState simple_sdk) (bz : Bytes)
    → encode_genesis gs ≡ ok bz
    → decode_genesis bz ≡ ok gs
decode_encoded gs bz h = rw (round_trip gs.params bz h) refl

abbrev codec : JsonCodec simple_sdk
codec = record {
  must_marshal_json = encode_genesis;
  unmarshal_json = decode_genesis;
  unmarshal_json-marshal = decode_encoded;
}

abbrev written : Bytes
written = 2 ∷ 1 ∷ 1 ∷ 1 ∷ 0 ∷ 9 ∷ []

default_written : default_genesis simple_sdk accounts codec ≡ ok written
unfolding default_genesis default_genesis_state default_params new_params
default_written = refl

taken : module_init_genesis simple_sdk codec simple_deps [] written ≡ ok written
unfolding module_init_genesis init_genesis set_params
taken = refl

default_genesis-export_example :
    (validate_genesis simple_sdk codec written ≡ ok tt)
    × (module_export_genesis simple_sdk codec simple_deps written ≡ ok written)
default_genesis-export_example =
    default_genesis-export simple_sdk accounts refl refl codec simple_deps [] written written
      default_written taken

abbrev keeper : BuilderDeps simple_sdk
keeper = record simple_deps {
  get_rewards_address = λ store. ok (3 ∷ []);
  authority = simple_sdk.acc_string (9 ∷ []);
}

provided :
    provide_module simple_sdk accounts simple_deps
      (λ store. ok (3 ∷ []))
      (λ store address. ok address)
      ""
    ≡ ok keeper
unfolding provide_module new_keeper new_keeper_with authority_of proposer_rewards_address
provided = refl

abbrev update : MsgUpdateParams simple_sdk
update = record {
  authority = simple_sdk.acc_string (9 ∷ []);
  params = params_of 5 (7 ∷ []) 1 1 true 0;
}

updated : update_params simple_sdk keeper update [] ≡ ok (5 ∷ 1 ∷ 1 ∷ 1 ∷ 0 ∷ 7 ∷ [])
unfolding update_params set_params
updated = refl

update-IsStorable : IsStorable simple_sdk update.params
update-IsStorable = record {
  small = omega arith;
  has_escrow = (7, [], refl);
  has_reserve = refl;
  has_increment = refl;
  has_share = refl;
}

provide_module-update_params_example :
    (update.authority ≡ simple_sdk.acc_string (authority_of simple_sdk accounts ""))
    × (get_params simple_sdk keeper (5 ∷ 1 ∷ 1 ∷ 1 ∷ 0 ∷ 7 ∷ []) ≡ ok update.params)
provide_module-update_params_example =
    provide_module-update_params simple_sdk accounts simple_deps keeper (λ store. ok (3 ∷ []))
      (λ store address. ok address) "" provided update [] (5 ∷ 1 ∷ 1 ∷ 1 ∷ 0 ∷ 7 ∷ [])
      update-IsStorable updated
