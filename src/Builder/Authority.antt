-- ===== src/Builder/Authority.antt =====
-- The parameters in the store: SetParams and GetParams of x/builder/keeper/keeper.go, and UpdateParams of
-- x/builder/keeper/msg_server.go.
use pob.Prelude.{
  Bool, true, false, [], ◌∷◌, ◌≡◌, ◌≢◌, refl, subst, arith, length, ◌==◌, str_eq, eq_iff,
}
use pob.Prelude.Outcome.{Error, ok, guard, >>=-eq-ok, >>-eq-ok}
use pob.Sdk.{Sdk, Bytes}
use pob.Builder.Types.{Params, MsgUpdateParams, IsStorable, BuilderDeps}
use pob.Builder.Keeper.{get_params, set_params, key_params}
use pob.Builder.Server.{update_params}

guarded : (b : Bool) (e : Error) → guard b e ≡ ok tt → b ≡ true
guarded true e h = refl
guarded false e h = cc h

nonempty : (bz : Bytes) → bz ≢ [] → (length bz == 0) ≡ false
nonempty [] ne = absurd (ne refl)
nonempty (x ∷ xs) ne = ground arith

module _ (sdk : Sdk) (deps : BuilderDeps sdk) where
  stored :
      (p : Params sdk) (bz : Bytes) (store : sdk.Store)
      → IsStorable sdk p
      → deps.marshal p ≡ ok bz
      → get_params sdk deps (deps.kv_set store key_params bz) ≡ ok p
  unfolding get_params
  stored p bz store t m =
      rw (deps.kv_get-kv_set store key_params bz, nonempty bz (deps.marshal-ne-nil p bz m))
        (deps.unmarshal-marshal p bz t m)

  pub set_params-get_params :
      (store store' : sdk.Store) (p : Params sdk)
      → IsStorable sdk p
      → set_params sdk deps store p ≡ ok store'
      → get_params sdk deps store' ≡ ok p
  unfolding set_params
  set_params-get_params store store' p t h =
      let (bz, m, k) = >>=-eq-ok (deps.marshal p) _ h in
      subst (λ s. get_params sdk deps s ≡ ok p) (same k) (stored p bz store t m)
    where
      same : {s : sdk.Store} → ok s ≡ ok store' → s ≡ store'
      same e = cc e

  -- If UpdateParams succeeds, with parameters that the codec keeps, its message came from the keeper's authority, and from then on GetParams returns the
  -- parameters of the message.
  pub update_params-get_params :
      (msg : MsgUpdateParams sdk) (store store' : sdk.Store)
      → IsStorable sdk msg.params
      → update_params sdk deps msg store ≡ ok store'
      → (msg.authority ≡ deps.authority) × (get_params sdk deps store' ≡ ok msg.params)
  unfolding update_params
  update_params-get_params msg store store' t h =
      let (g, k) = >>-eq-ok (guard (str_eq msg.authority deps.authority) _) _ h in
      (
        (eq_iff msg.authority deps.authority).0 (guarded _ _ g),
        set_params-get_params store store' msg.params t k,
      )
