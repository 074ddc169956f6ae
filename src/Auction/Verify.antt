-- ===== src/Auction/Verify.antt =====
-- VerifyTx and ProcessLaneHandler of blockbuster/lanes/auction/abci.go: when a bid and its bundle are valid, and
-- what is left of a proposal behind them.
use mathlib.Core.Option.{some-injective}
use pob.Prelude.{false, Option, none, some, sym, subst, List, [], ◌∷◌, ◌≡◌, ◌↔◌, refl, ap}
use pob.Prelude.Outcome.{Outcome, ok, err, panic}
use pob.Sdk.{Sdk, Bytes, Tx}
use pob.Lane.{Env, LaneConstructor, ante_verify_tx}
use pob.Builder.{BidInfo}
use pob.Auction.Bids.{Factory}
use pob.Auction.Handlers.{verify_bundle, verify_tx}

module _ (sdk : Sdk) (factory : Factory sdk) {Pool : Type 0} (l : LaneConstructor sdk Pool) where
  -- One after the other, the transactions of a bundle can be wrapped and pass the ante handler, each in the
  -- context that the one before left; `d` is the last of these contexts.
  pub data Executes (d : Env sdk) : Env sdk → List Bytes → Type 0 where
    done : {c : Env sdk} → c ≡ d → Executes d c []
    executed :
        {c c' : Env sdk} {raw : Bytes} {bundle : List Bytes} (tx : Tx)
        → factory.wrap_bundle_transaction raw ≡ ok tx
        → ante_verify_tx sdk l c tx false ≡ (c', ok tt)
        → Executes d c' bundle
        → Executes d c (raw ∷ bundle)

  -- The bid itself passes the ante handler, and after it the bundle executes.
  pub record IsVerified (c d : Env sdk) (bid_tx : Tx) (info : BidInfo) : Type 0 where
    pub after : Env sdk
    pub bid_passes : ante_verify_tx sdk l c bid_tx false ≡ (after, ok tt)
    pub bundle_executes : Executes d after info.transactions

  verify_bundle_sound :
      (bundle : List Bytes) (c d : Env sdk)
      → (verify_bundle sdk factory l c bundle).1 ≡ ok tt
      → (verify_bundle sdk factory l c bundle).0 ≡ d
      → Executes d c bundle
  unfolding verify_bundle
  verify_bundle_sound [] c d h e = done e
  verify_bundle_sound (raw ∷ bundle) c d h e =
      wrapped (factory.wrap_bundle_transaction raw) refl (verify_bundle_sound bundle)
    where
      Behind : Type 0
      Behind =
          (c d : Env sdk)
          → (verify_bundle sdk factory l c bundle).1 ≡ ok tt
          → (verify_bundle sdk factory l c bundle).0 ≡ d
          → Executes d c bundle

      passed :
          (tx : Tx)
          → factory.wrap_bundle_transaction raw ≡ ok tx
          → (r : Outcome (Unit {0})) → (ante_verify_tx sdk l c tx false).1 ≡ r
          → Behind
          → Executes d c (raw ∷ bundle)
      passed tx w (ok u) v ih =
          executed tx w (λ i. ((ante_verify_tx sdk l c tx false).0, v i))
            (ih (ante_verify_tx sdk l c tx false).0 d (rw (w, v, verify_bundle) at h)
              (rw (w, v, verify_bundle) at e))
      passed tx w (err x) v ih = absurd (cc (rw (w, v, verify_bundle) at h))
      passed tx w panic v ih = absurd (cc (rw (w, v, verify_bundle) at h))

      wrapped :
          (r : Outcome Tx)
          → factory.wrap_bundle_transaction raw ≡ r
          → Behind
          → Executes d c (raw ∷ bundle)
      wrapped (ok tx) w ih = passed tx w (ante_verify_tx sdk l c tx false).1 refl ih
      wrapped (err x) w ih = absurd (cc (rw (w, verify_bundle) at h))
      wrapped panic w ih = absurd (cc (rw (w, verify_bundle) at h))

  verify_bundle_complete :
      (bundle : List Bytes) (c d : Env sdk)
      → Executes d c bundle
      → verify_bundle sdk factory l c bundle ≡ (d, ok tt)
  unfolding verify_bundle
  verify_bundle_complete [] c d (done e) = rw e refl
  verify_bundle_complete (raw ∷ bundle) c d (executed {c'} tx w v rest) =
      rw (w, verify_bundle, ap (λ r. r.1) v, ap (λ r. r.0) v)
        (verify_bundle_complete bundle c' d rest)

  -- With a bid info.
  pub verify_given_iff :
      (c d : Env sdk) (bid_tx : Tx) (info : BidInfo)
      → (verify_tx sdk factory l c bid_tx (some info) ≡ (d, ok tt)) ↔ IsVerified c d bid_tx info
  unfolding verify_tx
  verify_given_iff c d bid_tx info =
      (λ h. bid (ante_verify_tx sdk l c bid_tx false).1 refl h, backward)
    where
      Succeeds : Type 0
      Succeeds = verify_tx sdk factory l c bid_tx (some info) ≡ (d, ok tt)

      bid :
          (r : Outcome (Unit {0}))
          → (ante_verify_tx sdk l c bid_tx false).1 ≡ r
          → Succeeds
          → IsVerified c d bid_tx info
      bid (ok u) v h =
          let t = rw (v, verify_tx) at h in
          record {
            after = (ante_verify_tx sdk l c bid_tx false).0;
            bid_passes = λ i. ((ante_verify_tx sdk l c bid_tx false).0, v i);
            bundle_executes =
                verify_bundle_sound info.transactions (ante_verify_tx sdk l c bid_tx false).0 d
                  (ap (λ r. r.1) t) (ap (λ r. r.0) t);
          }
      bid (err x) v h = absurd (cc (ap (λ r. r.1) (rw (v, verify_tx) at h)))
      bid panic v h = absurd (cc (ap (λ r. r.1) (rw (v, verify_tx) at h)))

      backward : IsVerified c d bid_tx info → Succeeds
      backward v =
          rw (ap (λ r. r.1) v.bid_passes, verify_tx, ap (λ r. r.0) v.bid_passes)
            (verify_bundle_complete info.transactions v.after d v.bundle_executes)

  -- VerifyTx succeeds exactly if there is a bid info, the bid passes the ante handler, and so do all transactions of
  -- its bundle, each in the context that the one before left.
  pub verify_tx_iff :
      (c d : Env sdk) (bid_tx : Tx) (o : Option BidInfo)
      → (verify_tx sdk factory l c bid_tx o ≡ (d, ok tt))
        ↔ ((info : BidInfo) × (o ≡ some info) × IsVerified c d bid_tx info)
  unfolding verify_tx
  verify_tx_iff c d bid_tx none =
      (λ h. absurd (cc (ap (λ r. r.1) h)), λ (info, e, v). absurd (cc e))
  verify_tx_iff c d bid_tx (some info) = (
    λ h. (info, refl, (verify_given_iff c d bid_tx info).0 h),
    λ (other, e, v).
        (verify_given_iff c d bid_tx info).1
          (subst (IsVerified c d bid_tx) (sym (some-injective _ _ e)) v),
  )
