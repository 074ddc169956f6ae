-- ===== src/Auction/Admissible.antt =====
-- ValidateBidTx of blockbuster/lanes/auction/check_tx.go: when a bid and its bundle are valid.
use pob.Prelude.{List, [], ◌∷◌, ◌≡◌, ◌↔◌, inl, inr, refl, ap, false}
use pob.Prelude.Outcome.{ok, Outcome-cases, with_state}
use pob.Sdk.{Sdk, Bytes, Tx, ContextOps}
use pob.Lane.{Env, AnteHandler}
use pob.Builder.{BidInfo}
use pob.Auction.Bids.{Factory}
use pob.Auction.CheckTx.{
  GasInfo, is_no_bid, validate_bundled, validate_loop, gas_info, validate_bid_tx,
}

module _ (sdk : Sdk) (ops : ContextOps sdk.Ctx) (factory : Factory sdk)
    (ante_handler : AnteHandler sdk) where
  -- One after the other, the transactions of a bundle can be wrapped, are no bids, and pass the ante handler, each in the
  -- context that the one before left.
  pub data IsAdmissible : Env sdk → List Bytes → Type 0 where
    done : {ctx : Env sdk} → IsAdmissible ctx []
    passed :
        {ctx ctx' : Env sdk} {raw : Bytes} {rest : List Bytes} (tx : Tx)
        → factory.wrap_bundle_transaction raw ≡ ok tx
        → is_no_bid (factory.get_auction_bid_info tx) ≡ ok tt
        → ante_handler ctx tx false ≡ (ctx', ok tt)
        → IsAdmissible ctx' rest
        → IsAdmissible ctx (raw ∷ rest)

  validate_bundled-ok :
      (ctx : Env sdk) (raw : Bytes) (after : Env sdk)
      → validate_bundled sdk ops factory ante_handler ctx raw ≡ (after, ok tt)
      → (tx : Tx) × (factory.wrap_bundle_transaction raw ≡ ok tx)
        × (is_no_bid (factory.get_auction_bid_info tx) ≡ ok tt)
        × (ante_handler ctx tx false ≡ (after, ok tt))
  unfolding validate_bundled
  validate_bundled-ok ctx raw after h = elim (Outcome-cases (factory.wrap_bundle_transaction raw)) [
    | inl (tx, w) ↦ let (n, a) = wrapped tx w in (tx, w, n, a)
    | inr (inl (e, w)) ↦ absurd (cc (ap (λ r. r.1) (rw (w, validate_bundled) at h)))
    | inr (inr w) ↦ absurd (cc (ap (λ r. r.1) (rw (w, validate_bundled) at h)))
  ]
    where
      wrapped :
          (tx : Tx)
          → factory.wrap_bundle_transaction raw ≡ ok tx
          → (is_no_bid (factory.get_auction_bid_info tx) ≡ ok tt)
            × (ante_handler ctx tx false ≡ (after, ok tt))
      wrapped tx w = elim (Outcome-cases (is_no_bid (factory.get_auction_bid_info tx))) [
        | inl (u, n) ↦ (n, rw (w, validate_bundled, n) at h)
        | inr (inl (e, n)) ↦ absurd (cc (ap (λ r. r.1) (rw (w, validate_bundled, n) at h)))
        | inr (inr n) ↦ absurd (cc (ap (λ r. r.1) (rw (w, validate_bundled, n) at h)))
      ]

  validate_loop_sound :
      (ctx : Env sdk) (txs : List Bytes)
      → validate_loop sdk ops factory ante_handler ctx txs ≡ ok tt
      → IsAdmissible ctx txs
  unfolding validate_loop
  validate_loop_sound ctx [] h = done
  validate_loop_sound ctx (raw ∷ rest) h =
      elim (Outcome-cases (validate_bundled sdk ops factory ante_handler ctx raw).1) [
        | inl (u, v) ↦
            let (tx, w, n, a) =
              validate_bundled-ok ctx raw (validate_bundled sdk ops factory ante_handler ctx raw).0
                (with_state (validate_bundled sdk ops factory ante_handler ctx raw) v) in
            passed tx w n a (
              validate_loop_sound (validate_bundled sdk ops factory ante_handler ctx raw).0 rest
                (rw (v, validate_loop) at h))
        | inr (inl (e, v)) ↦ absurd (cc (rw (v, validate_loop) at h))
        | inr (inr v) ↦ absurd (cc (rw (v, validate_loop) at h))
      ]

  validate_bundled_complete :
      {ctx : Env sdk} {raw : Bytes} {after : Env sdk} (tx : Tx)
      → factory.wrap_bundle_transaction raw ≡ ok tx
      → is_no_bid (factory.get_auction_bid_info tx) ≡ ok tt
      → ante_handler ctx tx false ≡ (after, ok tt)
      → validate_bundled sdk ops factory ante_handler ctx raw ≡ (after, ok tt)
  unfolding validate_bundled
  validate_bundled_complete tx w n a = rw (validate_bundled, w, n) a

  validate_loop_complete :
      {ctx : Env sdk} {txs : List Bytes}
      → IsAdmissible ctx txs
      → validate_loop sdk ops factory ante_handler ctx txs ≡ ok tt
  unfolding validate_loop
  validate_loop_complete done = refl
  validate_loop_complete (passed tx w n a rest) =
      let v = validate_bundled_complete tx w n a in
      rw (ap (λ r. r.1) v, validate_loop, ap (λ r. r.0) v) (validate_loop_complete rest)

  -- The bid passes the ante handler, and behind it its bundle is admissible.
  pub record IsValidBid (ctx : Env sdk) (bid_tx : Tx) (info : BidInfo) (gas : GasInfo)
      : Type 0 where
    pub after : Env sdk
    pub bid_passes : ante_handler ctx bid_tx false ≡ (after, ok tt)
    pub bundle_passes : IsAdmissible after info.transactions
    pub metered : gas_info sdk ops factory ante_handler after ≡ gas

  -- ValidateBidTx returns no error exactly if the bid and its bundle are valid, and then the gas of the bid alone.
  pub validate_bid_tx_iff :
      (ctx : Env sdk) (bid_tx : Tx) (info : BidInfo) (gas : GasInfo)
      → (validate_bid_tx sdk ops factory ante_handler ctx bid_tx info ≡ (gas, ok tt))
        ↔ IsValidBid ctx bid_tx info gas
  unfolding validate_bid_tx
  validate_bid_tx_iff ctx bid_tx info gas = (forward, backward)
    where
      forward :
          validate_bid_tx sdk ops factory ante_handler ctx bid_tx info ≡ (gas, ok tt)
          → IsValidBid ctx bid_tx info gas
      forward h = elim (Outcome-cases (ante_handler ctx bid_tx false).1) [
        | inl (u, v) ↦
            let t = rw (v, validate_bid_tx) at h in
            record {
              after = (ante_handler ctx bid_tx false).0;
              bid_passes = with_state (ante_handler ctx bid_tx false) v;
              bundle_passes =
                  validate_loop_sound (ante_handler ctx bid_tx false).0 info.transactions
                    (ap (λ r. r.1) t);
              metered = ap (λ r. r.0) t;
            }
        | inr (inl (e, v)) ↦ absurd (cc (ap (λ r. r.1) (rw (v, validate_bid_tx) at h)))
        | inr (inr v) ↦ absurd (cc (ap (λ r. r.1) (rw (v, validate_bid_tx) at h)))
      ]

      backward :
          IsValidBid ctx bid_tx info gas
          → validate_bid_tx sdk ops factory ante_handler ctx bid_tx info ≡ (gas, ok tt)
      backward v =
          rw (ap (λ r. r.1) v.bid_passes, validate_bid_tx, ap (λ r. r.0) v.bid_passes)
            (rw (validate_loop_complete v.bundle_passes, v.metered) refl)
