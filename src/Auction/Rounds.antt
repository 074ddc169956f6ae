-- ===== src/Auction/Rounds.antt =====
-- PrepareLaneHandler of blockbuster/lanes/auction/abci.go: which bid the loop chooses, and what it drops.
use pob.Prelude.{
  true, false, Option, none, some, List, ◌∷◌, ◌≡◌, refl, Bool-cases, inl, inr, length,
}
use pob.Prelude.Int.{ℤ, pos, ltb_ℤ}
use pob.Prelude.Outcome.{Outcome, Error, ok, err, panic}
use pob.Sdk.{Sdk, Bytes, Tx}
use pob.Proposal.{Proposal, contains}
use pob.Lane.{Env, LaneConstructor}
use pob.Builder.{BidInfo}
use pob.Auction.Bids.{Factory}
use pob.Auction.Handlers.{
  panicked, BidRound, passed_over, removed, chosen, bundle_bytes, verify_tx, verified_bid,
  encoded_bid, bid_round,
}
use pob.Auction.Verify.{IsVerified, verify_given_iff}
use pob.Auction.Choose.{
  Breaks, Repeats, IsBuilt, BundledCase, builds, breaks, repeats, panics, bundle_bytes-cases,
}

module _ (sdk : Sdk) (factory : Factory sdk) {Pool : Type 0} (l : LaneConstructor sdk Pool)
    (p : Proposal) (max : ℤ) (c : Env sdk) where
  -- A bid of a size within the limit, new to the proposal, that is verified in the context `c`, with its bundle.
  pub record IsChosen (d : Env sdk) (bid_tx : Tx) (txs : List Bytes) : Type 0 where
    pub bz : Bytes
    pub info : BidInfo
    pub bundle : List Bytes
    pub encoded : sdk.encode bid_tx ≡ ok bz
    pub fresh : contains sdk p bz ≡ false
    pub within : ltb_ℤ max (pos (length bz)) ≡ false
    pub known : factory.get_auction_bid_info bid_tx ≡ ok (some info)
    pub verified : IsVerified sdk factory l c d bid_tx info
    pub is_built : IsBuilt sdk factory l p info.transactions bundle
    pub all_txs : txs ≡ bz ∷ bundle

  -- A bid that the lane must drop: it cannot be encoded, its info cannot be read or is nil, its verification fails, or
  -- a transaction of its bundle cannot be wrapped or encoded.
  pub data IsDropped (bid_tx : Tx) : Type 0 where
    no_encoding : (e : Error) → sdk.encode bid_tx ≡ err e → IsDropped bid_tx
    no_info : (e : Error) → factory.get_auction_bid_info bid_tx ≡ err e → IsDropped bid_tx
    nil_info : factory.get_auction_bid_info bid_tx ≡ ok none → IsDropped bid_tx
    unverified :
        (info : BidInfo) (e : Error)
        → factory.get_auction_bid_info bid_tx ≡ ok (some info)
        → (verify_tx sdk factory l c bid_tx (some info)).1 ≡ err e
        → IsDropped bid_tx
    bad_bundle :
        (info : BidInfo)
        → factory.get_auction_bid_info bid_tx ≡ ok (some info)
        → Breaks sdk factory l p info.transactions
        → IsDropped bid_tx

  -- A bid that stays in the mempool: it or a part of its bundle is in the proposal already, or it is too large.
  pub data IsPassedOver (bid_tx : Tx) : Type 0 where
    in_proposal :
        (bz : Bytes) → sdk.encode bid_tx ≡ ok bz → contains sdk p bz ≡ true → IsPassedOver bid_tx
    too_large :
        (bz : Bytes)
        → sdk.encode bid_tx ≡ ok bz
        → ltb_ℤ max (pos (length bz)) ≡ true
        → IsPassedOver bid_tx
    bundle_in_proposal :
        (info : BidInfo)
        → factory.get_auction_bid_info bid_tx ≡ ok (some info)
        → Repeats sdk factory l p info.transactions
        → IsPassedOver bid_tx

  module _ (bid_tx : Tx) where
    pub data BidCase (r : BidRound (Env sdk)) : Type 0 where
      passes : IsPassedOver bid_tx → r ≡ passed_over → BidCase r
      drops : IsDropped bid_tx → r ≡ removed → BidCase r
      chooses :
          (d : Env sdk) (txs : List Bytes) → IsChosen d bid_tx txs → r ≡ chosen d txs → BidCase r
      panicks : r ≡ panicked → BidCase r

    module _ (bz : Bytes) (encoded : sdk.encode bid_tx ≡ ok bz) (fresh : contains sdk p bz ≡ false)
        (within : ltb_ℤ max (pos (length bz)) ≡ false) where
      verified_bid-cases :
          (info : BidInfo)
          → factory.get_auction_bid_info bid_tx ≡ ok (some info)
          → BidCase (verified_bid sdk factory l p c bid_tx bz (some info))
      unfolding verified_bid
      verified_bid-cases info known = verdict (verify_tx sdk factory l c bid_tx (some info)).1 refl
        where
          after : Env sdk
          after = (verify_tx sdk factory l c bid_tx (some info)).0

          Case : Type 0
          Case = BidCase (verified_bid sdk factory l p c bid_tx bz (some info))

          with_bundle :
              (verify_tx sdk factory l c bid_tx (some info)).1 ≡ ok tt
              → BundledCase sdk factory l p info.transactions
                  (bundle_bytes sdk factory l p info.transactions)
              → Case
          with_bundle v (builds bundle b i) =
              chooses after (bz ∷ bundle)
                (record {
                  bz = bz;
                  info = info;
                  bundle = bundle;
                  encoded = encoded;
                  fresh = fresh;
                  within = within;
                  known = known;
                  verified =
                      (verify_given_iff sdk factory l c after bid_tx info).0 (λ j. (after, v j));
                  is_built = b;
                  all_txs = refl;
                })
                (rw (v, verified_bid, i) refl)
          with_bundle v (breaks b i) =
              drops (bad_bundle info known b) (rw (v, verified_bid, i) refl)
          with_bundle v (repeats b i) =
              passes (bundle_in_proposal info known b) (rw (v, verified_bid, i) refl)
          with_bundle v (panics i) = panicks (rw (v, verified_bid, i) refl)

          verdict :
              (r : Outcome (Unit {0})) → (verify_tx sdk factory l c bid_tx (some info)).1 ≡ r → Case
          verdict (ok u) v = with_bundle v (bundle_bytes-cases sdk factory l p info.transactions)
          verdict (err e) v = drops (unverified info e known v) (rw (v, verified_bid) refl)
          verdict panic v = panicks (rw (v, verified_bid) refl)

      nil_bid-case :
          factory.get_auction_bid_info bid_tx ≡ ok none
          → BidCase (verified_bid sdk factory l p c bid_tx bz none)
      unfolding verified_bid verify_tx
      nil_bid-case known = drops (nil_info known) refl

      info_case :
          (r : Outcome (Option BidInfo))
          → factory.get_auction_bid_info bid_tx ≡ r
          → BidCase (encoded_bid sdk factory l p max c bid_tx bz)
      unfolding encoded_bid
      info_case (ok (some info)) e = rw (fresh, within, e) (verified_bid-cases info e)
      info_case (ok none) e = rw (fresh, within, e) (nil_bid-case e)
      info_case (err x) e = drops (no_info x e) (rw (fresh, within, e) refl)
      info_case panic e = panicks (rw (fresh, within, e) refl)

    encoded_bid-cases :
        (bz : Bytes)
        → sdk.encode bid_tx ≡ ok bz
        → BidCase (encoded_bid sdk factory l p max c bid_tx bz)
    unfolding encoded_bid
    encoded_bid-cases bz e = elim (Bool-cases (contains sdk p bz)) [
      | inl old ↦ passes (in_proposal bz e old) (rw old refl)
      | inr new ↦ elim (Bool-cases (ltb_ℤ max (pos (length bz)))) [
        | inl big ↦ passes (too_large bz e big) (rw (new, big) refl)
        | inr fits ↦ info_case bz e new fits (factory.get_auction_bid_info bid_tx) refl
      ]
    ]

    pub bid_round-cases : BidCase (bid_round sdk factory l p max c bid_tx)
    unfolding bid_round
    bid_round-cases = go (sdk.encode bid_tx) refl
      where
        go :
            (r : Outcome Bytes)
            → sdk.encode bid_tx ≡ r
            → BidCase (bid_round sdk factory l p max c bid_tx)
        go (ok bz) e = rw (e, bid_round) (encoded_bid-cases bz e)
        go (err x) e = drops (no_encoding x e) (rw (e, bid_round) refl)
        go panic e = panicks (rw (e, bid_round) refl)
