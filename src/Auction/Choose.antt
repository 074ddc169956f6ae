-- ===== src/Auction/Choose.antt =====
-- PrepareLaneHandler of blockbuster/lanes/auction/abci.go: the rounds of its loop over the bids.
use pob.Prelude.{true, false, List, [], ◌∷◌, ◌≡◌, refl, ap, All, Bool-cases, inl, inr}
use pob.Prelude.Outcome.{Outcome, Error, ok, err, panic}
use pob.Sdk.{Sdk, Bytes, Tx}
use pob.Proposal.{Proposal, contains}
use pob.Lane.{LaneConstructor}
use pob.Auction.Bids.{Factory}
use pob.Auction.Handlers.{Bundled, built, broken, present, panicked, with_bytes, bundle_bytes}
use pob.Auction.Order.{Encodes}

module _ (sdk : Sdk) (factory : Factory sdk) {Pool : Type 0} (l : LaneConstructor sdk Pool)
    (p : Proposal) where
  -- The transactions are what the bytes of a bundle wrap to, one for each.
  abbrev pub Wraps : List Tx → List Bytes → Type 0
  Wraps [] [] = Unit
  Wraps [] (raw ∷ bundle) = ⊥
  Wraps (tx ∷ txs) [] = ⊥
  Wraps (tx ∷ txs) (raw ∷ bundle) = (factory.wrap_bundle_transaction raw ≡ ok tx) × Wraps txs bundle

  -- A transaction of the bundle cannot be wrapped or encoded.
  pub data Breaks : List Bytes → Type 0 where
    not_wrapped :
        {raw : Bytes} {bundle : List Bytes} (e : Error)
        → factory.wrap_bundle_transaction raw ≡ err e
        → Breaks (raw ∷ bundle)
    not_encoded :
        {raw : Bytes} {bundle : List Bytes} (tx : Tx) (e : Error)
        → factory.wrap_bundle_transaction raw ≡ ok tx
        → sdk.encode tx ≡ err e
        → Breaks (raw ∷ bundle)
    later : {raw : Bytes} {bundle : List Bytes} → Breaks bundle → Breaks (raw ∷ bundle)

  -- A transaction of the bundle is in the proposal already.
  pub data Repeats : List Bytes → Type 0 where
    known :
        {raw : Bytes} {bundle : List Bytes} (tx : Tx) (bz : Bytes)
        → factory.wrap_bundle_transaction raw ≡ ok tx
        → sdk.encode tx ≡ ok bz
        → contains sdk p bz ≡ true
        → Repeats (raw ∷ bundle)
    after : {raw : Bytes} {bundle : List Bytes} → Repeats bundle → Repeats (raw ∷ bundle)

  -- The bundle's transactions, with the encodings that go into the proposal, none of which it has already.
  pub record IsBuilt (raws bundle : List Bytes) : Type 0 where
    pub own : List Tx
    pub wraps : Wraps own raws
    pub encodes : Encodes sdk own bundle
    pub fresh : All (λ bz. contains sdk p bz ≡ false) bundle

  pub data BundledCase (raws : List Bytes) (r : Bundled) : Type 0 where
    builds : (bundle : List Bytes) → IsBuilt raws bundle → r ≡ built bundle → BundledCase raws r
    breaks : Breaks raws → r ≡ broken → BundledCase raws r
    repeats : Repeats raws → r ≡ present → BundledCase raws r
    panics : r ≡ panicked → BundledCase raws r

  bundled_later :
      (raw : Bytes) (raws : List Bytes) (tx : Tx) (bz : Bytes) (r : Bundled)
      → factory.wrap_bundle_transaction raw ≡ ok tx
      → sdk.encode tx ≡ ok bz
      → contains sdk p bz ≡ false
      → BundledCase raws r
      → BundledCase (raw ∷ raws) (with_bytes bz r)
  bundled_later raw raws tx bz r w e c (builds bundle b i) =
      builds (bz ∷ bundle)
        (record {
          own = tx ∷ b.own;
          wraps = (w, b.wraps);
          encodes = (e, b.encodes);
          fresh = (c, b.fresh);
        })
        (ap (with_bytes bz) i)
  bundled_later raw raws tx bz r w e c (breaks b i) = breaks (later b) (ap (with_bytes bz) i)
  bundled_later raw raws tx bz r w e c (repeats b i) = repeats (after b) (ap (with_bytes bz) i)
  bundled_later raw raws tx bz r w e c (panics i) = panics (ap (with_bytes bz) i)

  pub bundle_bytes-cases :
      (raws : List Bytes) → BundledCase raws (bundle_bytes sdk factory l p raws)
  unfolding bundle_bytes
  bundle_bytes-cases [] = builds [] (record { own = []; wraps = tt; encodes = tt; fresh = tt }) refl
  bundle_bytes-cases (raw ∷ raws) =
      wrapped (factory.wrap_bundle_transaction raw) refl (bundle_bytes-cases raws)
    where
      Case : Type 0
      Case = BundledCase (raw ∷ raws) (bundle_bytes sdk factory l p (raw ∷ raws))

      encoded :
          (tx : Tx)
          → factory.wrap_bundle_transaction raw ≡ ok tx
          → (r : Outcome Bytes) → sdk.encode tx ≡ r
          → BundledCase raws (bundle_bytes sdk factory l p raws)
          → Case
      encoded tx w (ok bz) e ih = elim (Bool-cases (contains sdk p bz)) [
        | inl old ↦ repeats (known tx bz w e old) (rw (w, bundle_bytes, e, old) refl)
        | inr new ↦
            rw (w, bundle_bytes, e, new)
              (bundled_later raw raws tx bz (bundle_bytes sdk factory l p raws) w e new ih)
      ]
      encoded tx w (err x) e ih = breaks (not_encoded tx x w e) (rw (w, bundle_bytes, e) refl)
      encoded tx w panic e ih = panics (rw (w, bundle_bytes, e) refl)

      wrapped :
          (r : Outcome Tx)
          → factory.wrap_bundle_transaction raw ≡ r
          → BundledCase raws (bundle_bytes sdk factory l p raws)
          → Case
      wrapped (ok tx) w ih = encoded tx w (sdk.encode tx) refl ih
      wrapped (err x) w ih = breaks (not_wrapped x w) (rw (w, bundle_bytes) refl)
      wrapped panic w ih = panics (rw (w, bundle_bytes) refl)
