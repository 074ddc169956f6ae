-- ===== src/Auction/Handlers.antt =====
-- blockbuster/lanes/auction/abci.go: the handlers of the top-of-block lane.
use pob.Prelude.{
  ℕ, suc, Bool, true, false, Option, none, some, List, [], ◌∷◌, ◌++◌, length, drop, ◌||◌, ltb,
  if◌then◌else◌,
}
use pob.Prelude.Bytes.{equal}
use pob.Prelude.Int.{ℤ, pos, ltb_ℤ}
use pob.Prelude.Outcome.{
  Outcome, ok, err, panic, wrap, ◌>>◌, nil_bid_info, misplaced_bid, missing_bundle, multiple_bids,
  wrong_bundle,
}
use pob.Sdk.{Sdk, Bytes, Tx}
use pob.Proposal.{Proposal, contains}
use pob.Lane.{
  Env, LaneConstructor, match, ante_verify_tx, PrepareLaneHandler, ProcessLaneHandler,
  CheckOrderHandler,
}
use pob.Builder.{BidInfo}
use pob.Auction.Bids.{Factory}

-- The slice `txs[n:]`, which panics out of range.
unfoldable pub slice_from {ℓ} : {A : Type ℓ} → ℕ → List A → Outcome (List A)
slice_from n txs = if ltb (length txs) n then panic else ok (drop n txs)

-- What becomes of a bundle in PrepareLaneHandler: its bytes, a transaction that cannot be wrapped or encoded,
-- one that the proposal has already, or a panic.
pub data Bundled : Type 0 where
  built : List Bytes → Bundled
  broken present panicked : Bundled

-- How a round of the loop over the bids ends: the bid is passed over or removed, or it is chosen with its bundle
-- in the context that verification left; or it panics.
pub data BidRound (E : Type 0) : Type 0 where
  passed_over removed panicked : BidRound E
  chosen : E → List Bytes → BidRound E

-- The bundle of a bid; VerifyTx has refused a nil one before this is read.
abbrev pub transactions_of : Option BidInfo → List Bytes
transactions_of (some info) = info.transactions
transactions_of none = []

abbrev pub with_bytes : Bytes → Bundled → Bundled
with_bytes bz (built rest) = built (bz ∷ rest)
with_bytes bz broken = broken
with_bytes bz present = present
with_bytes bz panicked = panicked

module _ (sdk : Sdk) (factory : Factory sdk) {Pool : Type 0} (l : LaneConstructor sdk Pool) where
  -- The loop of VerifyTx over the bundle.
  unfoldable pub verify_bundle : Env sdk → List Bytes → Env sdk × Outcome (Unit {0})
  verify_bundle ctx [] = (ctx, ok tt)
  verify_bundle ctx (bz ∷ bundle) = elim (factory.wrap_bundle_transaction bz) [
    | ok tx ↦
        let (ctx', r) = ante_verify_tx sdk l ctx tx false in
        elim r [
          | ok _ ↦ verify_bundle ctx' bundle
          | err e ↦ (ctx', err (wrap e))
          | panic ↦ (ctx', panic)
        ]
    | err e ↦ (ctx, err (wrap e))
    | panic ↦ (ctx, panic)
  ]

  -- VerifyTx; it returns the context too, whose store it may have written.
  unfoldable pub verify_tx : Env sdk → Tx → Option BidInfo → Env sdk × Outcome (Unit {0})
  verify_tx ctx bid_tx none = (ctx, err nil_bid_info)
  verify_tx ctx bid_tx (some info) =
      let (ctx', r) = ante_verify_tx sdk l ctx bid_tx false in
      elim r [
        | ok _ ↦ verify_bundle ctx' info.transactions
        | err e ↦ (ctx', err (wrap e))
        | panic ↦ (ctx', panic)
      ]

  -- The loop of PrepareLaneHandler over the bundle of a verified bid.
  unfoldable pub bundle_bytes : Proposal → List Bytes → Bundled
  bundle_bytes proposal [] = built []
  bundle_bytes proposal (raw ∷ bundle) = elim (factory.wrap_bundle_transaction raw) [
    | ok tx ↦ elim (sdk.encode tx) [
      | ok bz ↦ elim (contains sdk proposal bz) [
        | true ↦ present
        | false ↦ with_bytes bz (bundle_bytes proposal bundle)
      ]
      | err _ ↦ broken
      | panic ↦ panicked
    ]
    | err _ ↦ broken
    | panic ↦ panicked
  ]

  -- A bid whose info is known, in the cached context.
  unfoldable pub verified_bid :
      Proposal → Env sdk → Tx → Bytes → Option BidInfo → BidRound (Env sdk)
  verified_bid proposal ctx bid_tx bz info =
      let (ctx', r) = verify_tx ctx bid_tx info in
      elim r [
        | ok _ ↦ elim (bundle_bytes proposal (transactions_of info)) [
          | built bundle ↦ chosen ctx' (bz ∷ bundle)
          | broken ↦ removed
          | present ↦ passed_over
          | panicked ↦ panicked
        ]
        | err _ ↦ removed
        | panic ↦ panicked
      ]

  -- A bid that could be encoded.
  unfoldable pub encoded_bid : Proposal → ℤ → Env sdk → Tx → Bytes → BidRound (Env sdk)
  encoded_bid proposal max_tx_bytes ctx bid_tx bz =
      if contains sdk proposal bz
      then passed_over
      else if ltb_ℤ max_tx_bytes (pos (length bz))
      then passed_over
      else elim (factory.get_auction_bid_info bid_tx) [
        | ok info ↦ verified_bid proposal ctx bid_tx bz info
        | err _ ↦ removed
        | panic ↦ panicked
      ]

  unfoldable pub bid_round : Proposal → ℤ → Env sdk → Tx → BidRound (Env sdk)
  bid_round proposal max_tx_bytes ctx bid_tx = elim (sdk.encode bid_tx) [
    | ok bz ↦ encoded_bid proposal max_tx_bytes ctx bid_tx bz
    | err _ ↦ removed
    | panic ↦ panicked
  ]

  -- The loop over the bids: the transactions to include and to remove, and the context.
  unfoldable pub bid_loop :
      Proposal → ℤ → Env sdk → List Tx → List Tx → Outcome (List Bytes × List Tx) × Env sdk
  bid_loop proposal max_tx_bytes ctx [] to_remove = (ok ([], to_remove), ctx)
  bid_loop proposal max_tx_bytes ctx (bid_tx ∷ bids) to_remove =
      elim (bid_round proposal max_tx_bytes ctx bid_tx) [
        | passed_over ↦ bid_loop proposal max_tx_bytes ctx bids to_remove
        | removed ↦ bid_loop proposal max_tx_bytes ctx bids (to_remove ++ (bid_tx ∷ []))
        | chosen ctx' txs ↦ (ok (txs, to_remove), record ctx { store = ctx'.store })
        | panicked ↦ (panic, ctx)
      ]

  -- Whether a transaction of the list matches.
  unfoldable pub any_match : Env sdk → List Tx → Bool
  any_match ctx [] = false
  any_match ctx (tx ∷ txs) = let rest = any_match ctx txs in match sdk l ctx tx || rest

  -- The loop of CheckOrderHandler over the bundle, whose length is known to suffice.
  unfoldable pub check_bundle : Env sdk → List Tx → List Bytes → Outcome (Unit {0})
  check_bundle ctx txs [] = ok tt
  check_bundle ctx [] (raw ∷ bundle) = panic
  check_bundle ctx (tx ∷ txs) (raw ∷ bundle) =
      if match sdk l ctx tx then err multiple_bids else elim (sdk.encode tx) [
        | ok bz ↦ elim (equal bz raw) [
          | true ↦ check_bundle ctx txs bundle
          | false ↦ err wrong_bundle
        ]
        | err e ↦ err (wrap e)
        | panic ↦ panic
      ]

  -- CheckOrderHandler behind a bid whose info is known.
  unfoldable pub check_bid_order : Env sdk → List Tx → Option BidInfo → Outcome (Unit {0})
  check_bid_order ctx txs none = panic
  check_bid_order ctx txs (some info) =
      let bundle = info.transactions in
      if ltb (length txs) (length bundle)
      then err missing_bundle
      else check_bundle ctx txs bundle
        >> (if any_match ctx (drop (length bundle) txs) then err multiple_bids else ok tt)

  -- ProcessLaneHandler behind a bid whose info is known.
  unfoldable pub process_bid : Env sdk → Tx → List Tx → Option BidInfo → Outcome (List Tx) × Env sdk
  process_bid ctx bid_tx txs info =
      let (ctx', r) = verify_tx ctx bid_tx info in
      elim r [
        | ok _ ↦ (slice_from (suc (length (transactions_of info))) (bid_tx ∷ txs), ctx')
        | err e ↦ (err (wrap e), ctx')
        | panic ↦ (panic, ctx')
      ]

module _ (sdk : Sdk) (factory : Factory sdk) {Pool : Type 0} where
  -- PrepareLaneHandler
  unfoldable pub prepare_lane_handler : PrepareLaneHandler sdk Pool
  prepare_lane_handler l ctx proposal max_tx_bytes =
      let (bids, pool) = l.mempool.select ctx l.pool in
      let (r, ctx') = bid_loop sdk factory l proposal max_tx_bytes ctx bids [] in (r, ctx', pool)

  -- ProcessLaneHandler
  unfoldable pub process_lane_handler : ProcessLaneHandler sdk Pool
  process_lane_handler l ctx [] = (ok [], ctx)
  process_lane_handler l ctx (bid_tx ∷ txs) =
      if match sdk l ctx bid_tx
      then elim (factory.get_auction_bid_info bid_tx) [
        | ok info ↦ process_bid sdk factory l ctx bid_tx txs info
        | err e ↦ (err (wrap e), ctx)
        | panic ↦ (panic, ctx)
      ]
      else (ok (bid_tx ∷ txs), ctx)

  -- CheckOrderHandler
  unfoldable pub check_order_handler : CheckOrderHandler sdk Pool
  check_order_handler l ctx [] = ok tt
  check_order_handler l ctx (bid_tx ∷ txs) =
      if match sdk l ctx bid_tx
      then elim (factory.get_auction_bid_info bid_tx) [
        | ok info ↦ check_bid_order sdk factory l ctx txs info
        | err e ↦ err (wrap e)
        | panic ↦ panic
      ]
      else if any_match sdk factory l ctx txs
      then err misplaced_bid
      else ok tt
