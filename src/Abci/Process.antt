-- ===== src/Abci/Process.antt =====
-- ChainProcessLanes, ProcessLane, GetDecodedTxs of blockbuster/utils/utils.go, and
-- ProcessProposalHandler.
use pob.Prelude.{List, [], ◌∷◌}
use pob.Prelude.Outcome.{Outcome, ok, err, panic, ◌>>=◌, wrapped, recovered}
use pob.Sdk.{Sdk, Bytes, Tx}
use pob.Lane.{Env, Lane, ChainLane, lane, terminator}
use pob.Abci.Prepare.{close_chain}

module _ (sdk : Sdk) {Pool : Type 0} where
  -- ProcessLane: the next lanes get the caller's context, over the store that the handler wrote.
  unfoldable pub process_lane :
      Lane sdk Pool
      → (Env sdk → List Tx → Outcome (Unit {0}) × Env sdk)
      → Env sdk
      → List Tx
      → Outcome (Unit {0}) × Env sdk
  process_lane l next ctx txs =
      let (r, handled) = l.process_lane_handler l.self ctx txs in
      let after : Env sdk = record ctx { store = handled.store } in
      elim r [
        | ok remaining ↦ next after remaining
        | err e ↦ (err e, after)
        | panic ↦ (panic, after)
      ]

  -- The handler that ChainProcessLanes makes of a closed chain; that of no lanes is a nil function.
  -- The Terminator's CheckOrder and ProcessLane accept anything.
  unfoldable pub process_chain :
      List (ChainLane sdk Pool) → Env sdk → List Tx → Outcome (Unit {0}) × Env sdk
  process_chain [] ctx txs = (panic, ctx)
  process_chain (l ∷ rest) ctx [] = (ok tt, ctx)
  process_chain (terminator ∷ rest) ctx (tx ∷ txs) = (ok tt, ctx)
  process_chain (lane l ∷ rest) ctx (tx ∷ txs) =
      elim (l.check_order_handler l.self ctx (tx ∷ txs)) [
        | ok _ ↦ process_lane l (process_chain rest) ctx (tx ∷ txs)
        | err e ↦ (err e, ctx)
        | panic ↦ (panic, ctx)
      ]

  -- ChainProcessLanes
  unfoldable pub chain_process_lanes :
      List (ChainLane sdk Pool) → Env sdk → List Tx → Outcome (Unit {0}) × Env sdk
  chain_process_lanes chain = process_chain (close_chain sdk chain)

-- GetDecodedTxs
unfoldable pub get_decoded_txs : (sdk : Sdk) → List Bytes → Outcome (List Tx)
get_decoded_txs sdk [] = ok []
get_decoded_txs sdk (bz ∷ rest) = do
  tx ← wrapped (sdk.decode bz)
  txs ← get_decoded_txs sdk rest
  ok (tx ∷ txs)

-- The status of ResponseProcessProposal.
pub data Status : Type 0 where
  accept reject : Status

abbrev pub respond : Outcome (Unit {0}) → Status × Outcome (Unit {0})
respond (ok _) = (accept, ok tt)
respond (err e) = (reject, err e)
respond panic = (reject, err recovered)

module _ (sdk : Sdk) {Pool : Type 0} where
  -- ProcessProposalHandler
  unfoldable pub process_proposal :
      List (ChainLane sdk Pool) → Env sdk → List Bytes → Status × Outcome (Unit {0})
  process_proposal chain ctx [] = (accept, ok tt)
  process_proposal chain ctx (bz ∷ rest) =
      respond (do txs ← get_decoded_txs sdk (bz ∷ rest); (chain_process_lanes sdk chain ctx txs).0)
