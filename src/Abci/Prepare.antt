-- ===== src/Abci/Prepare.antt =====
-- ChainPrepareLanes, PrepareLane, and PrepareProposalHandler.
use pob.Prelude.{ℕ, List, [], ◌∷◌, length, leb, if◌then◌else◌}
use pob.Prelude.Int.{ℤ}
use pob.Prelude.Outcome.{Outcome, ok, err, panic}
use pob.Sdk.{Sdk, Bytes}
use pob.Proposal.{Proposal, new_proposal, update_proposal, get_max_tx_bytes_for_lane, get_proposal}
use pob.Lane.{Env, Lane, ChainLane, lane, terminator, remove_txs_from_lane}

-- What a chain of lanes leaves: how it ended, the store of its context, the proposal and the lanes.
pub record Prepared (sdk : Sdk) (Pool : Type 0) : Type 0 where
  pub outcome : Outcome (Unit {0})
  pub store : sdk.Store
  pub proposal : Proposal
  pub lanes : List (ChainLane sdk Pool)

-- PrepareLanesHandler
abbrev pub PrepareNext : Sdk → Type 0 → Type 0
PrepareNext sdk Pool = Env sdk → Proposal → Prepared sdk Pool

module _ (sdk : Sdk) {Pool : Type 0} where
  -- `chain = append(chain, terminator.Terminator{})`, unless it ends in one.
  unfoldable pub close_chain : List (ChainLane sdk Pool) → List (ChainLane sdk Pool)
  close_chain [] = []
  close_chain (terminator ∷ []) = terminator ∷ []
  close_chain (lane l ∷ []) = lane l ∷ terminator ∷ []
  close_chain (x ∷ y ∷ rest) = x ∷ close_chain (y ∷ rest)

  abbrev pub with_pool : Lane sdk Pool → Pool → Lane sdk Pool
  with_pool l pool = record l { self = record (l.self) { pool = pool } }

  abbrev pub ended :
      Outcome (Unit {0}) → Env sdk → Proposal → List (ChainLane sdk Pool) → Prepared sdk Pool
  ended r ctx proposal lanes = record {
    outcome = r;
    store = ctx.store;
    proposal = proposal;
    lanes = lanes;
  }

  -- The rest of PrepareLane, from the call of UpdateProposal on.
  unfoldable pub propose :
      Lane sdk Pool
      → PrepareNext sdk Pool
      → List (ChainLane sdk Pool)
      → Env sdk
      → List Bytes
      → Proposal
      → Prepared sdk Pool
  propose l next rest ctx txs proposal =
      let (r, proposal') = update_proposal sdk l.cfg.max_block_space txs proposal in
      elim r [
        | ok _ ↦ let p = next ctx proposal' in record p { lanes = lane l ∷ p.lanes }
        | err e ↦ ended (err e) ctx proposal' (lane l ∷ rest)
        | panic ↦ ended panic ctx proposal' (lane l ∷ rest)
      ]

  -- PrepareLane. `rest` is the lanes behind this one, which `next` runs. An error of the removal is
  -- only logged. The next lanes get the lane's own context, over the store that the handler wrote.
  unfoldable pub prepare_lane :
      Lane sdk Pool
      → PrepareNext sdk Pool
      → List (ChainLane sdk Pool)
      → Env sdk
      → Proposal
      → ℤ
      → Prepared sdk Pool
  prepare_lane l next rest ctx proposal max_tx_bytes =
      let (r, handled, pool) = l.prepare_lane_handler l.self ctx proposal max_tx_bytes in
      let after : Env sdk = record ctx { store = handled.store } in
      elim r [
        | ok (txs, txs_to_remove) ↦
            let (removal, pool') = remove_txs_from_lane sdk l.mempool txs_to_remove pool in
            let failed = ended panic after proposal (lane (with_pool l pool') ∷ rest) in
            let done = propose (with_pool l pool') next rest after txs proposal in
            elim removal [ ok _ ↦ done | err _ ↦ done | panic ↦ failed ]
        | err e ↦ ended (err e) after proposal (lane (with_pool l pool) ∷ rest)
        | panic ↦ ended panic after proposal (lane (with_pool l pool) ∷ rest)
      ]

  -- The body of the function of ChainPrepareLanes for the first lane of the chain, on the cached context.
  unfoldable pub prepare_element :
      ChainLane sdk Pool
      → PrepareNext sdk Pool
      → List (ChainLane sdk Pool)
      → Env sdk
      → Proposal
      → Prepared sdk Pool
  prepare_element terminator next rest ctx proposal = ended (ok tt) ctx proposal (terminator ∷ rest)
  prepare_element (lane l) next rest ctx proposal =
      elim (get_max_tx_bytes_for_lane sdk proposal.max_tx_bytes proposal.total_tx_bytes
        l.cfg.max_block_space) [
          | ok max_tx_bytes ↦ prepare_lane l next rest ctx proposal max_tx_bytes
          | err e ↦ ended (err e) ctx proposal (lane l ∷ rest)
          | panic ↦ ended panic ctx proposal (lane l ∷ rest)
        ]

  -- The deferred function after an error or a panic: with at most two lanes in the chain the proposal
  -- is returned as it is, else the chain goes on behind the lane, on the context that was not cached.
  unfoldable pub recover_lane :
      PrepareNext sdk Pool
      → ℕ
      → Env sdk
      → Prepared sdk Pool
      → List (ChainLane sdk Pool)
      → Prepared sdk Pool
  recover_lane next lanes_remaining ctx p [] = ended (ok tt) ctx p.proposal []
  recover_lane next lanes_remaining ctx p (l ∷ rest) =
      let go_on = next ctx p.proposal in
      if leb lanes_remaining 2
      then ended (ok tt) ctx p.proposal (l ∷ rest)
      else record go_on { lanes = l ∷ go_on.lanes }

  -- The deferred function: recover, or write the cached store.
  unfoldable pub finish_lane :
      PrepareNext sdk Pool → ℕ → Env sdk → Prepared sdk Pool → Prepared sdk Pool
  finish_lane next lanes_remaining ctx p = elim p.outcome [
    | ok _ ↦ p
    | err _ ↦ recover_lane next lanes_remaining ctx p p.lanes
    | panic ↦ recover_lane next lanes_remaining ctx p p.lanes
  ]

  -- The handler that ChainPrepareLanes makes of a closed chain; that of no lanes is a nil function.
  unfoldable pub prepare_chain : List (ChainLane sdk Pool) → PrepareNext sdk Pool
  prepare_chain [] ctx proposal = ended panic ctx proposal []
  prepare_chain (l ∷ rest) ctx proposal =
      finish_lane (prepare_chain rest) (length (l ∷ rest)) ctx
        (prepare_element l (prepare_chain rest) rest ctx proposal)

  -- ChainPrepareLanes
  unfoldable pub chain_prepare_lanes : List (ChainLane sdk Pool) → PrepareNext sdk Pool
  chain_prepare_lanes chain = prepare_chain (close_chain chain)

  -- The response: its transactions, its error and the lanes. After a panic it is empty and the error nil.
  unfoldable pub prepare_response :
      Prepared sdk Pool → List Bytes × Outcome (Unit {0}) × List (ChainLane sdk Pool)
  prepare_response p = elim p.outcome [
    | ok _ ↦ (get_proposal p.proposal, ok tt, p.lanes)
    | err e ↦ ([], err e, p.lanes)
    | panic ↦ ([], ok tt, p.lanes)
  ]

  -- PrepareProposalHandler
  unfoldable pub prepare_proposal :
      List (ChainLane sdk Pool)
      → Env sdk
      → ℤ
      → List Bytes × Outcome (Unit {0}) × List (ChainLane sdk Pool)
  prepare_proposal chain ctx max_tx_bytes =
      prepare_response (chain_prepare_lanes chain ctx (new_proposal max_tx_bytes))
