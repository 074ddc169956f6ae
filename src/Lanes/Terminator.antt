-- ===== src/Lanes/Terminator.antt =====
-- Terminator of blockbuster/lanes/terminator/lane.go, the lane at the end of a chain: its methods do nothing. What follows
-- PrepareLane and ProcessLane of a chain is in Abci/Prepare.antt and Abci/Process.antt.
use pob.Prelude.{false, String, List, []}
use pob.Prelude.Int.{pos}
use pob.Prelude.Outcome.{Outcome, ok, panic}
use pob.Sdk.{Sdk, Tx}
use pob.Proposal.{Proposal}
use pob.Lane.{Env, MatchHandler, LaneMempool, PrepareLaneHandler, ProcessLaneHandler}

module _ (sdk : Sdk) where
  -- Terminator.PrepareLane, CheckOrder and ProcessLane
  unfoldable pub terminator_prepare_lane : Env sdk → Proposal → Outcome Proposal
  terminator_prepare_lane ctx proposal = ok proposal

  unfoldable pub terminator_check_order : Env sdk → List Tx → Outcome (Unit {0})
  terminator_check_order ctx txs = ok tt

  unfoldable pub terminator_process_lane : Env sdk → List Tx → Outcome (Env sdk)
  terminator_process_lane ctx txs = ok ctx

  -- Terminator.GetMaxBlockSpace, Name and Match
  unfoldable pub terminator_max_block_space : sdk.decimals.LegacyDec
  terminator_max_block_space = sdk.decimals.zero_dec

  abbrev pub terminator_name : String
  terminator_name = "Terminator"

  unfoldable pub terminator_match : MatchHandler sdk
  terminator_match ctx tx = false

  -- Contains, CountTx, Insert, Remove, Select and Compare of the terminator, which has no state.
  unfoldable pub terminator_mempool : LaneMempool sdk (Unit {0})
  terminator_mempool = record {
    insert = λ ctx tx pool. (ok tt, pool);
    remove = λ tx pool. (ok tt, pool);
    select = λ ctx pool. ([], pool);
    count_tx = λ pool. 0;
    contains = λ tx pool. false;
    compare = λ ctx this other. ok (pos 0);
  }

-- The handlers of blockbuster/types.go for tests: NoOpPrepareLanesHandler and NoOpProcessLanesHandler.
unfoldable pub no_op_prepare_lanes_handler : (sdk : Sdk) → Env sdk → Proposal → Outcome Proposal
no_op_prepare_lanes_handler sdk ctx proposal = ok proposal

unfoldable pub no_op_process_lanes_handler : (sdk : Sdk) → Env sdk → List Tx → Outcome (Env sdk)
no_op_process_lanes_handler sdk ctx txs = ok ctx

-- And those of one lane.
module _ (sdk : Sdk) {Pool : Type 0} where
  -- NoOpPrepareLaneHandler
  unfoldable pub no_op_prepare_lane_handler : PrepareLaneHandler sdk Pool
  no_op_prepare_lane_handler l ctx proposal max_tx_bytes = (ok ([], []), ctx, l.pool)

  -- PanicPrepareLaneHandler
  unfoldable pub panic_prepare_lane_handler : PrepareLaneHandler sdk Pool
  panic_prepare_lane_handler l ctx proposal max_tx_bytes = (panic, ctx, l.pool)

  -- NoOpProcessLaneHandler
  unfoldable pub no_op_process_lane_handler : ProcessLaneHandler sdk Pool
  no_op_process_lane_handler l ctx txs = (ok txs, ctx)

  -- PanicProcessLaneHandler
  unfoldable pub panic_process_lane_handler : ProcessLaneHandler sdk Pool
  panic_process_lane_handler l ctx txs = (panic, ctx)
