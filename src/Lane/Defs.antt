-- ===== src/Lane/Defs.antt =====
-- The types of a lane, Match, AnteVerifyTx, and RemoveTxsFromLane of blockbuster/utils/utils.go.
use pob.Prelude.{ℕ, Bool, not, ◌&&◌, String, Option, none, some, List, [], ◌∷◌, any}
use pob.Prelude.Int.{ℤ}
use pob.Prelude.Outcome.{Outcome, ok, err, panic}
use pob.Sdk.{Sdk, Bytes, Tx, Context}
use pob.Proposal.{Proposal}

abbrev pub Env : Sdk → Type 0
Env sdk = Context sdk.Ctx sdk.Store

abbrev pub MatchHandler : Sdk → Type 0
MatchHandler sdk = Env sdk → Tx → Bool

-- An ante handler returns the context to go on with, whose store it may have written to.
abbrev pub AnteHandler : Sdk → Type 0
AnteHandler sdk = Env sdk → Tx → Bool → Env sdk × Outcome (Unit {0})

-- The interface LaneMempool, over the state `Pool` of a mempool. `select` gives the transactions in
-- the order in which the iterator hands them out.
pub record LaneMempool (sdk : Sdk) (Pool : Type 0) : Type 0 where
  pub insert : Env sdk → Tx → Pool → Outcome (Unit {0}) × Pool
  pub remove : Tx → Pool → Outcome (Unit {0}) × Pool
  pub select : Env sdk → Pool → List Tx × Pool
  pub count_tx : Pool → ℕ
  pub contains : Tx → Pool → Bool
  pub compare : Env sdk → Tx → Tx → Outcome ℤ

-- The ignore list holds the Match methods of the lanes in it.
pub record LaneConfig (sdk : Sdk) : Type 0 where
  pub ante_handler : Option (AnteHandler sdk)
  pub max_block_space : sdk.decimals.LegacyDec
  pub ignore_list : List (MatchHandler sdk)
  pub max_txs : ℤ

-- The fields that a lane's handlers read.
pub record LaneConstructor (sdk : Sdk) (Pool : Type 0) : Type 0 where
  pub cfg : LaneConfig sdk
  pub lane_name : String
  pub mempool : LaneMempool sdk Pool
  pub pool : Pool
  pub match_handler : MatchHandler sdk

-- A handler returns the transactions to include and to remove; it may write to the store of its
-- context, and selecting may change the mempool. In Go it is given the proposal itself: here it only reads it, as all
-- handlers of the repository do, which call neither UpdateProposal nor AddVoteExtension.
abbrev pub PrepareLaneHandler : Sdk → Type 0 → Type 0
PrepareLaneHandler sdk Pool =
    LaneConstructor sdk Pool
    → Env sdk
    → Proposal
    → ℤ
    → Outcome (List Bytes × List Tx) × Env sdk × Pool

abbrev pub ProcessLaneHandler : Sdk → Type 0 → Type 0
ProcessLaneHandler sdk Pool =
    LaneConstructor sdk Pool → Env sdk → List Tx → Outcome (List Tx) × Env sdk

abbrev pub CheckOrderHandler : Sdk → Type 0 → Type 0
CheckOrderHandler sdk Pool = LaneConstructor sdk Pool → Env sdk → List Tx → Outcome (Unit {0})

pub record Lane (sdk : Sdk) (Pool : Type 0) : Type 0 where
  pub self : LaneConstructor sdk Pool
  pub open self use *
  pub prepare_lane_handler : PrepareLaneHandler sdk Pool
  pub process_lane_handler : ProcessLaneHandler sdk Pool
  pub check_order_handler : CheckOrderHandler sdk Pool

-- An element of a chain: a lane, or the Terminator of blockbuster/lanes/terminator/lane.go.
pub data ChainLane (sdk : Sdk) (Pool : Type 0) : Type 0 where
  lane : Lane sdk Pool → ChainLane sdk Pool
  terminator : ChainLane sdk Pool

module _ (sdk : Sdk) {Pool : Type 0} where
  -- CheckIgnoreList
  unfoldable pub check_ignore_list : LaneConstructor sdk Pool → Env sdk → Tx → Bool
  check_ignore_list l ctx tx = any (λ m. m ctx tx) l.cfg.ignore_list

  -- Match
  unfoldable pub match : LaneConstructor sdk Pool → Env sdk → Tx → Bool
  match l ctx tx = l.match_handler ctx tx && not (check_ignore_list l ctx tx)

  -- AnteVerifyTx
  unfoldable pub ante_verify_tx :
      LaneConstructor sdk Pool → Env sdk → Tx → Bool → Env sdk × Outcome (Unit {0})
  ante_verify_tx l ctx tx simulate = elim l.cfg.ante_handler [
    | some handler ↦ handler ctx tx simulate
    | none ↦ (ctx, ok tt)
  ]

  -- RemoveTxsFromLane stops at the first error.
  unfoldable pub remove_txs_from_lane :
      LaneMempool sdk Pool → List Tx → Pool → Outcome (Unit {0}) × Pool
  remove_txs_from_lane mempool [] pool = (ok tt, pool)
  remove_txs_from_lane mempool (tx ∷ txs) pool =
      let (r, pool') = mempool.remove tx pool in
      elim r [
        | ok _ ↦ remove_txs_from_lane mempool txs pool'
        | err e ↦ (err e, pool')
        | panic ↦ (panic, pool')
      ]
