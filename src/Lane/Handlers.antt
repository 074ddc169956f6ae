-- ===== src/Lane/Handlers.antt =====
-- blockbuster/lane_handlers.go: the default handlers of a lane.
use pob.Prelude.{
  Bool, true, false, Option, none, some, List, [], ◌∷◌, ◌++◌, length, if◌then◌else◌, ◌==◌, not,
}
use pob.Prelude.Int.{ℤ, pos, negsuc, ltb_ℤ, add64}
use pob.Prelude.Outcome.{
  Outcome, ok, err, panic, wrap, ◌>>=◌, ◌>>◌, guard, interleaved, wrong_priority,
}
use pob.Sdk.{Sdk, Bytes, Tx}
use pob.Proposal.{Proposal, contains}
use pob.Lane.Defs.{
  Env, LaneConstructor, match, ante_verify_tx, PrepareLaneHandler, ProcessLaneHandler,
  CheckOrderHandler, MatchHandler,
}

-- The variables of the selection loop.
pub record Selection : Type 0 where
  pub total_size : ℤ
  pub txs : List Bytes
  pub txs_to_remove : List Tx

abbrev pub start : Selection
start = record { total_size = pos 0; txs = []; txs_to_remove = [] }

-- `txsToRemove = append(txsToRemove, tx); continue`
unfoldable pub reject : Tx → Selection → Selection
reject tx s = record s { txs_to_remove = s.txs_to_remove ++ (tx ∷ []) }

-- `totalSize += txSize; txs = append(txs, txBytes)`
unfoldable pub include : Bytes → Selection → Selection
include bz s = record s {
  total_size = add64 s.total_size (pos (length bz));
  txs = s.txs ++ (bz ∷ []);
}

-- How a round of the loop ends: it goes on, it breaks, or it panics.
pub data Round (E : Type 0) : Type 0 where
  continue : E → Selection → Round E
  break : Selection → Round E
  panicked : E → Round E

abbrev pub is_minus_one : ℤ → Bool
is_minus_one (pos n) = false
is_minus_one (negsuc n) = n == 0

module _ (sdk : Sdk) {Pool : Type 0} (l : LaneConstructor sdk Pool) where
  -- The transaction is verified, and taken if it is valid.
  unfoldable pub verify_round : Env sdk → Selection → Tx → Bytes → Round (Env sdk)
  unfolding reject include
  verify_round ctx s tx bz =
      let (ctx', r) = ante_verify_tx sdk l ctx tx false in
      elim r [
        | ok _ ↦ continue ctx' (include bz s)
        | err _ ↦ continue ctx' (reject tx s)
        | panic ↦ panicked ctx'
      ]

  -- The round of a transaction that could be encoded.
  unfoldable pub encoded_round : Proposal → ℤ → Env sdk → Selection → Tx → Bytes → Round (Env sdk)
  encoded_round proposal max_tx_bytes ctx s tx bz =
      if not (match sdk l ctx tx)
      then continue ctx (reject tx s)
      else if contains sdk proposal bz
      then continue ctx s
      else if ltb_ℤ max_tx_bytes (add64 s.total_size (pos (length bz)))
      then break s
      else verify_round ctx s tx bz

  unfoldable pub select_round : Proposal → ℤ → Env sdk → Selection → Tx → Round (Env sdk)
  select_round proposal max_tx_bytes ctx s tx = elim (sdk.encode tx) [
    | ok bz ↦ encoded_round proposal max_tx_bytes ctx s tx bz
    | err _ ↦ continue ctx (reject tx s)
    | panic ↦ panicked ctx
  ]

  -- The loop over the transactions of the mempool.
  unfoldable pub select_loop :
      Proposal → ℤ → Env sdk → Selection → List Tx → Outcome Selection × Env sdk
  select_loop proposal max_tx_bytes ctx s [] = (ok s, ctx)
  select_loop proposal max_tx_bytes ctx s (tx ∷ txs) =
      elim (select_round proposal max_tx_bytes ctx s tx) [
        | continue ctx' s' ↦ select_loop proposal max_tx_bytes ctx' s' txs
        | break s' ↦ (ok s', ctx)
        | panicked ctx' ↦ (panic, ctx')
      ]

  -- The loop of DefaultProcessLaneHandler.
  unfoldable pub process_loop : Env sdk → List Tx → Outcome (List Tx) × Env sdk
  process_loop ctx [] = (ok [], ctx)
  process_loop ctx (tx ∷ txs) = elim (match sdk l ctx tx) [
    | true ↦
        let (ctx', r) = ante_verify_tx sdk l ctx tx false in
        elim r [
          | ok _ ↦ process_loop ctx' txs
          | err e ↦ (err (wrap e), ctx')
          | panic ↦ (panic, ctx')
        ]
    | false ↦ (ok (tx ∷ txs), ctx)
  ]

  -- `index > 0 && l.Compare(ctx, txs[index-1], tx) == -1`
  unfoldable pub check_priority : Env sdk → Option Tx → Tx → Outcome (Unit {0})
  check_priority ctx none tx = ok tt
  check_priority ctx (some prev) tx = do
    c ← l.mempool.compare ctx prev tx
    guard (not (is_minus_one c)) wrong_priority

  -- The loop of DefaultCheckOrderHandler, with `seenOtherLaneTx` and the transaction before.
  unfoldable pub check_order_loop : Env sdk → Bool → Option Tx → List Tx → Outcome (Unit {0})
  check_order_loop ctx seen prev [] = ok tt
  check_order_loop ctx seen prev (tx ∷ txs) = elim (match sdk l ctx tx) [
    | true ↦ elim seen [
      | true ↦ err interleaved
      | false ↦ check_priority ctx prev tx >> check_order_loop ctx false (some tx) txs
    ]
    | false ↦ check_order_loop ctx true (some tx) txs
  ]

module _ (sdk : Sdk) {Pool : Type 0} where
  abbrev pub selected :
      Outcome Selection × Env sdk → Pool → Outcome (List Bytes × List Tx) × Env sdk × Pool
  selected (ok s, ctx) pool = (ok (s.txs, s.txs_to_remove), ctx, pool)
  selected (err e, ctx) pool = (err e, ctx, pool)
  selected (panic, ctx) pool = (panic, ctx, pool)

  -- DefaultPrepareLaneHandler
  unfoldable pub default_prepare_lane_handler : PrepareLaneHandler sdk Pool
  default_prepare_lane_handler l ctx proposal max_tx_bytes =
      let (txs, pool) = l.mempool.select ctx l.pool in
      selected (select_loop sdk l proposal max_tx_bytes ctx start txs) pool

  -- DefaultProcessLaneHandler
  unfoldable pub default_process_lane_handler : ProcessLaneHandler sdk Pool
  default_process_lane_handler l ctx txs = process_loop sdk l ctx txs

  -- DefaultCheckOrderHandler
  unfoldable pub default_check_order_handler : CheckOrderHandler sdk Pool
  default_check_order_handler l ctx txs = check_order_loop sdk l ctx false none txs

-- DefaultMatchHandler
unfoldable pub default_match_handler : (sdk : Sdk) → MatchHandler sdk
default_match_handler sdk ctx tx = true
