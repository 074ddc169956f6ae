-- ===== src/Mempool.antt =====
-- blockbuster/mempool.go: BBMempool, a registry of lanes, and its operations. The errors of several lanes,
-- which the code joins into one text, are one error here.
pub mod Exclusive
pub mod Shares
use pob.Prelude.{
  ℕ, ◌+◌, Bool, true, false, not, ◌&&◌, ◌||◌, String, List, [], ◌∷◌, ◌++◌, any, sum_by, map, str_eq,
  if◌then◌else◌,
}
use pob.Prelude.Outcome.{
  Outcome, ok, err, panic, ◌>>◌, guard, Error, tx_not_found, lanes_failed, recovered, sum_too_large,
  sum_too_small, lane_missing,
}
use pob.Sdk.{Sdk, Tx}
use pob.Lane.{Env, MatchHandler, Lane, LaneConstructor, match}

-- Of a lane's error on removal, ErrTxNotFound does not count.
unfoldable pub counts : Error → Bool
counts tx_not_found = false
counts e = true

-- The error of a loop over the lanes: whether one of them failed; a panic is recovered.
unfoldable pub joined : Outcome Bool → Outcome (Unit {0})
joined (ok failed) = guard (not failed) lanes_failed
joined (err e) = err e
joined panic = err recovered

module _ (sdk : Sdk) {Pool : Type 0} where
  open sdk use {decimals}

  abbrev pub with_pool : Lane sdk Pool → Pool → Lane sdk Pool
  with_pool l pool = record l { self = record (l.self) { pool = pool } }

  -- SetIgnoreList
  abbrev pub with_ignore_list : List (MatchHandler sdk) → Lane sdk Pool → Lane sdk Pool
  with_ignore_list lanes l = record l {
    self = record (l.self) { cfg = record (l.self.cfg) { ignore_list = lanes } };
  }

  -- The loop of ValidateBasic: the sum of the block spaces, and whether one is zero.
  unfoldable pub space_loop :
      decimals.LegacyDec → Bool → List (Lane sdk Pool) → decimals.LegacyDec × Bool
  space_loop sum seen [] = (sum, seen)
  space_loop sum seen (l ∷ rest) =
      let space = l.self.cfg.max_block_space in
      space_loop (decimals.add sum space) (decimals.is_zero space || seen) rest

  -- ValidateBasic
  unfoldable pub validate_basic : List (Lane sdk Pool) → Outcome (Unit {0})
  validate_basic registry =
      let (sum, seen_zero_max_block_space) = space_loop decimals.zero_dec false registry in
      if decimals.gt sum decimals.one_dec
      then err sum_too_large
      else if decimals.lt sum decimals.one_dec && not seen_zero_max_block_space
      then err sum_too_small
      else ok tt

  -- The loop of NewMempool over the lanes behind the first. Each ignores the lanes before it, as they are
  -- with their own ignore lists set.
  unfoldable pub ignore_loop : List (MatchHandler sdk) → List (Lane sdk Pool) → List (Lane sdk Pool)
  ignore_loop before [] = []
  ignore_loop before (l ∷ rest) =
      let ignoring = with_ignore_list before l in
      ignoring ∷ ignore_loop (before ++ (match sdk ignoring.self ∷ [])) rest

  unfoldable pub set_ignore_lists : List (Lane sdk Pool) → List (Lane sdk Pool)
  set_ignore_lists [] = []
  set_ignore_lists (l ∷ rest) = l ∷ ignore_loop (match sdk l.self ∷ []) rest

  -- NewMempool, which panics on an invalid registry.
  unfoldable pub new_mempool : Bool → List (Lane sdk Pool) → Outcome (List (Lane sdk Pool))
  new_mempool mutex lanes = elim (validate_basic lanes) [
    | ok _ ↦ ok (if mutex then set_ignore_lists lanes else lanes)
    | err e ↦ panic
    | panic ↦ panic
  ]

  -- CountTx
  unfoldable pub count_tx : List (Lane sdk Pool) → ℕ
  count_tx = sum_by (λ l. l.self.mempool.count_tx l.self.pool)

  -- GetTxDistribution, as the list of its entries. A later lane overwrites one of its name.
  unfoldable pub get_tx_distribution : List (Lane sdk Pool) → List (String × ℕ)
  get_tx_distribution = map (λ l. (l.self.lane_name, l.self.mempool.count_tx l.self.pool))

  -- What one lane's answer makes of the answer for the lanes behind it.
  abbrev pub after_lane :
      Bool
      → Lane sdk Pool
      → Outcome Bool × List (Lane sdk Pool)
      → Outcome Bool × List (Lane sdk Pool)
  after_lane failed l (ok more, lanes) = (ok (failed || more), l ∷ lanes)
  after_lane failed l (err e, lanes) = (err e, l ∷ lanes)
  after_lane failed l (panic, lanes) = (panic, l ∷ lanes)

  -- The lanes behind one lane's Insert, unless it panics. The lane is as its mempool left it.
  abbrev pub after_insert :
      Lane sdk Pool
      → List (Lane sdk Pool)
      → Outcome Bool × List (Lane sdk Pool)
      → Outcome (Unit {0})
      → Outcome Bool × List (Lane sdk Pool)
  after_insert l rest behind (ok _) = after_lane false l behind
  after_insert l rest behind (err e) = after_lane true l behind
  after_insert l rest behind panic = (panic, l ∷ rest)

  abbrev pub insert_lane :
      Env sdk
      → Tx
      → Lane sdk Pool
      → List (Lane sdk Pool)
      → Outcome Bool × List (Lane sdk Pool)
      → Outcome Bool × List (Lane sdk Pool)
  insert_lane ctx tx l rest behind =
      let (r, pool) = l.self.mempool.insert ctx tx l.self.pool in
      after_insert (with_pool l pool) rest behind r

  unfoldable pub insert_loop :
      Env sdk → Tx → List (Lane sdk Pool) → Outcome Bool × List (Lane sdk Pool)
  insert_loop ctx tx [] = (ok false, [])
  insert_loop ctx tx (l ∷ rest) =
      let behind = insert_loop ctx tx rest in
      if match sdk l.self ctx tx
      then insert_lane ctx tx l rest behind
      else after_lane false l behind

  -- Insert
  unfoldable pub insert :
      Env sdk → Tx → List (Lane sdk Pool) → Outcome (Unit {0}) × List (Lane sdk Pool)
  insert ctx tx registry = let (r, lanes) = insert_loop ctx tx registry in (joined r, lanes)

  abbrev pub remove_lane :
      Tx
      → Lane sdk Pool
      → List (Lane sdk Pool)
      → Outcome Bool × List (Lane sdk Pool)
      → Outcome Bool × List (Lane sdk Pool)
  remove_lane tx l rest behind =
      let (r, pool) = l.self.mempool.remove tx l.self.pool in
      elim r [
        | ok _ ↦ after_lane false (with_pool l pool) behind
        | err e ↦ after_lane (counts e) (with_pool l pool) behind
        | panic ↦ (panic, with_pool l pool ∷ rest)
      ]

  unfoldable pub remove_loop : Tx → List (Lane sdk Pool) → Outcome Bool × List (Lane sdk Pool)
  remove_loop tx [] = (ok false, [])
  remove_loop tx (l ∷ rest) =
      let behind = remove_loop tx rest in
      if l.self.mempool.contains tx l.self.pool
      then remove_lane tx l rest behind
      else after_lane false l behind

  -- Remove
  unfoldable pub remove : Tx → List (Lane sdk Pool) → Outcome (Unit {0}) × List (Lane sdk Pool)
  remove tx registry = let (r, lanes) = remove_loop tx registry in (joined r, lanes)

  -- Contains
  unfoldable pub contains : Tx → List (Lane sdk Pool) → Bool
  contains tx = any (λ l. l.self.mempool.contains tx l.self.pool)

  -- GetLane
  unfoldable pub get_lane : String → List (Lane sdk Pool) → Outcome (Lane sdk Pool)
  get_lane name [] = err lane_missing
  get_lane name (l ∷ rest) = if str_eq l.self.lane_name name then ok l else get_lane name rest
