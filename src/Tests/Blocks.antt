-- ===== src/Tests/Blocks.antt =====
-- Proposals, lanes and chains of lanes at concrete inputs.
use pob.Prelude.{
  ◌+◌, ◌*◌, ◌^◌, ◌≤◌, ◌<◌, ◌≡◌, ◌↔◌, ◌⊎◌, inl, inr, refl, false, none, List, [], ◌∷◌, ◌++◌, arith,
  All, length,
}
use pob.Prelude.Int.{pos, sub64, add64}
use pob.Prelude.Outcome.{ok, err, panic, lane_limit}
use pob.Sdk.{Bytes, Tx}
use pob.Proposal.{
  new_proposal, update_proposal, get_max_tx_bytes_for_lane, commit_partial, partial_size,
  add_hashes, add_key, get_proposal,
}
use pob.Proposal.Arith.{bytes}
use pob.Proposal.Invariant.{IsValid, new_proposal-IsValid}
use pob.Proposal.Update.{
  update_proposal-IsValid, update_proposal-AllOrNothing, update_proposal-ok_iff, AllOrNothing,
}
use pob.Lane.{
  Env, LaneConstructor, LaneMempool, Lane, ChainLane, lane, terminator, ante_verify_tx,
  remove_txs_from_lane,
}
use pob.Lane.Handlers.{
  default_prepare_lane_handler, default_process_lane_handler, default_check_order_handler,
  default_match_handler,
}
use pob.Lane.Order.{InOrder, default_check_order_iff}
use pob.Lane.Select.{Selects, Panics}
use pob.Lane.Reap.{default_prepare_lane_handler-Selects}
use pob.Lane.Verify.{Processed, default_process_lane_handler_iff}
use pob.Abci.{
  chain_prepare_lanes, prepare_chain, prepare_proposal, prepare_response, close_chain,
  prepare_element, prepare_lane, propose, finish_lane, recover_lane,
}
use pob.Abci.Respects.{IsModest}
use pob.Abci.Proposals.{chain_prepare_lanes-IsValid, prepare_proposal-fits, Grows}
use pob.Abci.{chain_process_lanes}
use pob.Abci.Accepts.{AcceptedBy, default_lane, chain_process_lanes_iff}
use pob.Abci.Skip.{prepare_chain_skips, SameResult, handler_panic}
use pob.Tests.Fixture.{simple_sdk, deliver, plain_tx}

abbrev pub ctx : Env simple_sdk
ctx = record { values = deliver; store = [] }

-- A lane's mempool as a list, compared by the sizes of the transactions.
abbrev pub listed : LaneMempool simple_sdk (List Tx)
listed = record {
  insert = λ c tx pool. (ok tt, pool ++ (tx ∷ []));
  remove = λ tx pool. (ok tt, pool);
  select = λ c pool. (pool, pool);
  count_tx = length;
  contains = λ tx pool. false;
  compare = λ c a b. ok (pos 0);
}

-- Half of the block for the lane.
abbrev half_lane : LaneConstructor simple_sdk (List Tx)
half_lane = record {
  cfg = record {
    ante_handler = none;
    max_block_space = pos (5 * 10 ^ 17);
    ignore_list = [];
    max_txs = pos 0;
  };
  lane_name = "half";
  mempool = listed;
  pool = plain_tx (1 ∷ 2 ∷ []) ∷ plain_tx (3 ∷ []) ∷ [];
  match_handler = default_match_handler simple_sdk;
}

abbrev one_tx : Bytes
one_tx = 1 ∷ 2 ∷ 3 ∷ []

update_proposal-IsValid_example :
    IsValid simple_sdk 10
      (update_proposal simple_sdk (pos 0) (one_tx ∷ []) (new_proposal (pos 10))).1
update_proposal-IsValid_example =
    update_proposal-IsValid simple_sdk 10 (pos 0) (one_tx ∷ []) (new_proposal (pos 10))
      (omega arith) (omega arith) (new_proposal-IsValid simple_sdk 10)

update_proposal-AllOrNothing_example :
    AllOrNothing simple_sdk
      (one_tx ∷ [])
      (new_proposal (pos 10))
      (update_proposal simple_sdk (pos 0) (one_tx ∷ []) (new_proposal (pos 10)))
update_proposal-AllOrNothing_example =
    update_proposal-AllOrNothing simple_sdk (pos 0) (one_tx ∷ []) (new_proposal (pos 10))

update_proposal-ok_iff_example :
    ((update_proposal simple_sdk (pos (5 * 10 ^ 17)) (one_tx ∷ []) (new_proposal (pos 10))).0
      ≡ ok tt)
    ↔ ((one_tx ∷ [] ≡ []) ⊎ ((3 ≤ 5) × (bytes (new_proposal (pos 10)).txs + 3 ≤ 10)))
update_proposal-ok_iff_example =
    update_proposal-ok_iff simple_sdk 10 (5 * 10 ^ 17) (pos (5 * 10 ^ 17)) (one_tx ∷ [])
      (new_proposal (pos 10)) (omega arith) (omega arith) refl (omega arith)
      (new_proposal-IsValid simple_sdk 10)

-- The second of two transactions is over the limit, and nothing of the partial proposal is taken.
over_limit :
    update_proposal simple_sdk (pos 0) (one_tx ∷ one_tx ∷ []) (new_proposal (pos 5))
    ≡ (err lane_limit, new_proposal (pos 5))
unfolding update_proposal commit_partial partial_size get_max_tx_bytes_for_lane new_proposal add64
    sub64
over_limit = refl

default_check_order_iff_example :
    (default_check_order_handler simple_sdk half_lane ctx (plain_tx one_tx ∷ []) ≡ ok tt)
    ↔ InOrder simple_sdk half_lane ctx none (plain_tx one_tx ∷ [])
default_check_order_iff_example =
    default_check_order_iff simple_sdk half_lane ctx (plain_tx one_tx ∷ [])

default_process_lane_handler_iff_example :
    (default_process_lane_handler simple_sdk half_lane ctx (plain_tx one_tx ∷ []) ≡ (ok [], ctx))
    ↔ Processed simple_sdk half_lane ctx ctx (plain_tx one_tx ∷ []) []
default_process_lane_handler_iff_example =
    default_process_lane_handler_iff simple_sdk half_lane ctx ctx (plain_tx one_tx ∷ []) []

encodes_small : (tx : Tx) (bz : Bytes) → simple_sdk.encode tx ≡ ok bz → length bz < 2 ^ 62
encodes_small tx bz h = ground arith

half_lane_calm : (tx : Tx) → ¬ Panics simple_sdk half_lane (new_proposal (pos 10)) tx
unfolding ante_verify_tx
half_lane_calm tx (inl h) = ground arith
half_lane_calm tx (inr (c, h)) = cc

default_prepare_lane_handler-Selects_example :
    (bs : List Bytes) × (rs : List Tx) × ((default_prepare_lane_handler simple_sdk half_lane ctx
        (new_proposal (pos 10))
        (pos 5)).0
      ≡ ok (bs, rs))
    × Selects simple_sdk half_lane (new_proposal (pos 10)) 5 ctx 0 half_lane.pool bs rs
    × (bytes bs ≤ 5)
default_prepare_lane_handler-Selects_example =
    default_prepare_lane_handler-Selects simple_sdk half_lane (new_proposal (pos 10)) half_lane_calm
      ctx 5 (omega arith) encodes_small

-- A lane that proposes one transaction, and one that panics.
abbrev steady_lane : Lane simple_sdk (List Tx)
steady_lane = record {
  self = half_lane;
  prepare_lane_handler = λ l c p max. (ok (one_tx ∷ [], []), c, l.pool);
  process_lane_handler = default_process_lane_handler simple_sdk;
  check_order_handler = default_check_order_handler simple_sdk;
}

abbrev panicking_lane : Lane simple_sdk (List Tx)
panicking_lane = record {
  self = half_lane;
  prepare_lane_handler =
      λ l c p max. (panic, record { values = deliver; store = 7 ∷ c.store }, l.pool);
  process_lane_handler = default_process_lane_handler simple_sdk;
  check_order_handler = default_check_order_handler simple_sdk;
}

abbrev two_lanes : List (ChainLane simple_sdk (List Tx))
two_lanes = lane panicking_lane ∷ lane steady_lane ∷ []

two_lanes-IsModest : All (IsModest simple_sdk) two_lanes
two_lanes-IsModest = (λ c p max txs rs e. absurd (cc e), (λ c p max txs rs e. ground arith, tt))

chain_prepare_lanes-IsValid_example :
    ((chain_prepare_lanes simple_sdk two_lanes ctx (new_proposal (pos 10))).outcome ≡ ok tt)
    × IsValid simple_sdk 10
        (chain_prepare_lanes simple_sdk two_lanes ctx (new_proposal (pos 10))).proposal
    × Grows
        (new_proposal (pos 10))
        (chain_prepare_lanes simple_sdk two_lanes ctx (new_proposal (pos 10))).proposal
chain_prepare_lanes-IsValid_example =
    chain_prepare_lanes-IsValid simple_sdk 10 (lane panicking_lane) (lane steady_lane ∷ []) ctx
      (new_proposal (pos 10)) (omega arith) two_lanes-IsModest (new_proposal-IsValid simple_sdk 10)

prepare_proposal-fits_example :
    ((prepare_proposal simple_sdk two_lanes ctx (pos 10)).1 ≡ ok tt)
    × (bytes (prepare_proposal simple_sdk two_lanes ctx (pos 10)).0 ≤ 10)
prepare_proposal-fits_example =
    prepare_proposal-fits simple_sdk 10 (lane panicking_lane) (lane steady_lane ∷ []) ctx
      (omega arith) two_lanes-IsModest

prepare_chain_skips_example :
    SameResult simple_sdk
      (prepare_chain simple_sdk
        (lane panicking_lane ∷ lane steady_lane ∷ terminator ∷ [])
        ctx
        (new_proposal (pos 10)))
      (prepare_chain simple_sdk (lane steady_lane ∷ terminator ∷ []) ctx (new_proposal (pos 10)))
unfolding get_max_tx_bytes_for_lane new_proposal sub64
prepare_chain_skips_example =
    prepare_chain_skips simple_sdk panicking_lane (lane steady_lane ∷ terminator ∷ []) ctx
      (new_proposal (pos 10)) (pos 5) refl refl (handler_panic refl)

-- The panicking lane is skipped, and the other one's transaction is proposed.
skipped : (prepare_proposal simple_sdk two_lanes ctx (pos 10)).0 ≡ one_tx ∷ []
unfolding prepare_proposal prepare_response chain_prepare_lanes close_chain prepare_chain
    prepare_element prepare_lane propose finish_lane recover_lane get_proposal update_proposal
    commit_partial partial_size get_max_tx_bytes_for_lane new_proposal add64 sub64 add_hashes
    add_key remove_txs_from_lane
skipped = refl

-- A proposal of two transactions, the second one after the first in the lane's order.
chain_process_lanes_iff_example :
    ((chain_process_lanes simple_sdk
        (lane (default_lane simple_sdk half_lane) ∷ [])
        ctx
        (plain_tx (1 ∷ []) ∷ plain_tx (2 ∷ []) ∷ [])).0
      ≡ ok tt)
    ↔ AcceptedBy simple_sdk (half_lane ∷ []) ctx (plain_tx (1 ∷ []) ∷ plain_tx (2 ∷ []) ∷ [])
chain_process_lanes_iff_example =
    chain_process_lanes_iff simple_sdk half_lane [] ctx (plain_tx (1 ∷ []) ∷ plain_tx (2 ∷ []) ∷ [])
