-- ===== src/Tests/Registry.antt =====
-- A mempool of two lanes at concrete inputs. The first lane takes the transactions of one byte, with a quarter of
-- the block, the second any, with all the rest.
use pob.Prelude.{
  ℕ, ◌*◌, ◌^◌, ◌≤◌, ◌≡◌, ◌↔◌, ◌⊎◌, refl, true, String, none, List, [], ◌∷◌, length, ◌==◌, sum_by,
}
use pob.Prelude.Int.{ℤ, pos, pos_part}
use pob.Prelude.Outcome.{ok}
use pob.Sdk.{Tx, precision}
use pob.Lane.{Lane, MatchHandler, match, check_ignore_list}
use pob.Lane.Handlers.{
  default_prepare_lane_handler, default_process_lane_handler, default_check_order_handler,
}
use pob.Mempool.{
  new_mempool, validate_basic, space_loop, set_ignore_lists, ignore_loop, insert, insert_loop,
  joined, count_tx,
}
use pob.Mempool.Exclusive.{insert_first, insert_first_lem}
use pob.Mempool.Shares.{takes_the_rest, validate_basic_iff}
use pob.Tests.Fixture.{simple_sdk, plain_tx}
use pob.Tests.Blocks.{ctx, listed}

abbrev lane_of : String → ℤ → MatchHandler simple_sdk → Lane simple_sdk (List Tx)
lane_of name space matcher = record {
  self = record {
    cfg = record {
      ante_handler = none;
      max_block_space = space;
      ignore_list = [];
      max_txs = pos 0;
    };
    lane_name = name;
    mempool = listed;
    pool = [];
    match_handler = matcher;
  };
  prepare_lane_handler = default_prepare_lane_handler simple_sdk;
  process_lane_handler = default_process_lane_handler simple_sdk;
  check_order_handler = default_check_order_handler simple_sdk;
}

abbrev small : Lane simple_sdk (List Tx)
small = lane_of "small" (pos (25 * 10 ^ 16)) (λ c tx. length tx.rest == 1)

abbrev any_size : Lane simple_sdk (List Tx)
any_size = lane_of "any" (pos 0) (λ c tx. true)

abbrev lanes : List (Lane simple_sdk (List Tx))
lanes = small ∷ any_size ∷ []

made : new_mempool simple_sdk true lanes ≡ ok (set_ignore_lists simple_sdk lanes)
unfolding new_mempool validate_basic space_loop
made = refl

insert_first_lem_example :
    insert simple_sdk ctx (plain_tx (7 ∷ [])) (set_ignore_lists simple_sdk lanes)
    ≡ insert_first simple_sdk ctx (plain_tx (7 ∷ [])) (set_ignore_lists simple_sdk lanes)
insert_first_lem_example =
    insert_first_lem simple_sdk ctx (plain_tx (7 ∷ [])) lanes (set_ignore_lists simple_sdk lanes)
      made

-- Without the mutex, a transaction of one byte goes to both lanes.
twice : count_tx simple_sdk (insert simple_sdk ctx (plain_tx (7 ∷ [])) lanes).1 ≡ 2
unfolding insert insert_loop joined count_tx match check_ignore_list
twice = refl

once :
    count_tx simple_sdk
      (insert simple_sdk ctx (plain_tx (7 ∷ [])) (set_ignore_lists simple_sdk lanes)).1
    ≡ 1
unfolding insert insert_loop joined count_tx match check_ignore_list set_ignore_lists ignore_loop
once = refl

abbrev share : Lane simple_sdk (List Tx) → ℕ
share l = pos_part l.self.cfg.max_block_space

validate_basic_iff_example : (validate_basic simple_sdk lanes ≡ ok tt) ↔ (
    (sum_by share lanes ≡ precision)
    ⊎ (sum_by share lanes ≤ precision) × (takes_the_rest simple_sdk share lanes ≡ true))
validate_basic_iff_example = validate_basic_iff simple_sdk share lanes (refl, (refl, tt))
