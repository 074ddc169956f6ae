-- ===== src/Tests/Construction.antt =====
-- The construction of a lane at a concrete input.
use pob.Prelude.{◌≡◌, refl, true, none, some, List, [], ◌∷◌}
use pob.Prelude.Int.{pos}
use pob.Prelude.Outcome.{ok, panic}
use pob.Sdk.{Tx, delegate}
use pob.Lane.{Lane}
use pob.Lane.Handlers.{
  default_match_handler, default_prepare_lane_handler, default_process_lane_handler,
  default_check_order_handler,
}
use pob.Lane.Construct.{
  Unchecked, new_lane_constructor, lane_validate_basic, config_validate_basic, free_match_handler,
  is_free_msg,
}
use pob.Tests.Fixture.{simple_sdk, plain_tx}
use pob.Tests.Blocks.{ctx, listed}

abbrev unchecked : Unchecked simple_sdk (List Tx)
unchecked = record {
  has_logger = true;
  has_tx_encoder = true;
  has_tx_decoder = true;
  cfg = record { ante_handler = none; max_block_space = pos 5; ignore_list = []; max_txs = pos 0 };
  lane_name = "default";
  lane_mempool = some listed;
  pool = [];
  match_handler = some (default_match_handler simple_sdk);
  prepare_lane_handler = none;
  process_lane_handler = none;
  check_order_handler = none;
}

abbrev default_lane : Lane simple_sdk (List Tx)
default_lane = record {
  self = record {
    cfg = unchecked.cfg;
    lane_name = "default";
    mempool = listed;
    pool = [];
    match_handler = default_match_handler simple_sdk;
  };
  prepare_lane_handler = default_prepare_lane_handler simple_sdk;
  process_lane_handler = default_process_lane_handler simple_sdk;
  check_order_handler = default_check_order_handler simple_sdk;
}

constructed : new_lane_constructor simple_sdk unchecked ≡ ok default_lane
unfolding new_lane_constructor lane_validate_basic config_validate_basic
constructed = refl

nameless : new_lane_constructor simple_sdk (record unchecked { lane_name = "" }) ≡ panic
unfolding new_lane_constructor lane_validate_basic config_validate_basic
nameless = refl

free : free_match_handler simple_sdk ctx (record (plain_tx []) { msgs = delegate ∷ [] }) ≡ true
unfolding free_match_handler is_free_msg
free = refl
