-- ===== src/Tests/Decorators.antt =====
-- The ante decorators at concrete inputs: a bid of 5 stake in CheckTx, with a bid of 3 on top of the mempool.
use pob.Prelude.{
  ◌+◌, ◌^◌, ◌≤◌, ◌<◌, ◌≡◌, ◌↔◌, refl, arith, Bool, true, false, none, some, [], ◌∷◌, if◌then◌else◌,
}
use pob.Prelude.Bytes.{equal}
use pob.Prelude.Int.{pos, wrap64, add64, ◌≤ℤ◌}
use pob.Prelude.Outcome.{ok}
use pob.Sdk.{Tx, coin, ContextOps}
use pob.Lane.{Env, AnteHandler}
use pob.Builder.{
  BidInfo, get_params, validate_bid_info, validate_auction_bid, validate_bundle_size,
  validate_min_bid,
}
use pob.Builder.Ante.{
  AuctionView, is_checking, validate_timeout, check_tx, builder_ante_handle, top_bid, validate_bid,
  other_top_bid,
}
use pob.Builder.Bid.{OutBids}
use pob.Builder.Modes.{validate_timeout_iff, builder_ante_handle-eq, check_tx-OutBids}
use pob.Tests.Fixture.{simple_sdk, Mode, deliver, plain_tx}
use pob.Tests.Deps.{simple_deps, params_of}

abbrev pub recheck_mode : Bool → Mode → Mode
recheck_mode true m = record m { check = true; recheck = true }
recheck_mode false m = record m { recheck = false }

abbrev pub mode_ops : ContextOps Mode
mode_ops = record {
  ConsensusParams = Unit {0};
  is_check_tx = λ m. m.check;
  is_recheck_tx = λ m. m.recheck;
  block_height = λ m. m.height;
  priority = λ m. pos 0;
  gas_limit = λ m. 10;
  gas_consumed = λ m. 6;
  new_context = λ h id b. record { check = b; recheck = false; height = h };
  with_is_check_tx = λ b m. record m { check = b };
  with_is_recheck_tx = recheck_mode;
  with_tx_bytes = λ bz m. m;
  with_consensus_params = λ p m. m;
  block_height-new_context = λ h id b. refl;
  block_height-with_is_check_tx = λ b c. refl;
  block_height-with_is_recheck_tx = keeps_height;
  block_height-with_tx_bytes = λ bz c. refl;
  block_height-with_consensus_params = λ p c. refl;
  is_check_tx-new_context = λ h id b. refl;
  is_check_tx-with_is_check_tx = λ b c. refl;
  is_check_tx-with_is_recheck_tx = λ c. refl;
  is_recheck_tx-with_is_recheck_tx = sets_recheck;
  is_check_tx-with_tx_bytes = λ bz c. refl;
  is_check_tx-with_consensus_params = λ p c. refl;
}
  where
    keeps_height : (b : Bool) (m : Mode) → (recheck_mode b m).height ≡ m.height
    keeps_height true m = refl
    keeps_height false m = refl

    sets_recheck : (b : Bool) (m : Mode) → (recheck_mode b m).recheck ≡ b
    sets_recheck true m = refl
    sets_recheck false m = refl

abbrev pub in_check : Env simple_sdk
in_check = record {
  values = record { check = true; recheck = false; height = pos 4 };
  store = 2 ∷ 2 ∷ 1 ∷ 0 ∷ 0 ∷ 9 ∷ [];
}

abbrev in_block : Env simple_sdk
in_block = record { values = deliver; store = 2 ∷ 2 ∷ 1 ∷ 0 ∷ 0 ∷ 9 ∷ [] }

abbrev pub bid_info : Tx → BidInfo
bid_info tx = record {
  bidder = 1 ∷ [];
  bid = coin "stake" (pos (if equal tx.rest (3 ∷ []) then 3 else 5));
  transactions = [];
  timeout = 7;
  signers = [];
}

abbrev pub some_view : AuctionView simple_sdk
some_view = record {
  contains = λ tx. true;
  get_auction_bid_info = λ tx. ok (some (bid_info tx));
  get_top_auction_tx = λ c. ok (some (plain_tx (3 ∷ [])));
}

abbrev empty_view : AuctionView simple_sdk
empty_view = record some_view { contains = λ tx. false; get_top_auction_tx = λ c. ok none }

abbrev pub accept : AnteHandler simple_sdk
accept c tx simulate = (c, ok tt)

validate_timeout_iff_example :
    (validate_timeout simple_sdk mode_ops simple_deps some_view in_check (wrap64 (pos 7)) ≡ ok tt)
    ↔ ((7 < 2 ^ 63) × ((if is_checking simple_sdk mode_ops in_check then 4 + 1 else 4) ≤ 7))
validate_timeout_iff_example =
    validate_timeout_iff simple_sdk mode_ops simple_deps some_view in_check 4 7 refl (omega arith)
      (omega arith)

builder_ante_handle-eq_example :
    builder_ante_handle simple_sdk mode_ops simple_deps some_view in_block
      (plain_tx (5 ∷ []))
      false
      accept
    ≡ builder_ante_handle simple_sdk mode_ops simple_deps empty_view in_block
        (plain_tx (5 ∷ []))
        false
        accept
builder_ante_handle-eq_example =
    builder_ante_handle-eq simple_sdk mode_ops simple_deps some_view empty_view in_block
      (plain_tx (5 ∷ [])) false accept refl (λ t. refl)

pub other_bytes : equal (3 ∷ []) (5 ∷ []) ≡ false
unfolding equal
other_bytes = refl

pub own_amount : (bid_info (plain_tx (5 ∷ []))).bid ≡ coin "stake" (pos 5)
unfolding equal
own_amount = refl

pub top_amount : (bid_info (plain_tx (3 ∷ []))).bid ≡ coin "stake" (pos 3)
unfolding equal
top_amount = refl

pub stored :
    get_params simple_sdk simple_deps in_check.store ≡ ok (params_of 2 (9 ∷ []) 2 1 false 0)
unfolding get_params
stored = refl

accepted : check_tx simple_sdk mode_ops simple_deps some_view in_check (plain_tx (5 ∷ [])) ≡ ok tt
unfolding check_tx validate_bid validate_timeout top_bid other_top_bid validate_bid_info
    validate_auction_bid validate_bundle_size validate_min_bid get_params wrap64 add64 equal
accepted = refl

check_tx-OutBids_example :
    (pos 2 ≤ℤ pos 5) × OutBids (some (pos 3)) (pos 1) (pos 5) × (pos 5 ≤ℤ pos 1000)
check_tx-OutBids_example =
    check_tx-OutBids simple_sdk mode_ops simple_deps some_view in_check (plain_tx (5 ∷ []))
      (plain_tx (3 ∷ [])) (bid_info (plain_tx (5 ∷ []))) (bid_info (plain_tx (3 ∷ []))) (5 ∷ [])
      (3 ∷ []) (params_of 2 (9 ∷ []) 2 1 false 0) "stake" (pos 2) (pos 1) (pos 5) (pos 3) (pos 1000)
      refl refl refl refl refl refl other_bytes stored refl refl own_amount top_amount refl accepted
