-- ===== src/Tests/Outbidding.antt =====
-- CheckTx with the decorator of the builder module at a concrete input: a bid of 5 stake against one of 3.
use pob.Prelude.{◌+◌, ◌^◌, ◌≤◌, ◌<◌, ◌≡◌, refl, arith, false, some, List, [], ◌∷◌}
use pob.Prelude.Bytes.{equal}
use pob.Prelude.Int.{pos, wrap64, add64, ◌≤ℤ◌}
use pob.Prelude.Outcome.{ok}
use pob.Sdk.{Bytes}
use pob.Builder.{
  get_params, validate_bid_info, validate_auction_bid, validate_auction_bundle,
  validate_bundle_size, validate_min_bid,
}
use pob.Builder.Ante.{
  check_tx, builder_ante_handle, validate_bid, validate_timeout, top_bid, other_top_bid,
}
use pob.Builder.Bid.{OutBids}
use pob.Auction.{
  Factory, BaseApp, check_tx_handler, check_decoded, get_context_for_bid_tx, check_bid,
  validate_bid_tx, validate_loop, insert_bid,
}
use pob.Auction.Outbid.{decorated, admitted-OutBids}
use pob.Tests.Fixture.{simple_sdk, plain_tx}
use pob.Tests.Blocks.{listed}
use pob.Tests.Deps.{simple_deps, params_of}
use pob.Tests.Decorators.{
  mode_ops, accept, in_check, bid_info, some_view, other_bytes, own_amount, top_amount, stored,
}
use pob.Tests.Checking.{counting_app, request, admission}

abbrev factory : Factory simple_sdk
factory = record {
  wrap_bundle_transaction = λ raw. ok (plain_tx raw);
  get_auction_bid_info = some_view.get_auction_bid_info;
  match_handler = λ c tx. false;
}

abbrev paying_app : BaseApp simple_sdk mode_ops (List (List Bytes))
paying_app = record counting_app { committed = λ app. in_check.store }

admitted :
    check_tx_handler simple_sdk mode_ops factory
      (decorated simple_sdk mode_ops simple_deps some_view accept)
      paying_app
      listed
      (request (5 ∷ []))
      []
      []
    ≡ (admission, [], plain_tx (5 ∷ []) ∷ [])
unfolding check_tx_handler check_decoded get_context_for_bid_tx check_bid validate_bid_tx
    validate_loop insert_bid builder_ante_handle check_tx validate_bid validate_timeout top_bid
    other_top_bid validate_bid_info validate_auction_bid validate_auction_bundle
    validate_bundle_size validate_min_bid get_params wrap64 add64 equal
admitted = refl

admitted-OutBids_example :
    (7 < 2 ^ 63)
    × (4 + 1 ≤ 7)
    × (pos 2 ≤ℤ pos 5)
    × OutBids (some (pos 3)) (pos 1) (pos 5)
    × (pos 5 ≤ℤ pos 1000)
admitted-OutBids_example =
    admitted-OutBids simple_sdk mode_ops simple_deps some_view accept factory paying_app listed
      (request (5 ∷ [])) (plain_tx (5 ∷ [])) (plain_tx (3 ∷ [])) (bid_info (plain_tx (5 ∷ [])))
      (bid_info (plain_tx (3 ∷ []))) [] [] (plain_tx (5 ∷ []) ∷ []) admission (5 ∷ []) (3 ∷ [])
      (params_of 2 (9 ∷ []) 2 1 false 0) "stake" 4 (pos 2) (pos 1) (pos 5) (pos 3) (pos 1000) refl
      refl refl (λ c. refl) refl refl refl other_bytes refl (omega arith) (omega arith) stored refl
      refl own_amount top_amount refl admitted refl
