-- ===== src/Tests/Checking.antt =====
-- CheckTx of the top-of-block lane at concrete inputs: a bid of two bytes with a bundle of one transaction.
use pob.Prelude.{◌≡◌, ◌↔◌, refl, true, false, Option, none, some, List, [], ◌∷◌}
use pob.Prelude.Int.{pos, wrap64}
use pob.Prelude.Outcome.{ok, wrap, bundled_bid}
use pob.Sdk.{Bytes, coin}
use pob.Lane.{Env}
use pob.Builder.{BidInfo}
use pob.Auction.{
  Factory, CheckTxType, RequestCheckTx, Answer, BaseApp, validate_bundled, validate_loop,
  validate_bid_tx, is_no_bid, get_context_for_bid_tx, insert_bid, check_bid, check_decoded,
  check_tx_handler,
}
use pob.Auction.Admission.{IsAdmitted, check_tx_handler_iff}
use pob.Tests.Fixture.{simple_sdk, plain_tx}
use pob.Tests.Blocks.{listed}
use pob.Tests.Decorators.{mode_ops, accept}

abbrev bundle_of : Bytes → List Bytes → BidInfo
bundle_of bidder bundle = record {
  bidder = bidder;
  bid = coin "stake" (pos 5);
  transactions = bundle;
  timeout = 7;
  signers = [];
}

-- Transactions of two bytes are bids, with a bundle of the second one.
abbrev pair_info : Bytes → Option BidInfo
pair_info [] = none
pair_info (a ∷ []) = none
pair_info (a ∷ b ∷ []) = some (bundle_of (a ∷ []) ((b ∷ []) ∷ []))
pair_info (a ∷ b ∷ c ∷ rest) = some (bundle_of (a ∷ []) ((b ∷ c ∷ []) ∷ []))

abbrev pair_factory : Factory simple_sdk
pair_factory = record {
  wrap_bundle_transaction = λ raw. ok (plain_tx raw);
  get_auction_bid_info = λ tx. ok (pair_info tx.rest);
  match_handler = λ c tx. false;
}

abbrev pub counting_app : BaseApp simple_sdk mode_ops (List (List Bytes))
counting_app = record {
  committed = λ app. 8 ∷ [];
  check_tx = λ req app. (none, (req.tx ∷ []) ∷ app);
  last_block_height = λ app. pos 4;
  get_consensus_params = λ c app. tt;
  chain_id = λ app. "chain";
  error_response =
      λ e wanted used. record { code = 1; gas_wanted = pos wanted; gas_used = pos used };
}

abbrev pub request : Bytes → RequestCheckTx
request bz = record { tx = bz; check_type = CheckTxType.new }

abbrev pub admission : Answer
admission = record {
  response = record { code = 0; gas_wanted = pos 10; gas_used = pos 6 };
  error = none;
}

admitted :
    check_tx_handler simple_sdk mode_ops pair_factory accept counting_app listed
      (request (1 ∷ 2 ∷ []))
      []
      []
    ≡ (admission, [], plain_tx (1 ∷ 2 ∷ []) ∷ [])
unfolding check_tx_handler check_decoded get_context_for_bid_tx check_bid validate_bid_tx
    validate_loop validate_bundled is_no_bid insert_bid wrap64
admitted = refl

-- The bundle has a bid in it.
refused :
    check_tx_handler simple_sdk mode_ops pair_factory accept counting_app listed
      (request (1 ∷ 2 ∷ 3 ∷ []))
      []
      []
    ≡ (
      record {
        response = record { code = 1; gas_wanted = pos 10; gas_used = pos 6 };
        error = some (wrap bundled_bid);
      },
      [],
      [],
    )
unfolding check_tx_handler check_decoded get_context_for_bid_tx check_bid validate_bid_tx
    validate_loop validate_bundled is_no_bid
refused = refl

check_tx_handler_iff_example :
    ((check_tx_handler simple_sdk mode_ops pair_factory accept counting_app listed
          (request (1 ∷ 2 ∷ []))
          []
          []
        ≡ (admission, [], plain_tx (1 ∷ 2 ∷ []) ∷ []))
      × (admission.error ≡ none))
    ↔ IsAdmitted simple_sdk mode_ops pair_factory accept counting_app listed
        (request (1 ∷ 2 ∷ []))
        (plain_tx (1 ∷ 2 ∷ []))
        (bundle_of (1 ∷ []) ((2 ∷ []) ∷ []))
        []
        []
        admission
        (plain_tx (1 ∷ 2 ∷ []) ∷ [])
check_tx_handler_iff_example =
    check_tx_handler_iff simple_sdk mode_ops pair_factory accept counting_app listed
      (request (1 ∷ 2 ∷ [])) (plain_tx (1 ∷ 2 ∷ [])) (bundle_of (1 ∷ []) ((2 ∷ []) ∷ [])) [] [] refl
      refl admission (plain_tx (1 ∷ 2 ∷ []) ∷ [])

abbrev bid_ctx : Env simple_sdk
bid_ctx = record {
  values = record { check = true; recheck = false; height = pos 4 };
  store = 8 ∷ [];
}

in_context :
    get_context_for_bid_tx simple_sdk mode_ops pair_factory accept counting_app listed
      (request (1 ∷ 2 ∷ []))
      []
    ≡ ok bid_ctx
unfolding get_context_for_bid_tx
in_context = refl
