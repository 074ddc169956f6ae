-- ===== src/Tests/TopOfBlock.antt =====
-- The top-of-block lane at concrete inputs: one bid, of two bytes, with a bundle of one transaction.
use pob.Prelude.{
  ◌≡◌, ◌↔◌, ◌⊎◌, inl, inr, refl, subst, true, false, none, some, List, [], ◌∷◌, length, ltb,
  if◌then◌else◌, Bool-cases,
}
use pob.Prelude.Bytes.{equal}
use pob.Prelude.Int.{pos}
use pob.Prelude.Outcome.{Outcome, ok, err, foreign, wrong_bundle}
use pob.Sdk.{Bytes, Tx, coin, auction_bid}
use pob.Proposal.{new_proposal, contains, has_key}
use pob.Lane.{LaneConstructor, match, check_ignore_list, ante_verify_tx}
use pob.Builder.{BidInfo}
use pob.Auction.{
  Factory, get_auction_bid_info, is_bid, get_msg_auction_bid_from_tx, auction_bid_msgs, only_bid,
  bid_info_of, get_bundle_signers, signer_set, check_bundle, check_bid_order, check_order_handler,
  prepare_lane_handler, bid_loop, bid_round, encoded_bid, verified_bid, bundle_bytes, verify_tx,
  verify_bundle, process_lane_handler,
}
use pob.Auction.Order.{NoneMatches, LeadsBundle, check_order_handler_iff, Encodes}
use pob.Auction.Verify.{IsVerified, verify_tx_iff, done, executed}
use pob.Auction.Rounds.{IsChosen}
use pob.Auction.Prepared.{Answers, prepare_lane_handler-Answers, chosen_accepted, IsCanonical}
use pob.Tests.Fixture.{simple_sdk, plain_tx}
use pob.Tests.Blocks.{ctx, listed}

-- Only what can be encoded again is wrapped.
abbrev wrap_small : Bytes → Outcome Tx
wrap_small raw = if ltb (length raw) 1000 then ok (plain_tx raw) else err foreign

abbrev small_factory : Factory simple_sdk
small_factory = record {
  wrap_bundle_transaction = wrap_small;
  get_auction_bid_info = get_auction_bid_info simple_sdk;
  match_handler = λ c tx. is_bid simple_sdk (get_auction_bid_info simple_sdk tx);
}

abbrev bid_tx : Tx
bid_tx = record (plain_tx (1 ∷ 2 ∷ [])) {
  msgs =
      auction_bid
        (record { bidder = "alice"; bid = coin "stake" (pos 5); transactions = (7 ∷ []) ∷ [] })
      ∷ [];
}

abbrev info : BidInfo
info = record {
  bidder = 1 ∷ [];
  bid = coin "stake" (pos 5);
  transactions = (7 ∷ []) ∷ [];
  timeout = 0;
  signers = [] ∷ [];
}

abbrev tob_lane : LaneConstructor simple_sdk (List Tx)
tob_lane = record {
  cfg = record { ante_handler = none; max_block_space = pos 0; ignore_list = []; max_txs = pos 0 };
  lane_name = "top-of-block";
  mempool = listed;
  pool = bid_tx ∷ [];
  match_handler = small_factory.match_handler;
}

known_info : get_auction_bid_info simple_sdk bid_tx ≡ ok (some info)
unfolding get_auction_bid_info get_msg_auction_bid_from_tx auction_bid_msgs only_bid bid_info_of
    get_bundle_signers signer_set
known_info = refl

check_order_handler_iff_example :
    (check_order_handler simple_sdk small_factory tob_lane ctx (bid_tx ∷ plain_tx (7 ∷ []) ∷ [])
      ≡ ok tt)
    ↔ (NoneMatches simple_sdk small_factory tob_lane ctx (bid_tx ∷ plain_tx (7 ∷ []) ∷ [])
        ⊎ (match simple_sdk tob_lane ctx bid_tx ≡ true)
          × LeadsBundle simple_sdk small_factory tob_lane ctx bid_tx (plain_tx (7 ∷ []) ∷ []))
check_order_handler_iff_example =
    check_order_handler_iff simple_sdk small_factory tob_lane ctx bid_tx (plain_tx (7 ∷ []) ∷ [])

-- The bundle in the bid is another one.
other_bundle :
    check_order_handler simple_sdk small_factory tob_lane ctx (bid_tx ∷ plain_tx (8 ∷ []) ∷ [])
    ≡ err wrong_bundle
unfolding check_order_handler check_bid_order check_bundle equal match check_ignore_list
    get_auction_bid_info get_msg_auction_bid_from_tx auction_bid_msgs only_bid bid_info_of
    get_bundle_signers signer_set
other_bundle = refl

verify_tx_iff_example :
    (verify_tx simple_sdk small_factory tob_lane ctx bid_tx (some info) ≡ (ctx, ok tt)) ↔ (
      (given : BidInfo) × (some info ≡ some given)
      × IsVerified simple_sdk small_factory tob_lane ctx ctx bid_tx given)
verify_tx_iff_example = verify_tx_iff simple_sdk small_factory tob_lane ctx ctx bid_tx (some info)

prepare_lane_handler-Answers_example :
    Answers simple_sdk small_factory tob_lane
      (new_proposal (pos 10))
      (pos 10)
      ctx
      (bid_tx ∷ [])
      []
      (prepare_lane_handler simple_sdk small_factory tob_lane ctx
        (new_proposal (pos 10))
        (pos 10)).0
      (prepare_lane_handler simple_sdk small_factory tob_lane ctx
        (new_proposal (pos 10))
        (pos 10)).1
prepare_lane_handler-Answers_example =
    prepare_lane_handler-Answers simple_sdk small_factory tob_lane (new_proposal (pos 10)) (pos 10)
      ctx

proposed :
    (prepare_lane_handler simple_sdk small_factory tob_lane ctx (new_proposal (pos 10)) (pos 10)).0
    ≡ ok ((1 ∷ 2 ∷ []) ∷ (7 ∷ []) ∷ [], [])
unfolding prepare_lane_handler bid_loop bid_round encoded_bid verified_bid bundle_bytes verify_tx
    verify_bundle ante_verify_tx contains has_key new_proposal get_auction_bid_info
    get_msg_auction_bid_from_tx auction_bid_msgs only_bid bid_info_of get_bundle_signers signer_set
proposed = refl

is_verified : IsVerified simple_sdk small_factory tob_lane ctx ctx bid_tx info
unfolding ante_verify_tx
is_verified = record {
  after = ctx;
  bid_passes = refl;
  bundle_executes = executed (plain_tx (7 ∷ [])) refl refl (done refl);
}

new_bytes : (bz : Bytes) → contains simple_sdk (new_proposal (pos 10)) bz ≡ false
unfolding contains has_key new_proposal
new_bytes bz = refl

abbrev is_chosen :
    IsChosen simple_sdk small_factory tob_lane
      (new_proposal (pos 10))
      (pos 10)
      ctx
      ctx
      bid_tx
      ((1 ∷ 2 ∷ []) ∷ (7 ∷ []) ∷ [])
is_chosen = record {
  bz = 1 ∷ 2 ∷ [];
  info = info;
  bundle = (7 ∷ []) ∷ [];
  encoded = refl;
  fresh = new_bytes (1 ∷ 2 ∷ []);
  within = refl;
  known = known_info;
  verified = is_verified;
  is_built = record {
    own = plain_tx (7 ∷ []) ∷ [];
    wraps = (refl, tt);
    encodes = (refl, tt);
    fresh = (new_bytes (7 ∷ []), tt);
  };
  all_txs = refl;
}

canonical : IsCanonical simple_sdk small_factory tob_lane
canonical raw tx w = elim (Bool-cases (ltb (length raw) 1000)) [
  | inl y ↦ encodes (wrapped_tx (rw y at w)) y
  | inr n ↦ absurd (not_wrapped (rw n at w))
]
  where
    wrapped_tx : ok (plain_tx raw) ≡ ok tx → plain_tx raw ≡ tx
    wrapped_tx e = cc e

    not_wrapped : ◌≡◌ {A = Outcome Tx} (err foreign) (ok tx) → ⊥
    not_wrapped e = cc e

    encodes : plain_tx raw ≡ tx → ltb (length raw) 1000 ≡ true → simple_sdk.encode tx ≡ ok raw
    encodes e y = subst (λ t. simple_sdk.encode t ≡ ok raw) e (rw y refl)

not_a_bid : match simple_sdk tob_lane ctx (plain_tx (7 ∷ [])) ≡ false
unfolding match check_ignore_list get_auction_bid_info get_msg_auction_bid_from_tx auction_bid_msgs
    only_bid bid_info_of
not_a_bid = refl

a_bid : match simple_sdk tob_lane ctx bid_tx ≡ true
unfolding match check_ignore_list get_auction_bid_info get_msg_auction_bid_from_tx auction_bid_msgs
    only_bid bid_info_of get_bundle_signers signer_set
a_bid = refl

chosen_accepted_example :
    Encodes simple_sdk (bid_tx ∷ plain_tx (7 ∷ []) ∷ []) ((1 ∷ 2 ∷ []) ∷ (7 ∷ []) ∷ [])
    × (check_order_handler simple_sdk small_factory tob_lane ctx (bid_tx ∷ plain_tx (7 ∷ []) ∷ [])
        ≡ ok tt)
    × (process_lane_handler simple_sdk small_factory tob_lane ctx (bid_tx ∷ plain_tx (7 ∷ []) ∷ [])
        ≡ (ok [], ctx))
chosen_accepted_example =
    chosen_accepted simple_sdk small_factory tob_lane (new_proposal (pos 10)) (pos 10) ctx ctx
      bid_tx ((1 ∷ 2 ∷ []) ∷ (7 ∷ []) ∷ []) is_chosen canonical [] a_bid (not_a_bid, tt) tt
