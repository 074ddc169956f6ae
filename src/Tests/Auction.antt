-- ===== src/Tests/Auction.antt =====
-- Bids, bundles and payments at concrete inputs. The concrete store holds a reserve fee of 10, an increment of
-- 5 and a proposer fee of a quarter.
use pob.Prelude.{◌+◌, ◌-◌, ◌≡◌, ◌↔◌, ◌⊎◌, refl, true, false, String, some, [], ◌∷◌, arith}
use pob.Prelude.Int.{pos, ◌+ℤ◌, ◌≤ℤ◌}
use pob.Prelude.Outcome.{ok, err, front_running, below_min_bid}
use pob.Sdk.{Bytes, coin, MsgAuctionBid}
use pob.Proposal.{has_key}
use pob.Builder.{
  Params, get_params, validate_auction_bid, validate_auction_bundle, validate_min_bid, bundle_loop,
  filter_signers, auction_bid, check_bid_msg, validate_bundle_size, pay_bid, pay_with_reward,
}
use pob.Builder.Shares.{SharesSigner, HandsOver}
use pob.Builder.Checks.{IsValidParams, validate_params_iff}
use pob.Builder.{MsgUpdateParams, update_params, set_params, validate_params}
use pob.Builder.Bundle.{validate_auction_bundle_iff}
use pob.Builder.Bid.{OutBids, validate_auction_bid_iff}
use pob.Builder.Payment.{auction_bid-pays, proposer_share, pay_lem}
use pob.Tests.Fixture.{simple_sdk}
use pob.Tests.Deps.{simple_deps, params_of}

abbrev store : Bytes
store = 3 ∷ 10 ∷ 5 ∷ 1 ∷ 250000000000000000 ∷ 9 ∷ []

abbrev params : Params simple_sdk
params = params_of 3 (9 ∷ []) 10 5 true 250000000000000000

stored : get_params simple_sdk simple_deps store ≡ ok params
unfolding get_params
stored = refl

validate_auction_bid_iff_example :
    (validate_auction_bid simple_sdk simple_deps store
        (1 ∷ [])
        (coin "stake" (pos 40))
        (coin "stake" (pos 30))
      ≡ ok tt)
    ↔ ((◌≡◌ {A = String} "stake" "stake")
        × (pos 10 ≤ℤ pos 40)
        × OutBids (some (pos 30)) (pos 5) (pos 40)
        × (pos 40 ≤ℤ pos 1000))
validate_auction_bid_iff_example =
    validate_auction_bid_iff simple_sdk simple_deps store params "stake" (pos 10) (pos 5) stored
      refl refl (1 ∷ []) "stake" (pos 40) (some (pos 30)) (pos 1000) refl

too_low :
    validate_auction_bid simple_sdk simple_deps store
      (1 ∷ [])
      (coin "stake" (pos 34))
      (coin "stake" (pos 30))
    ≡ err below_min_bid
unfolding validate_auction_bid validate_min_bid get_params ◌+ℤ◌
too_low = refl

validate_auction_bundle_iff_example :
    (validate_auction_bundle simple_sdk simple_deps
        (1 ∷ [])
        (("bob" ∷ []) ∷ ("bob" ∷ []) ∷ ("alice" ∷ []) ∷ [])
      ≡ ok tt)
    ↔ (SharesSigner ("bob" ∷ []) (("bob" ∷ []) ∷ ("alice" ∷ []) ∷ [])
        ⊎ (has_key "alice" ("bob" ∷ []) ≡ false)
          × HandsOver "alice" ("bob" ∷ []) (("bob" ∷ []) ∷ ("alice" ∷ []) ∷ []))
validate_auction_bundle_iff_example =
    validate_auction_bundle_iff simple_sdk simple_deps (1 ∷ []) ("bob" ∷ [])
      (("bob" ∷ []) ∷ ("alice" ∷ []) ∷ [])

sandwich :
    validate_auction_bundle simple_sdk simple_deps
      (1 ∷ [])
      (("alice" ∷ []) ∷ ("bob" ∷ []) ∷ ("alice" ∷ []) ∷ [])
    ≡ err front_running
unfolding validate_auction_bundle bundle_loop filter_signers has_key
sandwich = refl

abbrev bid_msg : MsgAuctionBid
bid_msg = record { bidder = "alice"; bid = coin "stake" (pos 43); transactions = (7 ∷ []) ∷ [] }

checked : check_bid_msg simple_sdk simple_deps bid_msg store ≡ ok (1 ∷ [], params)
unfolding check_bid_msg get_params validate_bundle_size
checked = refl

auction_bid-pays_example :
    (auction_bid simple_sdk simple_deps bid_msg store
      ≡ pay_lem simple_sdk simple_deps
          (1 ∷ [])
          (9 ∷ [])
          (3 ∷ [])
          "stake"
          43
          250000000000000000
          store)
    × (proposer_share 43 250000000000000000 + (43 - proposer_share 43 250000000000000000) ≡ 43)
auction_bid-pays_example =
    auction_bid-pays simple_sdk simple_deps bid_msg store (1 ∷ []) (3 ∷ []) params "stake" 43
      250000000000000000 checked refl refl refl (omega arith) refl

-- A quarter of 43 is 10, for the proposer; the escrow account is paid 33.
paid :
    auction_bid simple_sdk simple_deps bid_msg store
    ≡ (ok tt, 3 ∷ 10 ∷ 5 ∷ 1 ∷ 250000000000000000 ∷ 9 ∷ 3 ∷ 10 ∷ 9 ∷ 33 ∷ [])
unfolding auction_bid check_bid_msg get_params validate_bundle_size pay_bid pay_with_reward
paid = refl

validate_params_iff_example :
    (validate_params simple_sdk params ≡ ok tt) ↔ IsValidParams simple_sdk params
validate_params_iff_example = validate_params_iff simple_sdk params

abbrev update : MsgUpdateParams simple_sdk
update = record { authority = "alice"; params = params }

updated : update_params simple_sdk simple_deps update [] ≡ ok store
unfolding update_params set_params
updated = refl
