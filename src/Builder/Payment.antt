-- ===== src/Builder/Payment.antt =====
-- AuctionBid of x/builder/keeper/msg_server.go: what the bidder pays, and to whom.
use pob.Prelude.{
  ℕ, ◌*◌, ◌/◌, ◌-◌, ◌+◌, ◌≤◌, ◌≡◌, refl, ap, ◌∙◌, true, false, Bool-cases, inl, inr, String, arith,
  ◌==◌, if◌then◌else◌,
}
use pob.Prelude.Int.{pos}
use pob.Prelude.Outcome.{ok}
use pob.Sdk.{Sdk, Bytes, coin, coins_of, precision, MsgAuctionBid}
use pob.Builder.Types.{Params, BuilderDeps}
use pob.Builder.Server.{
  Step, ◌then_do◌, with_value, rewards_or_escrow, or_empty, pay_with_reward, pay_bid, check_bid_msg,
  auction_bid,
}

-- The proposer's part of a bid of n at a fee of r units of the last place, rounded down.
abbrev pub proposer_share : ℕ → ℕ → ℕ
proposer_share n r = n * r / precision

scale-le : (n r : ℕ) → r ≤ precision → n * r ≤ n * precision
scale-le n r h = grind arith

share-le : (n r : ℕ) → r ≤ precision → proposer_share n r ≤ n
share-le n r h = omega (arith, scale-le n r h)

swap_units : (n r : ℕ) → n * precision * r ≡ n * r * precision
swap_units n r = grind arith

share-units : (n r : ℕ) → n * precision * r / precision / precision ≡ proposer_share n r
share-units n r = omega (arith, swap_units n r)

left-units : (n q : ℕ) → (n * precision - q * precision) / precision ≡ n - q
left-units n q = omega arith

module _ (sdk : Sdk) (deps : BuilderDeps sdk) where
  -- What the transfers should be: all of the bid to the escrow account where there is no fee; else the
  -- proposer's share to its address, and after that all the rest to the escrow account.
  abbrev pub pay_lem : Bytes → Bytes → Bytes → String → ℕ → ℕ → Step sdk deps
  pay_lem bidder escrow rewards d n r =
      if r == 0
      then deps.send_coins bidder escrow (coins_of d n)
      else ◌then_do◌ sdk deps (deps.send_coins bidder rewards (coins_of d (proposer_share n r)))
          (deps.send_coins bidder escrow (coins_of d (n - proposer_share n r)))

  module _ (bidder escrow rewards : Bytes) (d : String) (n r : ℕ) (fee : sdk.decimals.LegacyDec)
      (store : sdk.Store) (valid : sdk.coins.validate (coin d (pos n)) ≡ ok tt)
      (hr : sdk.decimals.scaled fee ≡ pos r) (hp : r ≤ precision)
      (to : rewards_or_escrow sdk deps (deps.get_rewards_address store) escrow ≡ ok rewards) where
    rest_paid :
        with_value sdk deps
          (sdk.dec_coins.sub
            (sdk.dec_coins.of_amount d (n * precision))
            (sdk.dec_coins.of_amount d (proposer_share n r * precision)))
          (λ left. deps.send_coins bidder escrow (sdk.dec_coins.truncate_decimal left).0)
        ≡ deps.send_coins bidder escrow (coins_of d (n - proposer_share n r))
    rest_paid =
        rw
          (sdk.dec_coins.sub_lem d (n * precision) (proposer_share n r * precision)
            (omega (arith, share-le n r hp)))
          (ap (deps.send_coins bidder escrow) (
            sdk.dec_coins.truncate_decimal_lem d (n * precision - proposer_share n r * precision)
            ∙ ap (coins_of d) (left-units n (proposer_share n r))))

    pay_with_reward-eq :
        pay_with_reward sdk deps bidder escrow (coin d (pos n)) fee store
        ≡ ◌then_do◌ sdk deps
            (deps.send_coins bidder rewards (coins_of d (proposer_share n r)))
            (deps.send_coins bidder escrow (coins_of d (n - proposer_share n r)))
            store
    unfolding pay_with_reward
    pay_with_reward-eq =
        rw
          (
            to,
            sdk.dec_coins.from_coins_lem d n valid,
            sdk.dec_coins.mul_dec_truncate_lem d (n * precision) r fee hr,
          )
          (rw
            (sdk.dec_coins.truncate_decimal_lem d (n * precision * r / precision), share-units n r)
            (rw (sdk.dec_coins.from_coins-coins_of d n (proposer_share n r) valid) (
              ap
                (λ k.
                  ◌then_do◌ sdk deps
                    (deps.send_coins bidder rewards (coins_of d (proposer_share n r))) k store)
                rest_paid)))

    pay_bid-eq :
        pay_bid sdk deps bidder escrow (coin d (pos n)) fee store
        ≡ pay_lem bidder escrow rewards d n r store
    unfolding pay_bid
    pay_bid-eq = elim (Bool-cases (sdk.decimals.is_zero fee)) [
      | inl z ↦ rw z (rw (no_fee z) (rw (sdk.coins.new_coins_lem d n valid) refl))
      | inr nz ↦ rw nz (rw (some_fee nz) pay_with_reward-eq)
    ]
      where
        no_fee : sdk.decimals.is_zero fee ≡ true → (r == 0) ≡ true
        no_fee z = ground (arith, sdk.decimals.is_zero_iff fee, hr)

        some_fee : sdk.decimals.is_zero fee ≡ false → (r == 0) ≡ false
        some_fee z = ground (arith, sdk.decimals.is_zero_iff fee, hr)

  -- For a bid of n in a valid coin that passes the checks of AuctionBid, the transfers add up to n: with no
  -- proposer fee one transfer of n to the escrow account; with a fee of r units of the last place, which is at
  -- most 1, a first one of n times the fee, rounded down, to the proposer's address (the escrow account where
  -- the provider has none), and, if that succeeds, a second one of all the rest to the escrow account.
  pub auction_bid-pays :
      (msg : MsgAuctionBid) (store : sdk.Store) (bidder rewards : Bytes) (params : Params sdk)
      (d : String) (n r : ℕ)
      → check_bid_msg sdk deps msg store ≡ ok (bidder, params)
      → msg.bid ≡ coin d (pos n)
      → sdk.coins.validate (coin d (pos n)) ≡ ok tt
      → sdk.decimals.scaled params.proposer_fee ≡ pos r
      → r ≤ precision
      → rewards_or_escrow sdk deps
          (deps.get_rewards_address store)
          (or_empty params.escrow_account_address)
        ≡ ok rewards
      → (auction_bid sdk deps msg store
          ≡ pay_lem bidder (or_empty params.escrow_account_address) rewards d n r store)
        × (proposer_share n r + (n - proposer_share n r) ≡ n)
  unfolding auction_bid
  auction_bid-pays msg store bidder rewards params d n r checked is_bid valid fee at_most to =
      (pays, omega (arith, share-le n r at_most))
    where
      pays :
          auction_bid sdk deps msg store
          ≡ pay_lem bidder (or_empty params.escrow_account_address) rewards d n r store
      pays =
          rw (checked, is_bid)
            (pay_bid-eq bidder (or_empty params.escrow_account_address) rewards d n r
              params.proposer_fee store valid fee at_most to)
