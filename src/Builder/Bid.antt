-- ===== src/Builder/Bid.antt =====
-- ValidateAuctionBid of x/builder/keeper/auction.go against its specification.
use pob.Prelude.{
  false, String, Option, some, none, ◌≡◌, ◌≢◌, ◌↔◌, refl, sym, ◌∙◌, subst, arith, Bool-cases, inl,
  inr, str_eq, eq_iff,
}
use pob.Prelude.Int.{ℤ, leb_ℤ, ◌+ℤ◌, ◌≤ℤ◌}
use pob.Prelude.Outcome.{
  ok, err, guard, Error, below_min_bid, below_reserve, insufficient_funds, wrong_denom, ◌>>◌,
  >>-eq-ok,
}
use pob.Sdk.{Sdk, Bytes, Coin, coin}
use pob.Builder.Types.{Params, BuilderDeps}
use pob.Builder.Keeper.{get_params, validate_min_bid, validate_auction_bid}

-- The bid is at least the highest one, where there is one, and the increment.
abbrev pub OutBids : Option ℤ → ℤ → ℤ → Type 0
OutBids none increment bid = Unit
OutBids (some highest) increment bid = (highest +ℤ increment) ≤ℤ bid

guard_iff : (a b : ℤ) (e : Error) → (guard (leb_ℤ a b) e ≡ ok tt) ↔ (a ≤ℤ b)
guard_iff a b e = elim (Bool-cases (leb_ℤ a b)) [
  | inl y ↦ rw y ((λ h. ground (arith, y)), λ h. refl)
  | inr n ↦ rw n ((λ h. cc h), λ h. ground (arith, n))
]

module _ (sdk : Sdk) (deps : BuilderDeps sdk) (store : sdk.Store) (params : Params sdk) (d : String)
    (reserve increment : ℤ) (stored : get_params sdk deps store ≡ ok params)
    (is_reserve : params.reserve_fee ≡ coin d reserve)
    (is_increment : params.min_bid_increment ≡ coin d increment) where
  validate_min_bid_iff :
      (bid : ℤ) (top : Option ℤ)
      → (validate_min_bid sdk deps store (coin d bid) (record { denom = d; amount = top }) ≡ ok tt)
        ↔ OutBids top increment bid
  unfolding validate_min_bid
  validate_min_bid_iff bid none =
      elim (Bool-cases (sdk.coins.is_nil (record { denom = d; amount = none }))) [
        | inl y ↦ rw y ((λ h. tt), λ h. refl)
        | inr n ↦
            let (x, e) = sdk.coins.is_nil-some (record { denom = d; amount = none }) n in
            absurd (cc e)
      ]
  validate_min_bid_iff bid (some highest) =
      rw (sdk.coins.is_nil-coin d highest, stored)
        (rw (is_increment, (eq_iff d d).1 refl, sdk.coins.add_lem d highest increment)
          (rw (sdk.coins.is_gte_lem d bid (highest +ℤ increment))
            (guard_iff (highest +ℤ increment) bid below_min_bid)))

  same_denom :
      (bidder : Bytes) (bid : ℤ) (highest : Coin) (balance : ℤ)
      → deps.get_balance store bidder d ≡ coin d balance
      → validate_auction_bid sdk deps store bidder (coin d bid) highest
        ≡ guard (leb_ℤ reserve bid) below_reserve
          >> (validate_min_bid sdk deps store (coin d bid) highest
              >> guard (leb_ℤ bid balance) insufficient_funds)
  unfolding validate_auction_bid
  same_denom bidder bid highest balance held =
      rw (sdk.coins.is_nil-coin d bid, stored)
        (rw (is_reserve, (eq_iff d d).1 refl)
          (rw (sdk.coins.is_gte_lem d bid reserve, held, sdk.coins.is_gte_lem d balance bid) refl))

  other_denom :
      (bidder : Bytes) (e : String) (bid : ℤ) (highest : Coin)
      → e ≢ d
      → validate_auction_bid sdk deps store bidder (coin e bid) highest ≡ err wrong_denom
  unfolding validate_auction_bid
  other_denom bidder e bid highest ne =
      rw (sdk.coins.is_nil-coin e bid, stored) (rw (is_reserve, differ) refl)
    where
      differ : str_eq e d ≡ false
      differ = ground (arith, eq_iff e d, ne)

  -- With the parameters stored, both their amounts in one denomination, and the highest bid, where there is
  -- one, and the bidder's balance in it too: a bid with an amount is valid exactly if it has this denomination, is at least
  -- the reserve fee, is at least the highest bid and the increment, and the bidder's balance covers it.
  pub validate_auction_bid_iff :
      (bidder : Bytes) (e : String) (bid : ℤ) (top : Option ℤ) (balance : ℤ)
      → deps.get_balance store bidder d ≡ coin d balance
      → (validate_auction_bid sdk deps store bidder
            (coin e bid)
            (record { denom = d; amount = top })
          ≡ ok tt)
        ↔ ((e ≡ d) × (reserve ≤ℤ bid) × OutBids top increment bid × (bid ≤ℤ balance))
  validate_auction_bid_iff bidder e bid top balance held = (forward, backward)
    where
      highest : Coin
      highest = record { denom = d; amount = top }

      Valid : String → Type 0
      Valid x = validate_auction_bid sdk deps store bidder (coin x bid) highest ≡ ok tt

      of_same : Valid d → (reserve ≤ℤ bid) × OutBids top increment bid × (bid ≤ℤ balance)
      of_same h =
          let (g, k) =
            >>-eq-ok (guard (leb_ℤ reserve bid) below_reserve) _
              (sym (same_denom bidder bid highest balance held) ∙ h) in
          let (m, f) = >>-eq-ok (validate_min_bid sdk deps store (coin d bid) highest) _ k in
          (
            (guard_iff reserve bid below_reserve).0 g,
            (validate_min_bid_iff bid top).0 m,
            (guard_iff bid balance insufficient_funds).0 f,
          )

      forward : Valid e → (e ≡ d) × (reserve ≤ℤ bid) × OutBids top increment bid × (bid ≤ℤ balance)
      forward h = elim (Bool-cases (str_eq e d)) [
        | inl y ↦
            let i = (eq_iff e d).0 y in let (r, o, f) = of_same (subst Valid i h) in (i, r, o, f)
        | inr n ↦ absurd (cc (other_denom bidder e bid highest (λ i. cc (n, (eq_iff e d).1 i)), h))
      ]

      backward : (e ≡ d) × (reserve ≤ℤ bid) × OutBids top increment bid × (bid ≤ℤ balance) → Valid e
      backward (i, r, o, f) = subst Valid (sym i) (
          same_denom bidder bid highest balance held
          ∙ rw ((guard_iff reserve bid below_reserve).1 r) (
              rw ((validate_min_bid_iff bid top).1 o)
                ((guard_iff bid balance insufficient_funds).1 f)))
