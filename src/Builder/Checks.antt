-- ===== src/Builder/Checks.antt =====
-- Params.Validate of x/builder/types/params.go against its specification.
use pob.Prelude.{
  Bool, true, false, not, not_iff, Option, some, none, ◌≡◌, ◌↔◌, refl, sym, ap, ◌∙◌, arith, str_eq,
  eq_iff,
}
use pob.Prelude.Int.{ℤ, pos, ◌≤ℤ◌, leb_ℤ, ltb_ℤ}
use pob.Prelude.Outcome.{
  Outcome, Error, negative_proposer_fee, large_proposer_fee, ok, err, panic, guard, wrapped, ◌>>◌,
  >>=-eq-ok, >>-eq-ok,
}
use pob.Sdk.{Sdk, Bytes, Coin, coin, precision}
use pob.Builder.Types.{Params, validate_params, validate_fee, validate_proposer_fee, is_set}

guard_passes : (b : Bool) (e : Error) → guard b e ≡ ok tt → b ≡ true
guard_passes true e h = refl
guard_passes false e h = cc h

wrapped_passes {ℓ} : {A : Type ℓ} (m : Outcome A) {a : A} → wrapped m ≡ ok a → m ≡ ok a
wrapped_passes (ok x) h = h
wrapped_passes (err e) h = cc h
wrapped_passes panic h = cc h

address_set : (sdk : Sdk) (a : Option Bytes) → is_set sdk a ≡ true → (bz : Bytes) × (a ≡ some bz)
address_set sdk (some bz) h = (bz, refl)
address_set sdk none h = absurd (cc h)

ok_false : (b : Bool) → ok b ≡ ok false → b ≡ false
ok_false b e = cc e

not_le : (x : ℤ) → leb_ℤ x (pos 0) ≡ false → pos 1 ≤ℤ x
not_le x h = ground (arith, h)

le_not : (x : ℤ) → pos 1 ≤ℤ x → leb_ℤ x (pos 0) ≡ false
le_not x h = ground (arith, h)

module _ (sdk : Sdk) where
  -- A fee that is there and passes the coin's own validation.
  pub record IsValidFee (fee : Coin) : Type 0 where
    pub not_nil : sdk.coins.is_nil fee ≡ false
    pub valid : sdk.coins.validate fee ≡ ok tt

  -- What valid parameters are: an escrow address, two fees of one denomination, an increment of at least 1, and
  -- a share of the proposer between nothing and all of a bid.
  pub record IsValidParams (p : Params sdk) : Type 0 where
    pub escrow : (bz : Bytes) × (p.escrow_account_address ≡ some bz)
    pub reserve : IsValidFee p.reserve_fee
    pub increment : IsValidFee p.min_bid_increment
    pub positive : (x : ℤ) × (p.min_bid_increment.amount ≡ some x) × (pos 1 ≤ℤ x)
    pub one_denom : p.reserve_fee.denom ≡ p.min_bid_increment.denom
    pub share_not_nil : sdk.decimals.is_nil p.proposer_fee ≡ false
    pub share_from_zero : pos 0 ≤ℤ sdk.decimals.scaled p.proposer_fee
    pub share_to_one : sdk.decimals.scaled p.proposer_fee ≤ℤ pos precision

  fee_sound : (fee : Coin) → validate_fee sdk fee ≡ ok tt → IsValidFee fee
  unfolding validate_fee
  fee_sound fee h =
      let (g, v) = >>-eq-ok (guard (not (sdk.coins.is_nil fee)) _) _ h in
      record { not_nil = (not_iff (sdk.coins.is_nil fee)).0 (guard_passes _ _ g); valid = v }

  fee_complete : (fee : Coin) → IsValidFee fee → validate_fee sdk fee ≡ ok tt
  unfolding validate_fee
  fee_complete fee v = rw v.not_nil v.valid

  -- The comparison with a zero coin of the increment's own denomination.
  is_lte_zero :
      (c : Coin) (x : ℤ)
      → c.amount ≡ some x
      → sdk.coins.is_lte c (coin c.denom (pos 0)) ≡ ok (leb_ℤ x (pos 0))
  is_lte_zero c x e =
      ap (λ a. sdk.coins.is_lte (record { denom = c.denom; amount = a }) (coin c.denom (pos 0))) e
      ∙ sdk.coins.is_lte_lem c.denom x (pos 0)

  -- The three tests of the proposer's fee.
  fee_share_sound :
      (v : sdk.decimals.LegacyDec)
      → validate_proposer_fee sdk v ≡ ok tt
      → (sdk.decimals.is_nil v ≡ false)
        × (pos 0 ≤ℤ sdk.decimals.scaled v)
        × (sdk.decimals.scaled v ≤ℤ pos precision)
  unfolding validate_proposer_fee
  fee_share_sound v h =
      let (g, k) = >>-eq-ok (guard (not (sdk.decimals.is_nil v)) _) _ h in
      let (n, m) = >>-eq-ok (guard (not (sdk.decimals.is_negative v)) _) _ k in
      let not_negative : sdk.decimals.is_negative v ≡ false =
        (not_iff (sdk.decimals.is_negative v)).0 (guard_passes _ _ n) in
      let not_large : sdk.decimals.gt v sdk.decimals.one_dec ≡ false =
        (not_iff (sdk.decimals.gt v sdk.decimals.one_dec)).0 (guard_passes _ _ m) in
      (
        (not_iff (sdk.decimals.is_nil v)).0 (guard_passes _ _ g),
        from_zero (sdk.decimals.scaled v) (sym (sdk.decimals.is_negative_lem v) ∙ not_negative),
        to_one (sdk.decimals.scaled v) (
            sym (ap (λ o. ltb_ℤ o (sdk.decimals.scaled v)) sdk.decimals.scaled-one_dec)
            ∙ sym (sdk.decimals.gt_lem v sdk.decimals.one_dec)
            ∙ not_large),
      )
    where
      from_zero : (x : ℤ) → ltb_ℤ x (pos 0) ≡ false → pos 0 ≤ℤ x
      from_zero x e = ground (arith, e)

      to_one : (x : ℤ) → ltb_ℤ (pos precision) x ≡ false → x ≤ℤ pos precision
      to_one x e = ground (arith, e)

  fee_share_complete :
      (v : sdk.decimals.LegacyDec)
      → sdk.decimals.is_nil v ≡ false
      → pos 0 ≤ℤ sdk.decimals.scaled v
      → sdk.decimals.scaled v ≤ℤ pos precision
      → validate_proposer_fee sdk v ≡ ok tt
  unfolding validate_proposer_fee
  fee_share_complete v n z o =
      rw
        (
          n,
          sdk.decimals.is_negative_lem v,
          sdk.decimals.gt_lem v sdk.decimals.one_dec,
          sdk.decimals.scaled-one_dec,
        )
        (in_range (sdk.decimals.scaled v) z o)
    where
      in_range :
          (x : ℤ)
          → pos 0 ≤ℤ x
          → x ≤ℤ pos precision
          → (guard (not (ltb_ℤ x (pos 0))) negative_proposer_fee
              >> guard (not (ltb_ℤ (pos precision) x)) large_proposer_fee)
            ≡ ok tt
      in_range x z o = ground (arith, z, o)

  module _ (p : Params sdk) where
    validate_params_complete : IsValidParams p → validate_params sdk p ≡ ok tt
    unfolding validate_params
    validate_params_complete v =
        let (x, is_amount, at_least_one) = v.positive in
        rw
          (
            v.escrow.1,
            fee_complete p.reserve_fee v.reserve,
            fee_complete p.min_bid_increment v.increment,
          )
          (rw (is_lte_zero p.min_bid_increment x is_amount, le_not x at_least_one)
            (rw ((eq_iff p.reserve_fee.denom p.min_bid_increment.denom).1 v.one_denom)
              (fee_share_complete p.proposer_fee v.share_not_nil v.share_from_zero v.share_to_one)))

    validate_params_sound : validate_params sdk p ≡ ok tt → IsValidParams p
    unfolding validate_params
    validate_params_sound h =
        let (set, h1) = >>-eq-ok (guard (is_set sdk p.escrow_account_address) _) _ h in
        let (res, h2) = >>-eq-ok (wrapped (validate_fee sdk p.reserve_fee)) _ h1 in
        let (inc, h3) = >>-eq-ok (wrapped (validate_fee sdk p.min_bid_increment)) _ h2 in
        let (zero, is_lte, h4) =
          >>=-eq-ok (sdk.coins.is_lte p.min_bid_increment (coin p.min_bid_increment.denom (pos 0)))
            _ h3 in
        let (not_zero, h5) = >>-eq-ok (guard (not zero) _) _ h4 in
        let (same, h6) =
          >>-eq-ok (guard (str_eq p.reserve_fee.denom p.min_bid_increment.denom) _) _ h5 in
        let (share_not_nil, from_zero, to_one) = fee_share_sound p.proposer_fee h6 in
        let increment = fee_sound p.min_bid_increment (wrapped_passes _ inc) in
        let (x, is_amount) = sdk.coins.is_nil-some p.min_bid_increment increment.not_nil in
        record {
          escrow = address_set sdk p.escrow_account_address (guard_passes _ _ set);
          reserve = fee_sound p.reserve_fee (wrapped_passes _ res);
          increment = increment;
          positive = (
            x,
            is_amount,
            not_le x (
                is_positive x zero is_amount is_lte ((not_iff zero).0 (guard_passes _ _ not_zero))),
          );
          one_denom =
              (eq_iff p.reserve_fee.denom p.min_bid_increment.denom).0 (guard_passes _ _ same);
          share_not_nil = share_not_nil;
          share_from_zero = from_zero;
          share_to_one = to_one;
        }
      where
        is_positive :
            (x : ℤ) (zero : Bool)
            → p.min_bid_increment.amount ≡ some x
            → sdk.coins.is_lte p.min_bid_increment (coin p.min_bid_increment.denom (pos 0))
              ≡ ok zero
            → zero ≡ false
            → leb_ℤ x (pos 0) ≡ false
        is_positive x zero a l z =
            ok_false (leb_ℤ x (pos 0)) (sym (is_lte_zero p.min_bid_increment x a) ∙ l ∙ ap ok z)

    -- Validate accepts the parameters exactly if they have an escrow address, two valid fees of one denomination, an
    -- increment of at least 1, and a proposer fee from 0 to 1.
    pub validate_params_iff : (validate_params sdk p ≡ ok tt) ↔ IsValidParams p
    validate_params_iff = (validate_params_sound, validate_params_complete)
