-- ===== src/Sdk/Coins.antt =====
-- sdk.Coin, sdk.Coins and sdk.DecCoins of cosmos-sdk.
use pob.Prelude.{
  ℕ, ◌*◌, ◌/◌, ◌-◌, ◌≤◌, ◌≡◌, ◌≢◌, Bool, Option, some, String, List, [], ◌∷◌, ◌==◌, if◌then◌else◌,
}
use pob.Prelude.Int.{ℤ, pos, ◌+ℤ◌, leb_ℤ}
use pob.Prelude.Outcome.{Outcome, ok, panic}
use pob.Sdk.Decimal.{Decimals, precision}

-- The amount of a zero `sdk.Coin{}` is a nil Int.
pub record Coin : Type 0 where
  pub denom : String
  pub amount : Option ℤ

abbrev pub coin : String → ℤ → Coin
coin d x = record { denom = d; amount = some x }

-- The coins of one denomination, none of them if the amount is zero.
abbrev pub coins_of : String → ℕ → List Coin
coins_of d n = if n == 0 then [] else coin d (pos n) ∷ []

-- A comparison or a sum of coins panics unless the denominations agree.
pub record CoinOps : Type 0 where
  pub is_nil : Coin → Bool
  pub is_gte : Coin → Coin → Outcome Bool
  pub is_lte : Coin → Coin → Outcome Bool
  pub add : Coin → Coin → Outcome Coin
  pub validate : Coin → Outcome (Unit {0})
  pub new_coins : List Coin → Outcome (List Coin)
  pub is_nil-coin : (d : String) (x : ℤ) → is_nil (coin d x) ≡ Bool.false
  pub is_nil-some : (c : Coin) → is_nil c ≡ Bool.false → (x : ℤ) × (c.amount ≡ some x)
  pub is_gte_lem : (d : String) (x y : ℤ) → is_gte (coin d x) (coin d y) ≡ ok (leb_ℤ y x)
  pub is_lte_lem : (d : String) (x y : ℤ) → is_lte (coin d x) (coin d y) ≡ ok (leb_ℤ x y)
  pub is_gte-ne : (a b : Coin) → a.denom ≢ b.denom → is_gte a b ≡ panic
  pub add_lem : (d : String) (x y : ℤ) → add (coin d x) (coin d y) ≡ ok (coin d (x +ℤ y))
  pub add-ne : (a b : Coin) → a.denom ≢ b.denom → add a b ≡ panic
  pub new_coins_lem :
      (d : String) (n : ℕ)
      → validate (coin d (pos n)) ≡ ok tt
      → new_coins (coin d (pos n) ∷ []) ≡ ok (coins_of d n)

-- Decimal coins. `of_amount d x` holds `x` units of the last place of `d`, and is empty if `x` is 0.
pub record DecCoinOps (decimals : Decimals) (coins : CoinOps) : Type 1 where
  pub DecCoins : Type 0
  pub of_amount : String → ℕ → DecCoins
  pub from_coins : List Coin → Outcome DecCoins
  pub mul_dec_truncate : DecCoins → decimals.LegacyDec → DecCoins
  pub truncate_decimal : DecCoins → List Coin × DecCoins
  pub sub : DecCoins → DecCoins → Outcome DecCoins
  pub from_coins_lem :
      (d : String) (n : ℕ)
      → coins.validate (coin d (pos n)) ≡ ok tt
      → from_coins (coin d (pos n) ∷ []) ≡ ok (of_amount d (n * precision))
  pub from_coins-coins_of :
      (d : String) (m n : ℕ)
      → coins.validate (coin d (pos m)) ≡ ok tt
      → from_coins (coins_of d n) ≡ ok (of_amount d (n * precision))
  pub mul_dec_truncate_lem :
      (d : String) (x r : ℕ) (f : decimals.LegacyDec)
      → decimals.scaled f ≡ pos r
      → mul_dec_truncate (of_amount d x) f ≡ of_amount d (x * r / precision)
  pub truncate_decimal_lem :
      (d : String) (x : ℕ) → (truncate_decimal (of_amount d x)).0 ≡ coins_of d (x / precision)
  pub sub_lem :
      (d : String) (x y : ℕ)
      → y ≤ x
      → sub (of_amount d x) (of_amount d y) ≡ ok (of_amount d (x - y))
