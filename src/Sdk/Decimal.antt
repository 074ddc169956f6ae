-- ===== src/Sdk/Decimal.antt =====
-- cosmossdk.io/math: LegacyDec, a decimal with 18 places, and the conversion of an Int to int64.
use pob.Prelude.{ℕ, ◌*◌, ◌/◌, ◌^◌, ◌<◌, ◌≡◌, ◌↔◌, Bool, true}
use pob.Prelude.Int.{ℤ, pos, ◌+ℤ◌, ltb_ℤ}
use pob.Prelude.Outcome.{Outcome, ok}

-- The value of 1 in units of the last place.
abbrev pub precision : ℕ
precision = 10 ^ 18

-- The operations on decimals, and their laws over `scaled`, the value in units of the last place.
-- A nil decimal is one with `is_nil`; the laws speak of the others alone where it matters.
pub record Decimals : Type 1 where
  pub LegacyDec : Type 0
  pub scaled : LegacyDec → ℤ
  pub is_nil : LegacyDec → Bool
  pub is_zero : LegacyDec → Bool
  pub is_negative : LegacyDec → Bool
  pub gt : LegacyDec → LegacyDec → Bool
  pub lt : LegacyDec → LegacyDec → Bool
  pub zero_dec : LegacyDec
  pub one_dec : LegacyDec
  pub add : LegacyDec → LegacyDec → LegacyDec
  pub mul_int64 : LegacyDec → ℤ → LegacyDec
  pub truncate_int : LegacyDec → ℤ
  pub int64 : ℤ → Outcome ℤ
  pub scaled-zero_dec : scaled zero_dec ≡ pos 0
  pub scaled-one_dec : scaled one_dec ≡ pos precision
  pub is_zero_iff : (d : LegacyDec) → (is_zero d ≡ true) ↔ (scaled d ≡ pos 0)
  pub is_negative_lem : (d : LegacyDec) → is_negative d ≡ ltb_ℤ (scaled d) (pos 0)
  pub gt_lem : (a b : LegacyDec) → gt a b ≡ ltb_ℤ (scaled b) (scaled a)
  pub lt_lem : (a b : LegacyDec) → lt a b ≡ ltb_ℤ (scaled a) (scaled b)
  pub scaled-add : (a b : LegacyDec) → scaled (add a b) ≡ scaled a +ℤ scaled b
  pub scaled-mul_int64 :
      (d : LegacyDec) (r n : ℕ) → scaled d ≡ pos r → scaled (mul_int64 d (pos n)) ≡ pos (r * n)
  pub truncate_int_lem :
      (d : LegacyDec) (r : ℕ) → scaled d ≡ pos r → truncate_int d ≡ pos (r / precision)
  pub int64_lem : (n : ℕ) → n < 2 ^ 63 → int64 (pos n) ≡ ok (pos n)
