-- ===== src/Tests/Fixture.antt =====
-- A concrete `Sdk`: decimals are integers in units of the last place, an encoding is the `rest` of a
-- transaction, and the hash of bytes is as long as they are.
use pob.Prelude.{
  ℕ, zero, suc, ◌+◌, ◌-◌, ◌*◌, ◌/◌, ◌%◌, ◌^◌, ◌≤◌, ◌<◌, ◌≡◌, ◌≢◌, ◌↔◌, refl, Bool, true, false,
  ◌&&◌, String, Option, none, some, List, [], ◌∷◌, arith, ltb, leb, ◌==◌, if◌then◌else◌, str_eq,
  eq_iff, length,
}
use pob.Prelude.Int.{ℤ, pos, negsuc, pos_part, neg_part, sub_ℕ, ◌+ℤ◌, ltb_ℤ, leb_ℤ}
use pob.Prelude.Outcome.{Outcome, ok, err, panic, foreign, ◌>>=◌}
use pob.Sdk.{Sdk, Bytes, Tx, other, Decimals, precision, Coin, CoinOps, DecCoinOps, coin, coins_of}

abbrev pub is_zero_int : ℤ → Bool
is_zero_int (pos n) = n == 0
is_zero_int (negsuc n) = false

abbrev pub scale_int : ℤ → ℤ → ℤ
scale_int a b =
    sub_ℕ (pos_part a * pos_part b + neg_part a * neg_part b)
      (pos_part a * neg_part b + neg_part a * pos_part b)

abbrev pub truncate : ℤ → ℤ
truncate (pos n) = pos (n / precision)
truncate (negsuc n) = sub_ℕ 0 (suc n / precision)

abbrev pub to_int64 : ℤ → Outcome ℤ
to_int64 (pos n) = if ltb n (2 ^ 63) then ok (pos n) else panic
to_int64 (negsuc n) = if ltb n (2 ^ 63) then ok (negsuc n) else panic

abbrev pub add_int : ℤ → ℤ → ℤ
add_int a b = sub_ℕ (pos_part a + pos_part b) (neg_part a + neg_part b)

pub add_int-eq : (a b : ℤ) → add_int a b ≡ a +ℤ b
unfolding ◌+ℤ◌
add_int-eq a b = refl

pub is_zero_int_iff : (d : ℤ) → (is_zero_int d ≡ true) ↔ (d ≡ pos 0)
is_zero_int_iff (pos n) = ground arith
is_zero_int_iff (negsuc n) = ground arith

pub scale_int-pos : (d : ℤ) (r n : ℕ) → d ≡ pos r → scale_int d (pos n) ≡ pos (r * n)
scale_int-pos (pos m) r n e = ground arith
scale_int-pos (negsuc m) r n e = absurd (cc)

pub truncate-pos : (d : ℤ) (r : ℕ) → d ≡ pos r → truncate d ≡ pos (r / precision)
truncate-pos (pos m) r e = ground arith
truncate-pos (negsuc m) r e = absurd (cc)

pub to_int64-pos : (n : ℕ) → n < 2 ^ 63 → to_int64 (pos n) ≡ ok (pos n)
to_int64-pos n h = ground arith

abbrev pub fixed_decimals : Decimals
fixed_decimals = record {
  LegacyDec = ℤ;
  scaled = λ d. d;
  is_nil = λ d. false;
  is_zero = is_zero_int;
  is_negative = λ d. ltb_ℤ d (pos 0);
  gt = λ a b. ltb_ℤ b a;
  lt = λ a b. ltb_ℤ a b;
  zero_dec = pos 0;
  one_dec = pos precision;
  add = add_int;
  mul_int64 = scale_int;
  truncate_int = truncate;
  int64 = to_int64;
  scaled-zero_dec = refl;
  scaled-one_dec = refl;
  is_zero_iff = is_zero_int_iff;
  is_negative_lem = λ d. refl;
  gt_lem = λ a b. refl;
  lt_lem = λ a b. refl;
  scaled-add = add_int-eq;
  scaled-mul_int64 = scale_int-pos;
  truncate_int_lem = truncate-pos;
  int64_lem = to_int64-pos;
}

-- Amounts that are nil make an operation panic, as do different denominations.
abbrev pub on_amounts {ℓ} : {A : Type ℓ} → (ℤ → ℤ → A) → Option ℤ → Option ℤ → Outcome A
on_amounts f (some x) (some y) = ok (f x y)
on_amounts f (some x) none = panic
on_amounts f none y = panic

abbrev pub on_coins {ℓ} : {A : Type ℓ} → (ℤ → ℤ → A) → Coin → Coin → Outcome A
on_coins f a b = if str_eq a.denom b.denom then on_amounts f a.amount b.amount else panic

abbrev pub check_coin : Option ℤ → Outcome (Unit {0})
check_coin (some (pos n)) = ok tt
check_coin (some (negsuc n)) = err foreign
check_coin none = err foreign

abbrev pub simple_new_coins : List Coin → Outcome (List Coin)
simple_new_coins [] = ok []
simple_new_coins (c ∷ []) = elim c.amount [
  | some x ↦ elim x [ pos n ↦ ok (coins_of c.denom n) | negsuc n ↦ panic ]
  | none ↦ panic
]
simple_new_coins (c ∷ d ∷ r) = panic

abbrev pub is_nil_amount : Option ℤ → Bool
is_nil_amount none = true
is_nil_amount (some x) = false

pub is_nil_amount-some : (a : Option ℤ) → is_nil_amount a ≡ false → (x : ℤ) × (a ≡ some x)
is_nil_amount-some (some x) h = (x, refl)
is_nil_amount-some none h = absurd (cc)

pub on_coins_lem {ℓ} :
    {A : Type ℓ} (f : ℤ → ℤ → A) (d : String) (x y : ℤ)
    → on_coins f (coin d x) (coin d y) ≡ ok (f x y)
on_coins_lem f d x y = rw ((eq_iff d d).1 refl)

pub on_coins-ne {ℓ} :
    {A : Type ℓ} (f : ℤ → ℤ → A) (a b : Coin) → a.denom ≢ b.denom → on_coins f a b ≡ panic
on_coins-ne f a b h = ground (arith, eq_iff a.denom b.denom)

abbrev pub simple_coins : CoinOps
simple_coins = record {
  is_nil = λ c. is_nil_amount c.amount;
  is_gte = on_coins (λ x y. leb_ℤ y x);
  is_lte = on_coins (λ x y. leb_ℤ x y);
  add = λ a b. on_coins add_int a b >>= (λ c. ok (coin a.denom c));
  validate = λ c. check_coin c.amount;
  new_coins = simple_new_coins;
  is_nil-coin = λ d x. refl;
  is_nil-some = λ c h. is_nil_amount-some c.amount h;
  is_gte_lem = λ d x y. on_coins_lem (λ x y. leb_ℤ y x) d x y;
  is_lte_lem = λ d x y. on_coins_lem (λ x y. leb_ℤ x y) d x y;
  is_gte-ne = λ a b h. on_coins-ne (λ x y. leb_ℤ y x) a b h;
  add_lem = λ d x y. rw (on_coins_lem add_int d x y, add_int-eq);
  add-ne = λ a b h. rw (on_coins-ne add_int a b h);
  new_coins_lem = λ d n h. refl;
}

abbrev pub DecAmount : Type 0
DecAmount = Option (String × ℕ)

abbrev pub amount_of : String → ℕ → DecAmount
amount_of d x = if x == 0 then none else some (d, x)

abbrev pub amount_from_coins : List Coin → Outcome DecAmount
amount_from_coins [] = ok none
amount_from_coins (c ∷ []) = elim c.amount [
  | some x ↦ elim x [ pos n ↦ ok (amount_of c.denom (n * precision)) | negsuc n ↦ panic ]
  | none ↦ panic
]
amount_from_coins (c ∷ d ∷ r) = panic

abbrev pub scale_amount : DecAmount → ℤ → DecAmount
scale_amount none f = none
scale_amount (some (d, x)) f = amount_of d (x * pos_part f / precision)

abbrev pub truncate_amount : DecAmount → List Coin × DecAmount
truncate_amount none = ([], none)
truncate_amount (some (d, x)) = (coins_of d (x / precision), amount_of d (x % precision))

abbrev pub sub_amount : DecAmount → DecAmount → Outcome DecAmount
sub_amount a none = ok a
sub_amount none (some (e, y)) = panic
sub_amount (some (d, x)) (some (e, y)) =
    if str_eq d e && leb y x then ok (amount_of d (x - y)) else panic

pub from_coins_of-eq :
    (d : String) (n : ℕ) → amount_from_coins (coins_of d n) ≡ ok (amount_of d (n * precision))
from_coins_of-eq d n = ground arith

suc-ne-zero : (n : ℕ) → (suc n == 0) ≡ false
suc-ne-zero n = ground arith

pub scale_amount-of :
    (d : String) (x r : ℕ) (f : ℤ)
    → f ≡ pos r
    → scale_amount (amount_of d x) f ≡ amount_of d (x * r / precision)
scale_amount-of d zero r f e = ground arith
scale_amount-of d (suc x) r f e = rw (e, suc-ne-zero x)

pub truncate_amount-of :
    (d : String) (x : ℕ) → (truncate_amount (amount_of d x)).0 ≡ coins_of d (x / precision)
truncate_amount-of d x = ground arith

pub sub_amount-of :
    (d : String) (x y : ℕ)
    → y ≤ x
    → sub_amount (amount_of d x) (amount_of d y) ≡ ok (amount_of d (x - y))
sub_amount-of d x y h = ground (arith, eq_iff d d)

abbrev pub simple_dec_coins : DecCoinOps fixed_decimals simple_coins
simple_dec_coins = record {
  DecCoins = DecAmount;
  of_amount = amount_of;
  from_coins = amount_from_coins;
  mul_dec_truncate = scale_amount;
  truncate_decimal = truncate_amount;
  sub = sub_amount;
  from_coins_lem = λ d n h. refl;
  from_coins-coins_of = λ d m n h. from_coins_of-eq d n;
  mul_dec_truncate_lem = scale_amount-of;
  truncate_decimal_lem = truncate_amount-of;
  sub_lem = sub_amount-of;
}

abbrev pub plain_tx : Bytes → Tx
plain_tx bz = record {
  msgs = other ∷ [];
  timeout_height = some 0;
  signers = some (ok []);
  signatures = ok [];
  fee = none;
  rest = bz;
}

abbrev pub unary_hash : Bytes → String
unary_hash [] = ""
unary_hash (x ∷ xs) = String.◌∷◌ "a" (unary_hash xs)

-- Addresses are one byte long, and written as a name.
abbrev pub name_of : Bytes → String
name_of [] = ""
name_of (n ∷ r) = if n == 1 then "alice" else if n == 2 then "bob" else "carol"

abbrev pub address_of : String → Outcome Bytes
address_of s =
    if str_eq s "alice"
    then ok (1 ∷ [])
    else if str_eq s "bob"
    then ok (2 ∷ [])
    else if str_eq s "carol"
    then ok (3 ∷ [])
    else err foreign

-- Transactions of a thousand bytes or more have no encoding.
abbrev pub encode_rest : Bytes → Outcome Bytes
encode_rest bz = if ltb (length bz) 1000 then ok bz else err foreign

-- The values of a context: its check modes, and the height of its block.
pub record Mode : Type 0 where
  pub check : Bool
  pub recheck : Bool
  pub height : ℤ

abbrev pub deliver : Mode
deliver = record { check = false; recheck = false; height = pos 4 }

abbrev pub simple_sdk : Sdk
simple_sdk = record {
  Ctx = Mode;
  Store = List ℕ;
  decimals = fixed_decimals;
  coins = simple_coins;
  dec_coins = simple_dec_coins;
  encode = λ tx. encode_rest tx.rest;
  decode = λ bz. ok (plain_tx bz);
  hash = unary_hash;
  acc_from_bech32 = address_of;
  acc_string = name_of;
}
