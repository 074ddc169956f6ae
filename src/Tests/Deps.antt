-- ===== src/Tests/Deps.antt =====
-- Concrete dependencies of the builder keeper over the concrete `Sdk`: parameters whose amounts are in stake have
-- an encoding, the store has one value for each key of a byte, and a bank whose balances are all a thousand.
use pob.Prelude.{
  ℕ, ◌≡◌, ◌≢◌, refl, ap, Bool, true, false, String, Option, none, some, List, [], ◌∷◌, ◌++◌, ◌==◌,
  if◌then◌else◌, str_eq, eq_iff, Bool-cases, inl, inr,
}
use pob.Prelude.Int.{ℤ, pos, negsuc}
use pob.Prelude.Outcome.{Outcome, ok, err, panic, foreign, ◌>>=◌}
use pob.Sdk.{Bytes, Coin, coin}
use pob.Builder.{Params, BuilderDeps}
use pob.Tests.Fixture.{simple_sdk}

abbrev stake_of : Option ℤ → Outcome ℕ
stake_of (some (pos n)) = ok n
stake_of (some (negsuc n)) = err foreign
stake_of none = err foreign

abbrev stake_amount : Coin → Outcome ℕ
stake_amount c = if str_eq c.denom "stake" then stake_of c.amount else err foreign

abbrev fee_amount : ℤ → Outcome ℕ
fee_amount (pos n) = ok n
fee_amount (negsuc n) = err foreign

abbrev need_address : Option Bytes → Outcome Bytes
need_address (some bz) = ok bz
need_address none = err foreign

abbrev flag : Bool → ℕ
flag true = 1
flag false = 0

abbrev pub params_of : ℕ → Bytes → ℕ → ℕ → Bool → ℕ → Params simple_sdk
params_of size escrow reserve increment protection fee = record {
  max_bundle_size = size;
  escrow_account_address = some escrow;
  reserve_fee = coin "stake" (pos reserve);
  min_bid_increment = coin "stake" (pos increment);
  front_running_protection = protection;
  proposer_fee = pos fee;
}

abbrev pub encode_params : Params simple_sdk → Outcome Bytes
encode_params p = do
  escrow ← need_address p.escrow_account_address
  reserve ← stake_amount p.reserve_fee
  increment ← stake_amount p.min_bid_increment
  fee ← fee_amount p.proposer_fee
  ok (p.max_bundle_size ∷ reserve ∷ increment ∷ flag p.front_running_protection ∷ fee ∷ escrow)

abbrev pub decode_params : Bytes → Outcome (Params simple_sdk)
decode_params (size ∷ reserve ∷ increment ∷ protection ∷ fee ∷ escrow) =
    ok (params_of size escrow reserve increment (protection == 1) fee)
decode_params [] = err foreign
decode_params (a ∷ []) = err foreign
decode_params (a ∷ b ∷ []) = err foreign
decode_params (a ∷ b ∷ c ∷ []) = err foreign
decode_params (a ∷ b ∷ c ∷ d ∷ []) = err foreign

stake_of-ok : (a : Option ℤ) (n : ℕ) → stake_of a ≡ ok n → a ≡ some (pos n)
stake_of-ok (some (pos m)) n h = cc h
stake_of-ok (some (negsuc m)) n h = absurd (cc h)
stake_of-ok none n h = absurd (cc h)

same_coin :
    (d : String) (a : Option ℤ) (n : ℕ)
    → d ≡ "stake"
    → a ≡ some (pos n)
    → ◌≡◌ {A = Coin} (record { denom = d; amount = a }) (coin "stake" (pos n))
same_coin d a n i j = cc

refuse : (n : ℕ) → ◌≡◌ {A = Outcome ℕ} (err foreign) (ok n) → ⊥
refuse n h = cc h

stake_amount-ok : (c : Coin) (n : ℕ) → stake_amount c ≡ ok n → c ≡ coin "stake" (pos n)
stake_amount-ok c n h = elim (Bool-cases (str_eq c.denom "stake")) [
  | inl y ↦
      let i = (eq_iff c.denom "stake").0 y in
      same_coin c.denom c.amount n i (stake_of-ok c.amount n (rw y at h))
  | inr o ↦ absurd (refuse n (rw o at h))
]

fee_amount-ok : (f : ℤ) (n : ℕ) → fee_amount f ≡ ok n → f ≡ pos n
fee_amount-ok (pos m) n h = cc h
fee_amount-ok (negsuc m) n h = absurd (cc h)

need_address-ok : (a : Option Bytes) (bz : Bytes) → need_address a ≡ ok bz → a ≡ some bz
need_address-ok (some x) bz h = cc h
need_address-ok none bz h = absurd (cc h)

flag-eq : (b : Bool) → (flag b == 1) ≡ b
flag-eq true = refl
flag-eq false = refl

same_params :
    (size : ℕ) (escrow : Option Bytes) (reserve increment : Coin) (protection : Bool) (fee : ℤ)
    (e : Bytes) (r i f : ℕ)
    → escrow ≡ some e
    → reserve ≡ coin "stake" (pos r)
    → increment ≡ coin "stake" (pos i)
    → fee ≡ pos f
    → params_of size e r i (flag protection == 1) f ≡ record {
      max_bundle_size = size;
      escrow_account_address = escrow;
      reserve_fee = reserve;
      min_bid_increment = increment;
      front_running_protection = protection;
      proposer_fee = fee;
    }
same_params size escrow reserve increment protection fee e r i f a b c d = cc (flag-eq protection)

pub round_trip :
    (p : Params simple_sdk) (bz : Bytes) → encode_params p ≡ ok bz → decode_params bz ≡ ok p
round_trip p bz h =
    with_escrow (need_address p.escrow_account_address) (stake_amount p.reserve_fee)
      (stake_amount p.min_bid_increment) (fee_amount p.proposer_fee) refl refl refl refl h
  where
    encode_parts : Outcome Bytes → Outcome ℕ → Outcome ℕ → Outcome ℕ → Outcome Bytes
    encode_parts escrow reserve increment fee = do
      e ← escrow
      r ← reserve
      i ← increment
      f ← fee
      ok (p.max_bundle_size ∷ r ∷ i ∷ flag p.front_running_protection ∷ f ∷ e)

    decoded :
        (e : Bytes) (r i f : ℕ)
        → need_address p.escrow_account_address ≡ ok e
        → stake_amount p.reserve_fee ≡ ok r
        → stake_amount p.min_bid_increment ≡ ok i
        → fee_amount p.proposer_fee ≡ ok f
        → params_of p.max_bundle_size e r i (flag p.front_running_protection == 1) f ≡ p
    decoded e r i f a b c d =
        same_params p.max_bundle_size p.escrow_account_address p.reserve_fee p.min_bid_increment
          p.front_running_protection p.proposer_fee e r i f
          (need_address-ok p.escrow_account_address e a) (stake_amount-ok p.reserve_fee r b)
          (stake_amount-ok p.min_bid_increment i c) (fee_amount-ok p.proposer_fee f d)

    is_bytes :
        (e : Bytes) (r i f : ℕ) (z : Bytes)
        → z ≡ p.max_bundle_size ∷ r ∷ i ∷ flag p.front_running_protection ∷ f ∷ e
        → params_of p.max_bundle_size e r i (flag p.front_running_protection == 1) f ≡ p
        → decode_params z ≡ ok p
    is_bytes e r i f z y k = rw y (ap ok k)

    with_escrow :
        (escrow : Outcome Bytes) (reserve increment fee : Outcome ℕ)
        → need_address p.escrow_account_address ≡ escrow
        → stake_amount p.reserve_fee ≡ reserve
        → stake_amount p.min_bid_increment ≡ increment
        → fee_amount p.proposer_fee ≡ fee
        → encode_parts escrow reserve increment fee ≡ ok bz
        → decode_params bz ≡ ok p
    with_escrow (ok e) (ok r) (ok i) (ok f) a b c d h =
        let same : encode_parts (ok e) (ok r) (ok i) (ok f) ≡ ok bz = h in
        is_bytes e r i f bz (cc same) (decoded e r i f a b c d)
    with_escrow (ok e) (ok r) (ok i) (err x) a b c d h = absurd (cc h)
    with_escrow (ok e) (ok r) (ok i) panic a b c d h = absurd (cc h)
    with_escrow (ok e) (ok r) (err x) fee a b c d h = absurd (cc h)
    with_escrow (ok e) (ok r) panic fee a b c d h = absurd (cc h)
    with_escrow (ok e) (err x) increment fee a b c d h = absurd (cc h)
    with_escrow (ok e) panic increment fee a b c d h = absurd (cc h)
    with_escrow (err x) reserve increment fee a b c d h = absurd (cc h)
    with_escrow panic reserve increment fee a b c d h = absurd (cc h)

pub encoded_ne_nil : (p : Params simple_sdk) (bz : Bytes) → encode_params p ≡ ok bz → bz ≢ []
encoded_ne_nil p [] h n = refuse_nil (round_trip p [] h)
  where
    refuse_nil : decode_params [] ≡ ok p → ⊥
    refuse_nil e = cc e
encoded_ne_nil p (x ∷ xs) h n = cc n

-- The amounts of a transfer.
abbrev pub sent : List Coin → Bytes
sent [] = []
sent (c ∷ rest) = elim c.amount [
  | some x ↦ elim x [ pos n ↦ n ∷ sent rest | negsuc n ↦ sent rest ]
  | none ↦ sent rest
]

-- A transfer appends its addressee and its amounts to the store. The store holds one value, under any key. Balances are 1000 of the denomination asked for.
abbrev pub simple_deps : BuilderDeps simple_sdk
simple_deps = record {
  marshal = encode_params;
  unmarshal = decode_params;
  kv_get = λ store key. store;
  kv_set = λ store key value. value;
  get_balance = λ store owner denom. coin denom (pos 1000);
  send_coins = λ from to coins store. (ok tt, store ++ to ++ sent coins);
  get_rewards_address = λ store. ok (3 ∷ []);
  authority = "alice";
  unmarshal-marshal = λ p bz t m. round_trip p bz m;
  marshal-ne-nil = encoded_ne_nil;
  kv_get-kv_set = λ store key value. refl;
}
