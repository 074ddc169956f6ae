-- ===== src/Prelude/Outcome.antt =====
-- The ways in which a Go call ends: it returns, it returns an error, or it panics. The text of an
-- error is dropped; `wrap` is `fmt.Errorf` with `%w`.
use mathlib.Core.Path.{◌≡◌, refl, ap}
use mathlib.Core.Logic.{◌⊎◌, inl, inr}
use mathlib.Core.Bool.{Bool, true, false}

pub data Error : Type 0 where
  -- sentinel errors, and FrontRunningError of x/builder/keeper/errors.go
  tx_not_found max_capacity front_running : Error
  -- an error of a component that is a parameter of the model
  foreign : Error
  -- any other error, by the place that makes it
  invalid_encoding decode_failed no_signers replacement_rule sender_missing : Error
  lane_limit block_limit : Error
  interleaved wrong_priority misplaced_bid missing_bundle multiple_bids wrong_bundle : Error
  bad_auction_msg bad_bidder no_timeout not_verifiable bundled_bid nil_bid_info : Error
  bundle_too_large nil_bid wrong_denom below_reserve wrong_increment_denom : Error
  below_min_bid insufficient_funds : Error
  no_params bad_authority nil_escrow nil_fee bad_fee zero_increment mismatched_denoms : Error
  nil_proposer_fee negative_proposer_fee large_proposer_fee : Error
  no_bid bad_bid no_transactions empty_transaction empty_rewards_address : Error
  not_in_mempool timed_out not_empty : Error
  nil_logger nil_encoder nil_decoder bad_block_space empty_name nil_mempool nil_match : Error
  sum_too_large sum_too_small lane_missing lanes_failed recovered : Error
  wrap : Error → Error

pub data Outcome {ℓ} (A : Type ℓ) : Type ℓ where
  ok : A → Outcome A
  err : Error → Outcome A
  panic : Outcome A

-- `if !test { return err }`
abbrev pub guard : Bool → Error → Outcome (Unit {0})
guard test failure = elim test [ true ↦ ok tt | false ↦ err failure ]

-- `fmt.Errorf("...: %w", err)`
abbrev pub wrapped {ℓ} : {A : Type ℓ} → Outcome A → Outcome A
wrapped panic = panic
wrapped (err cause) = err (wrap cause)
wrapped (ok value) = ok value

-- `v, err := m; if err != nil { return err }`; a panic passes through.
infixl 5 ◌>>=◌
abbrev pub ◌>>=◌ {κ ν} : {V : Type κ} {W : Type ν} → Outcome V → (V → Outcome W) → Outcome W
panic >>= next = panic
err failure >>= next = err failure
ok value >>= next = next value

-- A call that returns nothing but its error.
infixl 5 ◌>>◌
abbrev pub ◌>>◌ {κ} : {W : Type κ} → Outcome (Unit {0}) → Outcome W → Outcome W
call >> next = call >>= λ nothing. next

pub >>=-eq-ok {κ ν} :
    {V : Type κ} {W : Type ν} (call : Outcome V) (next : V → Outcome W) {w : W}
    → (call >>= next) ≡ ok w
    → (v : V) × (call ≡ ok v) × (next v ≡ ok w)
>>=-eq-ok panic next returned = cc
>>=-eq-ok (err failure) next returned = cc
>>=-eq-ok (ok value) next returned = (value, refl, returned)

pub >>-eq-ok {κ} :
    {W : Type κ} (call : Outcome (Unit {0})) (next : Outcome W) {w : W}
    → (call >> next) ≡ ok w
    → (call ≡ ok tt) × (next ≡ ok w)
>>-eq-ok panic next returned = cc
>>-eq-ok (err failure) next returned = cc
>>-eq-ok (ok value) next returned = (refl, returned)

-- The ways in which a call ended.
pub Outcome-cases {κ} :
    {W : Type κ} (r : Outcome W)
    → ((w : W) × (r ≡ ok w)) ⊎ ((e : Error) × (r ≡ err e)) ⊎ (r ≡ panic)
Outcome-cases (ok w) = inl (w, refl)
Outcome-cases (err e) = inr (inl (e, refl))
Outcome-cases panic = inr (inr refl)

-- A call that has a state returned, with the state that it left.
pub with_state {κ ν} :
    {S : Type κ} {W : Type ν} (r : S × Outcome W) {w : W} → r.1 ≡ ok w → r ≡ (r.0, ok w)
with_state (s, r) e = ap (λ x. (s, x)) e

pub with_end {κ ν} :
    {S : Type κ} {W : Type ν} (r : Outcome W × S) {w : W} {s : S}
    → r.0 ≡ ok w
    → r.1 ≡ s
    → r ≡ (ok w, s)
with_end (r, t) e f i = (e i, f i)
