-- ===== src/Lane/Select.antt =====
-- DefaultPrepareLaneHandler of blockbuster/lane_handlers.go: what the selection loop takes, skips and
-- removes, and the size of what it takes.
use pob.Prelude.{
  ℕ, ◌+◌, ◌≤◌, ◌<◌, Bool, true, false, ◌⊎◌, List, [], ◌∷◌, ◌≡◌, refl, length, Bool-cases, inl, inr,
}
use pob.Prelude.Int.{ℤ, pos, ltb_ℤ, add64}
use pob.Prelude.Outcome.{Error, Outcome, ok, err, panic}
use pob.Sdk.{Sdk, Bytes, Tx}
use pob.Proposal.{Proposal, contains}
use pob.Lane.Defs.{Env, LaneConstructor, match, ante_verify_tx}
use pob.Lane.Handlers.{
  Selection, reject, include, Round, continue, break, panicked, verify_round, encoded_round,
  select_round,
}

module _ (sdk : Sdk) {Pool : Type 0} (l : LaneConstructor sdk Pool) (p : Proposal) where
  -- A transaction that the lane may propose: it can be encoded, belongs to the lane, and is new to the proposal.
  pub record IsCandidate (ctx : Env sdk) (tx : Tx) (bz : Bytes) : Type 0 where
    pub encoded : sdk.encode tx ≡ ok bz
    pub belongs : match sdk l ctx tx ≡ true
    pub fresh : contains sdk p bz ≡ false

  -- A transaction that the lane must drop before it is verified: it has no encoding, or it is not the lane's.
  pub data IsForeign (ctx : Env sdk) (tx : Tx) : Type 0 where
    no_encoding : (e : Error) → sdk.encode tx ≡ err e → IsForeign ctx tx
    not_ours : match sdk l ctx tx ≡ false → IsForeign ctx tx

  -- The encoder or the ante handler panics on the transaction.
  abbrev pub Panics : Tx → Type 0
  Panics tx =
      (sdk.encode tx ≡ panic) ⊎ ((c : Env sdk) × ((ante_verify_tx sdk l c tx false).1 ≡ panic))

  -- `Selects max ctx size txs bs rs`: of `txs`, in order and from `ctx` on, with `size` bytes taken before, those with the
  -- encodings `bs` are taken, and `rs` removed. It ends with the transactions, or at the first candidate that goes over the
  -- limit.
  pub data Selects (max : ℕ) : Env sdk → ℕ → List Tx → List Bytes → List Tx → Type 0 where
    finished : (ctx : Env sdk) (size : ℕ) → Selects max ctx size [] [] []
    full :
        (ctx : Env sdk) (size : ℕ) (tx : Tx) (txs : List Tx) (bz : Bytes)
        → IsCandidate ctx tx bz
        → max < size + length bz
        → Selects max ctx size (tx ∷ txs) [] []
    skip :
        {ctx : Env sdk} {size : ℕ} {tx : Tx} {txs : List Tx} {bs : List Bytes} {rs : List Tx}
        (bz : Bytes)
        → sdk.encode tx ≡ ok bz
        → match sdk l ctx tx ≡ true
        → contains sdk p bz ≡ true
        → Selects max ctx size txs bs rs
        → Selects max ctx size (tx ∷ txs) bs rs
    drop :
        {ctx : Env sdk} {size : ℕ} {tx : Tx} {txs : List Tx} {bs : List Bytes} {rs : List Tx}
        → IsForeign ctx tx
        → Selects max ctx size txs bs rs
        → Selects max ctx size (tx ∷ txs) bs (tx ∷ rs)
    fail :
        {ctx ctx' : Env sdk} {size : ℕ} {tx : Tx} {txs : List Tx} {bs : List Bytes} {rs : List Tx}
        {bz : Bytes} (e : Error)
        → IsCandidate ctx tx bz
        → size + length bz ≤ max
        → ante_verify_tx sdk l ctx tx false ≡ (ctx', err e)
        → Selects max ctx' size txs bs rs
        → Selects max ctx size (tx ∷ txs) bs (tx ∷ rs)
    take :
        {ctx ctx' : Env sdk} {size : ℕ} {tx : Tx} {txs : List Tx} {bs : List Bytes} {rs : List Tx}
        {bz : Bytes}
        → IsCandidate ctx tx bz
        → size + length bz ≤ max
        → ante_verify_tx sdk l ctx tx false ≡ (ctx', ok tt)
        → Selects max ctx' (size + length bz) txs bs rs
        → Selects max ctx size (tx ∷ txs) (bz ∷ bs) rs

  module _ (max : ℤ) (ctx : Env sdk) (s : Selection) (tx : Tx) where
    abbrev is_over : Bytes → Bool
    is_over bz = ltb_ℤ max (add64 s.total_size (pos (length bz)))

    -- The ways in which a round may end.
    pub data RoundCase (r : Round (Env sdk)) : Type 0 where
      skips :
          (bz : Bytes)
          → sdk.encode tx ≡ ok bz
          → match sdk l ctx tx ≡ true
          → contains sdk p bz ≡ true
          → r ≡ continue ctx s
          → RoundCase r
      drops : IsForeign ctx tx → r ≡ continue ctx (reject tx s) → RoundCase r
      fails :
          (ctx' : Env sdk) (bz : Bytes) (e : Error)
          → IsCandidate ctx tx bz
          → is_over bz ≡ false
          → ante_verify_tx sdk l ctx tx false ≡ (ctx', err e)
          → r ≡ continue ctx' (reject tx s)
          → RoundCase r
      takes :
          (ctx' : Env sdk) (bz : Bytes)
          → IsCandidate ctx tx bz
          → is_over bz ≡ false
          → ante_verify_tx sdk l ctx tx false ≡ (ctx', ok tt)
          → r ≡ continue ctx' (include bz s)
          → RoundCase r
      breaks : (bz : Bytes) → IsCandidate ctx tx bz → is_over bz ≡ true → r ≡ break s → RoundCase r
      panics : (ctx' : Env sdk) → Panics tx → r ≡ panicked ctx' → RoundCase r

    verify_round-cases :
        (bz : Bytes)
        → IsCandidate ctx tx bz
        → is_over bz ≡ false
        → RoundCase (verify_round sdk l ctx s tx bz)
    unfolding verify_round
    verify_round-cases bz c f = go (ante_verify_tx sdk l ctx tx false).1 refl
      where
        after : Env sdk
        after = (ante_verify_tx sdk l ctx tx false).0

        go :
            (r : Outcome (Unit {0}))
            → (ante_verify_tx sdk l ctx tx false).1 ≡ r
            → RoundCase (verify_round sdk l ctx s tx bz)
        go (ok u) v = takes after bz c f (λ i. (after, v i)) (rw (v, verify_round))
        go (err x) v = fails after bz x c f (λ i. (after, v i)) (rw (v, verify_round))
        go panic v = panics after (inr (ctx, v)) (rw (v, verify_round))

    encoded_round-cases :
        (bz : Bytes) → sdk.encode tx ≡ ok bz → RoundCase (encoded_round sdk l p max ctx s tx bz)
    unfolding encoded_round
    encoded_round-cases bz e = elim (Bool-cases (match sdk l ctx tx)) [
      | inr n ↦ drops (not_ours n) (rw n)
      | inl m ↦ elim (Bool-cases (contains sdk p bz)) [
        | inl old ↦ skips bz e m old (rw (m, old))
        | inr new ↦
            let c : IsCandidate ctx tx bz = record { encoded = e; belongs = m; fresh = new } in
            elim (Bool-cases (is_over bz)) [
              | inl big ↦ breaks bz c big (rw (m, new, big))
              | inr fits ↦ rw (m, new, fits) (verify_round-cases bz c fits)
            ]
      ]
    ]

    pub select_round-cases : RoundCase (select_round sdk l p max ctx s tx)
    unfolding select_round
    select_round-cases = go (sdk.encode tx) refl
      where
        go : (r : Outcome Bytes) → sdk.encode tx ≡ r → RoundCase (select_round sdk l p max ctx s tx)
        go (ok bz) e = rw (e, select_round) (encoded_round-cases bz e)
        go (err x) e = drops (no_encoding x e) (rw (e, select_round))
        go panic e = panics ctx (inl e) (rw (e, select_round))
