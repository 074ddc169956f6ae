-- ===== src/Abci/Chain.antt =====
-- ChainPrepareLanes: it never fails, and what UpdateProposal keeps, a chain of lanes keeps.
use pob.Prelude.{ℕ, List, [], ◌∷◌, ◌≡◌, refl, Bool-cases, inl, inr, length, leb}
use pob.Prelude.Outcome.{Outcome, ok, err, panic}
use pob.Sdk.{Sdk}
use pob.Proposal.{Proposal}
use pob.Lane.{Env, ChainLane, lane, terminator}
use pob.Abci.Prepare.{
  Prepared, PrepareNext, close_chain, prepare_element, recover_lane, finish_lane, prepare_chain,
}

module _ (sdk : Sdk) {Pool : Type 0} where
  -- The chain ends in the Terminator.
  abbrev pub IsClosed : List (ChainLane sdk Pool) → Type 0
  IsClosed [] = ⊥
  IsClosed (x ∷ []) = x ≡ terminator
  IsClosed (x ∷ y ∷ rest) = IsClosed (y ∷ rest)

  pub close_chain-IsClosed :
      (x : ChainLane sdk Pool) (rest : List (ChainLane sdk Pool))
      → IsClosed (close_chain sdk (x ∷ rest))
  unfolding close_chain
  close_chain-IsClosed terminator [] = refl
  close_chain-IsClosed (lane l) [] = refl
  close_chain-IsClosed x (terminator ∷ []) = refl
  close_chain-IsClosed x (lane l ∷ []) = refl
  close_chain-IsClosed x (y ∷ z ∷ rest) = close_chain-IsClosed y (z ∷ rest)

  module _ (next : PrepareNext sdk Pool)
      (next-ok : (ctx : Env sdk) (p : Proposal) → (next ctx p).outcome ≡ ok tt) where
    recover_lane-ok :
        (n : ℕ) (ctx : Env sdk) (p : Prepared sdk Pool) (lanes : List (ChainLane sdk Pool))
        → (recover_lane sdk next n ctx p lanes).outcome ≡ ok tt
    unfolding recover_lane
    recover_lane-ok n ctx p [] = refl
    recover_lane-ok n ctx p (l ∷ rest) = elim (Bool-cases (leb n 2)) [
      | inl few ↦ rw few
      | inr more ↦ rw more (next-ok ctx p.proposal)
    ]

    finish_lane-ok :
        (n : ℕ) (ctx : Env sdk) (p : Prepared sdk Pool)
        → (finish_lane sdk next n ctx p).outcome ≡ ok tt
    unfolding finish_lane
    finish_lane-ok n ctx p = go p.outcome refl
      where
        go :
            (r : Outcome (Unit {0}))
            → p.outcome ≡ r
            → (finish_lane sdk next n ctx p).outcome ≡ ok tt
        go (ok u) e = rw (e, finish_lane) e
        go (err x) e = rw (e, finish_lane) (recover_lane-ok n ctx p p.lanes)
        go panic e = rw (e, finish_lane) (recover_lane-ok n ctx p p.lanes)

  -- Whatever the lanes do, panics included, a closed chain ends without an error and without a panic.
  pub prepare_chain-ok :
      (chain : List (ChainLane sdk Pool)) (ctx : Env sdk) (p : Proposal)
      → IsClosed chain
      → (prepare_chain sdk chain ctx p).outcome ≡ ok tt
  unfolding prepare_chain finish_lane prepare_element
  prepare_chain-ok [] ctx p h = absurd h
  prepare_chain-ok (x ∷ []) ctx p h = rw h refl
  prepare_chain-ok (x ∷ y ∷ rest) ctx p h =
      finish_lane-ok (prepare_chain sdk (y ∷ rest)) (λ c q. prepare_chain-ok (y ∷ rest) c q h)
        (length (x ∷ y ∷ rest)) ctx
        (prepare_element sdk x (prepare_chain sdk (y ∷ rest)) (y ∷ rest) ctx p)
