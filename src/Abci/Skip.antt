-- ===== src/Abci/Skip.antt =====
-- ChainPrepareLanes skips a lane that fails: the rest of the chain runs as if the lane were not there.
use pob.Prelude.{ℕ, suc, false, List, [], ◌∷◌, ◌≡◌, ◌≢◌, refl, ap, arith, length, leb}
use pob.Prelude.Int.{ℤ}
use pob.Prelude.Outcome.{Error, Outcome, ok, err, panic}
use pob.Sdk.{Sdk, Bytes, Tx}
use pob.Proposal.{Proposal, update_proposal, get_max_tx_bytes_for_lane}
use pob.Proposal.Update.{update_proposal-AllOrNothing, AllOrNothing}
use pob.Lane.{Env, Lane, ChainLane, lane, remove_txs_from_lane}
use pob.Abci.Prepare.{
  Prepared, PrepareNext, prepare_lane, propose, prepare_element, recover_lane, finish_lane,
  prepare_chain, with_pool, ended,
}
use pob.Abci.Chain.{IsClosed}

refused-eq :
    (sdk : Sdk) (txs : List Bytes) (p : Proposal) (x : Outcome (Unit {0}) × Proposal) (e : Error)
    → AllOrNothing sdk txs p x
    → x.0 ≡ err e
    → x.1 ≡ p
refused-eq sdk txs p (ok u, q) e h f = absurd (cc f)
refused-eq sdk txs p (err e', q) e h f = h
refused-eq sdk txs p (panic, q) e h f = h

many : (n : ℕ) → leb (suc (suc (suc n))) 2 ≡ false
many n = ground arith

module _ (sdk : Sdk) {Pool : Type 0} where
  -- The ways in which a lane fails on a proposal: its handler returns an error or panics, or
  -- UpdateProposal refuses what the handler returns.
  pub data Fails (l : Lane sdk Pool) (ctx : Env sdk) (p : Proposal) (max : ℤ) : Type 0 where
    handler_err :
        (e : Error) → (l.prepare_lane_handler l.self ctx p max).0 ≡ err e → Fails l ctx p max
    handler_panic : (l.prepare_lane_handler l.self ctx p max).0 ≡ panic → Fails l ctx p max
    refused :
        (txs : List Bytes) (rs : List Tx) (e : Error)
        → (l.prepare_lane_handler l.self ctx p max).0 ≡ ok (txs, rs)
        → (update_proposal sdk l.cfg.max_block_space txs p).0 ≡ err e
        → Fails l ctx p max

  -- The same outcome, store and proposal.
  pub record SameResult (a b : Prepared sdk Pool) : Type 0 where
    pub same_outcome : a.outcome ≡ b.outcome
    pub same_store : a.store ≡ b.store
    pub same_proposal : a.proposal ≡ b.proposal

  -- A lane that stopped without touching the proposal.
  record Stopped (p : Proposal) (rest : List (ChainLane sdk Pool)) (q : Prepared sdk Pool)
      : Type 0 where
    not_ok : (u : Unit {0}) → q.outcome ≢ ok u
    untouched : q.proposal ≡ p
    left : Lane sdk Pool
    lanes_eq : q.lanes ≡ lane left ∷ rest

  module _ (next : PrepareNext sdk Pool) (rest : List (ChainLane sdk Pool)) (ctx : Env sdk)
      (p : Proposal) where
    ended-Stopped :
        (r : Outcome (Unit {0})) (c : Env sdk) (q : Proposal) (l : Lane sdk Pool)
        → ((u : Unit {0}) → r ≢ ok u)
        → q ≡ p
        → Stopped p rest (ended sdk r c q (lane l ∷ rest))
    ended-Stopped r c q l h e = record { not_ok = h; untouched = e; left = l; lanes_eq = refl }

    propose-Stopped :
        (l : Lane sdk Pool) (c : Env sdk) (txs : List Bytes) (e : Error)
        → (update_proposal sdk l.cfg.max_block_space txs p).0 ≡ err e
        → Stopped p rest (propose sdk l next rest c txs p)
    unfolding propose
    propose-Stopped l c txs e f =
        rw (f, propose)
          (ended-Stopped (err e) c _ l (λ u g. cc g)
            (refused-eq sdk txs p _ e (update_proposal-AllOrNothing sdk l.cfg.max_block_space txs p)
              f))

    -- The caller's context, over the store that the handler wrote.
    abbrev handled : Lane sdk Pool → ℤ → Env sdk
    handled l max = record ctx { store = (l.prepare_lane_handler l.self ctx p max).1.store }

    prepare_lane-Stopped :
        (l : Lane sdk Pool) (max : ℤ)
        → Fails l ctx p max
        → Stopped p rest (prepare_lane sdk l next rest ctx p max)
    unfolding prepare_lane
    prepare_lane-Stopped l max (handler_err e f) =
        rw (f, prepare_lane) (ended-Stopped (err e) (handled l max) p _ (λ u g. cc g) refl)
    prepare_lane-Stopped l max (handler_panic f) =
        rw (f, prepare_lane) (ended-Stopped panic (handled l max) p _ (λ u g. cc g) refl)
    prepare_lane-Stopped l max (refused txs rs e f g) = go removal.0 refl
      where
        removal : Outcome (Unit {0}) × Pool
        removal = remove_txs_from_lane sdk l.mempool rs (l.prepare_lane_handler l.self ctx p max).2

        proposed :
            Stopped p rest (propose sdk (with_pool sdk l removal.1) next rest (handled l max) txs p)
        proposed = propose-Stopped (with_pool sdk l removal.1) (handled l max) txs e g

        go :
            (r : Outcome (Unit {0}))
            → removal.0 ≡ r
            → Stopped p rest (prepare_lane sdk l next rest ctx p max)
        go (ok u) h = rw (f, prepare_lane, h) proposed
        go (err x) h = rw (f, prepare_lane, h) proposed
        go panic h =
            rw (f, prepare_lane, h)
              (ended-Stopped panic (handled l max) p (with_pool sdk l removal.1) (λ u k. cc k) refl)

    finish_lane-Stopped :
        (n : ℕ) (q : Prepared sdk Pool)
        → (s : Stopped p rest q)
        → finish_lane sdk next n ctx q ≡ recover_lane sdk next n ctx q (lane s.left ∷ rest)
    unfolding finish_lane recover_lane
    finish_lane-Stopped n q s = go q.outcome refl
      where
        go :
            (r : Outcome (Unit {0}))
            → q.outcome ≡ r
            → finish_lane sdk next n ctx q ≡ recover_lane sdk next n ctx q (lane s.left ∷ rest)
        go (ok u) e = absurd (s.not_ok u e)
        go (err x) e = rw (e, finish_lane) (ap (recover_lane sdk next n ctx q) s.lanes_eq)
        go panic e = rw (e, finish_lane) (ap (recover_lane sdk next n ctx q) s.lanes_eq)

  recover_lane-SameResult :
      (l : Lane sdk Pool) (rest : List (ChainLane sdk Pool)) (ctx : Env sdk) (p : Proposal)
      (q : Prepared sdk Pool)
      → IsClosed sdk rest
      → q.proposal ≡ p
      → SameResult
          (recover_lane sdk (prepare_chain sdk rest) (length (lane l ∷ rest)) ctx q (lane l ∷ rest))
          (prepare_chain sdk rest ctx p)
  unfolding recover_lane
  recover_lane-SameResult l [] ctx p q h e = absurd h
  recover_lane-SameResult l (x ∷ []) ctx p q h e =
      rw (e, h)
        (unfold prepare_chain finish_lane prepare_element in
          record { same_outcome = refl; same_store = refl; same_proposal = refl })
  recover_lane-SameResult l (x ∷ y ∷ rest) ctx p q h e =
      rw (many (length rest), e)
        (record { same_outcome = refl; same_store = refl; same_proposal = refl })

  prepare_element-limit :
      (l : Lane sdk Pool) (next : PrepareNext sdk Pool) (rest : List (ChainLane sdk Pool))
      (ctx : Env sdk) (p : Proposal) (max : ℤ)
      → get_max_tx_bytes_for_lane sdk p.max_tx_bytes p.total_tx_bytes l.cfg.max_block_space ≡ ok max
      → prepare_element sdk (lane l) next rest ctx p ≡ prepare_lane sdk l next rest ctx p max
  unfolding prepare_element
  prepare_element-limit l next rest ctx p max e = rw (e, prepare_element)

  -- If a lane in a closed chain fails - its handler returns an error or panics, or UpdateProposal refuses
  -- its transactions - then the chain ends with the outcome, the store and the proposal with which the
  -- chain behind that lane ends when it is run in its place: nothing that the lane wrote to the
  -- store or took into the proposal is left.
  pub prepare_chain_skips :
      (l : Lane sdk Pool) (rest : List (ChainLane sdk Pool)) (ctx : Env sdk) (p : Proposal)
      (max : ℤ)
      → IsClosed sdk rest
      → get_max_tx_bytes_for_lane sdk p.max_tx_bytes p.total_tx_bytes l.cfg.max_block_space ≡ ok max
      → Fails l ctx p max
      → SameResult (prepare_chain sdk (lane l ∷ rest) ctx p) (prepare_chain sdk rest ctx p)
  prepare_chain_skips l rest ctx p max closed limit fails =
      let next : PrepareNext sdk Pool = prepare_chain sdk rest in
      let q : Prepared sdk Pool = prepare_lane sdk l next rest ctx p max in
      let s : Stopped p rest q = prepare_lane-Stopped next rest ctx p l max fails in
      let e : prepare_chain sdk (lane l ∷ rest) ctx p
          ≡ finish_lane sdk next (length (lane l ∷ rest)) ctx q =
        unfold prepare_chain in
        ap (finish_lane sdk next (length (lane l ∷ rest)) ctx)
          (prepare_element-limit l next rest ctx p max limit) in
      rw (e, finish_lane-Stopped next rest ctx p (length (lane l ∷ rest)) q s)
        (recover_lane-SameResult s.left rest ctx p q closed s.untouched)
