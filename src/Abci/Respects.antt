-- ===== src/Abci/Respects.antt =====
-- What UpdateProposal keeps, ChainPrepareLanes keeps: a relation between proposals before and after.
use pob.Prelude.{ℕ, ◌^◌, ◌<◌, List, [], ◌∷◌, ◌≡◌, refl, All, length, leb, Bool-cases, inl, inr}
use pob.Prelude.Int.{ℤ}
use pob.Prelude.Outcome.{Outcome, ok, err, panic}
use pob.Sdk.{Sdk, Bytes, Tx}
use pob.Proposal.{Proposal, update_proposal, get_max_tx_bytes_for_lane}
use pob.Proposal.Arith.{bytes}
use pob.Lane.{Env, Lane, ChainLane, lane, terminator, remove_txs_from_lane}
use pob.Abci.Prepare.{
  Prepared, PrepareNext, prepare_lane, propose, prepare_element, recover_lane, finish_lane,
  prepare_chain,
}

module _ (sdk : Sdk) {Pool : Type 0} where
  -- What the lane's handler hands over is in memory: less than 2^62 bytes, in any call.
  abbrev pub IsModest : ChainLane sdk Pool → Type 0
  IsModest terminator = Unit
  IsModest (lane l) =
      (ctx : Env sdk) (p : Proposal) (max : ℤ) (txs : List Bytes) (rs : List Tx)
      → (l.prepare_lane_handler l.self ctx p max).0 ≡ ok (txs, rs)
      → bytes txs < 2 ^ 62

  -- A relation between proposals before and after that each UpdateProposal respects.
  module _ (R : Proposal → Proposal → Type 0) (R-refl : (p : Proposal) → R p p)
      (R-trans : (p q r : Proposal) → R p q → R q r → R p r)
      (R-update : (space : sdk.decimals.LegacyDec) (txs : List Bytes) (p : Proposal)
        → bytes txs < 2 ^ 62
        → R p (update_proposal sdk space txs p).1) where
    module _ (next : PrepareNext sdk Pool)
        (next-R : (ctx : Env sdk) (p : Proposal) → R p (next ctx p).proposal)
        (rest : List (ChainLane sdk Pool)) where
      propose-R :
          (l : Lane sdk Pool) (ctx : Env sdk) (txs : List Bytes) (p : Proposal)
          → bytes txs < 2 ^ 62
          → R p (propose sdk l next rest ctx txs p).proposal
      unfolding propose
      propose-R l ctx txs p h = go (update_proposal sdk l.cfg.max_block_space txs p).0 refl
        where
          q : Proposal
          q = (update_proposal sdk l.cfg.max_block_space txs p).1

          updated : R p q
          updated = R-update l.cfg.max_block_space txs p h

          go :
              (r : Outcome (Unit {0}))
              → (update_proposal sdk l.cfg.max_block_space txs p).0 ≡ r
              → R p (propose sdk l next rest ctx txs p).proposal
          go (ok u) e = rw (e, propose) (R-trans p q _ updated (next-R ctx q))
          go (err x) e = rw (e, propose) updated
          go panic e = rw (e, propose) updated

      prepare_lane-R :
          (l : Lane sdk Pool) (ctx : Env sdk) (p : Proposal) (max : ℤ)
          → IsModest (lane l)
          → R p (prepare_lane sdk l next rest ctx p max).proposal
      unfolding prepare_lane
      prepare_lane-R l ctx p max modest = go (l.prepare_lane_handler l.self ctx p max).0 refl
        where
          removal : List Tx → Outcome (Unit {0}) × Pool
          removal rs =
              remove_txs_from_lane sdk l.mempool rs (l.prepare_lane_handler l.self ctx p max).2

          handled :
              (txs : List Bytes) (rs : List Tx)
              → (l.prepare_lane_handler l.self ctx p max).0 ≡ ok (txs, rs)
              → (r : Outcome (Unit {0})) → (removal rs).0 ≡ r
              → R p (prepare_lane sdk l next rest ctx p max).proposal
          handled txs rs e (ok u) f =
              rw (e, prepare_lane, f) (propose-R _ _ txs p (modest ctx p max txs rs e))
          handled txs rs e (err x) f =
              rw (e, prepare_lane, f) (propose-R _ _ txs p (modest ctx p max txs rs e))
          handled txs rs e panic f = rw (e, prepare_lane, f) (R-refl p)

          go :
              (r : Outcome (List Bytes × List Tx))
              → (l.prepare_lane_handler l.self ctx p max).0 ≡ r
              → R p (prepare_lane sdk l next rest ctx p max).proposal
          go (ok (txs, rs)) e = handled txs rs e (removal rs).0 refl
          go (err x) e = rw (e, prepare_lane) (R-refl p)
          go panic e = rw (e, prepare_lane) (R-refl p)

      prepare_element-R :
          (x : ChainLane sdk Pool) (ctx : Env sdk) (p : Proposal)
          → IsModest x
          → R p (prepare_element sdk x next rest ctx p).proposal
      unfolding prepare_element
      prepare_element-R terminator ctx p modest = R-refl p
      prepare_element-R (lane l) ctx p modest = go (limit) refl
        where
          limit : Outcome ℤ
          limit =
              get_max_tx_bytes_for_lane sdk p.max_tx_bytes p.total_tx_bytes l.cfg.max_block_space

          go :
              (r : Outcome ℤ)
              → limit ≡ r
              → R p (prepare_element sdk (lane l) next rest ctx p).proposal
          go (ok max) e = rw (e, prepare_element) (prepare_lane-R l ctx p max modest)
          go (err x) e = rw (e, prepare_element) (R-refl p)
          go panic e = rw (e, prepare_element) (R-refl p)

      recover_lane-R :
          (n : ℕ) (ctx : Env sdk) (p : Proposal) (q : Prepared sdk Pool)
          (lanes : List (ChainLane sdk Pool))
          → R p q.proposal
          → R p (recover_lane sdk next n ctx q lanes).proposal
      unfolding recover_lane
      recover_lane-R n ctx p q [] h = h
      recover_lane-R n ctx p q (x ∷ xs) h = elim (Bool-cases (leb n 2)) [
        | inl few ↦ rw few h
        | inr more ↦ rw more (R-trans p q.proposal _ h (next-R ctx q.proposal))
      ]

      finish_lane-R :
          (n : ℕ) (ctx : Env sdk) (p : Proposal) (q : Prepared sdk Pool)
          → R p q.proposal
          → R p (finish_lane sdk next n ctx q).proposal
      unfolding finish_lane
      finish_lane-R n ctx p q h = go q.outcome refl
        where
          go :
              (r : Outcome (Unit {0})) → q.outcome ≡ r → R p (finish_lane sdk next n ctx q).proposal
          go (ok u) e = rw (e, finish_lane) h
          go (err x) e = rw (e, finish_lane) (recover_lane-R n ctx p q q.lanes h)
          go panic e = rw (e, finish_lane) (recover_lane-R n ctx p q q.lanes h)

    pub prepare_chain-R :
        (chain : List (ChainLane sdk Pool)) (ctx : Env sdk) (p : Proposal)
        → All IsModest chain
        → R p (prepare_chain sdk chain ctx p).proposal
    unfolding prepare_chain
    prepare_chain-R [] ctx p h = R-refl p
    prepare_chain-R (x ∷ rest) ctx p h =
        let next : PrepareNext sdk Pool = prepare_chain sdk rest in
        let next-R : (c : Env sdk) (q : Proposal) → R q (next c q).proposal =
          λ c q. prepare_chain-R rest c q h.1 in
        finish_lane-R next next-R rest (length (x ∷ rest)) ctx p
          (prepare_element sdk x next rest ctx p) (prepare_element-R next next-R rest x ctx p h.0)
