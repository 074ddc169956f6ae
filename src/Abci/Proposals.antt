-- ===== src/Abci/Proposals.antt =====
-- The proposals that ChainPrepareLanes and PrepareProposalHandler make, for any lanes.
use mathlib.Core.List.{append-nil, append_assoc}
use pob.Prelude.{ℕ, ◌^◌, ◌<◌, ◌≤◌, List, [], ◌∷◌, ◌++◌, ◌≡◌, refl, sym, ap, subst, ◌∙◌, All}
use pob.Prelude.Int.{pos}
use pob.Prelude.Outcome.{Outcome, ok, err, panic}
use pob.Sdk.{Sdk, Bytes}
use pob.Proposal.{Proposal, new_proposal, update_proposal, get_proposal}
use pob.Proposal.Arith.{bytes}
use pob.Proposal.Invariant.{IsValid, new_proposal-IsValid}
use pob.Proposal.Update.{update_proposal-IsValid, update_proposal-AllOrNothing, AllOrNothing}
use pob.Lane.{Env, ChainLane, lane, terminator}
use pob.Abci.Prepare.{
  close_chain, prepare_chain, chain_prepare_lanes, prepare_response, prepare_proposal, Prepared,
}
use pob.Abci.Chain.{close_chain-IsClosed, prepare_chain-ok}
use pob.Abci.Respects.{IsModest, prepare_chain-R}

-- Transactions are added behind those of a proposal, and its vote extensions stay.
pub record Grows (p q : Proposal) : Type 0 where
  pub added : List Bytes
  pub txs_eq : q.txs ≡ p.txs ++ added
  pub vote_extensions_eq : q.vote_extensions ≡ p.vote_extensions

Grows-refl : (p : Proposal) → Grows p p
Grows-refl p = record { added = []; txs_eq = sym (append-nil p.txs); vote_extensions_eq = refl }

Grows-trans : (p q r : Proposal) → Grows p q → Grows q r → Grows p r
Grows-trans p q r g h = record {
  added = g.added ++ h.added;
  txs_eq = h.txs_eq ∙ ap (λ x. x ++ h.added) g.txs_eq ∙ append_assoc p.txs g.added h.added;
  vote_extensions_eq = h.vote_extensions_eq ∙ g.vote_extensions_eq;
}

module _ (sdk : Sdk) where
  Grows-AllOrNothing :
      (txs : List Bytes) (p : Proposal) (x : Outcome (Unit {0}) × Proposal)
      → AllOrNothing sdk txs p x
      → Grows p x.1
  Grows-AllOrNothing txs p (ok u, q) h = record {
    added = txs;
    txs_eq = h.0;
    vote_extensions_eq = h.1;
  }
  Grows-AllOrNothing txs p (err e, q) h = subst (Grows p) (sym h) (Grows-refl p)
  Grows-AllOrNothing txs p (panic, q) h = subst (Grows p) (sym h) (Grows-refl p)

  -- The relation that a chain respects.
  pub record Improves (max : ℕ) (p q : Proposal) : Type 0 where
    pub keeps : IsValid sdk max p → IsValid sdk max q
    pub grows : Grows p q

  update_proposal-Improves :
      (max : ℕ) (space : sdk.decimals.LegacyDec) (txs : List Bytes) (p : Proposal)
      → max < 2 ^ 62
      → bytes txs < 2 ^ 62
      → Improves max p (update_proposal sdk space txs p).1
  update_proposal-Improves max space txs p hm h = record {
    keeps = update_proposal-IsValid sdk max space txs p hm h;
    grows = Grows-AllOrNothing txs p _ (update_proposal-AllOrNothing sdk space txs p);
  }

  module _ {Pool : Type 0} where
    prepare_chain-Improves :
        (max : ℕ) (chain : List (ChainLane sdk Pool)) (ctx : Env sdk) (p : Proposal)
        → max < 2 ^ 62
        → All (IsModest sdk) chain
        → Improves max p (prepare_chain sdk chain ctx p).proposal
    prepare_chain-Improves max chain ctx p hm modest =
        prepare_chain-R sdk (Improves max) (λ p. record { keeps = λ v. v; grows = Grows-refl p })
          (λ p q r g h. record {
            keeps = λ v. h.keeps (g.keeps v);
            grows = Grows-trans p q r g.grows h.grows;
          })
          (λ space txs p h. update_proposal-Improves max space txs p hm h) chain ctx p modest

    close_chain-IsModest :
        (chain : List (ChainLane sdk Pool))
        → All (IsModest sdk) chain
        → All (IsModest sdk) (close_chain sdk chain)
    unfolding close_chain
    close_chain-IsModest [] h = tt
    close_chain-IsModest (terminator ∷ []) h = h
    close_chain-IsModest (lane l ∷ []) h = (h.0, (tt, tt))
    close_chain-IsModest (x ∷ y ∷ rest) h = (h.0, close_chain-IsModest (y ∷ rest) h.1)

    -- ChainPrepareLanes of at least one lane, whatever its lanes do: no error and no panic comes out; from a
    -- well-formed proposal under a limit below 2^62 it makes a well-formed one, and it only adds transactions
    -- behind those that were there. The lanes' own partial proposals are below 2^62 bytes.
    pub chain_prepare_lanes-IsValid :
        (max : ℕ) (x : ChainLane sdk Pool) (rest : List (ChainLane sdk Pool)) (ctx : Env sdk)
        (p : Proposal)
        → max < 2 ^ 62
        → All (IsModest sdk) (x ∷ rest)
        → IsValid sdk max p
        → ((chain_prepare_lanes sdk (x ∷ rest) ctx p).outcome ≡ ok tt)
          × IsValid sdk max (chain_prepare_lanes sdk (x ∷ rest) ctx p).proposal
          × Grows p (chain_prepare_lanes sdk (x ∷ rest) ctx p).proposal
    unfolding chain_prepare_lanes
    chain_prepare_lanes-IsValid max x rest ctx p hm modest v =
        let closed : List (ChainLane sdk Pool) = close_chain sdk (x ∷ rest) in
        let better : Improves max p (prepare_chain sdk closed ctx p).proposal =
          prepare_chain-Improves max closed ctx p hm (close_chain-IsModest (x ∷ rest) modest) in
        (
          prepare_chain-ok sdk closed ctx p (close_chain-IsClosed sdk x rest),
          better.keeps v,
          better.grows,
        )

    prepare_response-fits :
        (max : ℕ) (r : Prepared sdk Pool)
        → r.outcome ≡ ok tt
        → r.proposal.vote_extensions ≡ []
        → bytes r.proposal.txs ≤ max
        → ((prepare_response sdk r).1 ≡ ok tt) × (bytes (prepare_response sdk r).0 ≤ max)
    unfolding prepare_response get_proposal
    prepare_response-fits max r e v h =
        (rw (e, prepare_response), rw (e, prepare_response) (rw (v, get_proposal) h))

    -- PrepareProposal of at least one lane, whose handlers only read the proposal that they are given (a vote extension that
    -- one added would not be counted), returns no error, and the transactions of its response are no larger than MaxTxBytes,
    -- whatever else the handlers do, errors and panics included, if that limit and each lane's part are below 2^62 bytes.
    pub prepare_proposal-fits :
        (max : ℕ) (x : ChainLane sdk Pool) (rest : List (ChainLane sdk Pool)) (ctx : Env sdk)
        → max < 2 ^ 62
        → All (IsModest sdk) (x ∷ rest)
        → ((prepare_proposal sdk (x ∷ rest) ctx (pos max)).1 ≡ ok tt)
          × (bytes (prepare_proposal sdk (x ∷ rest) ctx (pos max)).0 ≤ max)
    unfolding prepare_proposal
    prepare_proposal-fits max x rest ctx hm modest =
        let (e, v, g) =
          chain_prepare_lanes-IsValid max x rest ctx (new_proposal (pos max)) hm modest
            (new_proposal-IsValid sdk max) in
        prepare_response-fits max (chain_prepare_lanes sdk (x ∷ rest) ctx (new_proposal (pos max)))
          e (g.vote_extensions_eq ∙ (unfold new_proposal in refl)) v.bounded
