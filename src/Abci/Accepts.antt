-- ===== src/Abci/Accepts.antt =====
-- ProcessProposal over lanes with the default handlers: which proposals blockbuster/abci/abci.go accepts.
use pob.Prelude.{none, map, List, [], ◌∷◌, ◌≡◌, ◌≢◌, ◌↔◌, refl, sym, ap, ◌∙◌}
use pob.Prelude.Outcome.{Outcome, ok, err, panic}
use pob.Sdk.{Sdk, Tx}
use pob.Lane.{Env, Lane, LaneConstructor, ChainLane, lane, terminator}
use pob.Lane.Handlers.{
  default_prepare_lane_handler, default_process_lane_handler, default_check_order_handler,
}
use pob.Lane.Order.{InOrder, default_check_order_iff}
use pob.Lane.Verify.{Processed, default_process_lane_handler_iff}
use pob.Abci.Prepare.{close_chain}
use pob.Abci.Process.{process_lane, process_chain, chain_process_lanes}

module _ (sdk : Sdk) {Pool : Type 0} where
  abbrev pub default_lane : LaneConstructor sdk Pool → Lane sdk Pool
  default_lane l = record {
    self = l;
    prepare_lane_handler = default_prepare_lane_handler sdk;
    process_lane_handler = default_process_lane_handler sdk;
    check_order_handler = default_check_order_handler sdk;
  }

  abbrev pub default_chain : List (LaneConstructor sdk Pool) → List (ChainLane sdk Pool)
  default_chain [] = terminator ∷ []
  default_chain (l ∷ ls) = lane (default_lane l) ∷ default_chain ls

  -- The proposal is used up, or what is left matches no lane, or the first lane finds it in order and verifies a
  -- first part, and the other lanes accept the rest. They see the store that the lane wrote, and of the context's
  -- values those from before it.
  pub data AcceptedBy : List (LaneConstructor sdk Pool) → Env sdk → List Tx → Type 0 where
    used_up : {ls : List (LaneConstructor sdk Pool)} {c : Env sdk} → AcceptedBy ls c []
    left_over : {c : Env sdk} {txs : List Tx} → AcceptedBy [] c txs
    verified_by :
        {l : LaneConstructor sdk Pool} {ls : List (LaneConstructor sdk Pool)} {c d : Env sdk}
        {txs rest : List Tx}
        → InOrder sdk l c none txs
        → Processed sdk l c d txs rest
        → AcceptedBy ls (record c { store = d.store }) rest
        → AcceptedBy (l ∷ ls) c txs

  module _ (l : Lane sdk Pool) (behind : List (ChainLane sdk Pool)) (c : Env sdk) (tx : Tx)
      (txs : List Tx) where
    abbrev Round : Outcome (Unit {0}) × Env sdk
    Round = process_chain sdk (lane l ∷ behind) c (tx ∷ txs)

    round-ok :
        (rest : List Tx) (d : Env sdk)
        → l.check_order_handler l.self c (tx ∷ txs) ≡ ok tt
        → l.process_lane_handler l.self c (tx ∷ txs) ≡ (ok rest, d)
        → Round ≡ process_chain sdk behind (record c { store = d.store }) rest
    unfolding process_chain process_lane
    round-ok rest d e f =
        rw (e, process_lane, f)
          (ap
            (λ (x : Outcome (List Tx) × Env sdk).
              process_chain sdk behind (record c { store = x.1.store }) rest)
            f)

    round_not_ordered :
        (r : Outcome (Unit {0}))
        → l.check_order_handler l.self c (tx ∷ txs) ≡ r
        → r ≢ ok tt
        → Round.0 ≢ ok tt
    unfolding process_chain
    round_not_ordered (ok u) e ne h = absurd (ne refl)
    round_not_ordered (err x) e ne h = cc (rw (process_chain, e) at h)
    round_not_ordered panic e ne h = cc (rw (process_chain, e) at h)

    round_not_verified :
        (r : Outcome (List Tx)) (d : Env sdk)
        → l.check_order_handler l.self c (tx ∷ txs) ≡ ok tt
        → l.process_lane_handler l.self c (tx ∷ txs) ≡ (r, d)
        → ((rest : List Tx) → r ≢ ok rest)
        → Round.0 ≢ ok tt
    unfolding process_chain process_lane
    round_not_verified (ok rest) d e f ne h = absurd (ne rest refl)
    round_not_verified (err x) d e f ne h = cc (rw (process_chain, e, process_lane, f) at h)
    round_not_verified panic d e f ne h = cc (rw (process_chain, e, process_lane, f) at h)

  default_chain_sound :
      (ls : List (LaneConstructor sdk Pool)) (c : Env sdk) (txs : List Tx)
      → (process_chain sdk (default_chain ls) c txs).0 ≡ ok tt
      → AcceptedBy ls c txs
  default_chain_sound [] c txs h = left_over
  default_chain_sound (l ∷ ls) c [] h = used_up
  default_chain_sound (l ∷ ls) c (tx ∷ txs) h =
      checked (default_check_order_handler sdk l c (tx ∷ txs)) refl (default_chain_sound ls)
    where
      behind : List (ChainLane sdk Pool)
      behind = default_chain ls

      Behind : Type 0
      Behind =
          (d : Env sdk) (rest : List Tx)
          → (process_chain sdk behind d rest).0 ≡ ok tt
          → AcceptedBy ls d rest

      processed :
          default_check_order_handler sdk l c (tx ∷ txs) ≡ ok tt
          → (r : Outcome (List Tx)) (d : Env sdk)
          → default_process_lane_handler sdk l c (tx ∷ txs) ≡ (r, d)
          → Behind
          → AcceptedBy (l ∷ ls) c (tx ∷ txs)
      processed o (ok rest) d e ih =
          verified_by ((default_check_order_iff sdk l c (tx ∷ txs)).0 o)
            ((default_process_lane_handler_iff sdk l c d (tx ∷ txs) rest).0 e)
            (ih (record c { store = d.store }) rest
              (ap (λ (x : Outcome (Unit {0}) × Env sdk). x.0)
                  (sym (round-ok (default_lane l) behind c tx txs rest d o e))
                ∙ h))
      processed o (err x) d e ih =
          absurd (round_not_verified (default_lane l) behind c tx txs (err x) d o e (λ r i. cc i) h)
      processed o panic d e ih =
          absurd (round_not_verified (default_lane l) behind c tx txs panic d o e (λ r i. cc i) h)

      checked :
          (r : Outcome (Unit {0}))
          → default_check_order_handler sdk l c (tx ∷ txs) ≡ r
          → Behind
          → AcceptedBy (l ∷ ls) c (tx ∷ txs)
      checked (ok _) e ih =
          processed e (default_process_lane_handler sdk l c (tx ∷ txs)).0
            (default_process_lane_handler sdk l c (tx ∷ txs)).1 refl ih
      checked (err x) e ih =
          absurd (round_not_ordered (default_lane l) behind c tx txs (err x) e (λ i. cc i) h)
      checked panic e ih =
          absurd (round_not_ordered (default_lane l) behind c tx txs panic e (λ i. cc i) h)

  default_chain_complete :
      (ls : List (LaneConstructor sdk Pool)) (c : Env sdk) (txs : List Tx)
      → AcceptedBy ls c txs
      → (process_chain sdk (default_chain ls) c txs).0 ≡ ok tt
  unfolding process_chain
  default_chain_complete [] c [] a = refl
  default_chain_complete [] c (tx ∷ txs) a = refl
  default_chain_complete (l ∷ ls) c [] a = refl
  default_chain_complete (l ∷ ls) c (tx ∷ txs) (verified_by {d} {rest} o p a) =
      ap (λ (x : Outcome (Unit {0}) × Env sdk). x.0)
        (round-ok (default_lane l) (default_chain ls) c tx txs rest d
          ((default_check_order_iff sdk l c (tx ∷ txs)).1 o)
          ((default_process_lane_handler_iff sdk l c d (tx ∷ txs) rest).1 p))
      ∙ default_chain_complete ls (record c { store = d.store }) rest a

  close_chain-default :
      (l : LaneConstructor sdk Pool) (ls : List (LaneConstructor sdk Pool))
      → close_chain sdk (map (λ x. lane (default_lane x)) (l ∷ ls)) ≡ default_chain (l ∷ ls)
  unfolding close_chain
  close_chain-default l [] = refl
  close_chain-default l (k ∷ ls) = ap (◌∷◌ (lane (default_lane l))) (close_chain-default k ls)

  -- A chain of one or more lanes with the default handlers accepts the transactions of a proposal exactly if they
  -- fall into consecutive parts, one for each lane in the order of the chain until they are used up: each lane finds
  -- all that is left in order, and verifies its part, behind which is another lane's transaction or none. What
  -- is left behind the last lane is accepted too.
  pub chain_process_lanes_iff :
      (l : LaneConstructor sdk Pool) (ls : List (LaneConstructor sdk Pool)) (c : Env sdk)
      (txs : List Tx)
      → ((chain_process_lanes sdk (map (λ x. lane (default_lane x)) (l ∷ ls)) c txs).0 ≡ ok tt)
        ↔ AcceptedBy (l ∷ ls) c txs
  unfolding chain_process_lanes
  chain_process_lanes_iff l ls c txs =
      rw (close_chain-default l ls)
        (default_chain_sound (l ∷ ls) c txs, default_chain_complete (l ∷ ls) c txs)
