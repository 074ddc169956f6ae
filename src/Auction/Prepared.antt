-- ===== src/Auction/Prepared.antt =====
-- PrepareLaneHandler of blockbuster/lanes/auction/abci.go as a whole, and what CheckOrderHandler and
-- ProcessLaneHandler make of the bundle that it proposes.
use pob.Prelude.{
  suc, true, false, List, [], ◌∷◌, ◌++◌, ◌≡◌, refl, sym, ap, ◌∙◌, arith, inr, length, ltb,
}
use mathlib.Core.List.{append-nil, append_assoc}
use pob.Prelude.Int.{ℤ}
use pob.Prelude.Outcome.{Outcome, ok, panic}
use pob.Sdk.{Sdk, Bytes, Tx}
use pob.Proposal.{Proposal}
use pob.Lane.{Env, LaneConstructor, match}
use pob.Auction.Bids.{Factory}
use pob.Auction.Handlers.{
  bid_loop, prepare_lane_handler, process_lane_handler, process_bid, slice_from,
  check_order_handler,
}
use pob.Auction.Order.{Encodes, NoneMatches, check_order_handler_iff, enough, drop_own}
use pob.Auction.Verify.{verify_given_iff}
use pob.Auction.Choose.{Wraps}
use pob.Auction.Rounds.{
  IsChosen, IsDropped, IsPassedOver, passes, drops, chooses, panicks, bid_round-cases,
}

module _ (sdk : Sdk) (factory : Factory sdk) {Pool : Type 0} (l : LaneConstructor sdk Pool)
    (p : Proposal) (max : ℤ) (c : Env sdk) where
  -- `Chooses bids txs dropped d`: of the bids, in order, the first that is neither passed over nor dropped is
  -- chosen, with its bundle it makes up `txs`, and its writes make up the store of `d`. Those dropped before it are
  -- `dropped`. Where there is no such bid, nothing is proposed and nothing written.
  pub data Chooses : List Tx → List Bytes → List Tx → Env sdk → Type 0 where
    nothing : Chooses [] [] [] c
    pass :
        {bid_tx : Tx} {bids : List Tx} {txs : List Bytes} {dropped : List Tx} {d : Env sdk}
        → IsPassedOver sdk factory l p max c bid_tx
        → Chooses bids txs dropped d
        → Chooses (bid_tx ∷ bids) txs dropped d
    drop_bid :
        {bid_tx : Tx} {bids : List Tx} {txs : List Bytes} {dropped : List Tx} {d : Env sdk}
        → IsDropped sdk factory l p max c bid_tx
        → Chooses bids txs dropped d
        → Chooses (bid_tx ∷ bids) txs (bid_tx ∷ dropped) d
    choose :
        {bid_tx : Tx} {bids : List Tx} {txs : List Bytes} (d : Env sdk)
        → IsChosen sdk factory l p max c d bid_tx txs
        → Chooses (bid_tx ∷ bids) txs [] (record c { store = d.store })

  -- What the loop answers, from the bids dropped so far.
  pub data Answers (bids dropped : List Tx) (r : Outcome (List Bytes × List Tx)) (d : Env sdk)
      : Type 0 where
    proposes :
        (txs : List Bytes) (more : List Tx)
        → Chooses bids txs more d
        → r ≡ ok (txs, dropped ++ more)
        → Answers bids dropped r d
    gives_up : r ≡ panic → d ≡ c → Answers bids dropped r d

  Answers-drop :
      (bid_tx : Tx) (bids dropped : List Tx) (r : Outcome (List Bytes × List Tx)) (d : Env sdk)
      → IsDropped sdk factory l p max c bid_tx
      → Answers bids (dropped ++ (bid_tx ∷ [])) r d
      → Answers (bid_tx ∷ bids) dropped r d
  Answers-drop bid_tx bids dropped r d bad (gives_up e f) = gives_up e f
  Answers-drop bid_tx bids dropped r d bad (proposes txs more ch e) =
      proposes txs (bid_tx ∷ more) (drop_bid bad ch)
        (e ∙ ap (λ (x : List Tx). ok (txs, x)) (append_assoc dropped (bid_tx ∷ []) more))

  Answers-pass :
      (bid_tx : Tx) (bids dropped : List Tx) (r : Outcome (List Bytes × List Tx)) (d : Env sdk)
      → IsPassedOver sdk factory l p max c bid_tx
      → Answers bids dropped r d
      → Answers (bid_tx ∷ bids) dropped r d
  Answers-pass bid_tx bids dropped r d over (gives_up e f) = gives_up e f
  Answers-pass bid_tx bids dropped r d over (proposes txs more ch e) =
      proposes txs more (pass over ch) e

  bid_loop-Answers :
      (bids dropped : List Tx)
      → Answers bids dropped
          (bid_loop sdk factory l p max c bids dropped).0
          (bid_loop sdk factory l p max c bids dropped).1
  unfolding bid_loop
  bid_loop-Answers [] dropped =
      proposes [] [] nothing (ap (λ (x : List Tx). ok ([], x)) (sym (append-nil dropped)))
  bid_loop-Answers (bid_tx ∷ bids) dropped = elim (bid_round-cases sdk factory l p max c bid_tx) [
    | passes over r ↦
        rw (r, bid_loop) (Answers-pass bid_tx bids dropped _ _ over (bid_loop-Answers bids dropped))
    | drops bad r ↦
        rw (r, bid_loop)
          (Answers-drop bid_tx bids dropped _ _ bad
            (bid_loop-Answers bids (dropped ++ (bid_tx ∷ []))))
    | chooses d txs ch r ↦
        rw (r, bid_loop)
          (proposes txs [] (choose d ch)
            (ap (λ (x : List Tx). ok (txs, x)) (sym (append-nil dropped))))
    | panicks r ↦ rw (r, bid_loop) (gives_up refl refl)
  ]

  -- PrepareLane of the top-of-block lane goes through the bids of the mempool in order, and either panics and writes
  -- nothing, or returns no error. It proposes the first bid that is within the limit, new to the proposal with its whole
  -- bundle, and verified with it, followed by the bundle in its order; the bids before it that are invalid are handed
  -- back for removal, the others stay. Only the chosen bid writes to the store.
  pub prepare_lane_handler-Answers :
      Answers
        (l.mempool.select c l.pool).0
        []
        (prepare_lane_handler sdk factory l c p max).0
        (prepare_lane_handler sdk factory l c p max).1
  unfolding prepare_lane_handler
  prepare_lane_handler-Answers = bid_loop-Answers (l.mempool.select c l.pool).0 []

module _ (sdk : Sdk) (factory : Factory sdk) {Pool : Type 0} (l : LaneConstructor sdk Pool) where
  -- Encoding a wrapped transaction gives back the bytes in the bid.
  abbrev pub IsCanonical : Type 0
  IsCanonical =
      (raw : Bytes) (tx : Tx) → factory.wrap_bundle_transaction raw ≡ ok tx → sdk.encode tx ≡ ok raw

  raw-Encodes :
      (p : Proposal)
      → IsCanonical
      → (own : List Tx) (raws : List Bytes) → Wraps sdk factory l p own raws
      → Encodes sdk own raws
  raw-Encodes p canonical [] [] w = tt
  raw-Encodes p canonical [] (raw ∷ raws) w = absurd w
  raw-Encodes p canonical (tx ∷ own) [] w = absurd w
  raw-Encodes p canonical (tx ∷ own) (raw ∷ raws) w =
      (canonical raw tx w.0, raw-Encodes p canonical own raws w.1)

  slice_own :
      (c : Env sdk) (bid_tx : Tx) (own rest : List Tx) (raws : List Bytes)
      → Encodes sdk own raws
      → slice_from (suc (length raws)) (bid_tx ∷ (own ++ rest)) ≡ ok rest
  unfolding slice_from
  slice_own c bid_tx own rest raws e =
      rw (small (enough sdk factory l c own rest raws e), drop_own sdk factory l c own rest raws e)
        refl
    where
      small :
          ltb (length (own ++ rest)) (length raws) ≡ false
          → ltb (suc (length (own ++ rest))) (suc (length raws)) ≡ false
      small h = ground (arith, h)

  module _ (p : Proposal) (max : ℤ) (c d : Env sdk) (bid_tx : Tx) (txs : List Bytes)
      (ch : IsChosen sdk factory l p max c d bid_tx txs) (canonical : IsCanonical) (rest : List Tx)
      (ours : match sdk l c bid_tx ≡ true) (bundled : NoneMatches sdk factory l c ch.is_built.own)
      (others : NoneMatches sdk factory l c rest) where
    chosen_ordered :
        check_order_handler sdk factory l c (bid_tx ∷ (ch.is_built.own ++ rest)) ≡ ok tt
    chosen_ordered = (check_order_handler_iff sdk factory l c bid_tx (ch.is_built.own ++ rest)).1 (
        inr (
          ours,
          record {
            info = ch.info;
            known = ch.known;
            own = ch.is_built.own;
            rest = rest;
            split = refl;
            encoded =
                raw-Encodes p canonical ch.is_built.own ch.info.transactions ch.is_built.wraps;
            own_unmatched = bundled;
            rest_unmatched = others;
          },
        ))

    chosen_processed :
        process_lane_handler sdk factory l c (bid_tx ∷ (ch.is_built.own ++ rest)) ≡ (ok rest, d)
    unfolding process_lane_handler process_bid
    chosen_processed =
        let v = (verify_given_iff sdk factory l c d bid_tx ch.info).1 ch.verified in
        rw (ours, ch.known)
          (rw
            (
              ap (λ r. r.1) v,
              process_bid,
              ap (λ r. r.0) v,
              slice_own c bid_tx ch.is_built.own rest ch.info.transactions
                  (raw-Encodes p canonical ch.is_built.own ch.info.transactions ch.is_built.wraps),
            )
            refl)

    -- What a proposer's top-of-block lane chooses, a validator's accepts. The bid is the lane's, its bundle has no bid of
    -- the lane, the bytes in the bid are the encodings of what they wrap to, and behind the bundle come transactions
    -- that are not the lane's. Then the bid and the bundle encode to what was proposed, CheckOrder accepts them, and
    -- ProcessLane in the context of PrepareLane hands on all that comes behind, with the same writes.
    pub chosen_accepted :
        Encodes sdk (bid_tx ∷ ch.is_built.own) txs
        × (check_order_handler sdk factory l c (bid_tx ∷ (ch.is_built.own ++ rest)) ≡ ok tt)
        × (process_lane_handler sdk factory l c (bid_tx ∷ (ch.is_built.own ++ rest)) ≡ (ok rest, d))
    chosen_accepted =
        (rw ch.all_txs (ch.encoded, ch.is_built.encodes), chosen_ordered, chosen_processed)
