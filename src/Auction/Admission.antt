-- ===== src/Auction/Admission.antt =====
-- When CheckTxHandler of blockbuster/lanes/auction/check_tx.go admits a bid.
use pob.Prelude.{none, some, ◌≡◌, ◌≢◌, ◌↔◌, inl, inr, refl, sym, ap, ◌∙◌}
use pob.Prelude.Outcome.{Outcome, ok, err, panic, Outcome-cases, with_state, with_end}
use pob.Sdk.{Sdk, Tx, ContextOps}
use pob.Lane.{Env, AnteHandler, LaneMempool}
use pob.Builder.{BidInfo}
use pob.Auction.Bids.{Factory}
use pob.Auction.CheckTx.{
  RequestCheckTx, Answer, BaseApp, GasInfo, accepted, validate_bid_tx, get_context_for_bid_tx,
  insert_bid, check_bid, check_decoded, check_tx_handler,
}
use pob.Auction.Admissible.{IsValidBid, validate_bid_tx_iff}

module _ (sdk : Sdk) (ops : ContextOps sdk.Ctx) (factory : Factory sdk)
    (ante_handler : AnteHandler sdk) where
  module _ {App Pool : Type 0} (base_app : BaseApp sdk ops App)
      (mempool : LaneMempool sdk Pool) where
    -- A bid is admitted: in a context over the committed state it is valid and its bundle too, and the lane's mempool,
    -- which is all that changes, takes it.
    pub record IsAdmitted (req : RequestCheckTx) (tx : Tx) (info : BidInfo) (app : App)
        (pool : Pool) (answer : Answer) (pool' : Pool) : Type 0 where
      pub ctx : Env sdk
      pub gas : GasInfo
      pub in_context :
          get_context_for_bid_tx sdk ops factory ante_handler base_app mempool req app ≡ ok ctx
      pub is_valid : IsValidBid sdk ops factory ante_handler ctx tx info gas
      pub inserted : mempool.insert ctx tx pool ≡ (ok tt, pool')
      pub answered : accepted gas ≡ answer

    abbrev state_of : Answer × App × Pool → App × Pool
    state_of r = (r.1, r.2)

    abbrev answer_of : Answer × App × Pool → Answer
    answer_of r = r.0

    module _ (ctx : Env sdk) (tx : Tx) (info : BidInfo) (app : App) (pool : Pool) where
      check_bid_iff :
          (answer : Answer) (pool' : Pool)
          → ((check_bid sdk ops factory ante_handler base_app mempool ctx tx info app pool
                ≡ (answer, app, pool'))
              × (answer.error ≡ none))
            ↔ ((gas : GasInfo) × IsValidBid sdk ops factory ante_handler ctx tx info gas
                × (mempool.insert ctx tx pool ≡ (ok tt, pool'))
                × (accepted gas ≡ answer))
      unfolding check_bid insert_bid
      check_bid_iff answer pool' = (λ (h, e). forward h e, λ (gas, v, i, a). backward gas v i a)
        where
          Checked : Type 0
          Checked =
              check_bid sdk ops factory ante_handler base_app mempool ctx tx info app pool
              ≡ (answer, app, pool')

          Admits : Type 0
          Admits =
              (gas : GasInfo) × IsValidBid sdk ops factory ante_handler ctx tx info gas
              × (mempool.insert ctx tx pool ≡ (ok tt, pool'))
              × (accepted gas ≡ answer)

          no_error : {r : Answer × App × Pool} → r ≡ (answer, app, pool') → answer_of r ≡ answer
          no_error h = ap answer_of h

          stuck : {b : Answer} → answer.error ≡ none → b.error ≢ none → b ≡ answer → Admits
          stuck e ne h = absurd (ne (ap (λ a. a.error) h ∙ e))

          inserted :
              (gas : GasInfo)
              → IsValidBid sdk ops factory ante_handler ctx tx info gas
              → insert_bid sdk ops factory ante_handler base_app mempool ctx tx gas app pool
                ≡ (answer, app, pool')
              → answer.error ≡ none
              → Admits
          inserted gas v h e = elim (Outcome-cases (mempool.insert ctx tx pool).0) [
            | inl (u, i) ↦
                let t = rw (i, insert_bid) at h in
                (
                  gas,
                  v,
                  with_end (mempool.insert ctx tx pool) i (ap (λ x. (state_of x).1) t),
                  no_error t,
                )
            | inr (inl (x, i)) ↦ stuck e (λ n. cc n) (no_error (rw (i, insert_bid) at h))
            | inr (inr i) ↦ stuck e (λ n. cc n) (no_error (rw (i, insert_bid) at h))
          ]

          forward : Checked → answer.error ≡ none → Admits
          forward h e =
              elim (Outcome-cases (validate_bid_tx sdk ops factory ante_handler ctx tx info).1) [
                | inl (u, v) ↦
                    inserted (validate_bid_tx sdk ops factory ante_handler ctx tx info).0
                      ((validate_bid_tx_iff sdk ops factory ante_handler ctx tx info
                          (validate_bid_tx sdk ops factory ante_handler ctx tx info).0).0
                        (with_state (validate_bid_tx sdk ops factory ante_handler ctx tx info) v))
                      (rw (v, check_bid) at h) e
                | inr (inl (x, v)) ↦ stuck e (λ n. cc n) (no_error (rw (v, check_bid) at h))
                | inr (inr v) ↦ stuck e (λ n. cc n) (no_error (rw (v, check_bid) at h))
              ]

          took :
              (gas : GasInfo)
              → mempool.insert ctx tx pool ≡ (ok tt, pool')
              → accepted gas ≡ answer
              → insert_bid sdk ops factory ante_handler base_app mempool ctx tx gas app pool
                ≡ (answer, app, pool')
          took gas i a = rw (ap (λ r. r.0) i, insert_bid, ap (λ r. r.1) i, a) refl

          backward :
              (gas : GasInfo)
              → IsValidBid sdk ops factory ante_handler ctx tx info gas
              → mempool.insert ctx tx pool ≡ (ok tt, pool')
              → accepted gas ≡ answer
              → Checked × (answer.error ≡ none)
          backward gas v i a =
              let w = (validate_bid_tx_iff sdk ops factory ante_handler ctx tx info gas).1 v in
              (
                rw (ap (λ r. r.1) w, check_bid, ap (λ r. r.0) w) (took gas i a),
                sym (ap (λ x. x.error) a),
              )

    module _ (req : RequestCheckTx) (tx : Tx) (info : BidInfo) (app : App) (pool : Pool)
        (decoded : sdk.decode req.tx ≡ ok tx)
        (is_bid : factory.get_auction_bid_info tx ≡ ok (some info)) where
      abbrev handled : Answer × App × Pool
      handled = check_tx_handler sdk ops factory ante_handler base_app mempool req app pool

      handled-eq :
          handled
          ≡ check_decoded sdk ops factory ante_handler base_app mempool req tx (some info) app pool
      unfolding check_tx_handler
      handled-eq = rw (check_tx_handler, decoded, is_bid) refl

      no_answer :
          {b answer : Answer} {pool' pool'' : Pool}
          → b.error ≢ none
          → answer.error ≡ none
          → ◌≡◌ {A = Answer × App × Pool} (b, app, pool'') (answer, app, pool')
          → ⊥
      no_answer ne e h = ne (ap (λ r. (answer_of r).error) h ∙ e)

      context_ok :
          (r : Outcome (Env sdk)) {answer : Answer} {pool' : Pool}
          → get_context_for_bid_tx sdk ops factory ante_handler base_app mempool req app ≡ r
          → handled ≡ (answer, app, pool')
          → answer.error ≡ none
          → IsAdmitted req tx info app pool answer pool'
      unfolding check_decoded
      context_ok (ok ctx) {answer} {pool'} c h e =
          let (gas, v, i, a) =
            (check_bid_iff ctx tx info app pool answer pool').0
              (rw (handled-eq, check_decoded, c) at h, e) in
          record { ctx = ctx; gas = gas; in_context = c; is_valid = v; inserted = i; answered = a }
      context_ok (err x) c h e =
          absurd (no_answer (λ n. cc n) e (rw (handled-eq, check_decoded, c) at h))
      context_ok panic c h e =
          absurd (no_answer (λ n. cc n) e (rw (handled-eq, check_decoded, c) at h))

      -- CheckTx of a transaction that decodes to a bid answers without an error exactly if, in a context over the committed
      -- state, the bid passes the ante handler, and behind it every transaction of its bundle can be wrapped, is no bid and
      -- passes the ante handler, and the lane's mempool takes the bid; the answer has the bid's gas, the mempool is as
      -- Insert left it, and the application's state is unchanged.
      pub check_tx_handler_iff :
          (answer : Answer) (pool' : Pool)
          → ((handled ≡ (answer, app, pool')) × (answer.error ≡ none))
            ↔ IsAdmitted req tx info app pool answer pool'
      unfolding check_decoded
      check_tx_handler_iff answer pool' = (
        λ (h, e).
            context_ok
              (get_context_for_bid_tx sdk ops factory ante_handler base_app mempool req app) refl h
              e,
        λ a.
            let (h, e) =
              (check_bid_iff a.ctx tx info app pool answer pool').1
                (a.gas, a.is_valid, a.inserted, a.answered) in
            (rw (handled-eq, check_decoded, a.in_context) h, e),
      )
