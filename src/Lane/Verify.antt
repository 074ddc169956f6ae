-- ===== src/Lane/Verify.antt =====
-- DefaultProcessLaneHandler of blockbuster/lane_handlers.go against its specification.
use pob.Prelude.{true, false, List, [], ◌∷◌, ◌++◌, ◌≡◌, ◌↔◌, refl, ap, subst, Bool-cases, inl, inr}
use pob.Prelude.Outcome.{Outcome, ok, err, panic}
use pob.Sdk.{Sdk, Tx}
use pob.Lane.Defs.{Env, LaneConstructor, match, ante_verify_tx}
use pob.Lane.Handlers.{process_loop, default_process_lane_handler}

module _ (sdk : Sdk) {Pool : Type 0} (l : LaneConstructor sdk Pool) where
  -- One after the other the transactions belong to the lane and pass its ante handler, each in the
  -- context that the one before left; `c'` is the last of these contexts.
  pub data Verified (c' : Env sdk) : Env sdk → List Tx → Type 0 where
    end : {c : Env sdk} → c ≡ c' → Verified c' c []
    passed :
        {c d : Env sdk} {tx : Tx} {txs : List Tx}
        → match sdk l c tx ≡ true
        → ante_verify_tx sdk l c tx false ≡ (d, ok tt)
        → Verified c' d txs
        → Verified c' c (tx ∷ txs)

  -- There is nothing left, or the first transaction left is another lane's.
  abbrev pub HandedOn : Env sdk → List Tx → Type 0
  HandedOn c [] = Unit
  HandedOn c (tx ∷ txs) = match sdk l c tx ≡ false

  -- A proposal whose first part is verified by the lane, and whose rest is handed on.
  pub record Processed (c c' : Env sdk) (txs rest : List Tx) : Type 0 where
    pub own : List Tx
    pub split : txs ≡ own ++ rest
    pub verified : Verified c' c own
    pub handed_on : HandedOn c' rest

  Processed-end :
      (c c' : Env sdk) (txs rest : List Tx)
      → c ≡ c'
      → txs ≡ rest
      → HandedOn c' rest
      → Processed c c' txs rest
  Processed-end c c' txs rest e f h = record {
    own = [];
    split = f;
    verified = end e;
    handed_on = h;
  }

  Processed-passed :
      {c d c' : Env sdk} {tx : Tx} {txs rest : List Tx}
      → match sdk l c tx ≡ true
      → ante_verify_tx sdk l c tx false ≡ (d, ok tt)
      → Processed d c' txs rest
      → Processed c c' (tx ∷ txs) rest
  Processed-passed {tx} m v r = record {
    own = tx ∷ r.own;
    split = ap (◌∷◌ tx) r.split;
    verified = passed m v r.verified;
    handed_on = r.handed_on;
  }

  process_loop_sound :
      (txs : List Tx) (c c' : Env sdk) (rest : List Tx)
      → (process_loop sdk l c txs).0 ≡ ok rest
      → (process_loop sdk l c txs).1 ≡ c'
      → Processed c c' txs rest
  unfolding process_loop
  process_loop_sound [] c c' rest e f =
      let r : [] ≡ rest = cc in Processed-end c c' [] rest f r (subst (HandedOn c') r tt)
  process_loop_sound (tx ∷ txs) c c' rest e f = elim (Bool-cases (match sdk l c tx)) [
    | inr n ↦
        let r : tx ∷ txs ≡ rest = cc (rw (n, process_loop) at e) in
        let s : c ≡ c' = rw (n, process_loop) at f in
        Processed-end c c' (tx ∷ txs) rest s r
          (subst (λ x. HandedOn x rest) s (subst (λ x. HandedOn c x) r n))
    | inl m ↦ go (process_loop_sound txs) m (ante_verify_tx sdk l c tx false).1 refl
  ]
    where
      d : Env sdk
      d = (ante_verify_tx sdk l c tx false).0

      go :
          ((d c' : Env sdk) (rest : List Tx)
            → (process_loop sdk l d txs).0 ≡ ok rest
            → (process_loop sdk l d txs).1 ≡ c'
            → Processed d c' txs rest)
          → match sdk l c tx ≡ true
          → (r : Outcome (Unit {0})) → (ante_verify_tx sdk l c tx false).1 ≡ r
          → Processed c c' (tx ∷ txs) rest
      go ih m (ok u) v =
          Processed-passed m (λ i. (d, v i))
            (ih d c' rest (rw (m, v, process_loop) at e) (rw (m, v, process_loop) at f))
      go ih m (err x) v = absurd (cc (rw (m, v, process_loop) at e))
      go ih m panic v = absurd (cc (rw (m, v, process_loop) at e))

  process_loop_complete :
      (own rest : List Tx) (c c' : Env sdk)
      → Verified c' c own
      → HandedOn c' rest
      → process_loop sdk l c (own ++ rest) ≡ (ok rest, c')
  unfolding process_loop
  process_loop_complete [] [] c c' (end e) h = rw e
  process_loop_complete [] (tx ∷ txs) c c' (end e) h =
      rw (e, h, process_loop) (ap (λ x. (ok (tx ∷ txs), x)) e)
  process_loop_complete (tx ∷ own) rest c c' (passed {d} m v w) h =
      let ctx : (ante_verify_tx sdk l c tx false).0 ≡ d = ap (λ r. r.0) v in
      let verdict : (ante_verify_tx sdk l c tx false).1 ≡ ok tt = ap (λ r. r.1) v in
      rw (m, process_loop, verdict, ctx) (process_loop_complete own rest d c' w h)

  -- The default ProcessLane handler returns `rest`, and leaves the context `c'`, exactly if the proposal is
  -- a run of transactions of the lane, each passing the ante handler in the context that the one before it
  -- left, followed by `rest`, which is empty or starts with a transaction that is not the lane's.
  pub default_process_lane_handler_iff :
      (c c' : Env sdk) (txs rest : List Tx)
      → (default_process_lane_handler sdk l c txs ≡ (ok rest, c')) ↔ Processed c c' txs rest
  unfolding default_process_lane_handler
  default_process_lane_handler_iff c c' txs rest = (
    λ e. process_loop_sound txs c c' rest (ap (λ r. r.0) e) (ap (λ r. r.1) e),
    λ p. rw p.split (process_loop_complete p.own rest c c' p.verified p.handed_on),
  )
