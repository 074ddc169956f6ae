-- ===== src/Lane/Reap.antt =====
-- DefaultPrepareLaneHandler of blockbuster/lane_handlers.go as a whole: the selection loop over the
-- transactions of the mempool.
use mathlib.Core.List.{append-nil, append_assoc}
use pob.Prelude.{
  ℕ, ◌+◌, ◌^◌, ◌≤◌, ◌<◌, true, false, List, [], ◌∷◌, ◌++◌, ◌≡◌, refl, sym, ap, subst, ◌∙◌, arith,
  length, sum_by-append,
}
use pob.Prelude.Int.{ℤ, pos, ltb_ℤ, add64, add64-pos}
use pob.Prelude.Outcome.{Outcome, ok, err, panic}
use pob.Sdk.{Sdk, Bytes, Tx}
use pob.Proposal.{Proposal}
use pob.Proposal.Arith.{bytes}
use pob.Lane.Defs.{Env, LaneConstructor}
use pob.Lane.Handlers.{
  Selection, start, reject, include, select_loop, default_prepare_lane_handler, selected,
}
use pob.Lane.Select.{
  Selects, finished, full, skip, drop, fail, take, Panics, skips, drops, fails, takes, breaks,
  panics, select_round-cases,
}

-- The selection's size is that of its transactions, and within the limit.
pub record Fits (max : ℕ) (s : Selection) : Type 0 where
  pub counted : s.total_size ≡ pos (bytes s.txs)
  pub bounded : bytes s.txs ≤ max

module _ (max : ℕ) (s : Selection) (bz : Bytes) (hm : max < 2 ^ 62) (hb : length bz < 2 ^ 62)
    (f : Fits max s) where
  new_size : add64 s.total_size (pos (length bz)) ≡ pos (bytes s.txs + length bz)
  new_size = rw f.counted (add64-pos (bytes s.txs) (length bz) (omega (arith, f.bounded)))

  within :
      ltb_ℤ (pos max) (add64 s.total_size (pos (length bz))) ≡ false → bytes s.txs + length bz ≤ max
  within h = ground (arith, h, new_size)

  over :
      ltb_ℤ (pos max) (add64 s.total_size (pos (length bz))) ≡ true → max < bytes s.txs + length bz
  over h = ground (arith, h, new_size)

  include-bytes : bytes (include bz s).txs ≡ bytes s.txs + length bz
  unfolding include
  include-bytes = omega (arith, sum_by-append length s.txs (bz ∷ []))

  include-Fits :
      ltb_ℤ (pos max) (add64 s.total_size (pos (length bz))) ≡ false → Fits max (include bz s)
  unfolding include
  include-Fits h = record {
    counted = new_size ∙ ap pos (sym include-bytes);
    bounded = omega (arith, include-bytes, within h);
  }

module _ (sdk : Sdk) {Pool : Type 0} (l : LaneConstructor sdk Pool) (p : Proposal) (max : ℕ)
    (hm : max < 2 ^ 62)
    (small : (tx : Tx) (bz : Bytes) → sdk.encode tx ≡ ok bz → length bz < 2 ^ 62) where
  reject-Fits : (tx : Tx) (s : Selection) → Fits max s → Fits max (reject tx s)
  unfolding reject
  reject-Fits tx s f = record { counted = f.counted; bounded = f.bounded }

  -- What the loop adds to a selection.
  pub record Reaps (ctx : Env sdk) (txs : List Tx) (s s' : Selection) : Type 0 where
    pub included : List Bytes
    pub removed : List Tx
    pub txs_eq : s'.txs ≡ s.txs ++ included
    pub removed_eq : s'.txs_to_remove ≡ s.txs_to_remove ++ removed
    pub selects : Selects sdk l p max ctx (bytes s.txs) txs included removed
    pub fits : Fits max s'

  Reaps-stop :
      (ctx : Env sdk) (txs : List Tx) (s : Selection)
      → Selects sdk l p max ctx (bytes s.txs) txs [] []
      → Fits max s
      → Reaps ctx txs s s
  Reaps-stop ctx txs s h f = record {
    included = [];
    removed = [];
    txs_eq = sym (append-nil s.txs);
    removed_eq = sym (append-nil s.txs_to_remove);
    selects = h;
    fits = f;
  }

  -- A round that removes the transaction.
  Reaps-drop :
      {ctx ctx' : Env sdk} {tx : Tx} {txs : List Tx} {s s' : Selection}
      → ((bs : List Bytes) (rs : List Tx)
          → Selects sdk l p max ctx' (bytes s.txs) txs bs rs
          → Selects sdk l p max ctx (bytes s.txs) (tx ∷ txs) bs (tx ∷ rs))
      → Reaps ctx' txs (reject tx s) s'
      → Reaps ctx (tx ∷ txs) s s'
  unfolding reject
  Reaps-drop {tx} {s} step rest = record {
    included = rest.included;
    removed = tx ∷ rest.removed;
    txs_eq = rest.txs_eq;
    removed_eq = rest.removed_eq ∙ append_assoc s.txs_to_remove (tx ∷ []) rest.removed;
    selects = step rest.included rest.removed rest.selects;
    fits = rest.fits;
  }

  Reaps-take :
      {ctx ctx' : Env sdk} {tx : Tx} {bz : Bytes} {txs : List Tx} {s s' : Selection}
      → bytes (include bz s).txs ≡ bytes s.txs + length bz
      → ((bs : List Bytes) (rs : List Tx)
          → Selects sdk l p max ctx' (bytes s.txs + length bz) txs bs rs
          → Selects sdk l p max ctx (bytes s.txs) (tx ∷ txs) (bz ∷ bs) rs)
      → Reaps ctx' txs (include bz s) s'
      → Reaps ctx (tx ∷ txs) s s'
  unfolding include
  Reaps-take {ctx' = ctx'} {bz = bz} {txs = txs} {s = s} sized step rest = record {
    included = bz ∷ rest.included;
    removed = rest.removed;
    txs_eq = rest.txs_eq ∙ append_assoc s.txs (bz ∷ []) rest.included;
    removed_eq = rest.removed_eq;
    selects =
        step rest.included rest.removed (
          subst (λ n. Selects sdk l p max ctx' n txs rest.included rest.removed) sized
            rest.selects);
    fits = rest.fits;
  }

  pub select_loop-Reaps :
      (txs : List Tx) (ctx : Env sdk) (s s' : Selection)
      → Fits max s
      → (select_loop sdk l p (pos max) ctx s txs).0 ≡ ok s'
      → Reaps ctx txs s s'
  unfolding select_loop
  select_loop-Reaps [] ctx s s' f e =
      subst (λ x. Reaps ctx [] s x) (cc) (Reaps-stop ctx [] s (finished ctx (bytes s.txs)) f)
  select_loop-Reaps (tx ∷ txs) ctx s s' f e = elim (select_round-cases sdk l p (pos max) ctx s tx) [
    | skips bz enc ours old r ↦
        let rest = select_loop-Reaps txs ctx s s' f (rw (r, select_loop) at e) in
        record {
          included = rest.included;
          removed = rest.removed;
          txs_eq = rest.txs_eq;
          removed_eq = rest.removed_eq;
          selects = skip bz enc ours old rest.selects;
          fits = rest.fits;
        }
    | drops bad r ↦
        Reaps-drop (λ bs rs. drop bad)
          (select_loop-Reaps txs ctx (reject tx s) s' (reject-Fits tx s f)
            (rw (r, select_loop) at e))
    | fails ctx' bz x cand fit bad r ↦
        Reaps-drop (λ bs rs. fail x cand (within max s bz hm (small tx bz cand.encoded) f fit) bad)
          (select_loop-Reaps txs ctx' (reject tx s) s' (reject-Fits tx s f)
            (rw (r, select_loop) at e))
    | takes ctx' bz cand fit good r ↦
        let hb = small tx bz cand.encoded in
        Reaps-take (include-bytes max s bz hm hb f)
          (λ bs rs. take cand (within max s bz hm hb f fit) good)
          (select_loop-Reaps txs ctx' (include bz s) s' (include-Fits max s bz hm hb f fit)
            (rw (r, select_loop) at e))
    | breaks bz cand big r ↦
        let same : ok s ≡ ok s' = rw (r, select_loop) at e in
        subst (λ x. Reaps ctx (tx ∷ txs) s x) (cc same)
          (Reaps-stop ctx (tx ∷ txs) s
            (full ctx (bytes s.txs) tx txs bz cand
              (over max s bz hm (small tx bz cand.encoded) f big))
            f)
    | panics ctx' _ r ↦ let never : panic ≡ ok s' = rw (r, select_loop) at e in absurd (cc never)
  ]

selected-ok :
    (sdk : Sdk) {Pool : Type 0} (r : Outcome Selection × Env sdk) (pool : Pool) (s : Selection)
    → r.0 ≡ ok s
    → (selected sdk r pool).0 ≡ ok (s.txs, s.txs_to_remove)
selected-ok sdk (ok x, ctx) pool s e = cc
selected-ok sdk (err x, ctx) pool s e = absurd (cc)
selected-ok sdk (panic, ctx) pool s e = absurd (cc)

module _ (sdk : Sdk) {Pool : Type 0} (l : LaneConstructor sdk Pool) (p : Proposal)
    (calm : (tx : Tx) → ¬ Panics sdk l p tx) where
  select_loop_total :
      (max : ℤ) (txs : List Tx) (ctx : Env sdk) (s : Selection)
      → (s' : Selection) × ((select_loop sdk l p max ctx s txs).0 ≡ ok s')
  unfolding select_loop
  select_loop_total max [] ctx s = (s, refl)
  select_loop_total max (tx ∷ txs) ctx s = elim (select_round-cases sdk l p max ctx s tx) [
    | skips _ _ _ _ r ↦ rw (r, select_loop) (select_loop_total max txs ctx s)
    | drops _ r ↦ rw (r, select_loop) (select_loop_total max txs ctx (reject tx s))
    | fails ctx' _ _ _ _ _ r ↦ rw (r, select_loop) (select_loop_total max txs ctx' (reject tx s))
    | takes ctx' bz _ _ _ r ↦ rw (r, select_loop) (select_loop_total max txs ctx' (include bz s))
    | breaks _ _ _ r ↦ (s, rw (r, select_loop))
    | panics _ why _ ↦ absurd (calm tx why)
  ]

  -- Unless the encoder or the ante handler panics, and where the limit and each transaction are below 2^62 bytes, the default
  -- PrepareLane handler returns no error. It goes through the transactions of the mempool in order, to their end or up to the
  -- first that goes over the limit with what was taken before: one without an encoding or of another lane is handed back for
  -- removal, one already in the proposal is skipped, and one that fits is included if the ante handler accepts it, from the
  -- context that those before left, and else handed back for removal.
  pub default_prepare_lane_handler-Selects :
      (ctx : Env sdk) (max : ℕ)
      → max < 2 ^ 62
      → ((tx : Tx) (bz : Bytes) → sdk.encode tx ≡ ok bz → length bz < 2 ^ 62)
      → (bs : List Bytes) × (rs : List Tx) × ((default_prepare_lane_handler sdk l ctx p (pos max)).0
          ≡ ok (bs, rs))
        × Selects sdk l p max ctx 0 (l.mempool.select ctx l.pool).0 bs rs
        × (bytes bs ≤ max)
  unfolding default_prepare_lane_handler
  default_prepare_lane_handler-Selects ctx max hm small =
      let txs : List Tx = (l.mempool.select ctx l.pool).0 in
      let (s, e) = select_loop_total (pos max) txs ctx start in
      let r : Reaps sdk l p max hm small ctx txs start s =
        select_loop-Reaps sdk l p max hm small txs ctx start s
          (record { counted = refl; bounded = omega arith }) e in
      (
        s.txs,
        s.txs_to_remove,
        selected-ok sdk _ _ s e,
        subst (λ x. Selects sdk l p max ctx 0 txs x s.txs_to_remove) (sym r.txs_eq)
            (subst (λ y. Selects sdk l p max ctx 0 txs r.included y) (sym r.removed_eq) r.selects),
        r.fits.bounded,
      )
