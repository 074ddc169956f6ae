-- ===== src/Lane/Order.antt =====
-- DefaultCheckOrderHandler of blockbuster/lane_handlers.go against its specification, and what
-- DefaultProcessLaneHandler then leaves to the next lane.
use pob.Prelude.{
  true, false, not, ◌==◌, ==_iff, Option, none, some, List, [], ◌∷◌, ◌++◌, ◌≡◌, ◌≢◌, ◌↔◌, refl, ap,
  arith, All, Bool-cases, inl, inr,
}
use pob.Prelude.Int.{ℤ, pos, negsuc}
use pob.Prelude.Outcome.{ok, >>=-eq-ok, >>-eq-ok, guard, wrong_priority}
use pob.Sdk.{Sdk, Tx}
use pob.Lane.Defs.{Env, LaneConstructor, match}
use pob.Lane.Handlers.{check_order_loop, check_priority, default_check_order_handler, is_minus_one}

module _ (sdk : Sdk) {Pool : Type 0} (l : LaneConstructor sdk Pool) (ctx : Env sdk) where
  abbrev pub Belongs : Tx → Type 0
  Belongs tx = match sdk l ctx tx ≡ true

  abbrev pub Foreign : Tx → Type 0
  Foreign tx = match sdk l ctx tx ≡ false

  -- Compare does not put the first transaction below the second.
  abbrev pub NotBelow : Tx → Tx → Type 0
  NotBelow x y = (c : ℤ) × (l.mempool.compare ctx x y ≡ ok c) × (c ≢ negsuc 0)

  abbrev pub IsOrdered : Option Tx → List Tx → Type 0
  IsOrdered prev [] = Unit
  IsOrdered none (tx ∷ txs) = IsOrdered (some tx) txs
  IsOrdered (some prev) (tx ∷ txs) = NotBelow prev tx × IsOrdered (some tx) txs

  -- The transactions are those of the lane, in order, and then those of other lanes.
  pub record InOrder (prev : Option Tx) (txs : List Tx) : Type 0 where
    pub own : List Tx
    pub others : List Tx
    pub split : txs ≡ own ++ others
    pub belong : All Belongs own
    pub foreign_txs : All Foreign others
    pub ordered : IsOrdered prev own

  check_priority_sound : (p tx : Tx) → check_priority sdk l ctx (some p) tx ≡ ok tt → NotBelow p tx
  unfolding check_priority
  check_priority_sound p tx h =
      let (c, e, g) = >>=-eq-ok (l.mempool.compare ctx p tx) _ h in
      (c, e, λ z. cc (g, ap (λ x. guard (not (is_minus_one x)) wrong_priority) z))

  check_priority_complete :
      (p tx : Tx) → NotBelow p tx → check_priority sdk l ctx (some p) tx ≡ ok tt
  unfolding check_priority
  check_priority_complete p tx (c, e, n) = rw e (guarded c n)
    where
      guarded : (c : ℤ) → c ≢ negsuc 0 → guard (not (is_minus_one c)) wrong_priority ≡ ok tt
      guarded (pos n) h = refl
      guarded (negsuc n) h = elim (Bool-cases (n == 0)) [
        | inl z ↦ absurd (h (ap negsuc ((==_iff n 0).0 z)))
        | inr m ↦ rw m
      ]

  seen_sound :
      (prev : Option Tx) (txs : List Tx)
      → check_order_loop sdk l ctx true prev txs ≡ ok tt
      → All Foreign txs
  unfolding check_order_loop
  seen_sound prev [] h = tt
  seen_sound prev (tx ∷ txs) h = elim (Bool-cases (match sdk l ctx tx)) [
    | inl m ↦ absurd (ground (arith, m))
    | inr n ↦ (n, seen_sound (some tx) txs (ground (arith, n)))
  ]

  seen_complete :
      (prev : Option Tx) (txs : List Tx)
      → All Foreign txs
      → check_order_loop sdk l ctx true prev txs ≡ ok tt
  unfolding check_order_loop
  seen_complete prev [] h = refl
  seen_complete prev (tx ∷ txs) h = ground (arith, h.0, seen_complete (some tx) txs h.1)

  own_round_sound :
      (prev : Option Tx) (tx : Tx) (txs : List Tx)
      → check_priority sdk l ctx prev tx ≡ ok tt
      → IsOrdered (some tx) txs
      → IsOrdered prev (tx ∷ txs)
  own_round_sound none tx txs h o = o
  own_round_sound (some p) tx txs h o = (check_priority_sound p tx h, o)

  own_round_complete :
      (prev : Option Tx) (tx : Tx) (txs : List Tx)
      → IsOrdered prev (tx ∷ txs)
      → (check_priority sdk l ctx prev tx ≡ ok tt) × IsOrdered (some tx) txs
  unfolding check_priority
  own_round_complete none tx txs o = (refl, o)
  own_round_complete (some p) tx txs o = (check_priority_complete p tx o.0, o.1)

  unseen_sound :
      (prev : Option Tx) (txs : List Tx)
      → check_order_loop sdk l ctx false prev txs ≡ ok tt
      → InOrder prev txs
  unfolding check_order_loop
  unseen_sound prev [] h = record {
    own = [];
    others = [];
    split = refl;
    belong = tt;
    foreign_txs = tt;
    ordered = tt;
  }
  unseen_sound prev (tx ∷ txs) h = elim (Bool-cases (match sdk l ctx tx)) [
    | inl m ↦
        let (p, q) = >>-eq-ok _ _ (rw (m, check_order_loop) at h) in
        let rest = unseen_sound (some tx) txs q in
        record {
          own = tx ∷ rest.own;
          others = rest.others;
          split = ap (◌∷◌ tx) rest.split;
          belong = (m, rest.belong);
          foreign_txs = rest.foreign_txs;
          ordered = own_round_sound prev tx rest.own p rest.ordered;
        }
    | inr n ↦ record {
      own = [];
      others = tx ∷ txs;
      split = refl;
      belong = tt;
      foreign_txs = (n, seen_sound (some tx) txs (ground (arith, n)));
      ordered = tt;
    }
  ]

  unseen_complete :
      (prev : Option Tx) (own others : List Tx)
      → All Belongs own
      → All Foreign others
      → IsOrdered prev own
      → check_order_loop sdk l ctx false prev (own ++ others) ≡ ok tt
  unfolding check_order_loop
  unseen_complete prev [] [] b f o = refl
  unseen_complete prev [] (tx ∷ txs) b f o =
      rw (f.0, check_order_loop) (seen_complete (some tx) txs f.1)
  unseen_complete prev (tx ∷ txs) others b f o =
      let (p, q) = own_round_complete prev tx txs o in
      rw (b.0, check_order_loop, p) (unseen_complete (some tx) txs others b.1 f q)

  -- The default CheckOrder accepts a proposal exactly if it consists of transactions of the lane, none
  -- below the one behind it by the lane's Compare, followed by transactions that are not the lane's.
  pub default_check_order_iff :
      (txs : List Tx) → (default_check_order_handler sdk l ctx txs ≡ ok tt) ↔ InOrder none txs
  unfolding default_check_order_handler
  default_check_order_iff txs = (
    unseen_sound none txs,
    λ o. rw o.split (unseen_complete none o.own o.others o.belong o.foreign_txs o.ordered),
  )
