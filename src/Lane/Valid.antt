-- ===== src/Lane/Valid.antt =====
-- When NewLaneConstructor of blockbuster/lane_constructor.go makes a lane, and which one.
use pob.Prelude.{
  ◌≡◌, ◌↔◌, refl, ap, ◌∙◌, arith, Bool, true, false, not, ◌||◌, Option, none, some, inl, inr,
  str_eq,
}
use pob.Prelude.Int.{ℤ, pos, ltb_ℤ, ◌≤ℤ◌}
use pob.Prelude.Outcome.{
  ok, err, Error, guard, nil_logger, nil_encoder, nil_decoder, bad_block_space, empty_name,
  nil_mempool, nil_match, >>-eq-ok, >>=-eq-ok, Outcome-cases,
}
use pob.Sdk.{Sdk, precision}
use pob.Lane.Defs.{MatchHandler, LaneMempool, Lane}
use pob.Lane.Handlers.{
  default_prepare_lane_handler, default_process_lane_handler, default_check_order_handler,
}
use pob.Lane.Construct.{
  Unchecked, need, config_validate_basic, lane_validate_basic, new_lane_constructor,
}

guard-true : (b : Bool) (e : Error) → guard b e ≡ ok tt → b ≡ true
guard-true true e h = refl
guard-true false e h = absurd (cc h)

need-some {ℓ} : {A : Type ℓ} (o : Option A) (e : Error) (a : A) → need o (err e) ≡ ok a → o ≡ some a
need-some (some x) e a h = cc h
need-some none e a h = absurd (cc h)

module _ (sdk : Sdk) where
  open sdk use {decimals}

  space_iff :
      (d : decimals.LegacyDec)
      → (not (decimals.is_nil d || decimals.is_negative d || decimals.gt d decimals.one_dec) ≡ true)
        ↔ ((decimals.is_nil d ≡ false)
            × (pos 0 ≤ℤ decimals.scaled d)
            × (decimals.scaled d ≤ℤ pos precision))
  space_iff d =
      rw (decimals.is_negative_lem, decimals.gt_lem, decimals.scaled-one_dec)
        (tests (decimals.is_nil d) (decimals.scaled d))
    where
      tests :
          (b : Bool) (s : ℤ)
          → (not (b || ltb_ℤ s (pos 0) || ltb_ℤ (pos precision) s) ≡ true)
            ↔ ((b ≡ false) × (pos 0 ≤ℤ s) × (s ≤ℤ pos precision))
      tests b s = ground arith

module _ (sdk : Sdk) {Pool : Type 0} where
  open sdk use {decimals}

  -- The configuration has a logger, an encoder and a decoder, and a share of the block between 0 and 1.
  pub record IsConfigured (u : Unchecked sdk Pool) : Type 0 where
    pub logger : u.has_logger ≡ true
    pub encoder : u.has_tx_encoder ≡ true
    pub decoder : u.has_tx_decoder ≡ true
    pub set : decimals.is_nil u.cfg.max_block_space ≡ false
    pub nonnegative : pos 0 ≤ℤ decimals.scaled u.cfg.max_block_space
    pub at_most_one : decimals.scaled u.cfg.max_block_space ≤ℤ pos precision

  config_validate_basic_iff :
      (u : Unchecked sdk Pool) → (config_validate_basic sdk u ≡ ok tt) ↔ IsConfigured u
  unfolding config_validate_basic
  config_validate_basic_iff u = (forward, backward)
    where
      forward : config_validate_basic sdk u ≡ ok tt → IsConfigured u
      forward h =
          let (a, h1) = >>-eq-ok (guard u.has_logger nil_logger) _ h in
          let (b, h2) = >>-eq-ok (guard u.has_tx_encoder nil_encoder) _ h1 in
          let (c, h3) = >>-eq-ok (guard u.has_tx_decoder nil_decoder) _ h2 in
          let (n, z, o) =
            (space_iff sdk u.cfg.max_block_space).0 (guard-true _ bad_block_space h3) in
          record {
            logger = guard-true u.has_logger nil_logger a;
            encoder = guard-true u.has_tx_encoder nil_encoder b;
            decoder = guard-true u.has_tx_decoder nil_decoder c;
            set = n;
            nonnegative = z;
            at_most_one = o;
          }

      backward : IsConfigured u → config_validate_basic sdk u ≡ ok tt
      backward c =
          rw (c.logger, c.encoder, c.decoder)
            (rw ((space_iff sdk u.cfg.max_block_space).1 (c.set, c.nonnegative, c.at_most_one))
              refl)

  -- The lane with the default handlers.
  abbrev pub made : Unchecked sdk Pool → LaneMempool sdk Pool → MatchHandler sdk → Lane sdk Pool
  made u mempool match_handler = record {
    self = record {
      cfg = u.cfg;
      lane_name = u.lane_name;
      mempool = mempool;
      pool = u.pool;
      match_handler = match_handler;
    };
    prepare_lane_handler = default_prepare_lane_handler sdk;
    process_lane_handler = default_process_lane_handler sdk;
    check_order_handler = default_check_order_handler sdk;
  }

  pub record IsMade (u : Unchecked sdk Pool) (l : Lane sdk Pool) : Type 0 where
    pub configured : IsConfigured u
    pub named : str_eq u.lane_name "" ≡ false
    pub mempool : LaneMempool sdk Pool
    pub has_mempool : u.lane_mempool ≡ some mempool
    pub match_handler : MatchHandler sdk
    pub has_match : u.match_handler ≡ some match_handler
    pub is_made : made u mempool match_handler ≡ l

  abbrev bare : Unchecked sdk Pool → Unchecked sdk Pool
  bare u = record u {
    prepare_lane_handler = none;
    process_lane_handler = none;
    check_order_handler = none;
  }

  lane_validate_basic-IsMade :
      (u : Unchecked sdk Pool) (l : Lane sdk Pool)
      → lane_validate_basic sdk (bare u) ≡ ok l
      → IsMade u l
  unfolding lane_validate_basic config_validate_basic
  lane_validate_basic-IsMade u l h =
      let (c, h1) = >>-eq-ok (config_validate_basic sdk (bare u)) _ h in
      let (n, h2) = >>-eq-ok (guard (not (str_eq u.lane_name "")) empty_name) _ h1 in
      let (mempool, m, h3) = >>=-eq-ok (need u.lane_mempool (err nil_mempool)) _ h2 in
      let (match_handler, f, h4) = >>=-eq-ok (need u.match_handler (err nil_match)) _ h3 in
      record {
        configured = (config_validate_basic_iff u).0 c;
        named = ground (arith, guard-true (not (str_eq u.lane_name "")) empty_name n);
        mempool = mempool;
        has_mempool = need-some u.lane_mempool nil_mempool mempool m;
        match_handler = match_handler;
        has_match = need-some u.match_handler nil_match match_handler f;
        is_made = cc h4;
      }

  lane_validate_basic-made :
      (u : Unchecked sdk Pool) (l : Lane sdk Pool)
      → IsMade u l
      → lane_validate_basic sdk (bare u) ≡ ok l
  unfolding lane_validate_basic
  lane_validate_basic-made u l m =
      rw ((config_validate_basic_iff (bare u)).1 configured, lane_validate_basic)
        (rw m.named (rw (m.has_mempool, m.has_match) (ap ok m.is_made)))
    where
      configured : IsConfigured (bare u)
      configured = record {
        logger = m.configured.logger;
        encoder = m.configured.encoder;
        decoder = m.configured.decoder;
        set = m.configured.set;
        nonnegative = m.configured.nonnegative;
        at_most_one = m.configured.at_most_one;
      }

  -- NewLaneConstructor makes a lane, and does not panic, exactly if there are a logger, an encoder, a decoder, a mempool and a
  -- matcher, the share of the block is set to a value between 0 and 1, and the name is not empty; the lane has the three
  -- default handlers.
  pub new_lane_constructor_iff :
      (u : Unchecked sdk Pool) (l : Lane sdk Pool)
      → (new_lane_constructor sdk u ≡ ok l) ↔ IsMade u l
  unfolding new_lane_constructor
  new_lane_constructor_iff u l = (forward, backward)
    where
      forward : new_lane_constructor sdk u ≡ ok l → IsMade u l
      forward h = elim (Outcome-cases (lane_validate_basic sdk (bare u))) [
        | inl (k, e) ↦ lane_validate_basic-IsMade u l (e ∙ (rw (e, new_lane_constructor) at h))
        | inr (inl (x, e)) ↦ absurd (cc (rw (e, new_lane_constructor) at h))
        | inr (inr e) ↦ absurd (cc (rw (e, new_lane_constructor) at h))
      ]

      backward : IsMade u l → new_lane_constructor sdk u ≡ ok l
      backward m = rw (lane_validate_basic-made u l m, new_lane_constructor) refl
