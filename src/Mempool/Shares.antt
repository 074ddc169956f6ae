-- ===== src/Mempool/Shares.antt =====
-- ValidateBasic of blockbuster/mempool.go: the shares of the block that the lanes may take.
use pob.Prelude.{
  ℕ, ◌+◌, ◌≤◌, Bool, true, false, ◌&&◌, ◌||◌, not, List, [], ◌∷◌, ◌≡◌, ◌↔◌, ◌⊎◌, refl, ap, ◌∙◌,
  arith, any, sum_by, All, ◌==◌, ltb, Bool-cases, inl, inr, if◌then◌else◌,
}
use pob.Prelude.Int.{pos, ◌+ℤ◌}
use pob.Prelude.Outcome.{Outcome, ok, err, sum_too_large, sum_too_small}
use pob.Sdk.{Sdk, precision}
use pob.Lane.{Lane}
use pob.Mempool.{space_loop, validate_basic}

pos_add : (a b : ℕ) → pos a +ℤ pos b ≡ pos (a + b)
unfolding ◌+ℤ◌
pos_add a b = ground arith

-- The three ways in which the sum compares with the whole block.
abbrev verdict : ℕ → Bool → Outcome (Unit {0})
verdict s zero =
    if ltb precision s
    then err sum_too_large
    else if ltb s precision && not zero
    then err sum_too_small
    else ok tt

verdict_iff :
    (s : ℕ) (zero : Bool)
    → (verdict s zero ≡ ok tt) ↔ ((s ≡ precision) ⊎ (s ≤ precision) × (zero ≡ true))
verdict_iff s zero = (
  (λ v. valid (Bool-cases (ltb precision s)) (Bool-cases (ltb s precision)) (Bool-cases zero) v),
  accepted,
)
  where
    too_small : ◌≡◌ {A = Outcome (Unit {0})} (err sum_too_small) (ok tt) → ⊥
    too_small e = cc e

    valid :
        (ltb precision s ≡ true) ⊎ (ltb precision s ≡ false)
        → (ltb s precision ≡ true) ⊎ (ltb s precision ≡ false)
        → (zero ≡ true) ⊎ (zero ≡ false)
        → verdict s zero ≡ ok tt
        → (s ≡ precision) ⊎ (s ≤ precision) × (zero ≡ true)
    valid (inl y) b c v = absurd (cc (v, y))
    valid (inr n) (inr m) c v = inl (ground (arith, n, m))
    valid (inr n) b (inl z) v = inr (ground (arith, n), z)
    valid (inr n) (inl m) (inr o) v = absurd (too_small (rw (n, m, o) at v))

    accepted : (s ≡ precision) ⊎ (s ≤ precision) × (zero ≡ true) → verdict s zero ≡ ok tt
    accepted (inl e) = rw e refl
    accepted (inr (l, z)) = ground (arith, l, z)

module _ (sdk : Sdk) {Pool : Type 0} (share : Lane sdk Pool → ℕ) where
  open sdk use {decimals}

  -- The lane's block space is its share, in units of the last place of a decimal.
  abbrev pub HasShare : Lane sdk Pool → Type 0
  HasShare l = decimals.scaled l.self.cfg.max_block_space ≡ pos (share l)

  abbrev pub takes_the_rest : List (Lane sdk Pool) → Bool
  takes_the_rest = any (λ l. share l == 0)

  is_zero-share :
      (space : decimals.LegacyDec) (n : ℕ)
      → decimals.scaled space ≡ pos n
      → decimals.is_zero space ≡ (n == 0)
  is_zero-share space n e = ground (arith, decimals.is_zero_iff space, e)

  space_loop-sum :
      (lanes : List (Lane sdk Pool)) (sum : decimals.LegacyDec) (s : ℕ) (seen : Bool)
      → All (λ l. decimals.scaled l.self.cfg.max_block_space ≡ pos (share l)) lanes
      → decimals.scaled sum ≡ pos s
      → (decimals.scaled (space_loop sdk sum seen lanes).0 ≡ pos (s + sum_by share lanes))
        × ((space_loop sdk sum seen lanes).1 ≡ (any (λ l. share l == 0) lanes || seen))
  unfolding space_loop
  space_loop-sum [] sum s seen hs e = (e ∙ ap pos (omega arith), refl)
  space_loop-sum (l ∷ rest) sum s seen (h, hs) e =
      let space = l.self.cfg.max_block_space in
      let added : decimals.scaled (decimals.add sum space) ≡ pos (s + share l) =
        (decimals.scaled-add sum space ∙ rw (e, h) (pos_add s (share l))) in
      let zero : decimals.is_zero space ≡ (share l == 0) = is_zero-share space (share l) h in
      let (t, z) =
        space_loop-sum rest (decimals.add sum space) (s + share l) (decimals.is_zero space || seen)
          hs added in
      (t ∙ ap pos (omega arith), z ∙ ground (arith, zero))

  validate_basic-verdict :
      (lanes : List (Lane sdk Pool))
      → All HasShare lanes
      → validate_basic sdk lanes ≡ verdict (sum_by share lanes) (takes_the_rest lanes)
  unfolding validate_basic
  validate_basic-verdict lanes hs =
      let (t, z) = space_loop-sum lanes decimals.zero_dec 0 false hs decimals.scaled-zero_dec in
      let total = (space_loop sdk decimals.zero_dec false lanes).0 in
      rw
        (
          z,
          decimals.gt_lem total decimals.one_dec,
          decimals.lt_lem total decimals.one_dec,
          t,
          decimals.scaled-one_dec,
        )
        (ground arith)

  -- For lanes with a share each, the registry is valid exactly if the shares sum to the whole block, or to less
  -- and some lane has the share 0, which stands for all that is left.
  pub validate_basic_iff :
      (lanes : List (Lane sdk Pool))
      → All HasShare lanes
      → (validate_basic sdk lanes ≡ ok tt) ↔ (
          (sum_by share lanes ≡ precision)
          ⊎ (sum_by share lanes ≤ precision) × (takes_the_rest lanes ≡ true))
  validate_basic_iff lanes hs =
      rw (validate_basic-verdict lanes hs) (verdict_iff (sum_by share lanes) (takes_the_rest lanes))
