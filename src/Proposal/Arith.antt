-- ===== src/Proposal/Arith.antt =====
-- Sizes in int64 and in unbounded numbers: the sums and limits of a proposal that does not wrap.
use pob.Prelude.{
  ℕ, ◌+◌, ◌-◌, ◌*◌, ◌/◌, ◌^◌, ◌≤◌, ◌<◌, ◌≡◌, ap, ◌∙◌, List, [], ◌∷◌, arith, length, sum_by,
  if◌then◌else◌, ◌==◌, Bool-cases, inl, inr,
}
use pob.Prelude.Int.{pos, add64-pos, sub64-pos}
use pob.Prelude.Outcome.{ok}
use pob.Sdk.{Sdk, Bytes, precision}
use pob.Proposal.{partial_size, get_max_tx_bytes_for_lane}

-- The size of a list of transactions.
abbrev pub bytes : List Bytes → ℕ
bytes = sum_by length

pub partial_size-bytes :
    (n : ℕ) (txs : List Bytes)
    → n + bytes txs < 2 ^ 63
    → partial_size (pos n) txs ≡ pos (n + bytes txs)
unfolding partial_size
partial_size-bytes n [] h = ap pos (omega arith)
partial_size-bytes n (tx ∷ txs) h =
    rw (add64-pos n (length tx) (omega arith))
      (partial_size-bytes (n + length tx) txs (omega arith) ∙ ap pos (omega arith))

pub partial_size-zero :
    (txs : List Bytes) → bytes txs < 2 ^ 63 → partial_size (pos 0) txs ≡ pos (bytes txs)
partial_size-zero txs h = partial_size-bytes 0 txs (omega arith) ∙ ap pos (omega arith)

-- The bound on a lane's bytes: what is left of the block, or the lane's share of the whole of it.
abbrev pub lane_bound : ℕ → ℕ → ℕ → ℕ
lane_bound share max total = if share == 0 then max - total else share * max / precision

scale-le : (share max : ℕ) → share ≤ precision → share * max ≤ precision * max
scale-le share max h = grind arith

share-le : (share max : ℕ) → share ≤ precision → share * max / precision ≤ max
share-le share max h = omega (arith, scale-le share max h)

pub lane_bound-le : (share max total : ℕ) → share ≤ precision → lane_bound share max total ≤ max
lane_bound-le share max total h = ground (arith, share-le share max)

module _ (sdk : Sdk) where
  open sdk use {decimals}

  -- For a lane whose share is at most the whole block, the limit is `lane_bound`, and nothing panics.
  pub get_max_tx_bytes_for_lane-eq :
      (max total share : ℕ) (space : decimals.LegacyDec)
      → max < 2 ^ 63
      → total < 2 ^ 63
      → decimals.scaled space ≡ pos share
      → share ≤ precision
      → get_max_tx_bytes_for_lane sdk (pos max) (pos total) space
        ≡ ok (pos (lane_bound share max total))
  unfolding get_max_tx_bytes_for_lane
  get_max_tx_bytes_for_lane-eq max total share space hm ht hs hp =
      elim (Bool-cases (decimals.is_zero space)) [
        | inl z ↦ rw z (rw (sub64-pos max total hm ht) (ground (arith, decimals.is_zero_iff space)))
        | inr n ↦ rw n (
            rw
              (decimals.truncate_int_lem _ (share * max)
                (decimals.scaled-mul_int64 space share max hs))
              (rw
                (decimals.int64_lem (share * max / precision)
                  (omega (arith, share-le share max hp)))
                (ground (arith, decimals.is_zero_iff space))))
      ]
