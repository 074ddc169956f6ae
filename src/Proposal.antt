-- ===== src/Proposal.antt =====
-- blockbuster/proposals.go, and GetMaxTxBytesForLane of blockbuster/utils/utils.go. Logging is left out.
pub mod Arith
pub mod Invariant
pub mod Update
use pob.Prelude.{
  ℕ, Bool, true, false, String, List, [], ◌∷◌, ◌++◌, length, any, str_eq, if◌then◌else◌, ◌≡◌, refl,
}
use pob.Prelude.Int.{ℤ, pos, ltb_ℤ, add64, sub64}
use pob.Prelude.Outcome.{Outcome, ok, err, panic, ◌>>=◌, lane_limit, block_limit}
use pob.Sdk.{Sdk, Bytes}

-- The cache is a set of transaction hashes.
pub record Proposal : Type 0 where
  pub txs : List Bytes
  pub vote_extensions : List Bytes
  pub cache : List String
  pub total_tx_bytes : ℤ
  pub max_tx_bytes : ℤ

-- NewProposal
unfoldable pub new_proposal : ℤ → Proposal
new_proposal max_tx_bytes = record {
  txs = [];
  vote_extensions = [];
  cache = [];
  total_tx_bytes = pos 0;
  max_tx_bytes = max_tx_bytes;
}

-- `_, ok := set[key]` and `set[key] = struct{}{}`
unfoldable pub has_key : String → List String → Bool
has_key k s = any (str_eq k) s

unfoldable pub add_key : String → List String → List String
add_key k s = if has_key k s then s else k ∷ s

-- The loop that sums the sizes of a partial proposal, in int64.
unfoldable pub partial_size : ℤ → List Bytes → ℤ
partial_size size [] = size
partial_size size (tx ∷ txs) = partial_size (add64 size (pos (length tx))) txs

-- GetProposal
unfoldable pub get_proposal : Proposal → List Bytes
get_proposal p = p.vote_extensions ++ p.txs

-- AddVoteExtension
unfoldable pub add_vote_extension : Bytes → Proposal → Proposal
add_vote_extension v p = record p { vote_extensions = p.vote_extensions ++ (v ∷ []) }

module _ (sdk : Sdk) where
  open sdk use {hash, decimals}

  -- GetMaxTxBytesForLane. `Int64` panics out of range.
  unfoldable pub get_max_tx_bytes_for_lane : ℤ → ℤ → decimals.LegacyDec → Outcome ℤ
  get_max_tx_bytes_for_lane max total ratio =
      let remainder = sub64 max total in
      if decimals.is_zero ratio
      then (if ltb_ℤ remainder (pos 0) then ok (pos 0) else ok remainder)
      else decimals.int64 (decimals.truncate_int (decimals.mul_int64 ratio max))

  unfoldable pub add_hashes : List Bytes → List String → List String
  add_hashes [] cache = cache
  add_hashes (tx ∷ txs) cache = add_hashes txs (add_key (hash tx) cache)

  -- The tail of UpdateProposal, once the size of the partial proposal and the lane's limit are known.
  unfoldable pub commit_partial : List Bytes → ℤ → Proposal → ℤ → Outcome (Unit {0}) × Proposal
  commit_partial txs size p limit =
      let updated = add64 p.total_tx_bytes size in
      if ltb_ℤ limit size
      then (err lane_limit, p)
      else if ltb_ℤ p.max_tx_bytes updated
      then (err block_limit, p)
      else (
        ok tt,
        record p { total_tx_bytes = updated; txs = p.txs ++ txs; cache = add_hashes txs p.cache },
      )

  abbrev pub with_limit :
      (ℤ → Outcome (Unit {0}) × Proposal) → Proposal → Outcome ℤ → Outcome (Unit {0}) × Proposal
  with_limit k p (ok limit) = k limit
  with_limit k p (err e) = (err e, p)
  with_limit k p panic = (panic, p)

  -- UpdateProposal, for a lane with the block space `space`. The proposal is updated in place.
  unfoldable pub update_proposal :
      decimals.LegacyDec → List Bytes → Proposal → Outcome (Unit {0}) × Proposal
  update_proposal space [] p = (ok tt, p)
  update_proposal space (tx ∷ txs) p =
      with_limit (commit_partial (tx ∷ txs) (partial_size (pos 0) (tx ∷ txs)) p) p
        (get_max_tx_bytes_for_lane p.max_tx_bytes p.total_tx_bytes space)

  -- Contains
  unfoldable pub contains : Proposal → Bytes → Bool
  contains p tx = has_key (hash tx) p.cache
