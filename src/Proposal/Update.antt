-- ===== src/Proposal/Update.antt =====
-- UpdateProposal: when it accepts a partial proposal, and what it does to the proposal.
use mathlib.Core.List.{append-nil}
use pob.Prelude.{
  ℕ, ◌+◌, ◌^◌, ◌≤◌, ◌<◌, ◌≡◌, ◌↔◌, ◌⊎◌, refl, sym, ◌||◌, List, [], ◌∷◌, ◌++◌, arith, Bool-cases,
  inl, inr,
}
use pob.Prelude.Int.{ℤ, pos, ltb_ℤ, add64}
use pob.Prelude.Outcome.{Outcome, ok, err, panic}
use pob.Sdk.{Sdk, Bytes, precision}
use pob.Proposal.{
  Proposal, commit_partial, with_limit, update_proposal, get_max_tx_bytes_for_lane, contains,
}
use pob.Proposal.Arith.{bytes, partial_size-zero, lane_bound, get_max_tx_bytes_for_lane-eq}
use pob.Proposal.Invariant.{
  IsValid, any_hash, has_key-add_hashes, commit_partial-IsValid, total-add64,
}

module _ (sdk : Sdk) where
  open sdk use {hash, decimals}

  with_limit-IsValid :
      (max : ℕ) (k : ℤ → Outcome (Unit {0}) × Proposal) (p : Proposal)
      → ((l : ℤ) → IsValid sdk max (k l).1)
      → IsValid sdk max p
      → (r : Outcome ℤ) → IsValid sdk max (with_limit sdk k p r).1
  with_limit-IsValid max k p hk hp (ok l) = hk l
  with_limit-IsValid max k p hk hp (err e) = hp
  with_limit-IsValid max k p hk hp panic = hp

  -- From a well-formed proposal, whatever a lane hands over (its bytes and the block limit below 2^62) and
  -- whether or not it is accepted, UpdateProposal leaves a well-formed proposal: the counter is the
  -- size of the transactions, at most the limit, and the cache holds exactly their hashes.
  pub update_proposal-IsValid :
      (max : ℕ) (space : decimals.LegacyDec) (txs : List Bytes) (p : Proposal)
      → max < 2 ^ 62
      → bytes txs < 2 ^ 62
      → IsValid sdk max p
      → IsValid sdk max (update_proposal sdk space txs p).1
  unfolding update_proposal
  update_proposal-IsValid max space [] p hm ht v = v
  update_proposal-IsValid max space (tx ∷ txs) p hm ht v =
      with_limit-IsValid max _ p
        (λ l.
          rw (partial_size-zero (tx ∷ txs) (omega arith))
            (commit_partial-IsValid sdk max (tx ∷ txs) p hm ht v l))
        v (get_max_tx_bytes_for_lane sdk p.max_tx_bytes p.total_tx_bytes space)

  -- What a call of UpdateProposal may do to the proposal: add all, or nothing.
  abbrev pub AllOrNothing : List Bytes → Proposal → Outcome (Unit {0}) × Proposal → Type 0
  AllOrNothing txs p (ok _, q) =
      (q.txs ≡ p.txs ++ txs)
      × (q.vote_extensions ≡ p.vote_extensions)
      × (q.max_tx_bytes ≡ p.max_tx_bytes)
      × ((tx : Bytes) → contains sdk q tx ≡ (contains sdk p tx || any_hash sdk (hash tx) txs))
  AllOrNothing txs p (err _, q) = q ≡ p
  AllOrNothing txs p (panic, q) = q ≡ p

  commit_partial-AllOrNothing :
      (txs : List Bytes) (size : ℤ) (p : Proposal) (limit : ℤ)
      → AllOrNothing txs p (commit_partial sdk txs size p limit)
  unfolding commit_partial
  commit_partial-AllOrNothing txs size p limit = elim (Bool-cases (ltb_ℤ limit size)) [
    | inl big ↦ rw big refl
    | inr fits ↦ rw fits (elim (Bool-cases (ltb_ℤ p.max_tx_bytes (add64 p.total_tx_bytes size))) [
      | inl big ↦ rw big refl
      | inr small ↦
          rw small (
            refl,
            refl,
            refl,
            λ tx. unfold contains in has_key-add_hashes sdk (hash tx) txs p.cache,
          )
    ])
  ]

  with_limit-AllOrNothing :
      (txs : List Bytes) (size : ℤ) (p : Proposal) (r : Outcome ℤ)
      → AllOrNothing txs p (with_limit sdk (commit_partial sdk txs size p) p r)
  with_limit-AllOrNothing txs size p (ok l) = commit_partial-AllOrNothing txs size p l
  with_limit-AllOrNothing txs size p (err e) = refl
  with_limit-AllOrNothing txs size p panic = refl

  -- UpdateProposal is all or nothing. If it returns no error, the transactions stand behind the old ones, and
  -- Contains finds exactly what it found before and the new ones; the vote extensions and the limit stay.
  -- If it returns an error or panics, the proposal is as it was.
  pub update_proposal-AllOrNothing :
      (space : decimals.LegacyDec) (txs : List Bytes) (p : Proposal)
      → AllOrNothing txs p (update_proposal sdk space txs p)
  unfolding update_proposal
  update_proposal-AllOrNothing space [] p = (sym (append-nil p.txs), refl, refl, λ tx. ground arith)
  update_proposal-AllOrNothing space (tx ∷ txs) p =
      with_limit-AllOrNothing (tx ∷ txs) _ p
        (get_max_tx_bytes_for_lane sdk p.max_tx_bytes p.total_tx_bytes space)

  commit_partial-ok_iff :
      (max l : ℕ) (txs : List Bytes) (p : Proposal)
      → max < 2 ^ 62
      → bytes txs < 2 ^ 62
      → IsValid sdk max p
      → ((commit_partial sdk txs (pos (bytes txs)) p (pos l)).0 ≡ ok tt)
        ↔ ((bytes txs ≤ l) × (bytes p.txs + bytes txs ≤ max))
  unfolding commit_partial
  commit_partial-ok_iff max l txs p hm ht v =
      ground (arith, total-add64 sdk max txs p hm ht v, v.limit)

  -- UpdateProposal of a well-formed proposal returns no error exactly if there is nothing to add, or what
  -- there is fits both the lane's bound and the block; the share of the lane is at most the block.
  pub update_proposal-ok_iff :
      (max share : ℕ) (space : decimals.LegacyDec) (txs : List Bytes) (p : Proposal)
      → max < 2 ^ 62
      → bytes txs < 2 ^ 62
      → decimals.scaled space ≡ pos share
      → share ≤ precision
      → IsValid sdk max p
      → ((update_proposal sdk space txs p).0 ≡ ok tt) ↔ (
          (txs ≡ [])
          ⊎ ((bytes txs ≤ lane_bound share max (bytes p.txs)) × (bytes p.txs + bytes txs ≤ max)))
  unfolding update_proposal
  update_proposal-ok_iff max share space [] p hm ht hs hp v = (λ _. inl refl, λ _. refl)
  update_proposal-ok_iff max share space (tx ∷ txs) p hm ht hs hp v =
      rw (limit, partial_size-zero (tx ∷ txs) (omega arith))
        (λ h. inr (c.0 h), λ h. c.1 (elim h [ inl e ↦ absurd (cc) | inr r ↦ r ]))
    where
      limit :
          get_max_tx_bytes_for_lane sdk p.max_tx_bytes p.total_tx_bytes space
          ≡ ok (pos (lane_bound share max (bytes p.txs)))
      limit =
          rw (v.limit, v.counted)
            (get_max_tx_bytes_for_lane-eq sdk max (bytes p.txs) share space (omega arith)
              (omega arith) hs hp)

      c :
          ((commit_partial sdk
              (tx ∷ txs)
              (pos (bytes (tx ∷ txs)))
              p
              (pos (lane_bound share max (bytes p.txs)))).0
            ≡ ok tt)
          ↔ ((bytes (tx ∷ txs) ≤ lane_bound share max (bytes p.txs))
              × (bytes p.txs + bytes (tx ∷ txs) ≤ max))
      c = commit_partial-ok_iff max (lane_bound share max (bytes p.txs)) (tx ∷ txs) p hm ht v
