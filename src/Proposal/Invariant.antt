-- ===== src/Proposal/Invariant.antt =====
-- The well-formedness of a proposal: its size counter, its limit and its cache agree with its
-- transactions, and UpdateProposal keeps it so.
use pob.Prelude.{
  ℕ, ◌+◌, ◌^◌, ◌≤◌, ◌<◌, ◌≡◌, refl, sym, ap, ◌∙◌, Bool, true, ◌||◌, String, List, [], ◌∷◌, ◌++◌,
  arith, length, any, any-append, sum_by-append, Bool-cases, inl, inr, str_eq, eq_iff,
}
use pob.Prelude.Int.{ℤ, pos, ltb_ℤ, add64, add64-pos}
use pob.Sdk.{Sdk, Bytes}
use pob.Proposal.{Proposal, has_key, add_key, add_hashes, commit_partial, new_proposal}
use pob.Proposal.Arith.{bytes}

pub has_key-add_key :
    (h k : String) (s : List String) → has_key h (add_key k s) ≡ (str_eq h k || has_key h s)
unfolding add_key
has_key-add_key h k s = elim (Bool-cases (has_key k s)) [
  | inl old ↦ rw old (ground (arith, old, eq_iff h k, same))
  | inr new ↦ rw new (unfold has_key in refl)
]
  where
    same : h ≡ k → has_key k s ≡ true → has_key h s ≡ true
    same e o = rw e o

module _ (sdk : Sdk) where
  open sdk use {hash, decimals}

  -- Whether a list has a transaction with a given hash.
  abbrev pub any_hash : String → List Bytes → Bool
  any_hash h = any (λ tx. str_eq h (hash tx))

  pub record IsValid (max : ℕ) (p : Proposal) : Type 0 where
    pub limit : p.max_tx_bytes ≡ pos max
    pub counted : p.total_tx_bytes ≡ pos (bytes p.txs)
    pub bounded : bytes p.txs ≤ max
    pub cached : (h : String) → has_key h p.cache ≡ any_hash h p.txs

  pub new_proposal-IsValid : (max : ℕ) → IsValid max (new_proposal (pos max))
  unfolding new_proposal has_key
  new_proposal-IsValid max = record {
    limit = refl;
    counted = refl;
    bounded = omega arith;
    cached = λ h. refl;
  }

  pub has_key-add_hashes :
      (h : String) (txs : List Bytes) (cache : List String)
      → has_key h (add_hashes sdk txs cache) ≡ (has_key h cache || any_hash h txs)
  unfolding add_hashes
  has_key-add_hashes h [] cache = ground arith
  has_key-add_hashes h (tx ∷ txs) cache =
      ground (
        arith,
        has_key-add_hashes h txs (add_key (hash tx) cache),
        has_key-add_key h (hash tx) cache,
      )

  module _ (max : ℕ) (txs : List Bytes) (p : Proposal) (hm : max < 2 ^ 62) (ht : bytes txs < 2 ^ 62)
      (v : IsValid max p) where
    pub total-add64 : add64 p.total_tx_bytes (pos (bytes txs)) ≡ pos (bytes p.txs + bytes txs)
    total-add64 = ground (arith, v.counted, v.bounded, add64-pos (bytes p.txs) (bytes txs))

    committed-IsValid :
        bytes p.txs + bytes txs ≤ max
        → IsValid max (record p {
          total_tx_bytes = add64 p.total_tx_bytes (pos (bytes txs));
          txs = p.txs ++ txs;
          cache = add_hashes sdk txs p.cache;
        })
    committed-IsValid h = record {
      limit = v.limit;
      counted = total-add64 ∙ ap pos (sym (sum_by-append length p.txs txs));
      bounded = omega (arith, sum_by-append length p.txs txs);
      cached = λ k. ground (
        arith,
        has_key-add_hashes k txs p.cache,
        v.cached k,
        any-append (λ tx. str_eq k (hash tx)) p.txs txs,
      );
    }

    pub commit_partial-IsValid :
        (limit : ℤ) → IsValid max (commit_partial sdk txs (pos (bytes txs)) p limit).1
    unfolding commit_partial
    commit_partial-IsValid limit = elim (Bool-cases (ltb_ℤ limit (pos (bytes txs)))) [
      | inl big ↦ rw big v
      | inr fits ↦
          rw fits
            (elim (Bool-cases (ltb_ℤ p.max_tx_bytes (add64 p.total_tx_bytes (pos (bytes txs))))) [
              | inl big ↦ rw big v
              | inr small ↦
                  rw small (committed-IsValid (ground (arith, small, total-add64, v.limit)))
            ])
    ]
