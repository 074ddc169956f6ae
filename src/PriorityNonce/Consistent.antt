-- ===== src/PriorityNonce/Consistent.antt =====
-- The invariant of the mempool of blockbuster/priority_nonce.go: its indices and its scores speak of the same transactions.
use pob.Prelude.{ℕ, ◌≡◌, refl, false, String, Option, none, some, List, All}
use pob.Prelude.Maps.{lookup}
use pob.Sdk.{Sdk, Tx, SkipListOps}
use pob.PriorityNonce.Defs.{
  Comparables, PriorityNonceMempoolConfig, TxMeta, PriorityNonceMempool, nonce_compare,
  skiplist_comparable, same_score, index_of, new_priority_mempool,
}
use pob.PriorityNonce.Ascending.{IsAscending, nonce_tx}
use pob.PriorityNonce.Distinct.{tx_at, IsDistinct}

-- A score of the element's identity has its priority and its weight.
pub record HasScore {C : Type 0} (scores : List ((String × ℕ) × TxMeta C)) (k : TxMeta C)
    : Type 0 where
  pub score : TxMeta C
  pub is_there : lookup same_score (k.sender, k.nonce) scores ≡ some score
  pub same_priority : score.priority ≡ k.priority
  pub same_weight : score.weight ≡ k.weight

module _ (sdk : Sdk) {C : Type 0} (cs : Comparables C) (cfg : PriorityNonceMempoolConfig sdk C)
    (by_priority : SkipListOps Tx (skiplist_comparable cfg.tx_priority.compare cs))
    (by_nonce : SkipListOps Tx (nonce_compare cs)) where
  abbrev pub Mempool : Type 0
  Mempool = PriorityNonceMempool sdk cs cfg by_priority by_nonce

  -- The transactions by priority, and those of a sender by nonce.
  abbrev pub nodes : Mempool → List (TxMeta C × Tx)
  nodes mp = by_priority.elements mp.priority_index

  abbrev pub own_txs : String → Mempool → List (TxMeta C × Tx)
  own_txs s mp = by_nonce.elements (index_of sdk cs cfg by_priority by_nonce s mp)

  -- The abstract view of a mempool: the transaction of a sender with a nonce.
  abbrev pub contents : Mempool → String → ℕ → Option Tx
  contents mp s n = tx_at s n (nodes mp)

  pub record IsConsistent (mp : Mempool) : Type 0 where
    pub ascending : (s : String) → IsAscending (own_txs s mp)
    pub distinct : IsDistinct (nodes mp)
    pub scored : All (λ e. HasScore mp.scores e.0) (nodes mp)
    pub same_txs : (s : String) (n : ℕ) → nonce_tx n (own_txs s mp) ≡ contents mp s n
    pub held :
        (s : String) (n : ℕ) (score : TxMeta C)
        → lookup same_score (s, n) mp.scores ≡ some score
        → (tx : Tx) × (contents mp s n ≡ some tx)

  -- As it is but for one identity, whose element by priority is gone.
  pub record IsOpen (s : String) (n : ℕ) (mp : Mempool) : Type 0 where
    pub ascending : (t : String) → IsAscending (own_txs t mp)
    pub distinct : IsDistinct (nodes mp)
    pub absent : contents mp s n ≡ none
    pub scored : All (λ e. HasScore mp.scores e.0) (nodes mp)
    pub same_txs :
        (t : String) (m : ℕ)
        → same_score (t, m) (s, n) ≡ false
        → nonce_tx m (own_txs t mp) ≡ contents mp t m
    pub held :
        (t : String) (m : ℕ) (score : TxMeta C)
        → same_score (t, m) (s, n) ≡ false
        → lookup same_score (t, m) mp.scores ≡ some score
        → (tx : Tx) × (contents mp t m ≡ some tx)

  pub new-IsConsistent : IsConsistent (new_priority_mempool sdk cs cfg by_priority by_nonce)
  unfolding new_priority_mempool lookup
  new-IsConsistent = record {
    ascending = λ s. rw (by_nonce.elements-new) tt;
    distinct = rw (by_priority.elements-new) tt;
    scored = rw (by_priority.elements-new) tt;
    same_txs = λ s n. rw (by_nonce.elements-new, by_priority.elements-new) refl;
    held = λ s n score e. absurd (cc e);
  }
