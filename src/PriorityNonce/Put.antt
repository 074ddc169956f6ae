-- ===== src/PriorityNonce/Put.antt =====
-- What Insert of blockbuster/priority_nonce.go puts into the indices and the scores.
use pob.Prelude.{
  ℕ, ◌≡◌, refl, sym, ap, ◌∙◌, true, false, ◌&&◌, ==_iff, String, some, List, ◌∷◌, Bool-cases,
  Option-cases, inl, inr, str_eq, eq_iff,
}
use pob.Prelude.Int.{pos, ltb_ℤ, leb_ℤ}
use pob.Prelude.Maps.{lookup, update, lookup-update}
use pob.Prelude.Outcome.{ok, Outcome-cases}
use pob.Sdk.{Sdk, Tx, Signature, SkipListOps}
use pob.Sdk.Skip.{same_key}
use pob.Lane.{Env}
use pob.PriorityNonce.Defs.{
  Comparables, PriorityNonceMempoolConfig, TxMeta, PriorityNonceMempool, nonce_compare,
  skiplist_comparable, count_tx, put, drop_old, insert_key, insert, signed_key, check_replacement,
  key_of, index_of, or_new, with_index, first_signature, same_score,
}

same_score_refl : (k : String × ℕ) → same_score k k ≡ true
same_score_refl (s, n) = rw ((eq_iff s s).1 refl, (==_iff n n).1 refl) refl

module _ (sdk : Sdk) {C : Type 0} (cs : Comparables C) (cfg : PriorityNonceMempoolConfig sdk C)
    (by_priority : SkipListOps Tx (skiplist_comparable cfg.tx_priority.compare cs))
    (by_nonce : SkipListOps Tx (nonce_compare cs)) where
  abbrev pub Mempool : Type 0
  Mempool = PriorityNonceMempool sdk cs cfg by_priority by_nonce

  pub same_nonce : (a b : TxMeta C) → a.nonce ≡ b.nonce → same_key (nonce_compare cs) a b ≡ true
  same_nonce a b e = rw ((cs.compare_uint64_iff b.nonce a.nonce).1 (sym e)) refl

  abbrev pub put_tx : String → ℕ → C → Tx → Mempool → Mempool
  put_tx = put sdk cs cfg by_priority by_nonce

  -- Behind `put` the transaction has a score and its sender an index.
  pub put-score :
      (sender : String) (nonce : ℕ) (priority : C) (tx : Tx) (mp : Mempool)
      → lookup same_score (sender, nonce) (put_tx sender nonce priority tx mp).scores
        ≡ some (key_of sdk cs cfg by_priority by_nonce "" 0 priority cs.zero)
  unfolding put
  put-score sender nonce priority tx mp =
      lookup-update same_score (sender, nonce) _ mp.scores (same_score_refl (sender, nonce))

  pub put-index :
      (sender : String) (nonce : ℕ) (priority : C) (tx : Tx) (mp : Mempool)
      → lookup str_eq sender (put_tx sender nonce priority tx mp).sender_indices
        ≡ some (
            by_nonce.set
              (key_of sdk cs cfg by_priority by_nonce sender nonce priority cs.zero)
              tx
              (index_of sdk cs cfg by_priority by_nonce sender mp))
  unfolding put
  put-index sender nonce priority tx mp =
      lookup-update str_eq sender _ mp.sender_indices ((eq_iff sender sender).1 refl)

  abbrev pub index_in : String → Mempool → by_nonce.SkipList
  index_in = index_of sdk cs cfg by_priority by_nonce

  abbrev indexed : String → Mempool → Mempool
  indexed sender mp = with_index sdk cs cfg by_priority by_nonce sender (index_in sender mp) mp

  index_in-eq :
      (sender : String) (i : by_nonce.SkipList) (mp mp' : Mempool)
      → mp.sender_indices ≡ update str_eq sender i mp'.sender_indices
      → index_in sender mp ≡ i
  index_in-eq sender i mp mp' e = ap (or_new sdk cs cfg by_priority by_nonce) (
      ap (lookup str_eq sender) e
      ∙ lookup-update str_eq sender i mp'.sender_indices ((eq_iff sender sender).1 refl))

  -- What Insert answers with, once the key is known.
  pub record IsPut (sender : String) (nonce : ℕ) (priority : C) (tx : Tx) (mp mp' : Mempool)
      : Type 0 where
    pub before : Mempool
    pub is_put : put_tx sender nonce priority tx before ≡ mp'
    pub same_index : index_in sender before ≡ index_in sender mp

  insert_key-IsPut :
      (sender : String) (nonce : ℕ) (priority : C) (tx : Tx) (mp mp' : Mempool)
      → insert_key sdk cs cfg by_priority by_nonce sender nonce priority tx mp ≡ (ok tt, mp')
      → IsPut sender nonce priority tx mp mp'
  unfolding insert_key drop_old
  insert_key-IsPut sender nonce priority tx mp mp' h =
      elim (Option-cases (lookup same_score (sender, nonce) mp.scores)) [
        | inl e ↦ record {
          before = indexed sender mp;
          is_put = ap (λ r. r.1) (rw (e, insert_key) at h);
          same_index = index_in-eq sender (index_in sender mp) (indexed sender mp) mp refl;
        }
        | inr (old, e) ↦ replaced old e
      ]
    where
      replaced :
          (old : TxMeta C)
          → lookup same_score (sender, nonce) mp.scores ≡ some old
          → IsPut sender nonce priority tx mp mp'
      replaced old e =
          elim (Outcome-cases (
            check_replacement sdk cs cfg by_priority by_nonce old.priority priority
              (by_nonce.get (key_of sdk cs cfg by_priority by_nonce sender nonce priority cs.zero)
                (index_in sender mp))
              tx)) [
                | inl (u, c) ↦ record {
                  before =
                      drop_old sdk cs cfg by_priority by_nonce sender nonce old (indexed sender mp);
                  is_put = ap (λ r. r.1) (rw (e, insert_key, c) at h);
                  same_index =
                      index_in-eq sender (index_in sender mp)
                        (drop_old sdk cs cfg by_priority by_nonce sender nonce old
                          (indexed sender mp))
                        mp refl;
                }
                | inr (inl (x, c)) ↦ absurd (cc (ap (λ r. r.0) (rw (e, insert_key, c) at h)))
                | inr (inr c) ↦ absurd (cc (ap (λ r. r.0) (rw (e, insert_key, c) at h)))
              ]

  module _ (ctx : Env sdk) (tx : Tx) (sig : Signature) (sigs : List Signature) (priority : C)
      (mp mp' : Mempool) (enabled : ltb_ℤ cfg.max_tx (pos 0) ≡ false)
      (signed : tx.signatures ≡ ok (sig ∷ sigs))
      (has_priority : cfg.tx_priority.get_tx_priority ctx tx ≡ ok priority)
      (inserted : insert sdk cs cfg by_priority by_nonce ctx tx mp ≡ (ok tt, mp')) where
    known_key :
        signed_key sdk cs cfg by_priority by_nonce ctx tx
        ≡ ok (sdk.acc_string sig.address, sig.sequence, priority)
    unfolding signed_key first_signature
    known_key = rw (has_priority, signed) refl

    pub insert-IsPut : IsPut (sdk.acc_string sig.address) sig.sequence priority tx mp mp'
    unfolding insert
    insert-IsPut =
        elim (Bool-cases (
          ltb_ℤ (pos 0) cfg.max_tx
          && leb_ℤ cfg.max_tx (pos (count_tx sdk cs cfg by_priority by_nonce mp)))) [
            | inl full ↦ absurd (cc (ap (λ r. r.0) (rw full at inserted)))
            | inr room ↦
                insert_key-IsPut (sdk.acc_string sig.address) sig.sequence priority tx mp mp'
                  (rw (room, insert, enabled, known_key) at inserted)
          ]
