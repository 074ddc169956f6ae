-- ===== src/PriorityNonce/Removal.antt =====
-- Insert, Remove and NextSenderTx of blockbuster/priority_nonce.go, one after another.
use pob.Prelude.{
  ℕ, ◌≡◌, refl, sym, ap, ◌∙◌, subst, false, String, Option, none, some, List, [], ◌∷◌, str_eq,
  eq_iff,
}
use pob.Prelude.Int.{pos, ltb_ℤ}
use pob.Prelude.Maps.{lookup, erase, lookup-update, lookup-erase}
use pob.Prelude.Outcome.{Outcome, ok, err, panic, tx_not_found}
use pob.Sdk.{Sdk, Tx, Signature, SkipListOps}
use pob.Sdk.Skip.{placed, without}
use pob.Lane.{Env}
use pob.PriorityNonce.Orders.{nonce-IsOrder}
use pob.PriorityNonce.Defs.{
  Comparables, PriorityNonceMempoolConfig, TxMeta, PriorityNonceMempool, nonce_compare,
  skiplist_comparable, insert, remove, key_of, or_new, remove_key, remove_signed, first_signature,
  same_score, next_sender_tx, front_value,
}
use pob.PriorityNonce.Put.{IsPut, put_tx, put-score, put-index, index_in, insert-IsPut, same_nonce}

module _ (sdk : Sdk) {C : Type 0} (cs : Comparables C) (cfg : PriorityNonceMempoolConfig sdk C)
    (by_priority : SkipListOps Tx (skiplist_comparable cfg.tx_priority.compare cs))
    (by_nonce : SkipListOps Tx (nonce_compare cs)) where
  abbrev Mempool : Type 0
  Mempool = PriorityNonceMempool sdk cs cfg by_priority by_nonce

  abbrev remove_tx : Tx → Mempool → Outcome (Unit {0}) × Mempool
  remove_tx = remove sdk cs cfg by_priority by_nonce

  abbrev tk_of : String → ℕ → C → TxMeta C
  tk_of sender nonce priority = key_of sdk cs cfg by_priority by_nonce sender nonce priority cs.zero

  remove_signature :
      (tx : Tx) (sig : Signature) (sigs : List Signature) (mp : Mempool)
      → tx.signatures ≡ ok (sig ∷ sigs)
      → remove_tx tx mp ≡ remove_signed sdk cs cfg by_priority by_nonce sig mp
  unfolding remove first_signature
  remove_signature tx sig sigs mp e = rw e refl

  remove_signed-some :
      (sig : Signature) (mp : Mempool) (score : TxMeta C)
      → lookup same_score (sdk.acc_string sig.address, sig.sequence) mp.scores ≡ some score
      → remove_signed sdk cs cfg by_priority by_nonce sig mp
        ≡ remove_key sdk cs cfg by_priority by_nonce
            (sdk.acc_string sig.address)
            sig.sequence
            score
            mp
  unfolding remove_signed
  remove_signed-some sig mp score e = rw (e, remove_signed) refl

  remove_signed-none :
      (sig : Signature) (mp : Mempool)
      → lookup same_score (sdk.acc_string sig.address, sig.sequence) mp.scores ≡ none
      → (remove_signed sdk cs cfg by_priority by_nonce sig mp).0 ≡ err tx_not_found
  unfolding remove_signed
  remove_signed-none sig mp e = rw (e, remove_signed) refl

  -- What Remove leaves of the indices and of the scores.
  pub record IsRemoved (sender : String) (nonce : ℕ) (index : by_nonce.SkipList) (score : TxMeta C)
      (mp : Mempool) (r : Outcome (Unit {0}) × Mempool) : Type 0 where
    pub answers : r.0 ≡ ok tt
    pub leaves_scores : r.1.scores ≡ erase same_score (sender, nonce) mp.scores
    pub leaves_index :
        lookup str_eq sender r.1.sender_indices
        ≡ some (
            by_nonce.remove
              (key_of sdk cs cfg by_priority by_nonce sender nonce score.priority score.weight)
              index)

  remove_key-IsRemoved :
      (sender : String) (nonce : ℕ) (index : by_nonce.SkipList) (score : TxMeta C) (mp : Mempool)
      → lookup str_eq sender mp.sender_indices ≡ some index
      → IsRemoved sender nonce index score mp
          (remove_key sdk cs cfg by_priority by_nonce sender nonce score mp)
  unfolding remove_key
  remove_key-IsRemoved sender nonce index score mp e = record {
    answers = rw (e, remove_key) refl;
    leaves_scores = rw (e, remove_key) refl;
    leaves_index =
        rw (e, remove_key)
          (lookup-update str_eq sender _ mp.sender_indices ((eq_iff sender sender).1 refl));
  }

  -- Behind `put`, Remove finds the transaction; `before` is the mempool that it was put into.
  put-IsRemoved :
      (tx : Tx) (sig : Signature) (sigs : List Signature) (priority : C) (before mp : Mempool)
      → tx.signatures ≡ ok (sig ∷ sigs)
      → put_tx sdk cs cfg by_priority by_nonce
          (sdk.acc_string sig.address)
          sig.sequence
          priority
          tx
          before
        ≡ mp
      → IsRemoved
          (sdk.acc_string sig.address)
          sig.sequence
          (by_nonce.set
            (tk_of (sdk.acc_string sig.address) sig.sequence priority)
            tx
            (index_in sdk cs cfg by_priority by_nonce (sdk.acc_string sig.address) before))
          (tk_of "" 0 priority)
          mp
          (remove_tx tx mp)
  put-IsRemoved tx sig sigs priority before mp signed is_put =
      subst (IsRemoved sender sig.sequence index (tk_of "" 0 priority) mp)
        (sym (
          remove_signature tx sig sigs mp signed
          ∙ remove_signed-some sig mp (tk_of "" 0 priority) (
              subst
                (λ (m : Mempool).
                  lookup same_score (sender, sig.sequence) m.scores ≡ some (tk_of "" 0 priority))
                is_put
                (put-score sdk cs cfg by_priority by_nonce sender sig.sequence priority tx
                  before))))
        (remove_key-IsRemoved sender sig.sequence index (tk_of "" 0 priority) mp (
          subst (λ (m : Mempool). lookup str_eq sender m.sender_indices ≡ some index) is_put
            (put-index sdk cs cfg by_priority by_nonce sender sig.sequence priority tx before)))
    where
      sender : String
      sender = sdk.acc_string sig.address

      index : by_nonce.SkipList
      index =
          by_nonce.set (tk_of sender sig.sequence priority) tx
            (index_in sdk cs cfg by_priority by_nonce sender before)

  module _ (ctx : Env sdk) (tx : Tx) (sig : Signature) (sigs : List Signature) (priority : C)
      (mp mp' : Mempool) (enabled : ltb_ℤ cfg.max_tx (pos 0) ≡ false)
      (signed : tx.signatures ≡ ok (sig ∷ sigs))
      (has_priority : cfg.tx_priority.get_tx_priority ctx tx ≡ ok priority)
      (inserted : insert sdk cs cfg by_priority by_nonce ctx tx mp ≡ (ok tt, mp')) where
    put_in :
        IsPut sdk cs cfg by_priority by_nonce
          (sdk.acc_string sig.address)
          sig.sequence
          priority
          tx
          mp
          mp'
    put_in =
        insert-IsPut sdk cs cfg by_priority by_nonce ctx tx sig sigs priority mp mp' enabled signed
          has_priority inserted

    taken_out :
        IsRemoved
          (sdk.acc_string sig.address)
          sig.sequence
          (by_nonce.set
            (tk_of (sdk.acc_string sig.address) sig.sequence priority)
            tx
            (index_in sdk cs cfg by_priority by_nonce (sdk.acc_string sig.address) put_in.before))
          (tk_of "" 0 priority)
          mp'
          (remove_tx tx mp')
    taken_out = put-IsRemoved tx sig sigs priority put_in.before mp' signed put_in.is_put

    -- A signed transaction that Insert took, in a mempool that is not disabled by a negative capacity, can be removed exactly
    -- once: Remove succeeds, and behind it another Remove does not find it.
    pub insert-remove :
        ((remove_tx tx mp').0 ≡ ok tt) × ((remove_tx tx (remove_tx tx mp').1).0 ≡ err tx_not_found)
    insert-remove = (
      taken_out.answers,
      ap (λ r. r.0) (remove_signature tx sig sigs (remove_tx tx mp').1 signed)
          ∙ remove_signed-none sig (remove_tx tx mp').1 (
              ap (lookup same_score (sdk.acc_string sig.address, sig.sequence))
                taken_out.leaves_scores
              ∙ lookup-erase same_score (sdk.acc_string sig.address, sig.sequence) mp'.scores),
    )

    abbrev next_tx : Mempool → Outcome (Option Tx)
    next_tx = next_sender_tx sdk cs cfg by_priority by_nonce (sdk.acc_string sig.address)

    next_of :
        (m : Mempool) (index : by_nonce.SkipList)
        → lookup str_eq (sdk.acc_string sig.address) m.sender_indices ≡ some index
        → next_tx m ≡ front_value sdk cs cfg by_priority by_nonce (by_nonce.elements index)
    unfolding next_sender_tx
    next_of m index e = rw (e, next_sender_tx) refl

    abbrev own_key : TxMeta C
    own_key = tk_of (sdk.acc_string sig.address) sig.sequence priority

    abbrev own : by_nonce.SkipList
    own =
        by_nonce.set own_key tx
          (index_in sdk cs cfg by_priority by_nonce (sdk.acc_string sig.address) put_in.before)

    has_own : lookup str_eq (sdk.acc_string sig.address) mp'.sender_indices ≡ some own
    has_own =
        subst
          (λ (m : Mempool). lookup str_eq (sdk.acc_string sig.address) m.sender_indices ≡ some own)
          put_in.is_put
          (put-index sdk cs cfg by_priority by_nonce (sdk.acc_string sig.address) sig.sequence
            priority tx put_in.before)

    alone :
        lookup str_eq (sdk.acc_string sig.address) mp.sender_indices ≡ none
        → by_nonce.elements own ≡ (own_key, tx) ∷ []
    unfolding placed
    alone fresh =
        by_nonce.elements-set (nonce-IsOrder cs) own_key tx
          (index_in sdk cs cfg by_priority by_nonce (sdk.acc_string sig.address) put_in.before)
        ∙ ap (placed (nonce_compare cs) own_key tx) (
            ap by_nonce.elements
              (put_in.same_index ∙ ap (or_new sdk cs cfg by_priority by_nonce) fresh)
            ∙ by_nonce.elements-new)

    none_left :
        lookup str_eq (sdk.acc_string sig.address) mp.sender_indices ≡ none
        → by_nonce.elements (by_nonce.remove own_key own) ≡ []
    unfolding without
    none_left fresh =
        by_nonce.elements-remove (nonce-IsOrder cs) own_key own
        ∙ ap (without (nonce_compare cs) own_key) (alone fresh)
        ∙ rw (same_nonce sdk cs cfg by_priority by_nonce own_key own_key refl, without) refl

    -- NextSenderTx returns the first transaction of a sender behind its Insert, and panics behind its Remove, where the
    -- sender's index is left empty.
    pub next_sender_tx_emptied :
        lookup str_eq (sdk.acc_string sig.address) mp.sender_indices ≡ none
        → (next_tx mp' ≡ ok (some tx)) × (next_tx (remove_tx tx mp').1 ≡ panic)
    unfolding front_value
    next_sender_tx_emptied fresh = (
      next_of mp' own has_own ∙ rw (alone fresh) refl,
      next_of (remove_tx tx mp').1 (by_nonce.remove own_key own) taken_out.leaves_index
          ∙ rw (none_left fresh) refl,
    )
