-- ===== src/PriorityNonce/Refined.antt =====
-- Insert of blockbuster/priority_nonce.go, as an operation on the transactions of a mempool by
-- sender and nonce.
use pob.Prelude.{
  ℕ, ◌≡◌, ◌⊎◌, refl, ◌∙◌, Bool, true, false, ◌&&◌, String, Option, none, some, List, ◌∷◌,
  Bool-cases, Option-cases, inl, inr, if◌then◌else◌,
}
use pob.Prelude.Int.{pos, ltb_ℤ, leb_ℤ}
use pob.Prelude.Maps.{lookup}
use pob.Prelude.Outcome.{Outcome, ok, err, max_capacity, replacement_rule, Outcome-cases}
use pob.Sdk.{Sdk, Tx, Signature, SkipListOps}
use pob.Lane.{Env}
use pob.Sdk.Skip.{IsOrder}
use pob.PriorityNonce.Orders.{nonce-IsOrder}
use pob.PriorityNonce.Defs.{
  Comparables, PriorityNonceMempoolConfig, TxMeta, nonce_compare, skiplist_comparable, same_score,
  index_of, with_index, key_of, put, drop_old, check_replacement, insert_key, insert, signed_key,
  first_signature, count_tx,
}
use pob.PriorityNonce.Ascending.{found-nonce}
use pob.PriorityNonce.Consistent.{Mempool, own_txs, contents, IsConsistent}
use pob.PriorityNonce.Opened.{indexed-IsConsistent, unscored-IsOpen, drop_old-IsOpen, contents-drop}
use pob.PriorityNonce.Kept.{put-IsConsistent, contents-put}

-- Setting what was taken out is setting it.
overwritten {ℓ} :
    {A : Type ℓ} (b : Bool) (v x y : Option A)
    → x ≡ (if b then none else y)
    → (if b then v else x) ≡ (if b then v else y)
overwritten true v x y e = refl
overwritten false v x y e = e

-- The transactions with one of them set, or taken out.
abbrev pub with_tx : (String → ℕ → Option Tx) → String → ℕ → Option Tx → String → ℕ → Option Tx
with_tx txs s n tx t m = if same_score (t, m) (s, n) then tx else txs t m

module _ (sdk : Sdk) {C : Type 0} (cs : Comparables C) (cfg : PriorityNonceMempoolConfig sdk C)
    (by_priority : SkipListOps Tx (skiplist_comparable cfg.tx_priority.compare cs))
    (by_nonce : SkipListOps Tx (nonce_compare cs)) where
  abbrev M : Type 0
  M = Mempool sdk cs cfg by_priority by_nonce

  abbrev Result : Type 0
  Result = Outcome (Unit {0}) × M

  abbrev txs_of : M → String → ℕ → Option Tx
  txs_of = contents sdk cs cfg by_priority by_nonce

  abbrev IsSound : M → Type 0
  IsSound = IsConsistent sdk cs cfg by_priority by_nonce

  abbrev pub IsUnchanged : M → M → Type 0
  IsUnchanged mp mp' = (t : String) (m : ℕ) → txs_of mp' t m ≡ txs_of mp t m

  -- Either the transaction is set, or an error leaves all as they are.
  abbrev pub IsInserted : String → ℕ → Tx → M → Result → Type 0
  IsInserted s n tx mp r =
      ((r.0 ≡ ok tt)
        × ((t : String) (m : ℕ) → txs_of r.1 t m ≡ with_tx (txs_of mp) s n (some tx) t m))
      ⊎ (((r.0 ≡ err max_capacity) ⊎ (r.0 ≡ err replacement_rule)) × IsUnchanged mp r.1)

  module _ (ordered : IsOrder cfg.tx_priority.compare) where
    module _ (s : String) (n : ℕ) (priority : C) (tx : Tx) (mp : M) (sound : IsSound mp) where
      abbrev indexed : M
      indexed =
          with_index sdk cs cfg by_priority by_nonce s
            (index_of sdk cs cfg by_priority by_nonce s mp) mp

      abbrev key : TxMeta C
      key = key_of sdk cs cfg by_priority by_nonce s n priority cs.zero

      abbrev outcome : Result
      outcome = insert_key sdk cs cfg by_priority by_nonce s n priority tx mp

      indexed-IsSound : IsSound indexed
      indexed-IsSound = indexed-IsConsistent sdk cs cfg by_priority by_nonce s mp sound

      abbrev Good : Result → Type 0
      Good r = IsSound r.1 × IsInserted s n tx mp r

      new_key : lookup same_score (s, n) mp.scores ≡ none → Good outcome
      unfolding insert_key
      new_key e =
          let opened =
            unscored-IsOpen sdk cs cfg by_priority by_nonce s n indexed indexed-IsSound e in
          rw (e, insert_key)
            (
              put-IsConsistent sdk cs cfg by_priority by_nonce ordered s n priority tx indexed
                  opened,
              inl (
                refl,
                contents-put sdk cs cfg by_priority by_nonce ordered s n priority tx indexed opened,
              ),
            )

      -- The element of the sender's index that the replacement rule is asked about is there.
      stored :
          (tx' : Tx)
          → txs_of mp s n ≡ some tx'
          → by_nonce.get key (index_of sdk cs cfg by_priority by_nonce s mp) ≡ some tx'
      stored tx' h =
          by_nonce.get_lem (nonce-IsOrder cs) key (index_of sdk cs cfg by_priority by_nonce s mp)
          ∙ found-nonce cs key (own_txs sdk cs cfg by_priority by_nonce s mp)
          ∙ sound.same_txs s n
          ∙ h

      abbrev check : TxMeta C → Outcome (Unit {0})
      check old =
          check_replacement sdk cs cfg by_priority by_nonce old.priority priority
            (by_nonce.get key (index_of sdk cs cfg by_priority by_nonce s mp)) tx

      check-cases :
          (old : TxMeta C)
          → lookup same_score (s, n) mp.scores ≡ some old
          → (check old ≡ ok tt) ⊎ (check old ≡ err replacement_rule)
      unfolding check_replacement
      check-cases old e =
          let (tx', h) = sound.held s n old e in
          elim (Option-cases cfg.tx_replacement) [
            | inl f ↦ inl (rw (f, check_replacement) refl)
            | inr (rule, f) ↦ elim (Bool-cases (rule old.priority priority tx' tx)) [
              | inl y ↦ inl (rw (f, check_replacement, stored tx' h, y) refl)
              | inr o ↦ inr (rw (f, check_replacement, stored tx' h, o) refl)
            ]
          ]

      dropped_put :
          (old : TxMeta C)
          → lookup same_score (s, n) mp.scores ≡ some old
          → Good (
            ok tt,
            put sdk cs cfg by_priority by_nonce s n priority tx
                (drop_old sdk cs cfg by_priority by_nonce s n old indexed),
          )
      unfolding drop_old
      dropped_put old e =
          let opened =
            drop_old-IsOpen sdk cs cfg by_priority by_nonce ordered s n old indexed indexed-IsSound
              e in
          (
            put-IsConsistent sdk cs cfg by_priority by_nonce ordered s n priority tx _ opened,
            inl (
              refl,
              λ t m.
                  contents-put sdk cs cfg by_priority by_nonce ordered s n priority tx _ opened t m
                  ∙ overwritten (same_score (t, m) (s, n)) (some tx) _ (txs_of mp t m) (
                      contents-drop sdk cs cfg by_priority by_nonce ordered s n old indexed
                        indexed-IsSound e t m),
            ),
          )

      old_key : (old : TxMeta C) → lookup same_score (s, n) mp.scores ≡ some old → Good outcome
      unfolding insert_key
      old_key old e = elim (check-cases old e) [
        | inl f ↦ rw (e, insert_key, f) (dropped_put old e)
        | inr f ↦ rw (e, insert_key, f) (indexed-IsSound, inr (inr refl, λ t m. refl))
      ]

      insert_key_lem : Good outcome
      insert_key_lem = elim (Option-cases (lookup same_score (s, n) mp.scores)) [
        | inl e ↦ new_key e
        | inr (old, e) ↦ old_key old e
      ]

    -- Whatever Insert answers with, it keeps the indices and the scores consistent.
    pub insert-IsConsistent :
        (ctx : Env sdk) (tx : Tx) (mp : M)
        → IsSound mp
        → IsSound (insert sdk cs cfg by_priority by_nonce ctx tx mp).1
    unfolding insert
    insert-IsConsistent ctx tx mp sound =
        elim (Bool-cases (
          ltb_ℤ (pos 0) cfg.max_tx
          && leb_ℤ cfg.max_tx (pos (count_tx sdk cs cfg by_priority by_nonce mp)))) [
            | inl full ↦ rw full sound
            | inr room ↦ elim (Bool-cases (ltb_ℤ cfg.max_tx (pos 0))) [
              | inl off ↦ rw (room, insert, off) sound
              | inr on ↦ elim (Outcome-cases (signed_key sdk cs cfg by_priority by_nonce ctx tx)) [
                | inl ((s, n, priority), e) ↦
                    rw (room, insert, on, e) ((insert_key_lem s n priority tx mp sound).0)
                | inr (inl (x, e)) ↦ rw (room, insert, on, e) sound
                | inr (inr e) ↦ rw (room, insert, on, e) sound
              ]
            ]
          ]

    known_key :
        (ctx : Env sdk) (tx : Tx) (sig : Signature) (sigs : List Signature) (priority : C)
        → tx.signatures ≡ ok (sig ∷ sigs)
        → cfg.tx_priority.get_tx_priority ctx tx ≡ ok priority
        → signed_key sdk cs cfg by_priority by_nonce ctx tx
          ≡ ok (sdk.acc_string sig.address, sig.sequence, priority)
    unfolding signed_key first_signature
    known_key ctx tx sig sigs priority signed has_priority = rw (has_priority, signed) refl

    -- Insert of a signed transaction with a priority, into a consistent mempool that is not disabled and where the
    -- comparison of priorities is an order: either it succeeds, and the transactions by sender and nonce are those
    -- before with this one at its first signature's, or it answers that the mempool is full or that the replacement
    -- rule refuses, and they are those before.
    pub insert-IsInserted :
        (ctx : Env sdk) (tx : Tx) (sig : Signature) (sigs : List Signature) (priority : C) (mp : M)
        → ltb_ℤ cfg.max_tx (pos 0) ≡ false
        → tx.signatures ≡ ok (sig ∷ sigs)
        → cfg.tx_priority.get_tx_priority ctx tx ≡ ok priority
        → IsSound mp
        → IsInserted
            (sdk.acc_string sig.address)
            sig.sequence
            tx
            mp
            (insert sdk cs cfg by_priority by_nonce ctx tx mp)
    unfolding insert
    insert-IsInserted ctx tx sig sigs priority mp enabled signed has_priority sound =
        elim (Bool-cases (
          ltb_ℤ (pos 0) cfg.max_tx
          && leb_ℤ cfg.max_tx (pos (count_tx sdk cs cfg by_priority by_nonce mp)))) [
            | inl full ↦ rw full (inr (inl refl, λ t m. refl))
            | inr room ↦
                rw (room, insert, enabled, known_key ctx tx sig sigs priority signed has_priority)
                  ((insert_key_lem (sdk.acc_string sig.address) sig.sequence priority tx mp
                    sound).1)
          ]
