-- ===== src/PriorityNonce/Removed.antt =====
-- Remove and NextSenderTx of blockbuster/priority_nonce.go, as operations on the transactions of a mempool by sender and
-- nonce.
use pob.Prelude.{
  ℕ, ◌<◌, ◌≡◌, ◌⊎◌, refl, sym, ap, ◌∙◌, subst, arith, ==_iff, String, Option, none, some, List, [],
  ◌∷◌, All, Bool-cases, Option-cases, inl, inr, str_eq,
}
use pob.Prelude.Maps.{lookup}
use pob.Prelude.Outcome.{◌>>=◌, Outcome, ok, err, panic, tx_not_found, Outcome-cases}
use pob.Sdk.{Sdk, Tx, Signature, SkipListOps}
use pob.Sdk.Skip.{IsOrder}
use pob.PriorityNonce.Defs.{
  Comparables, PriorityNonceMempoolConfig, TxMeta, nonce_compare, skiplist_comparable, same_score,
  or_new, first_signature, next_sender_tx, front_value, remove, remove_signed,
}
use pob.PriorityNonce.Ascending.{IsAscending, nonce_tx}
use pob.PriorityNonce.Consistent.{Mempool, own_txs, contents, IsConsistent}
use pob.PriorityNonce.Opened.{unscored-IsOpen, score_eq}
use pob.PriorityNonce.Taken.{
  unindexed-own, held-index, remove_key-behind, behind-IsConsistent, contents-behind,
}
use pob.PriorityNonce.Refined.{with_tx}

below_none :
    {C : Type 0} (m : ℕ) (k : TxMeta C) (tx : Tx) (rest : List (TxMeta C × Tx))
    → All (λ e. k.nonce < (e.0).nonce) rest
    → m < k.nonce
    → nonce_tx m ((k, tx) ∷ rest) ≡ none
below_none m k tx [] a lt = ground (arith, lt)
below_none m k tx ((j, w) ∷ rest) (h, hs) lt = ground (arith, below_none m k tx rest hs lt, h, lt)

module _ (sdk : Sdk) {C : Type 0} (cs : Comparables C) (cfg : PriorityNonceMempoolConfig sdk C)
    (by_priority : SkipListOps Tx (skiplist_comparable cfg.tx_priority.compare cs))
    (by_nonce : SkipListOps Tx (nonce_compare cs)) where
  abbrev M : Type 0
  M = Mempool sdk cs cfg by_priority by_nonce

  abbrev Result : Type 0
  Result = Outcome (Unit {0}) × M

  abbrev txs_of : M → String → ℕ → Option Tx
  txs_of = contents sdk cs cfg by_priority by_nonce

  abbrev IsSound : M → Type 0
  IsSound = IsConsistent sdk cs cfg by_priority by_nonce

  already_none :
      (mp : M) (s : String) (n : ℕ) (t : String) (m : ℕ)
      → txs_of mp s n ≡ none
      → txs_of mp t m ≡ with_tx (txs_of mp) s n none t m
  already_none mp s n t m e = elim (Bool-cases (same_score (t, m) (s, n))) [
    | inl y ↦ rw y (ap (λ (i : String × ℕ). txs_of mp i.0 i.1) (score_eq (t, m) (s, n) y) ∙ e)
    | inr f ↦ rw f refl
  ]

  -- Remove, of a transaction by its first signature.
  abbrev pub IsTaken : String → ℕ → M → Result → Type 0
  IsTaken s n mp r =
      (r.0 ≡ (elim (txs_of mp s n) [ some tx ↦ ok tt | none ↦ err tx_not_found ]))
      × ((t : String) (m : ℕ) → txs_of r.1 t m ≡ with_tx (txs_of mp) s n none t m)

  module _ (ordered : IsOrder cfg.tx_priority.compare) where
    module _ (sig : Signature) (mp : M) (sound : IsSound mp) where
      abbrev sender : String
      sender = sdk.acc_string sig.address

      abbrev taken : Result
      taken = remove_signed sdk cs cfg by_priority by_nonce sig mp

      no_score :
          lookup same_score (sender, sig.sequence) mp.scores ≡ none
          → IsSound taken.1 × IsTaken sender sig.sequence mp taken
      unfolding remove_signed
      no_score e =
          let absent =
            (unscored-IsOpen sdk cs cfg by_priority by_nonce sender sig.sequence mp sound
              e).absent in
          rw (e, remove_signed)
            (sound, (rw absent refl, λ t m. already_none mp sender sig.sequence t m absent))

      one_score :
          (score : TxMeta C)
          → lookup same_score (sender, sig.sequence) mp.scores ≡ some score
          → IsSound taken.1 × IsTaken sender sig.sequence mp taken
      unfolding remove_signed
      one_score score e =
          let (tx, h) = sound.held sender sig.sequence score e in
          let (index, i) =
            held-index sdk cs cfg by_priority by_nonce sender sig.sequence tx mp sound h in
          rw
            (
              e,
              remove_signed,
              remove_key-behind sdk cs cfg by_priority by_nonce sender sig.sequence score mp index
                  i,
            )
            (
              behind-IsConsistent sdk cs cfg by_priority by_nonce sender sig.sequence score mp index
                  ordered sound e i,
              (
                rw h refl,
                contents-behind sdk cs cfg by_priority by_nonce sender sig.sequence score mp index
                    ordered sound e i,
              ),
            )

      remove_signed_lem : IsSound taken.1 × IsTaken sender sig.sequence mp taken
      remove_signed_lem = elim (Option-cases (lookup same_score (sender, sig.sequence) mp.scores)) [
        | inl e ↦ no_score e
        | inr (score, e) ↦ one_score score e
      ]

    -- Whatever Remove answers with, it keeps the indices and the scores consistent.
    pub remove-IsConsistent :
        (tx : Tx) (mp : M) → IsSound mp → IsSound (remove sdk cs cfg by_priority by_nonce tx mp).1
    unfolding remove
    remove-IsConsistent tx mp sound = elim (Outcome-cases (tx.signatures >>= first_signature)) [
      | inl (sig, e) ↦ rw (e, remove) ((remove_signed_lem sig mp sound).0)
      | inr (inl (x, e)) ↦ rw (e, remove) sound
      | inr (inr e) ↦ rw (e, remove) sound
    ]

    -- Remove of a signed transaction from a consistent mempool, where the comparison of priorities is an order,
    -- succeeds exactly where there is a transaction with the sender and the nonce of its first signature, answers
    -- ErrTxNotFound where there is none, and leaves the transactions before without that one.
    pub remove-IsTaken :
        (tx : Tx) (sig : Signature) (sigs : List Signature) (mp : M)
        → tx.signatures ≡ ok (sig ∷ sigs)
        → IsSound mp
        → IsTaken
            (sdk.acc_string sig.address)
            sig.sequence
            mp
            (remove sdk cs cfg by_priority by_nonce tx mp)
    unfolding remove first_signature
    remove-IsTaken tx sig sigs mp signed sound = rw signed ((remove_signed_lem sig mp sound).1)

  own_index :
      (s : String) (mp : M) (index : by_nonce.SkipList)
      → lookup str_eq s mp.sender_indices ≡ some index
      → own_txs sdk cs cfg by_priority by_nonce s mp ≡ by_nonce.elements index
  own_index s mp index e = ap (λ o. by_nonce.elements (or_new sdk cs cfg by_priority by_nonce o)) e

  -- The first transaction of a sender by its nonces, or that there is none.
  abbrev pub IsNext : String → M → Outcome (Option Tx) → Type 0
  IsNext s mp r =
      ((tx : Tx) × (n : ℕ) × (r ≡ ok (some tx))
        × (txs_of mp s n ≡ some tx)
        × ((m : ℕ) → m < n → txs_of mp s m ≡ none))
      ⊎ (((r ≡ ok none) ⊎ (r ≡ panic)) × ((m : ℕ) → txs_of mp s m ≡ none))

  front_IsNext :
      (s : String) (mp : M) (xs : List (TxMeta C × Tx))
      → IsAscending xs
      → ((m : ℕ) → nonce_tx m xs ≡ txs_of mp s m)
      → IsNext s mp (front_value sdk cs cfg by_priority by_nonce xs)
  unfolding front_value
  front_IsNext s mp [] a h = inr (inr refl, λ m. sym (h m))
  front_IsNext s mp ((k, tx) ∷ rest) a h = inl (
    tx,
    k.nonce,
    refl,
    sym (h k.nonce) ∙ rw ((==_iff k.nonce k.nonce).1 refl) refl,
    λ m lt. sym (h m) ∙ below_none m k tx rest a.0 lt,
  )

  -- NextSenderTx, on a consistent mempool: it returns the transaction of the sender with the least nonce, and where it returns
  -- nil or panics there is none of the sender.
  pub next_sender_tx-IsNext :
      (s : String) (mp : M)
      → IsSound mp
      → IsNext s mp (next_sender_tx sdk cs cfg by_priority by_nonce s mp)
  unfolding next_sender_tx
  next_sender_tx-IsNext s mp sound = elim (Option-cases (lookup str_eq s mp.sender_indices)) [
    | inl e ↦
        rw (e, next_sender_tx)
          (inr (
            inl refl,
            λ m.
                sym (sound.same_txs s m)
                ∙ ap (nonce_tx m) (unindexed-own sdk cs cfg by_priority by_nonce s mp e),
          ))
    | inr (index, e) ↦
        rw (e, next_sender_tx)
          (front_IsNext s mp (by_nonce.elements index)
            (subst IsAscending (own_index s mp index e) (sound.ascending s))
            (λ m. ap (nonce_tx m) (sym (own_index s mp index e)) ∙ sound.same_txs s m))
  ]
