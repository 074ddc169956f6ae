-- ===== src/PriorityNonce/Taken.antt =====
-- Remove of blockbuster/priority_nonce.go: the elements of a sender and a nonce and their score are taken out.
use pob.Prelude.{
  ℕ, ◌≡◌, refl, sym, ap, ◌∙◌, subst, false, ◌==◌, String, Option, none, some, List, [], ◌∷◌, All,
  Bool-cases, Option-cases, inl, inr, if◌then◌else◌, str_eq, eq_iff,
}
use pob.Prelude.Maps.{lookup, update, erase, lookup-erase, lookup-erase-ne}
use pob.Prelude.Outcome.{ok}
use pob.Sdk.{Sdk, Tx, SkipListOps}
use pob.Sdk.Skip.{IsOrder}
use pob.PriorityNonce.Orders.{nonce-IsOrder}
use pob.PriorityNonce.Defs.{
  Comparables, PriorityNonceMempoolConfig, TxMeta, nonce_compare, skiplist_comparable, same_score,
  or_new, key_of, remove_key, drop_old, count_down,
}
use pob.PriorityNonce.Ascending.{
  ==_sym, IsAscending, nonce_tx, by_nonce_without, without-nonce, without-IsAscending,
  nonce_tx-without,
}
use pob.PriorityNonce.Distinct.{IsFresh, IsFresh-tx_at}
use pob.PriorityNonce.Consistent.{HasScore, Mempool, own_txs, contents, IsConsistent, IsOpen}
use pob.PriorityNonce.Opened.{own-update, score_apart, score_eq, contents-drop, drop_old-IsOpen}
use pob.PriorityNonce.Kept.{score_id}

module _ (sdk : Sdk) {C : Type 0} (cs : Comparables C) (cfg : PriorityNonceMempoolConfig sdk C)
    (by_priority : SkipListOps Tx (skiplist_comparable cfg.tx_priority.compare cs))
    (by_nonce : SkipListOps Tx (nonce_compare cs)) where
  abbrev M : Type 0
  M = Mempool sdk cs cfg by_priority by_nonce

  abbrev own : String → M → List (TxMeta C × Tx)
  own = own_txs sdk cs cfg by_priority by_nonce

  abbrev in_mempool : M → String → ℕ → Option Tx
  in_mempool = contents sdk cs cfg by_priority by_nonce

  pub unindexed-own :
      (s : String) (mp : M) → lookup str_eq s mp.sender_indices ≡ none → own s mp ≡ []
  unindexed-own s mp e =
      ap (λ o. by_nonce.elements (or_new sdk cs cfg by_priority by_nonce o)) e
      ∙ by_nonce.elements-new

  -- The sender of what is in the mempool has an index.
  pub held-index :
      (s : String) (n : ℕ) (tx : Tx) (mp : M)
      → IsConsistent sdk cs cfg by_priority by_nonce mp
      → in_mempool mp s n ≡ some tx
      → (index : by_nonce.SkipList) × (lookup str_eq s mp.sender_indices ≡ some index)
  held-index s n tx mp c h = elim (Option-cases (lookup str_eq s mp.sender_indices)) [
    | inl e ↦ absurd (cc (h, c.same_txs s n, ap (nonce_tx n) (unindexed-own s mp e)))
    | inr found ↦ found
  ]

  module _ (s : String) (n : ℕ) (score : TxMeta C) (mp : M) (index : by_nonce.SkipList) where
    abbrev tk : TxMeta C
    tk = key_of sdk cs cfg by_priority by_nonce s n score.priority score.weight

    abbrev pub behind : M
    behind = (record mp {
      priority_index = by_priority.remove tk mp.priority_index;
      sender_indices = update str_eq s (by_nonce.remove tk index) mp.sender_indices;
      scores = erase same_score (s, n) mp.scores;
      priority_counts =
          count_down sdk cs cfg by_priority by_nonce score.priority mp.priority_counts;
    })

    pub remove_key-behind :
        lookup str_eq s mp.sender_indices ≡ some index
        → remove_key sdk cs cfg by_priority by_nonce s n score mp ≡ (ok tt, behind)
    unfolding remove_key
    remove_key-behind e = rw (e, remove_key) refl

    pub own-behind :
        lookup str_eq s mp.sender_indices ≡ some index
        → (t : String)
        → own t behind ≡ (if str_eq t s then by_nonce_without n (own s mp) else own t mp)
    own-behind has_index t =
        own-update sdk cs cfg by_priority by_nonce s t (by_nonce.remove tk index) mp behind refl
        ∙ ap (λ x. if str_eq t s then x else own t mp)
            (by_nonce.elements-remove (nonce-IsOrder cs) tk index
              ∙ without-nonce cs tk (by_nonce.elements index)
              ∙ ap
                  (λ o.
                    by_nonce_without n
                      (by_nonce.elements (or_new sdk cs cfg by_priority by_nonce o)))
                  (sym has_index))

    module _ (ordered : IsOrder cfg.tx_priority.compare)
        (c : IsConsistent sdk cs cfg by_priority by_nonce mp)
        (has_score : lookup same_score (s, n) mp.scores ≡ some score)
        (has_index : lookup str_eq s mp.sender_indices ≡ some index) where
      pub contents-behind :
          (t : String) (m : ℕ)
          → in_mempool behind t m ≡ (if same_score (t, m) (s, n) then none else in_mempool mp t m)
      unfolding drop_old
      contents-behind =
          contents-drop sdk cs cfg by_priority by_nonce ordered s n score mp c has_score

      score-behind :
          (t : String) (m : ℕ)
          → same_score (t, m) (s, n) ≡ false
          → lookup same_score (t, m) behind.scores ≡ lookup same_score (t, m) mp.scores
      score-behind t m f =
          lookup-erase-ne same_score (t, m) (s, n) mp.scores (λ j. score_apart (t, m) (s, n) j f)

      still_scored :
          (xs : List (TxMeta C × Tx))
          → All (λ e. HasScore mp.scores e.0) xs
          → IsFresh s n xs
          → All (λ e. HasScore behind.scores e.0) xs
      still_scored [] a f = tt
      still_scored ((k, w) ∷ rest) (h, hs) (f, fs) = (
        record {
          score = h.score;
          is_there = score-behind k.sender k.nonce (score_id s n k f) ∙ h.is_there;
          same_priority = h.same_priority;
          same_weight = h.same_weight;
        },
        still_scored rest hs fs,
      )

      IsAscending-behind : (t : String) → IsAscending (own t behind)
      IsAscending-behind t =
          subst IsAscending (sym (own-behind has_index t)) (elim (Bool-cases (str_eq t s)) [
            | inl y ↦ rw y (without-IsAscending n (own s mp) (c.ascending s))
            | inr f ↦ rw f (c.ascending t)
          ])

      same_txs-behind : (t : String) (m : ℕ) → nonce_tx m (own t behind) ≡ in_mempool behind t m
      same_txs-behind t m =
          ap (nonce_tx m) (own-behind has_index t) ∙ elim (Bool-cases (str_eq t s)) [
            | inr f ↦ rw f (c.same_txs t m ∙ sym (contents-behind t m ∙ rw f refl))
            | inl y ↦ rw y (
                nonce_tx-without m n (own s mp) (c.ascending s)
                ∙ ap (λ b. if b then none else nonce_tx m (own s mp)) (==_sym n m)
                ∙ elim (Bool-cases (m == n)) [
                  | inl e ↦ rw e (sym (contents-behind t m ∙ rw (y, e) refl))
                  | inr f ↦ rw f (
                      ap (λ x. nonce_tx m (own x mp)) (sym ((eq_iff t s).0 y))
                      ∙ c.same_txs t m
                      ∙ sym (contents-behind t m ∙ rw (y, f) refl))
                ])
          ]

      opened :
          IsOpen sdk cs cfg by_priority by_nonce s n
            (drop_old sdk cs cfg by_priority by_nonce s n score mp)
      opened = drop_old-IsOpen sdk cs cfg by_priority by_nonce ordered s n score mp c has_score

      pub behind-IsConsistent : IsConsistent sdk cs cfg by_priority by_nonce behind
      unfolding drop_old
      behind-IsConsistent = record {
        ascending = IsAscending-behind;
        distinct = opened.distinct;
        scored = still_scored _ opened.scored (IsFresh-tx_at s n _ opened.absent);
        same_txs = same_txs-behind;
        held = λ t m old h. elim (Bool-cases (same_score (t, m) (s, n))) [
          | inl y ↦ absurd (
              cc (
                h,
                ap (λ (i : String × ℕ). lookup same_score i behind.scores)
                    (score_eq (t, m) (s, n) y),
                lookup-erase same_score (s, n) mp.scores,
              ))
          | inr f ↦
              let (w, g) = c.held t m old (sym (score-behind t m f) ∙ h) in
              (w, contents-behind t m ∙ rw f g)
        ];
      }
