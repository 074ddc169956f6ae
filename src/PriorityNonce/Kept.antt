-- ===== src/PriorityNonce/Kept.antt =====
-- Insert of blockbuster/priority_nonce.go: the element by priority and the element by nonce are put in.
use pob.Prelude.{
  ℕ, ◌≡◌, refl, sym, ap, ◌∙◌, subst, arith, true, false, ◌==◌, ==_iff, String, some, List, [], ◌∷◌,
  All, Bool-cases, inl, inr, if◌then◌else◌, str_eq, eq_iff,
}
use pob.Prelude.Int.{ℤ}
use pob.Prelude.Maps.{lookup, update, lookup-update, lookup-update-ne}
use pob.Sdk.{Sdk, Tx, SkipListOps}
use pob.Sdk.Skip.{placed}
use pob.Sdk.Skip.{IsOrder}
use pob.PriorityNonce.Orders.{comparable-IsOrder, nonce-IsOrder}
use pob.PriorityNonce.Defs.{
  Comparables, PriorityNonceMempoolConfig, TxMeta, nonce_compare, skiplist_comparable, same_score,
  index_of, put, key_of,
}
use pob.PriorityNonce.Ascending.{
  ==_sym, IsAscending, nonce_tx, by_nonce_placed, placed-nonce, placed-IsAscending, nonce_tx-placed,
}
use pob.PriorityNonce.Distinct.{
  same_id, tx_at, IsFresh, IsDistinct, IsFresh-tx_at, All-placed, placed-IsDistinct, tx_at-placed,
}
use pob.PriorityNonce.Comparing.{comparable_sound}
use pob.PriorityNonce.Consistent.{HasScore, Mempool, nodes, own_txs, contents, IsConsistent, IsOpen}
use pob.PriorityNonce.Opened.{own-update, score_apart}

pub same_score_self : (s : String) (n : ℕ) → same_score (s, n) (s, n) ≡ true
same_score_self s n = rw ((eq_iff s s).1 refl, (==_iff n n).1 refl) refl

-- The identity of an element the other way round.
pub score_id :
    {C : Type 0} (s : String) (n : ℕ) (k : TxMeta C)
    → same_id s n k ≡ false
    → same_score (k.sender, k.nonce) (s, n) ≡ false
score_id s n k f = ground (arith, f, eq_iff s k.sender, eq_iff k.sender s)

module _ (sdk : Sdk) {C : Type 0} (cs : Comparables C) (cfg : PriorityNonceMempoolConfig sdk C)
    (by_priority : SkipListOps Tx (skiplist_comparable cfg.tx_priority.compare cs))
    (by_nonce : SkipListOps Tx (nonce_compare cs)) (ordered : IsOrder cfg.tx_priority.compare) where
  abbrev M : Type 0
  M = Mempool sdk cs cfg by_priority by_nonce

  abbrev own : String → M → List (TxMeta C × Tx)
  own = own_txs sdk cs cfg by_priority by_nonce

  abbrev put_tx : String → ℕ → C → Tx → M → M
  put_tx = put sdk cs cfg by_priority by_nonce

  abbrev set_key : String → ℕ → C → TxMeta C
  set_key s n priority = record (key_of sdk cs cfg by_priority by_nonce s n priority cs.zero) {
    sender_element = some n;
  }

  abbrev order : TxMeta C → TxMeta C → ℤ
  order = skiplist_comparable cfg.tx_priority.compare cs

  put-nodes :
      (s : String) (n : ℕ) (priority : C) (tx : Tx) (mp : M)
      → nodes sdk cs cfg by_priority by_nonce (put_tx s n priority tx mp)
        ≡ placed order (set_key s n priority) tx (nodes sdk cs cfg by_priority by_nonce mp)
  unfolding put
  put-nodes s n priority tx mp =
      by_priority.elements-set (comparable-IsOrder cs cfg.tx_priority.compare ordered)
        (set_key s n priority) tx mp.priority_index

  put-own :
      (s : String) (n : ℕ) (priority : C) (tx : Tx) (mp : M) (t : String)
      → own t (put_tx s n priority tx mp) ≡ (
          if str_eq t s
          then by_nonce_placed
              (key_of sdk cs cfg by_priority by_nonce s n priority cs.zero)
              tx
              (own s mp)
          else own t mp)
  unfolding put
  put-own s n priority tx mp t =
      own-update sdk cs cfg by_priority by_nonce s t _ mp (put_tx s n priority tx mp) refl
      ∙ ap (λ x. if str_eq t s then x else own t mp)
          (by_nonce.elements-set (nonce-IsOrder cs) _ tx
              (index_of sdk cs cfg by_priority by_nonce s mp)
            ∙ placed-nonce cs _ tx (own s mp))

  module _ (s : String) (n : ℕ) (priority : C) (tx : Tx) (mp : M)
      (opened : IsOpen sdk cs cfg by_priority by_nonce s n mp) where
    abbrev behind : M
    behind = put_tx s n priority tx mp

    fresh : IsFresh s n (nodes sdk cs cfg by_priority by_nonce mp)
    fresh = IsFresh-tx_at s n _ opened.absent

    pub contents-put :
        (t : String) (m : ℕ)
        → contents sdk cs cfg by_priority by_nonce behind t m ≡ (
            if same_score (t, m) (s, n)
            then some tx
            else contents sdk cs cfg by_priority by_nonce mp t m)
    contents-put t m =
        ap (tx_at t m) (put-nodes s n priority tx mp)
        ∙ tx_at-placed order (comparable_sound cfg.tx_priority.compare cs) t m
            (set_key s n priority) tx _ fresh

    IsAscending-put : (t : String) → IsAscending (own t behind)
    IsAscending-put t =
        subst IsAscending (sym (put-own s n priority tx mp t)) (elim (Bool-cases (str_eq t s)) [
          | inl y ↦ rw y (placed-IsAscending _ tx (own s mp) (opened.ascending s))
          | inr f ↦ rw f (opened.ascending t)
        ])

    scores-put :
        behind.scores
        ≡ update same_score
            (s, n)
            (key_of sdk cs cfg by_priority by_nonce "" 0 priority cs.zero)
            mp.scores
    unfolding put
    scores-put = refl

    score-put :
        lookup same_score (s, n) behind.scores
        ≡ some (key_of sdk cs cfg by_priority by_nonce "" 0 priority cs.zero)
    score-put =
        ap (lookup same_score (s, n)) scores-put
        ∙ lookup-update same_score (s, n) _ mp.scores (same_score_self s n)

    score-put-ne :
        (t : String) (m : ℕ)
        → same_score (t, m) (s, n) ≡ false
        → lookup same_score (t, m) behind.scores ≡ lookup same_score (t, m) mp.scores
    score-put-ne t m f =
        ap (lookup same_score (t, m)) scores-put
        ∙ lookup-update-ne same_score (t, m) (s, n) _ mp.scores (λ j. score_apart (t, m) (s, n) j f)
            f

    still_scored :
        (xs : List (TxMeta C × Tx))
        → All (λ e. HasScore mp.scores e.0) xs
        → IsFresh s n xs
        → All (λ e. HasScore behind.scores e.0) xs
    still_scored [] a f = tt
    still_scored ((k, w) ∷ rest) (h, hs) (f, fs) = (
      record {
        score = h.score;
        is_there = score-put-ne k.sender k.nonce (score_id s n k f) ∙ h.is_there;
        same_priority = h.same_priority;
        same_weight = h.same_weight;
      },
      still_scored rest hs fs,
    )

    scored_put :
        All (λ e. HasScore behind.scores e.0) (nodes sdk cs cfg by_priority by_nonce behind)
    scored_put =
        subst (All (λ e. HasScore behind.scores e.0)) (sym (put-nodes s n priority tx mp)) (
          All-placed order (comparable_sound cfg.tx_priority.compare cs)
            (λ e. HasScore behind.scores e.0) (set_key s n priority) tx _
            (record {
              score = key_of sdk cs cfg by_priority by_nonce "" 0 priority cs.zero;
              is_there = score-put;
              same_priority = refl;
              same_weight = refl;
            })
            fresh (still_scored _ opened.scored fresh))

    same_txs_put :
        (t : String) (m : ℕ)
        → nonce_tx m (own t behind) ≡ contents sdk cs cfg by_priority by_nonce behind t m
    same_txs_put t m =
        ap (nonce_tx m) (put-own s n priority tx mp t) ∙ elim (Bool-cases (str_eq t s)) [
          | inr f ↦ rw f (opened.same_txs t m (rw f refl) ∙ sym (contents-put t m ∙ rw f refl))
          | inl y ↦ rw y (
              nonce_tx-placed m _ tx (own s mp)
              ∙ ap (λ b. if b then some tx else nonce_tx m (own s mp)) (==_sym n m)
              ∙ elim (Bool-cases (m == n)) [
                | inl e ↦ rw e (sym (contents-put t m ∙ rw (y, e) refl))
                | inr f ↦ rw f (
                    ap (λ x. nonce_tx m (own x mp)) (sym ((eq_iff t s).0 y))
                    ∙ opened.same_txs t m (rw (y, f) refl)
                    ∙ sym (contents-put t m ∙ rw (y, f) refl))
              ])
        ]

    pub put-IsConsistent : IsConsistent sdk cs cfg by_priority by_nonce behind
    put-IsConsistent = record {
      ascending = IsAscending-put;
      distinct = subst IsDistinct (sym (put-nodes s n priority tx mp)) (
          placed-IsDistinct order (comparable_sound cfg.tx_priority.compare cs)
            (set_key s n priority) tx _ fresh opened.distinct);
      scored = scored_put;
      same_txs = same_txs_put;
      held = λ t m score h. elim (Bool-cases (same_score (t, m) (s, n))) [
        | inl y ↦ (tx, contents-put t m ∙ rw y refl)
        | inr f ↦
            let (w, g) = opened.held t m score f (sym (score-put-ne t m f) ∙ h) in
            (w, contents-put t m ∙ rw f g)
      ];
    }
