-- ===== src/PriorityNonce/Opened.antt =====
-- Insert and Remove of blockbuster/priority_nonce.go: the element by priority of a sender and a nonce is taken out.
use pob.Prelude.{
  ℕ, ◌≡◌, refl, sym, ap, ◌∙◌, subst, arith, true, false, ==_iff, String, none, some, List, [], ◌∷◌,
  All, Bool-cases, inl, inr, if◌then◌else◌, str_eq, eq_iff,
}
use pob.Prelude.Int.{ℤ}
use pob.Prelude.Maps.{lookup, update, lookup-update, lookup-update-ne}
use mathlib.Core.Option.{some-injective}
use pob.Sdk.{Sdk, Tx, SkipListOps}
use pob.Sdk.Skip.{IsOrder}
use pob.PriorityNonce.Orders.{comparable-IsOrder}
use pob.PriorityNonce.Defs.{
  Comparables, PriorityNonceMempoolConfig, TxMeta, nonce_compare, skiplist_comparable, same_score,
  index_of, or_new, with_index, drop_old, key_of, count_down,
}
use pob.PriorityNonce.Ascending.{IsAscending, nonce_tx}
use pob.PriorityNonce.Distinct.{
  same_id, tx_at, IsFresh, IsDistinct, tx_at-IsFresh, All-without, without-IsDistinct, Agrees,
  tx_at-without,
}
use pob.PriorityNonce.Comparing.{comparable_sound, comparable_complete}
use pob.PriorityNonce.Consistent.{HasScore, Mempool, nodes, own_txs, contents, IsConsistent, IsOpen}

pub str_apart : (o k j : String) → str_eq o k ≡ false → str_eq k j ≡ true → str_eq o j ≡ false
str_apart o k j f t = ap (str_eq o) (sym ((eq_iff k j).0 t)) ∙ f

pub score_eq : (k j : String × ℕ) → same_score k j ≡ true → k ≡ j
score_eq (s, n) (t, m) h = ground (arith, h, eq_iff s t)

pub score_apart :
    (o k j : String × ℕ) → same_score o k ≡ false → same_score k j ≡ true → same_score o j ≡ false
score_apart o k j f t = ap (same_score o) (sym (score_eq k j t)) ∙ f

-- The score of an element is that of its sender and nonce.
score_at :
    {C : Type 0} (scores : List ((String × ℕ) × TxMeta C)) (s : String) (n : ℕ) (k : TxMeta C)
    → same_id s n k ≡ true
    → (h : HasScore scores k) → lookup same_score (s, n) scores ≡ some h.score
score_at scores s n k y h =
    ap (λ (i : String × ℕ). lookup same_score i scores) (score_eq (s, n) (k.sender, k.nonce) y)
    ∙ h.is_there

module _ (sdk : Sdk) {C : Type 0} (cs : Comparables C) (cfg : PriorityNonceMempoolConfig sdk C)
    (by_priority : SkipListOps Tx (skiplist_comparable cfg.tx_priority.compare cs))
    (by_nonce : SkipListOps Tx (nonce_compare cs)) where
  abbrev M : Type 0
  M = Mempool sdk cs cfg by_priority by_nonce

  abbrev own : String → M → List (TxMeta C × Tx)
  own = own_txs sdk cs cfg by_priority by_nonce

  abbrev index_in : String → M → by_nonce.SkipList
  index_in = index_of sdk cs cfg by_priority by_nonce

  -- The transactions of a sender behind an update of the index of one.
  pub own-update :
      (s t : String) (i : by_nonce.SkipList) (mp mp' : M)
      → mp'.sender_indices ≡ update str_eq s i mp.sender_indices
      → own t mp' ≡ (if str_eq t s then by_nonce.elements i else own t mp)
  own-update s t i mp mp' e = elim (Bool-cases (str_eq t s)) [
    | inl y ↦ rw y (
        ap (λ o. by_nonce.elements (or_new sdk cs cfg by_priority by_nonce o))
          (ap (lookup str_eq t) e
            ∙ ap (λ x. lookup str_eq t (update str_eq x i mp.sender_indices))
                (sym ((eq_iff t s).0 y))
            ∙ lookup-update str_eq t i mp.sender_indices ((eq_iff t t).1 refl)))
    | inr n ↦ rw n (
        ap (λ o. by_nonce.elements (or_new sdk cs cfg by_priority by_nonce o))
          (ap (lookup str_eq t) e
            ∙ lookup-update-ne str_eq t s i mp.sender_indices (λ j. str_apart t s j n) n))
  ]

  abbrev indexed : String → M → M
  indexed s mp = with_index sdk cs cfg by_priority by_nonce s (index_in s mp) mp

  -- The index that Insert makes for a new sender is empty, so that nothing changes.
  pub own-indexed : (s t : String) (mp : M) → own t (indexed s mp) ≡ own t mp
  own-indexed s t mp =
      own-update s t (index_in s mp) mp (indexed s mp) refl ∙ elim (Bool-cases (str_eq t s)) [
        | inl y ↦ rw y (ap (λ x. own x mp) (sym ((eq_iff t s).0 y)))
        | inr n ↦ rw n refl
      ]

  pub indexed-IsConsistent :
      (s : String) (mp : M)
      → IsConsistent sdk cs cfg by_priority by_nonce mp
      → IsConsistent sdk cs cfg by_priority by_nonce (indexed s mp)
  indexed-IsConsistent s mp c = record {
    ascending = λ t. subst IsAscending (sym (own-indexed s t mp)) (c.ascending t);
    distinct = c.distinct;
    scored = c.scored;
    same_txs = λ t n. ap (nonce_tx n) (own-indexed s t mp) ∙ c.same_txs t n;
    held = c.held;
  }

  -- Without a score there is no element.
  unscored-IsFresh :
      (s : String) (n : ℕ) (mp : M)
      → lookup same_score (s, n) mp.scores ≡ none
      → (xs : List (TxMeta C × Tx)) → All (λ e. HasScore mp.scores e.0) xs
      → IsFresh s n xs
  unscored-IsFresh s n mp e [] a = tt
  unscored-IsFresh s n mp e ((k, tx) ∷ rest) (h, hs) = (
    elim (Bool-cases (same_id s n k)) [
      | inl y ↦ absurd (cc (e, score_at mp.scores s n k y h))
      | inr f ↦ f
    ],
    unscored-IsFresh s n mp e rest hs,
  )

  pub unscored-IsOpen :
      (s : String) (n : ℕ) (mp : M)
      → IsConsistent sdk cs cfg by_priority by_nonce mp
      → lookup same_score (s, n) mp.scores ≡ none
      → IsOpen sdk cs cfg by_priority by_nonce s n mp
  unscored-IsOpen s n mp c e = record {
    ascending = c.ascending;
    distinct = c.distinct;
    absent = tx_at-IsFresh s n _ (unscored-IsFresh s n mp e _ c.scored);
    scored = c.scored;
    same_txs = λ t m f. c.same_txs t m;
    held = λ t m score f. c.held t m score;
  }

  module _ (ordered : IsOrder cfg.tx_priority.compare) where
    abbrev order : TxMeta C → TxMeta C → ℤ
    order = skiplist_comparable cfg.tx_priority.compare cs

    scored-Agrees :
        (key : TxMeta C) (scores : List ((String × ℕ) × TxMeta C))
        → HasScore scores key
        → (xs : List (TxMeta C × Tx)) → All (λ e. HasScore scores e.0) xs
        → Agrees order (comparable_sound cfg.tx_priority.compare cs) key xs
    scored-Agrees key scores own_score [] a = tt
    scored-Agrees key scores own_score ((k, tx) ∷ rest) (h, hs) = (
      λ y.
          let same =
            some-injective _ _
              (sym (score_at scores key.sender key.nonce k y h) ∙ own_score.is_there) in
          comparable_complete cfg.tx_priority.compare cs ordered.reflexive key k
            (sym own_score.same_priority ∙ sym (ap (λ x. x.priority) same) ∙ h.same_priority)
            (sym own_score.same_weight ∙ sym (ap (λ x. x.weight) same) ∙ h.same_weight) y,
      scored-Agrees key scores own_score rest hs,
    )

    -- The mempool without the element of a key.
    abbrev pub without_key : TxMeta C → List (C × ℤ) → M → M
    without_key key counts mp = record mp {
      priority_index = by_priority.remove key mp.priority_index;
      priority_counts = counts;
    }

    module _ (key : TxMeta C) (counts : List (C × ℤ)) (mp : M)
        (sound : IsConsistent sdk cs cfg by_priority by_nonce mp)
        (own_score : HasScore mp.scores key) where
      pub contents-without :
          (t : String) (m : ℕ)
          → contents sdk cs cfg by_priority by_nonce (without_key key counts mp) t m ≡ (
              if same_score (t, m) (key.sender, key.nonce)
              then none
              else contents sdk cs cfg by_priority by_nonce mp t m)
      contents-without t m =
          ap (tx_at t m) (
            by_priority.elements-remove (comparable-IsOrder cs cfg.tx_priority.compare ordered) key
              mp.priority_index)
          ∙ tx_at-without order (comparable_sound cfg.tx_priority.compare cs) t m key
              (nodes sdk cs cfg by_priority by_nonce mp) sound.distinct
              (scored-Agrees key mp.scores own_score _ sound.scored)

      pub without-IsOpen :
          IsOpen sdk cs cfg by_priority by_nonce key.sender key.nonce (without_key key counts mp)
      without-IsOpen = record {
        ascending = sound.ascending;
        distinct =
            subst IsDistinct
              (sym (
                by_priority.elements-remove (comparable-IsOrder cs cfg.tx_priority.compare ordered)
                  key mp.priority_index))
              (without-IsDistinct order (comparable_sound cfg.tx_priority.compare cs) key _
                sound.distinct);
        absent =
            contents-without key.sender key.nonce
            ∙ rw ((eq_iff key.sender key.sender).1 refl, (==_iff key.nonce key.nonce).1 refl) refl;
        scored =
            subst (All (λ e. HasScore mp.scores e.0))
              (sym (
                by_priority.elements-remove (comparable-IsOrder cs cfg.tx_priority.compare ordered)
                  key mp.priority_index))
              (All-without order (comparable_sound cfg.tx_priority.compare cs)
                (λ e. HasScore mp.scores e.0) key _ sound.scored);
        same_txs = λ t m f. sound.same_txs t m ∙ sym (contents-without t m ∙ rw f refl);
        held = λ t m score f h.
            let (tx, g) = sound.held t m score h in (tx, contents-without t m ∙ rw f g);
      }

    module _ (s : String) (n : ℕ) (old : TxMeta C) (mp : M)
        (sound : IsConsistent sdk cs cfg by_priority by_nonce mp)
        (e : lookup same_score (s, n) mp.scores ≡ some old) where
      abbrev old_key : TxMeta C
      old_key = key_of sdk cs cfg by_priority by_nonce s n old.priority old.weight

      old_key-HasScore : HasScore mp.scores old_key
      old_key-HasScore = record {
        score = old;
        is_there = e;
        same_priority = refl;
        same_weight = refl;
      }

      pub contents-drop :
          (t : String) (m : ℕ)
          → contents sdk cs cfg by_priority by_nonce
              (drop_old sdk cs cfg by_priority by_nonce s n old mp)
              t
              m
            ≡ (if same_score (t, m) (s, n)
                then none
                else contents sdk cs cfg by_priority by_nonce mp t m)
      unfolding drop_old
      contents-drop = contents-without old_key mp.priority_counts mp sound old_key-HasScore

      pub drop_old-IsOpen :
          IsOpen sdk cs cfg by_priority by_nonce s n
            (drop_old sdk cs cfg by_priority by_nonce s n old mp)
      unfolding drop_old
      drop_old-IsOpen =
          without-IsOpen old_key
            (count_down sdk cs cfg by_priority by_nonce old.priority mp.priority_counts) mp sound
            old_key-HasScore
