-- ===== src/PriorityNonce/Reordered.antt =====
-- reorderPriorityTies of blockbuster/priority_nonce.go: the weights change, the transactions do not.
use pob.Prelude.{
  ℕ, ◌≡◌, refl, sym, ap, ◌∙◌, subst, false, String, Option, none, some, List, [], ◌∷◌, All,
  Bool-cases, inl, inr, if◌then◌else◌,
}
use pob.Prelude.Int.{ℤ, pos, ltb_ℤ}
use pob.Prelude.Maps.{lookup, update, erase, lookup-update, lookup-update-ne, lookup-erase-ne}
use pob.Sdk.{Sdk, Tx, SkipListOps}
use pob.Sdk.Skip.{placed}
use pob.Sdk.Skip.{IsOrder}
use pob.PriorityNonce.Orders.{comparable-IsOrder}
use pob.PriorityNonce.Defs.{
  Comparables, PriorityNonceMempoolConfig, TxMeta, nonce_compare, skiplist_comparable, same_score,
  count_of,
}
use pob.PriorityNonce.Distinct.{
  same_id, tx_at, IsFresh, IsDistinct, IsFresh-tx_at, All-placed, placed-IsDistinct, tx_at-placed,
}
use pob.PriorityNonce.Comparing.{comparable_sound}
use pob.PriorityNonce.Consistent.{HasScore, Mempool, nodes, contents, IsConsistent, IsOpen}
use pob.PriorityNonce.Opened.{score_apart, score_eq, without_key, contents-without, without-IsOpen}
use pob.PriorityNonce.Kept.{score_id, same_score_self}
use pob.PriorityNonce.Ties.{reordering, reorder_loop, sender_weight, element_of}

module _ (sdk : Sdk) {C : Type 0} (cs : Comparables C) (cfg : PriorityNonceMempoolConfig sdk C)
    (by_priority : SkipListOps Tx (skiplist_comparable cfg.tx_priority.compare cs))
    (by_nonce : SkipListOps Tx (nonce_compare cs)) (ordered : IsOrder cfg.tx_priority.compare) where
  abbrev M : Type 0
  M = Mempool sdk cs cfg by_priority by_nonce

  abbrev txs_of : M → String → ℕ → Option Tx
  txs_of = contents sdk cs cfg by_priority by_nonce

  abbrev IsSound : M → Type 0
  IsSound = IsConsistent sdk cs cfg by_priority by_nonce

  abbrev order : TxMeta C → TxMeta C → ℤ
  order = skiplist_comparable cfg.tx_priority.compare cs

  -- One round of the second loop: the element of a key is put in again with another weight.
  module _ (key : TxMeta C) (weight : C) (tx : Tx) (mp : M) (sound : IsSound mp)
      (has_score : HasScore mp.scores key) (has_tx : txs_of mp key.sender key.nonce ≡ some tx) where
    abbrev new : TxMeta C
    new = record key { weight = weight }

    abbrev opened_mempool : M
    opened_mempool = without_key sdk cs cfg by_priority by_nonce ordered key mp.priority_counts mp

    opened : IsOpen sdk cs cfg by_priority by_nonce key.sender key.nonce opened_mempool
    opened =
        without-IsOpen sdk cs cfg by_priority by_nonce ordered key mp.priority_counts mp sound
          has_score

    abbrev behind : M
    behind = (record mp {
      priority_index = by_priority.set new tx (by_priority.remove key mp.priority_index);
      scores =
          update same_score (key.sender, key.nonce) new
            (erase same_score (key.sender, key.nonce) mp.scores);
    })

    fresh : IsFresh key.sender key.nonce (nodes sdk cs cfg by_priority by_nonce opened_mempool)
    fresh = IsFresh-tx_at key.sender key.nonce _ opened.absent

    nodes-behind :
        nodes sdk cs cfg by_priority by_nonce behind
        ≡ placed order new tx (nodes sdk cs cfg by_priority by_nonce opened_mempool)
    nodes-behind =
        by_priority.elements-set (comparable-IsOrder cs cfg.tx_priority.compare ordered) new tx
          (by_priority.remove key mp.priority_index)

    restored :
        (t : String) (m : ℕ) (x : Option Tx)
        → x ≡ (if same_score (t, m) (key.sender, key.nonce) then none else txs_of mp t m)
        → (if same_score (t, m) (key.sender, key.nonce) then some tx else x) ≡ txs_of mp t m
    restored t m x e = elim (Bool-cases (same_score (t, m) (key.sender, key.nonce))) [
      | inl y ↦ rw y (
          sym (
            ap (λ (i : String × ℕ). txs_of mp i.0 i.1) (score_eq (t, m) (key.sender, key.nonce) y)
            ∙ has_tx))
      | inr f ↦ rw f (rw f at e)
    ]

    contents-behind : (t : String) (m : ℕ) → txs_of behind t m ≡ txs_of mp t m
    contents-behind t m =
        ap (tx_at t m) nodes-behind
        ∙ tx_at-placed order (comparable_sound cfg.tx_priority.compare cs) t m new tx _ fresh
        ∙ restored t m _ (
            contents-without sdk cs cfg by_priority by_nonce ordered key mp.priority_counts mp sound
              has_score t m)

    score-behind :
        (t : String) (m : ℕ)
        → same_score (t, m) (key.sender, key.nonce) ≡ false
        → lookup same_score (t, m) behind.scores ≡ lookup same_score (t, m) mp.scores
    score-behind t m f =
        lookup-update-ne same_score (t, m) (key.sender, key.nonce) new _
          (λ j. score_apart (t, m) (key.sender, key.nonce) j f) f
        ∙ lookup-erase-ne same_score (t, m) (key.sender, key.nonce) mp.scores
            (λ j. score_apart (t, m) (key.sender, key.nonce) j f)

    kept_score :
        (k : TxMeta C)
        → same_id key.sender key.nonce k ≡ false
        → HasScore mp.scores k
        → HasScore behind.scores k
    kept_score k f h = record {
      score = h.score;
      is_there = score-behind k.sender k.nonce (score_id key.sender key.nonce k f) ∙ h.is_there;
      same_priority = h.same_priority;
      same_weight = h.same_weight;
    }

    still_scored :
        (xs : List (TxMeta C × Tx))
        → All (λ e. HasScore mp.scores e.0) xs
        → IsFresh key.sender key.nonce xs
        → All (λ e. HasScore behind.scores e.0) xs
    still_scored [] a f = tt
    still_scored ((k, w) ∷ rest) (h, hs) (f, fs) = (kept_score k f h, still_scored rest hs fs)

    behind-IsConsistent : IsSound behind
    behind-IsConsistent = record {
      ascending = sound.ascending;
      distinct = subst IsDistinct (sym nodes-behind) (
          placed-IsDistinct order (comparable_sound cfg.tx_priority.compare cs) new tx _ fresh
            opened.distinct);
      scored = subst (All (λ e. HasScore behind.scores e.0)) (sym nodes-behind) (
          All-placed order (comparable_sound cfg.tx_priority.compare cs)
            (λ e. HasScore behind.scores e.0) new tx _
            (record {
              score = new;
              is_there =
                  lookup-update same_score (key.sender, key.nonce) new _
                    (same_score_self key.sender key.nonce);
              same_priority = refl;
              same_weight = refl;
            })
            fresh (still_scored _ opened.scored fresh));
      same_txs = λ t m. sound.same_txs t m ∙ sym (contents-behind t m);
      held = λ t m score h. elim (Bool-cases (same_score (t, m) (key.sender, key.nonce))) [
        | inl y ↦ (
          tx,
          contents-behind t m
              ∙ ap (λ (i : String × ℕ). txs_of mp i.0 i.1)
                  (score_eq (t, m) (key.sender, key.nonce) y)
              ∙ has_tx,
        )
        | inr f ↦
            let (w, g) = sound.held t m score (sym (score-behind t m f) ∙ h) in
            (w, contents-behind t m ∙ g)
      ];
    }

  -- What the rounds to come need of a mempool.
  abbrev pub IsReady : M → TxMeta C × Tx → Type 0
  IsReady mp e = HasScore mp.scores (e.0) × (txs_of mp (e.0).sender (e.0).nonce ≡ some e.1)

  still-IsReady :
      (key : TxMeta C) (weight : C) (tx : Tx) (mp : M) (sound : IsSound mp)
      (has_score : HasScore mp.scores key) (has_tx : txs_of mp key.sender key.nonce ≡ some tx)
      (xs : List (TxMeta C × Tx))
      → All (IsReady mp) xs
      → IsFresh key.sender key.nonce xs
      → All (IsReady (behind key weight tx mp sound has_score has_tx)) xs
  still-IsReady key weight tx mp sound has_score has_tx [] a f = tt
  still-IsReady key weight tx mp sound has_score has_tx ((k, w) ∷ rest) ((h, e), hs) (f, fs) = (
    (
      kept_score key weight tx mp sound has_score has_tx k f h,
      contents-behind key weight tx mp sound has_score has_tx k.sender k.nonce ∙ e,
    ),
    still-IsReady key weight tx mp sound has_score has_tx rest hs fs,
  )

  abbrev pub Keeps : M → M → Type 0
  Keeps mp mp' = IsSound mp' × ((t : String) (m : ℕ) → txs_of mp' t m ≡ txs_of mp t m)

  pub reorder_loop-Keeps :
      (start mp : M) (xs : List (TxMeta C × Tx))
      → IsSound mp
      → IsDistinct xs
      → All (IsReady mp) xs
      → Keeps mp (
          reorder_loop sdk cs cfg by_priority by_nonce
            (reordering sdk cs cfg by_priority by_nonce start xs)
            mp)
  unfolding reorder_loop reordering
  reorder_loop-Keeps start mp [] sound d a = (sound, λ t m. refl)
  reorder_loop-Keeps start mp ((key, tx) ∷ rest) sound d ((h, e), hs) =
      elim (Bool-cases (
        ltb_ℤ (pos 1)
          (count_of sdk cs cfg by_priority by_nonce key.priority start.priority_counts))) [
            | inr f ↦ rw (f, reordering) (reorder_loop-Keeps start mp rest sound d.1 hs)
            | inl y ↦
                let weight =
                  sender_weight sdk cs cfg by_priority by_nonce
                    (element_of sdk cs cfg by_priority by_nonce key start) in
                let (s, c) =
                  reorder_loop-Keeps start (behind key weight tx mp sound h e) rest
                    (behind-IsConsistent key weight tx mp sound h e) d.1
                    (still-IsReady key weight tx mp sound h e rest hs d.0) in
                rw (y, reordering, reorder_loop)
                  (s, λ t m. c t m ∙ contents-behind key weight tx mp sound h e t m)
          ]
