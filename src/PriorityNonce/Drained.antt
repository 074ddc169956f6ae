-- ===== src/PriorityNonce/Drained.antt =====
-- What is still ahead of the iterator of blockbuster/priority_nonce.go.
use pob.Prelude.{
  ℕ, suc, ◌+◌, ◌≤◌, ◌<◌, ◌≡◌, refl, sym, ap, ◌∙◌, subst, arith, Bool, true, false, String, Option,
  none, some, List, [], ◌∷◌, length, sum_by, All, ◌⊎◌, str_eq, eq_iff, Bool-cases, Option-cases,
  inl, inr,
}
use pob.Prelude.Maps.{lookup, update, lookup-update, lookup-update-ne}
use pob.Prelude.Outcome.{Outcome, ok, err, panic, >>=-eq-ok}
use pob.Sdk.{Sdk, Tx, SkipListOps}
use pob.PriorityNonce.Defs.{
  Comparables, PriorityNonceMempoolConfig, TxMeta, PriorityNonceMempool, nonce_compare,
  skiplist_comparable,
}
use pob.PriorityNonce.Iterate.{
  next_element, Nodes, PriorityNonceIterator, cursor_of, must_wait, ready, at_node,
}

abbrev pub is_some {ℓ} : {A : Type ℓ} → Option A → Bool
is_some (some a) = true
is_some none = false

module _ (sdk : Sdk) {C : Type 0} (cs : Comparables C) (cfg : PriorityNonceMempoolConfig sdk C)
    (by_priority : SkipListOps Tx (skiplist_comparable cfg.tx_priority.compare cs))
    (by_nonce : SkipListOps Tx (nonce_compare cs))
    (mp : PriorityNonceMempool sdk cs cfg by_priority by_nonce) where
  abbrev pub Cursors : Type 0
  Cursors = List (String × Nodes sdk cs cfg by_priority by_nonce)

  abbrev pub N : Type 0
  N = Nodes sdk cs cfg by_priority by_nonce

  -- How many elements of the sender's index are still ahead.
  abbrev length_of : Outcome N → ℕ
  length_of (ok nodes) = length nodes
  length_of (err e) = 0
  length_of panic = 0

  abbrev pub ahead : Cursors → String → ℕ
  ahead cursors sender = length_of (cursor_of sdk cs cfg by_priority by_nonce mp sender cursors)

  -- What is ahead of the senders of the nodes, with multiplicities.
  abbrev pub total : Cursors → N → ℕ
  total cursors nodes = sum_by (λ n. ahead cursors (n.0).sender) nodes

  pub at_node-some :
      (node : TxMeta C) (rest : N) (cursors : Cursors) (cursor : N)
      → at_node sdk cs cfg by_priority by_nonce mp node rest cursors ≡ ok (some cursor)
      → (cursor_of sdk cs cfg by_priority by_nonce mp node.sender cursors ≡ ok cursor)
        × (0 < length cursor)
  unfolding at_node ready
  at_node-some node rest cursors cursor h =
      let (found, c, r) =
        >>=-eq-ok (cursor_of sdk cs cfg by_priority by_nonce mp node.sender cursors) _ h in
      of_ready found c (cc r)
    where
      of_ready :
          (found : N)
          → cursor_of sdk cs cfg by_priority by_nonce mp node.sender cursors ≡ ok found
          → ready sdk cs cfg by_priority by_nonce mp rest found ≡ some cursor
          → (cursor_of sdk cs cfg by_priority by_nonce mp node.sender cursors ≡ ok cursor)
            × (0 < length cursor)
      of_ready [] c r = absurd (cc r)
      of_ready ((key, tx) ∷ more) c r =
          elim (Bool-cases (must_wait sdk cs cfg by_priority by_nonce mp key rest)) [
            | inl y ↦ absurd (cc (rw (y, ready) at r))
            | inr n ↦ same ((key, tx) ∷ more) c (omega arith) (cc (rw (n, ready) at r))
          ]
        where
          same :
              (found : N)
              → cursor_of sdk cs cfg by_priority by_nonce mp node.sender cursors ≡ ok found
              → 0 < length found
              → found ≡ cursor
              → (cursor_of sdk cs cfg by_priority by_nonce mp node.sender cursors ≡ ok cursor)
                × (0 < length cursor)
          same found c p e = (c ∙ ap ok e, subst (λ x. 0 < length x) e p)

  -- Moving the cursor of a sender takes one element of what is ahead of it, and nothing of other senders.
  pub ahead-moved :
      (cursors : Cursors) (sender : String) (cursor : N)
      → cursor_of sdk cs cfg by_priority by_nonce mp sender cursors ≡ ok cursor
      → 0 < length cursor
      → suc (ahead (update str_eq sender cursor cursors) sender) ≤ ahead cursors sender
  unfolding cursor_of
  ahead-moved cursors sender cursor c h =
      rw (lookup-update str_eq sender cursor cursors ((eq_iff sender sender).1 refl), cursor_of)
        (shorter cursor (ap length_of c) h)
    where
      shorter :
          (nodes : N)
          → ahead cursors sender ≡ length nodes
          → 0 < length nodes
          → suc (length (next_element nodes)) ≤ ahead cursors sender
      shorter [] e p = absurd (omega (arith, p))
      shorter (x ∷ xs) e p = omega (arith, e)

  ahead-other :
      (cursors : Cursors) (sender other : String) (cursor : N)
      → str_eq other sender ≡ false
      → ahead (update str_eq sender cursor cursors) other ≡ ahead cursors other
  unfolding cursor_of
  ahead-other cursors sender other cursor ne =
      rw (lookup-update-ne str_eq other sender cursor cursors apart ne, cursor_of) refl
    where
      apart : (j : String) → str_eq sender j ≡ true → str_eq other j ≡ false
      apart j y = subst (λ z. str_eq other z ≡ false) ((eq_iff sender j).0 y) ne

  module _ (cursors : Cursors) (sender : String) (cursor : N)
      (found : cursor_of sdk cs cfg by_priority by_nonce mp sender cursors ≡ ok cursor)
      (positive : 0 < length cursor) where
    ahead-le : (o : String) → ahead (update str_eq sender cursor cursors) o ≤ ahead cursors o
    ahead-le o = elim (Bool-cases (str_eq o sender)) [
      | inl y ↦
          subst (λ z. ahead (update str_eq sender cursor cursors) z ≤ ahead cursors z)
            (sym ((eq_iff o sender).0 y))
            (omega (arith, ahead-moved cursors sender cursor found positive))
      | inr n ↦ omega (arith, ahead-other cursors sender o cursor n)
    ]

    pub total-le :
        (nodes : N) → total (update str_eq sender cursor cursors) nodes ≤ total cursors nodes
    total-le [] = omega arith
    total-le (n ∷ rest) = omega (arith, ahead-le (n.0).sender, total-le rest)

  -- What is ahead of an iterator: of the sender of its node, and of those of the nodes behind it.
  abbrev pub measure : PriorityNonceIterator sdk cs cfg by_priority by_nonce → ℕ
  measure i = ahead i.sender_cursors (i.node).sender + total i.sender_cursors i.rest

  abbrev pub has_index : TxMeta C → Bool
  has_index node = is_some (lookup str_eq node.sender mp.sender_indices)

  abbrev pub IsIndexed : N → Type 0
  IsIndexed = All (λ n. has_index n.0 ≡ true)

  -- An iterator stands at an element that it can hand out, and all senders of its nodes have an index.
  pub record IsPlaced (i : PriorityNonceIterator sdk cs cfg by_priority by_nonce) : Type 0 where
    pub key : TxMeta C
    pub tx : Tx
    pub more : N
    pub stands : lookup str_eq (i.node).sender i.sender_cursors ≡ some ((key, tx) ∷ more)
    pub node_indexed : has_index i.node ≡ true
    pub rest_indexed : IsIndexed i.rest

  -- An iteration step ends, or hands out an iterator with less ahead of it.
  abbrev pub Steps :
      Outcome (Option (PriorityNonceIterator sdk cs cfg by_priority by_nonce)) → ℕ → Type 0
  Steps r n =
      (r ≡ ok none)
      ⊎ (i : PriorityNonceIterator sdk cs cfg by_priority by_nonce) × (r ≡ ok (some i))
        × IsPlaced i
        × (measure i < n)

  pub at_node-cases :
      (node : TxMeta C) (rest : N) (cursors : Cursors)
      → has_index node ≡ true
      → (at_node sdk cs cfg by_priority by_nonce mp node rest cursors ≡ ok none)
        ⊎ (cursor : N) × (at_node sdk cs cfg by_priority by_nonce mp node rest cursors
            ≡ ok (some cursor))
  unfolding at_node cursor_of
  at_node-cases node rest cursors h = elim (Option-cases (lookup str_eq node.sender cursors)) [
    | inr (cursor, e) ↦ rw (e, at_node, cursor_of) (decided (next_element cursor))
    | inl e ↦ elim (Option-cases (lookup str_eq node.sender mp.sender_indices)) [
      | inr (index, x) ↦ rw (e, at_node, cursor_of, x) (decided (by_nonce.elements index))
      | inl x ↦ absurd (cc (rw x at h))
    ]
  ]
    where
      decided :
          (nodes : N)
          → (ok (ready sdk cs cfg by_priority by_nonce mp rest nodes) ≡ ok none)
            ⊎ (cursor : N) × (ok (ready sdk cs cfg by_priority by_nonce mp rest nodes)
                ≡ ok (some cursor))
      decided nodes = elim (Option-cases (ready sdk cs cfg by_priority by_nonce mp rest nodes)) [
        | inl e ↦ inl (ap ok e)
        | inr (cursor, e) ↦ inr (cursor, ap ok e)
      ]
