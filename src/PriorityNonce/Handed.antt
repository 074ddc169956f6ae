-- ===== src/PriorityNonce/Handed.antt =====
-- What going through the iterator of blockbuster/priority_nonce.go hands out: of each sender the next element of its index.
use pob.Prelude.{
  ℕ, zero, suc, ◌<◌, ◌≡◌, refl, sym, ap, ◌∙◌, subst, arith, false, String, Option, none, some, List,
  [], ◌∷◌, length, Option-cases, inl, inr, str_eq, eq_iff,
}
use pob.Prelude.Maps.{lookup, update, lookup-update, lookup-update-ne}
use pob.Prelude.Outcome.{ok, Outcome-cases, >>=-eq-ok}
use pob.Sdk.{Sdk, Tx, SkipListOps}
use pob.PriorityNonce.Defs.{
  Comparables, PriorityNonceMempoolConfig, TxMeta, PriorityNonceMempool, nonce_compare,
  skiplist_comparable, or_new,
}
use pob.PriorityNonce.Consistent.{own_txs}
use pob.PriorityNonce.Opened.{str_apart}
use pob.PriorityNonce.Iterate.{
  PriorityNonceIterator, next_element, cursor_of, at_node, moved, iterate_priority, next,
  iterator_tx, drain,
}
use pob.PriorityNonce.Drained.{Cursors, N, at_node-some}

-- Each transaction is the first of what is left of a sender's, which it is then taken from.
pub data HandsOut {C : Type 0} : (String → List (TxMeta C × Tx)) → List Tx → Type 0 where
  handed_all : (left : String → List (TxMeta C × Tx)) → HandsOut left []
  handing :
      (left left' : String → List (TxMeta C × Tx)) (s : String) (key : TxMeta C) (tx : Tx)
      (txs : List Tx)
      → left s ≡ (key, tx) ∷ left' s
      → ((t : String) → str_eq t s ≡ false → left' t ≡ left t)
      → HandsOut left' txs
      → HandsOut left (tx ∷ txs)

-- What is behind a cursor, all where there is none.
abbrev behind_cursor {ℓ} : {A : Type ℓ} → Option (List A) → List A → List A
behind_cursor (some cursor) all = next_element cursor
behind_cursor none all = all

module _ (sdk : Sdk) {C : Type 0} (cs : Comparables C) (cfg : PriorityNonceMempoolConfig sdk C)
    (by_priority : SkipListOps Tx (skiplist_comparable cfg.tx_priority.compare cs))
    (by_nonce : SkipListOps Tx (nonce_compare cs))
    (mp : PriorityNonceMempool sdk cs cfg by_priority by_nonce) where
  abbrev Iterator : Type 0
  Iterator = PriorityNonceIterator sdk cs cfg by_priority by_nonce

  abbrev Places : Type 0
  Places = Cursors sdk cs cfg by_priority by_nonce mp

  -- What the cursors have not come to of a sender's transactions.
  abbrev pub left : Places → String → N sdk cs cfg by_priority by_nonce mp
  left cursors s =
      behind_cursor (lookup str_eq s cursors) (own_txs sdk cs cfg by_priority by_nonce s mp)

  cursor_of-left :
      (s : String) (cursors : Places) (cursor : N sdk cs cfg by_priority by_nonce mp)
      → cursor_of sdk cs cfg by_priority by_nonce mp s cursors ≡ ok cursor
      → left cursors s ≡ cursor
  unfolding cursor_of
  cursor_of-left s cursors cursor h = elim (Option-cases (lookup str_eq s cursors)) [
    | inr (c, e) ↦
        ap (λ o. behind_cursor o (own_txs sdk cs cfg by_priority by_nonce s mp)) e
        ∙ cc (rw (e, cursor_of) at h)
    | inl e ↦
        ap (λ o. behind_cursor o (own_txs sdk cs cfg by_priority by_nonce s mp)) e
        ∙ elim (Option-cases (lookup str_eq s mp.sender_indices)) [
          | inr (index, x) ↦
              ap (λ o. by_nonce.elements (or_new sdk cs cfg by_priority by_nonce o)) x
              ∙ cc (rw (e, cursor_of, x) at h)
          | inl x ↦ absurd (cc (rw (e, cursor_of, x) at h))
        ]
  ]

  -- The iterator came from the cursors by a step of its sender's.
  pub record IsStepOf (cursors : Places) (i : Iterator) : Type 0 where
    pub key : TxMeta C
    pub tx : Tx
    pub more : N sdk cs cfg by_priority by_nonce mp
    pub was_left : left cursors (i.node).sender ≡ (key, tx) ∷ more
    pub steps : i.sender_cursors ≡ update str_eq (i.node).sender ((key, tx) ∷ more) cursors

  moved-IsStepOf :
      (node : TxMeta C) (rest : N sdk cs cfg by_priority by_nonce mp) (cursors : Places)
      (cursor : N sdk cs cfg by_priority by_nonce mp)
      → at_node sdk cs cfg by_priority by_nonce mp node rest cursors ≡ ok (some cursor)
      → IsStepOf cursors (moved sdk cs cfg by_priority by_nonce mp node rest cursors cursor)
  moved-IsStepOf node rest cursors cursor a =
      let (found, positive) =
        at_node-some sdk cs cfg by_priority by_nonce mp node rest cursors cursor a in
      of_cursor cursor positive (cursor_of-left node.sender cursors cursor found)
    where
      of_cursor :
          (cursor : N sdk cs cfg by_priority by_nonce mp)
          → 0 < length cursor
          → left cursors node.sender ≡ cursor
          → IsStepOf cursors (moved sdk cs cfg by_priority by_nonce mp node rest cursors cursor)
      of_cursor [] p e = absurd (omega (arith, p))
      of_cursor ((key, tx) ∷ more) p e = record {
        key = key;
        tx = tx;
        more = more;
        was_left = e;
        steps = refl;
      }

  pub iterate_priority-IsStepOf :
      (cursors : Places) (nodes : N sdk cs cfg by_priority by_nonce mp) (i : Iterator)
      → iterate_priority sdk cs cfg by_priority by_nonce mp cursors nodes ≡ ok (some i)
      → IsStepOf cursors i
  unfolding iterate_priority
  iterate_priority-IsStepOf cursors [] i h = absurd (cc h)
  iterate_priority-IsStepOf cursors ((node, tx) ∷ rest) i h =
      elim (Outcome-cases (at_node sdk cs cfg by_priority by_nonce mp node rest cursors)) [
        | inl (found, e) ↦ elim (Option-cases found) [
          | inl f ↦ iterate_priority-IsStepOf cursors rest i (rw (e, iterate_priority, f) at h)
          | inr (cursor, f) ↦
              subst (IsStepOf cursors) (cc (rw (e, iterate_priority, f) at h))
                (moved-IsStepOf node rest cursors cursor (e ∙ ap ok f))
        ]
        | inr (inl (x, e)) ↦ absurd (cc (rw (e, iterate_priority) at h))
        | inr (inr e) ↦ absurd (cc (rw (e, iterate_priority) at h))
      ]

  next-IsStepOf :
      (i i' : Iterator)
      → next sdk cs cfg by_priority by_nonce mp i ≡ ok (some i')
      → IsStepOf i.sender_cursors i'
  unfolding next
  next-IsStepOf i i' h =
      elim (Outcome-cases
        (at_node sdk cs cfg by_priority by_nonce mp i.node i.rest i.sender_cursors)) [
          | inl (found, e) ↦ elim (Option-cases found) [
            | inl f ↦ iterate_priority-IsStepOf i.sender_cursors i.rest i' (rw (e, next, f) at h)
            | inr (cursor, f) ↦
                subst (IsStepOf i.sender_cursors) (cc (rw (e, next, f) at h))
                  (moved-IsStepOf i.node i.rest i.sender_cursors cursor (e ∙ ap ok f))
          ]
          | inr (inl (x, e)) ↦ absurd (cc (rw (e, next) at h))
          | inr (inr e) ↦ absurd (cc (rw (e, next) at h))
        ]

  -- What is left behind a step.
  module _ (cursors : Places) (i : Iterator) (p : IsStepOf cursors i) where
    pub stands : lookup str_eq (i.node).sender i.sender_cursors ≡ some ((p.key, p.tx) ∷ p.more)
    stands =
        ap (lookup str_eq (i.node).sender) p.steps
        ∙ lookup-update str_eq (i.node).sender _ cursors ((eq_iff _ _).1 refl)

    takes : left cursors (i.node).sender ≡ (p.key, p.tx) ∷ left i.sender_cursors (i.node).sender
    takes =
        p.was_left
        ∙ ap
            (λ o.
              (p.key, p.tx)
              ∷ behind_cursor o (own_txs sdk cs cfg by_priority by_nonce (i.node).sender mp))
            (sym stands)

    others :
        (t : String) → str_eq t (i.node).sender ≡ false → left i.sender_cursors t ≡ left cursors t
    others t f =
        ap (λ x. left x t) p.steps
        ∙ ap (λ o. behind_cursor o (own_txs sdk cs cfg by_priority by_nonce t mp))
            (lookup-update-ne str_eq t (i.node).sender ((p.key, p.tx) ∷ p.more) cursors
              (λ j. str_apart t (i.node).sender j f) f)

  drain-none : (fuel : ℕ) → drain sdk cs cfg by_priority by_nonce mp fuel none ≡ ok (some [])
  unfolding drain
  drain-none fuel = refl

  pub drain-HandsOut :
      (fuel : ℕ) (cursors : Places) (i : Iterator) (txs : List Tx)
      → IsStepOf cursors i
      → drain sdk cs cfg by_priority by_nonce mp fuel (some i) ≡ ok (some txs)
      → HandsOut (left cursors) txs
  unfolding drain iterator_tx
  drain-HandsOut zero cursors i txs p h = absurd (cc h)
  drain-HandsOut (suc fuel) cursors i txs p h =
      let (tx, t, h1) = >>=-eq-ok (iterator_tx sdk cs cfg by_priority by_nonce mp i) _ h in
      let (following, f, h2) = >>=-eq-ok (next sdk cs cfg by_priority by_nonce mp i) _ h1 in
      let (rest, r, h3) =
        >>=-eq-ok (drain sdk cs cfg by_priority by_nonce mp fuel following) _ h2 in
      elim (Option-cases rest) [
        | inl e ↦ absurd (cc (rw e at h3))
        | inr (txs', e) ↦
            subst (HandsOut (left cursors))
              (cc (rw e at h3, rw (stands cursors i p, iterator_tx) at t))
              (handing (left cursors) (left i.sender_cursors) (i.node).sender p.key p.tx txs'
                (takes cursors i p) (others cursors i p)
                (elim (Option-cases following) [
                  | inl n ↦
                      subst (HandsOut (left i.sender_cursors))
                        (cc (
                          drain-none fuel,
                          ap (drain sdk cs cfg by_priority by_nonce mp fuel) n,
                          r,
                          e,
                        ))
                        (handed_all _)
                  | inr (i', n) ↦
                      drain-HandsOut fuel i.sender_cursors i' txs'
                        (next-IsStepOf i i' (f ∙ ap ok n))
                        (sym (ap (drain sdk cs cfg by_priority by_nonce mp fuel) n) ∙ r ∙ ap ok e)
                ]))
      ]
