-- ===== src/PriorityNonce/Ends.antt =====
-- The iterator of blockbuster/priority_nonce.go comes to an end.
use pob.Prelude.{
  ℕ, zero, suc, ◌+◌, ◌≤◌, ◌<◌, ◌≡◌, refl, arith, true, Option, some, List, [], ◌∷◌, length, inl,
  inr, str_eq, eq_iff,
}
use pob.Prelude.Maps.{lookup-update}
use pob.Prelude.Outcome.{Outcome, ok}
use pob.Sdk.{Sdk, Tx, SkipListOps}
use pob.PriorityNonce.Defs.{
  Comparables, PriorityNonceMempoolConfig, TxMeta, PriorityNonceMempool, nonce_compare,
  skiplist_comparable,
}
use pob.PriorityNonce.Iterate.{
  PriorityNonceIterator, at_node, moved, iterate_priority, next, iterator_tx, drain,
}
use pob.PriorityNonce.Drained.{
  Cursors, N, ahead, total, measure, has_index, IsIndexed, IsPlaced, Steps, at_node-cases,
  at_node-some, ahead-moved, total-le,
}

module _ (sdk : Sdk) {C : Type 0} (cs : Comparables C) (cfg : PriorityNonceMempoolConfig sdk C)
    (by_priority : SkipListOps Tx (skiplist_comparable cfg.tx_priority.compare cs))
    (by_nonce : SkipListOps Tx (nonce_compare cs))
    (mp : PriorityNonceMempool sdk cs cfg by_priority by_nonce) where
  moved-IsPlaced :
      (node : TxMeta C) (rest : N sdk cs cfg by_priority by_nonce mp)
      (cursors : Cursors sdk cs cfg by_priority by_nonce mp)
      (cursor : N sdk cs cfg by_priority by_nonce mp)
      → 0 < length cursor
      → has_index sdk cs cfg by_priority by_nonce mp node ≡ true
      → IsIndexed sdk cs cfg by_priority by_nonce mp rest
      → IsPlaced sdk cs cfg by_priority by_nonce mp
          (moved sdk cs cfg by_priority by_nonce mp node rest cursors cursor)
  moved-IsPlaced node rest cursors [] p h hs = absurd (omega (arith, p))
  moved-IsPlaced node rest cursors ((key, tx) ∷ more) p h hs = record {
    key = key;
    tx = tx;
    more = more;
    stands =
        lookup-update str_eq node.sender ((key, tx) ∷ more) cursors
          ((eq_iff node.sender node.sender).1 refl);
    node_indexed = h;
    rest_indexed = hs;
  }

  moved-Steps :
      (node : TxMeta C) (rest : N sdk cs cfg by_priority by_nonce mp)
      (cursors : Cursors sdk cs cfg by_priority by_nonce mp)
      (cursor : N sdk cs cfg by_priority by_nonce mp)
      → at_node sdk cs cfg by_priority by_nonce mp node rest cursors ≡ ok (some cursor)
      → has_index sdk cs cfg by_priority by_nonce mp node ≡ true
      → IsIndexed sdk cs cfg by_priority by_nonce mp rest
      → Steps sdk cs cfg by_priority by_nonce mp
          (ok (some (moved sdk cs cfg by_priority by_nonce mp node rest cursors cursor)))
          (ahead sdk cs cfg by_priority by_nonce mp cursors node.sender
            + total sdk cs cfg by_priority by_nonce mp cursors rest)
  moved-Steps node rest cursors cursor a h hs =
      let (found, positive) =
        at_node-some sdk cs cfg by_priority by_nonce mp node rest cursors cursor a in
      inr (
        moved sdk cs cfg by_priority by_nonce mp node rest cursors cursor,
        refl,
        moved-IsPlaced node rest cursors cursor positive h hs,
        omega (
          arith,
          ahead-moved sdk cs cfg by_priority by_nonce mp cursors node.sender cursor found positive,
          total-le sdk cs cfg by_priority by_nonce mp cursors node.sender cursor found positive
              rest,
        ),
      )

  weaker :
      (r : Outcome (Option (PriorityNonceIterator sdk cs cfg by_priority by_nonce))) (m n : ℕ)
      → m ≤ n
      → Steps sdk cs cfg by_priority by_nonce mp r m
      → Steps sdk cs cfg by_priority by_nonce mp r n
  weaker r m n le (inl e) = inl e
  weaker r m n le (inr (i, e, p, lt)) = inr (i, e, p, omega (arith, le, lt))

  pub iterate_priority-Steps :
      (cursors : Cursors sdk cs cfg by_priority by_nonce mp)
      (nodes : N sdk cs cfg by_priority by_nonce mp)
      → IsIndexed sdk cs cfg by_priority by_nonce mp nodes
      → Steps sdk cs cfg by_priority by_nonce mp
          (iterate_priority sdk cs cfg by_priority by_nonce mp cursors nodes)
          (total sdk cs cfg by_priority by_nonce mp cursors nodes)
  unfolding iterate_priority
  iterate_priority-Steps cursors [] hs = inl refl
  iterate_priority-Steps cursors ((node, tx) ∷ rest) (h, hs) =
      elim (at_node-cases sdk cs cfg by_priority by_nonce mp node rest cursors h) [
        | inl e ↦
            rw (e, iterate_priority)
              (weaker (iterate_priority sdk cs cfg by_priority by_nonce mp cursors rest)
                (total sdk cs cfg by_priority by_nonce mp cursors rest)
                (ahead sdk cs cfg by_priority by_nonce mp cursors node.sender
                  + total sdk cs cfg by_priority by_nonce mp cursors rest)
                (omega arith) (iterate_priority-Steps cursors rest hs))
        | inr (cursor, e) ↦ rw (e, iterate_priority) (moved-Steps node rest cursors cursor e h hs)
      ]

  next-Steps :
      (i : PriorityNonceIterator sdk cs cfg by_priority by_nonce)
      → IsPlaced sdk cs cfg by_priority by_nonce mp i
      → Steps sdk cs cfg by_priority by_nonce mp
          (next sdk cs cfg by_priority by_nonce mp i)
          (measure sdk cs cfg by_priority by_nonce mp i)
  unfolding next
  next-Steps i p =
      elim (at_node-cases sdk cs cfg by_priority by_nonce mp i.node i.rest i.sender_cursors
        p.node_indexed) [
          | inl e ↦
              rw (e, next)
                (weaker
                  (iterate_priority sdk cs cfg by_priority by_nonce mp i.sender_cursors i.rest)
                  (total sdk cs cfg by_priority by_nonce mp i.sender_cursors i.rest)
                  (measure sdk cs cfg by_priority by_nonce mp i) (omega arith)
                  (iterate_priority-Steps i.sender_cursors i.rest p.rest_indexed))
          | inr (cursor, e) ↦
              rw (e, next)
                (moved-Steps i.node i.rest i.sender_cursors cursor e p.node_indexed p.rest_indexed)
        ]

  -- Draining an iterator that stands at an element, and all of whose nodes' senders have an index, takes no more rounds than
  -- one and what is ahead of it: with so much fuel it gives a list, of at most this length.
  pub drain_ends :
      (fuel : ℕ) (i : PriorityNonceIterator sdk cs cfg by_priority by_nonce)
      → IsPlaced sdk cs cfg by_priority by_nonce mp i
      → measure sdk cs cfg by_priority by_nonce mp i < fuel
      → (txs : List Tx) × (drain sdk cs cfg by_priority by_nonce mp fuel (some i) ≡ ok (some txs))
        × (length txs ≤ suc (measure sdk cs cfg by_priority by_nonce mp i))
  unfolding drain iterator_tx
  drain_ends zero i p lt = absurd (omega (arith, lt))
  drain_ends (suc fuel) i p lt = elim (next-Steps i p) [
    | inl e ↦ (p.tx ∷ [], rw (p.stands, drain, iterator_tx, e) refl, omega arith)
    | inr (i', e, p', less) ↦
        let (txs, d, b) = drain_ends fuel i' p' (omega (arith, lt, less)) in
        (p.tx ∷ txs, rw (p.stands, drain, iterator_tx, e) (rw d refl), omega (arith, b, less))
  ]
