-- ===== src/PriorityNonce/Iterate.antt =====
-- The iterator of blockbuster/priority_nonce.go, and Select, which breaks ties of priority first. An element of a skip list,
-- a pointer in Go, is the list of the elements from it on: the index does not change during an iteration.
use pob.Prelude.{
  ℕ, zero, suc, Bool, true, false, String, Option, none, some, List, [], ◌∷◌, if◌then◌else◌, str_eq,
}
use pob.Prelude.Int.{pos, ltb_ℤ}
use pob.Prelude.Maps.{lookup, update}
use pob.Prelude.Outcome.{Outcome, ok, err, panic, ◌>>=◌}
use pob.Sdk.{Sdk, Tx, SkipListOps}
use pob.Sdk.Skip.{same_key}
use pob.PriorityNonce.Defs.{
  Comparables, PriorityNonceMempoolConfig, TxMeta, PriorityNonceMempool, nonce_compare,
  skiplist_comparable, same_score,
}

-- The element behind this one.
abbrev pub next_element {ℓ} : {A : Type ℓ} → List A → List A
next_element [] = []
next_element (x ∷ xs) = xs

module _ (sdk : Sdk) {C : Type 0} (cs : Comparables C) (cfg : PriorityNonceMempoolConfig sdk C)
    (by_priority : SkipListOps Tx (skiplist_comparable cfg.tx_priority.compare cs))
    (by_nonce : SkipListOps Tx (nonce_compare cs)) where
  abbrev pub Nodes : Type 0
  Nodes = List (TxMeta C × Tx)

  -- PriorityNonceIterator, over a mempool.
  pub record PriorityNonceIterator : Type 0 where
    pub node : TxMeta C
    pub rest : Nodes
    pub sender_cursors : List (String × Nodes)

  module _ (mp : PriorityNonceMempool sdk cs cfg by_priority by_nonce) where
    -- The element of the sender's index to look at; a sender without an index is a nil pointer.
    unfoldable pub cursor_of : String → List (String × Nodes) → Outcome Nodes
    cursor_of sender cursors = elim (lookup str_eq sender cursors) [
      | some cursor ↦ ok (next_element cursor)
      | none ↦ elim (lookup str_eq sender mp.sender_indices) [
        | some sender_index ↦ ok (by_nonce.elements sender_index)
        | none ↦ panic
      ]
    ]

    abbrev pub weight_of : TxMeta C → C
    weight_of key = elim (lookup same_score (key.sender, key.nonce) mp.scores) [
      | some score ↦ score.weight
      | none ↦ cs.zero
    ]

    -- Whether the element must wait for the next priority node.
    unfoldable pub must_wait : TxMeta C → Nodes → Bool
    must_wait key [] = false
    must_wait key ((next_node, tx) ∷ rest) =
        if ltb_ℤ (cfg.tx_priority.compare key.priority next_node.priority) (pos 0)
        then true
        else if same_key cfg.tx_priority.compare key.priority next_node.priority
        then ltb_ℤ (cfg.tx_priority.compare (weight_of key) next_node.weight) (pos 0)
        else false

    -- The sender's element, where it may be handed out at this node.
    unfoldable pub ready : Nodes → Nodes → Option Nodes
    ready rest [] = none
    ready rest ((key, tx) ∷ more) = if must_wait key rest then none else some ((key, tx) ∷ more)

    unfoldable pub at_node : TxMeta C → Nodes → List (String × Nodes) → Outcome (Option Nodes)
    at_node node rest cursors = do cursor ← cursor_of node.sender cursors; ok (ready rest cursor)

    abbrev pub moved : TxMeta C → Nodes → List (String × Nodes) → Nodes → PriorityNonceIterator
    moved node rest cursors cursor = record {
      node = node;
      rest = rest;
      sender_cursors = update str_eq node.sender cursor cursors;
    }

    -- iteratePriority, from the nodes that are left.
    unfoldable pub iterate_priority :
        List (String × Nodes) → Nodes → Outcome (Option PriorityNonceIterator)
    iterate_priority cursors [] = ok none
    iterate_priority cursors ((node, tx) ∷ rest) =
        let behind = iterate_priority cursors rest in
        elim (at_node node rest cursors) [
          | ok found ↦ elim found [
            | some cursor ↦ ok (some (moved node rest cursors cursor))
            | none ↦ behind
          ]
          | err e ↦ err e
          | panic ↦ panic
        ]

    -- Next
    unfoldable pub next : PriorityNonceIterator → Outcome (Option PriorityNonceIterator)
    next i = elim (at_node i.node i.rest i.sender_cursors) [
      | ok found ↦ elim found [
        | some cursor ↦ ok (some (moved i.node i.rest i.sender_cursors cursor))
        | none ↦ iterate_priority i.sender_cursors i.rest
      ]
      | err e ↦ err e
      | panic ↦ panic
    ]

    -- Tx
    abbrev pub first_tx : Nodes → Outcome Tx
    first_tx [] = panic
    first_tx ((key, tx) ∷ more) = ok tx

    unfoldable pub iterator_tx : PriorityNonceIterator → Outcome Tx
    iterator_tx i = elim (lookup str_eq i.node.sender i.sender_cursors) [
      | some cursor ↦ first_tx cursor
      | none ↦ panic
    ]

    -- `for ; i != nil; i = i.Next()`; `none` where the fuel is used up.
    unfoldable pub drain : ℕ → Option PriorityNonceIterator → Outcome (Option (List Tx))
    drain fuel none = ok (some [])
    drain zero (some i) = ok none
    drain (suc fuel) (some i) = do
      tx ← iterator_tx i
      following ← next i
      rest ← drain fuel following
      elim rest [ some txs ↦ ok (some (tx ∷ txs)) | none ↦ ok none ]
