-- ===== src/PriorityNonce/Ties.antt =====
-- blockbuster/priority_nonce.go: senderWeight, reorderPriorityTies and Select. A txMeta's pointer to its element of the
-- sender's index is followed by the nonce; a removal takes both away together.
use pob.Prelude.{ℕ, ◌==◌, Option, none, some, List, [], ◌∷◌, if◌then◌else◌, str_eq}
use pob.Prelude.Int.{pos, ltb_ℤ}
use pob.Prelude.Maps.{lookup, update, erase}
use pob.Prelude.Outcome.{Outcome, ok}
use pob.Sdk.{Sdk, Tx, SkipListOps}
use pob.Sdk.Skip.{same_key}
use pob.PriorityNonce.Defs.{
  Comparables, PriorityNonceMempoolConfig, TxMeta, PriorityNonceMempool, nonce_compare,
  skiplist_comparable, count_tx, count_of, same_score,
}
use pob.PriorityNonce.Iterate.{Nodes, PriorityNonceIterator, iterate_priority}

module _ (sdk : Sdk) {C : Type 0} (cs : Comparables C) (cfg : PriorityNonceMempoolConfig sdk C)
    (by_priority : SkipListOps Tx (skiplist_comparable cfg.tx_priority.compare cs))
    (by_nonce : SkipListOps Tx (nonce_compare cs)) where
  abbrev N : Type 0
  N = Nodes sdk cs cfg by_priority by_nonce

  -- The loop of senderWeight.
  unfoldable pub weight_loop : C → N → C
  weight_loop weight [] = weight
  weight_loop weight ((key, tx) ∷ rest) =
      weight_loop
        (if same_key cfg.tx_priority.compare key.priority weight then weight else key.priority) rest

  -- senderWeight, of the elements from the cursor on.
  unfoldable pub sender_weight : N → C
  sender_weight [] = cfg.tx_priority.min_value
  sender_weight ((key, tx) ∷ rest) = weight_loop key.priority rest

  unfoldable pub from_nonce : ℕ → N → N
  from_nonce n [] = []
  from_nonce n ((key, tx) ∷ rest) =
      let behind = from_nonce n rest in if key.nonce == n then (key, tx) ∷ rest else behind

  abbrev pub element_of : TxMeta C → PriorityNonceMempool sdk cs cfg by_priority by_nonce → N
  element_of key mp = elim key.sender_element [
    | some n ↦ elim (lookup str_eq key.sender mp.sender_indices) [
      | some sender_index ↦ from_nonce n (by_nonce.elements sender_index)
      | none ↦ []
    ]
    | none ↦ []
  ]

  -- reorderKey
  pub record ReorderKey : Type 0 where
    pub delete_key : TxMeta C
    pub insert_key : TxMeta C
    pub tx : Tx

  -- The first loop of reorderPriorityTies.
  unfoldable pub reordering :
      PriorityNonceMempool sdk cs cfg by_priority by_nonce → N → List ReorderKey
  reordering mp [] = []
  reordering mp ((key, tx) ∷ rest) =
      let behind = reordering mp rest in
      if ltb_ℤ (pos 1) (count_of sdk cs cfg by_priority by_nonce key.priority mp.priority_counts)
      then record {
        delete_key = key;
        insert_key = record key { weight = sender_weight (element_of key mp) };
        tx = tx;
      }
        ∷ behind
      else behind

  -- The second one.
  unfoldable pub reorder_loop :
      List ReorderKey
      → PriorityNonceMempool sdk cs cfg by_priority by_nonce
      → PriorityNonceMempool sdk cs cfg by_priority by_nonce
  reorder_loop [] mp = mp
  reorder_loop (k ∷ rest) mp =
      let old = k.delete_key in
      let new = k.insert_key in
      reorder_loop rest (record mp {
        priority_index = by_priority.set new k.tx (by_priority.remove old mp.priority_index);
        scores =
            update same_score (new.sender, new.nonce) new
              (erase same_score (old.sender, old.nonce) mp.scores);
      })

  -- reorderPriorityTies
  unfoldable pub reorder_priority_ties :
      PriorityNonceMempool sdk cs cfg by_priority by_nonce
      → PriorityNonceMempool sdk cs cfg by_priority by_nonce
  reorder_priority_ties mp =
      reorder_loop (reordering mp (by_priority.elements mp.priority_index)) mp

  -- Select
  unfoldable pub select :
      PriorityNonceMempool sdk cs cfg by_priority by_nonce
      → Outcome (Option (PriorityNonceIterator sdk cs cfg by_priority by_nonce))
        × PriorityNonceMempool sdk cs cfg by_priority by_nonce
  select mp = if count_tx sdk cs cfg by_priority by_nonce mp == 0 then (ok none, mp) else (
    iterate_priority sdk cs cfg by_priority by_nonce (reorder_priority_ties mp) []
        (by_priority.elements (reorder_priority_ties mp).priority_index),
    reorder_priority_ties mp,
  )
