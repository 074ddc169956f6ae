-- ===== src/Tests/Contents.antt =====
-- The transactions of a priority nonce mempool by sender and nonce, at concrete inputs.
use pob.Prelude.{String, ℕ, ◌≡◌, refl, Option, some, List, [], ◌∷◌}
use pob.Prelude.Int.{pos, add64, sub64, wrap64}
use pob.Prelude.Maps.{lookup, update}
use pob.Prelude.Outcome.{ok, ◌>>=◌}
use pob.Sdk.{Tx}
use pob.Sdk.Skip.{placed, without}
use pob.PriorityNonce.{
  insert, remove, signed_key, first_signature, insert_key, count_tx, new_priority_mempool, put,
  drop_old, skiplist_comparable, next_sender_tx, check_replacement,
}
use pob.PriorityNonce.Iterate.{
  PriorityNonceIterator, drain, iterate_priority, next, at_node, cursor_of, ready, must_wait,
  iterator_tx,
}
use pob.PriorityNonce.Ties.{select, reorder_priority_ties, reordering, reorder_loop}
use pob.PriorityNonce.Drained.{total}
use pob.PriorityNonce.Selected.{Ends}
use pob.PriorityNonce.Handed.{HandsOut}
use pob.PriorityNonce.Ascending.{IsAscending}
use pob.PriorityNonce.Consistent.{IsConsistent, own_txs}
use pob.PriorityNonce.Refined.{IsInserted, insert-IsInserted}
use pob.PriorityNonce.Removed.{IsTaken, remove-IsTaken, IsNext, next_sender_tx-IsNext}
use pob.PriorityNonce.Reachable.{
  Reachable, starting, inserting, Reachable-IsConsistent, Reachable-Ends, Reachable-HandsOut,
}
use pob.Tests.Fixture.{simple_sdk}
use pob.Tests.Blocks.{ctx}
use pob.Tests.Orders.{compare_ℕ-IsOrder}
use pob.Tests.Indices.{natural, sized, by_size, by_nonce, sig, signed_tx, PoolOf, empty}
use pob.Tests.Selections.{of_sender, insert_three}

three_reached : Reachable simple_sdk natural (sized (pos 0)) by_size by_nonce insert_three
three_reached = inserting ctx _ _ (inserting ctx _ _ (inserting ctx _ _ starting))

Reachable-IsConsistent_example :
    IsConsistent simple_sdk natural (sized (pos 0)) by_size by_nonce insert_three
Reachable-IsConsistent_example =
    Reachable-IsConsistent simple_sdk natural (sized (pos 0)) by_size by_nonce compare_ℕ-IsOrder
      insert_three three_reached

abbrev ordered : PoolOf (pos 0)
ordered = reorder_priority_ties simple_sdk natural (sized (pos 0)) by_size by_nonce insert_three

Reachable-Ends_example :
    Ends simple_sdk natural
      (sized (pos 0))
      by_size
      by_nonce
      ordered
      (select simple_sdk natural (sized (pos 0)) by_size by_nonce insert_three).0
      (total simple_sdk natural (sized (pos 0)) by_size by_nonce ordered [] ordered.priority_index)
Reachable-Ends_example =
    Reachable-Ends simple_sdk natural (sized (pos 0)) by_size by_nonce insert_three three_reached

Reachable-HandsOut_example :
    (i : Option (PriorityNonceIterator simple_sdk natural (sized (pos 0)) by_size by_nonce))
    × (fuel : ℕ) × (txs : List Tx) × ((select simple_sdk natural
          (sized (pos 0))
          by_size
          by_nonce
          insert_three).0
        ≡ ok i)
    × (drain simple_sdk natural (sized (pos 0)) by_size by_nonce ordered fuel i ≡ ok (some txs))
    × HandsOut (λ s. own_txs simple_sdk natural (sized (pos 0)) by_size by_nonce s insert_three) txs
    × ((s : String)
        → IsAscending (own_txs simple_sdk natural (sized (pos 0)) by_size by_nonce s insert_three))
Reachable-HandsOut_example =
    Reachable-HandsOut simple_sdk natural (sized (pos 0)) by_size by_nonce insert_three
      three_reached

insert-IsInserted_example :
    IsInserted simple_sdk natural
      (sized (pos 0))
      by_size
      by_nonce
      (simple_sdk.acc_string (1 ∷ []))
      5
      (signed_tx (4 ∷ []))
      insert_three
      (insert simple_sdk natural
        (sized (pos 0))
        by_size
        by_nonce
        ctx
        (signed_tx (4 ∷ []))
        insert_three)
insert-IsInserted_example =
    insert-IsInserted simple_sdk natural (sized (pos 0)) by_size by_nonce compare_ℕ-IsOrder ctx
      (signed_tx (4 ∷ [])) sig [] 1 insert_three refl refl refl Reachable-IsConsistent_example

remove-IsTaken_example :
    IsTaken simple_sdk natural
      (sized (pos 0))
      by_size
      by_nonce
      (simple_sdk.acc_string (1 ∷ []))
      5
      insert_three
      (remove simple_sdk natural (sized (pos 0)) by_size by_nonce (signed_tx (4 ∷ [])) insert_three)
remove-IsTaken_example =
    remove-IsTaken simple_sdk natural (sized (pos 0)) by_size by_nonce compare_ℕ-IsOrder
      (signed_tx (4 ∷ [])) sig [] insert_three refl Reachable-IsConsistent_example

next_sender_tx-IsNext_example :
    IsNext simple_sdk natural
      (sized (pos 0))
      by_size
      by_nonce
      (simple_sdk.acc_string (1 ∷ []))
      insert_three
      (next_sender_tx simple_sdk natural
        (sized (pos 0))
        by_size
        by_nonce
        (simple_sdk.acc_string (1 ∷ []))
        insert_three)
next_sender_tx-IsNext_example =
    next_sender_tx-IsNext simple_sdk natural (sized (pos 0)) by_size by_nonce
      (simple_sdk.acc_string (1 ∷ [])) insert_three Reachable-IsConsistent_example

-- Alice's transaction of size 1 is replaced by one of size 3, while Bob's has size 2.
abbrev replaced : PoolOf (pos 0)
replaced =
    let one =
      (insert simple_sdk natural (sized (pos 0)) by_size by_nonce ctx (of_sender (1 ∷ []) (7 ∷ []))
        (empty (pos 0))).1 in
    let two =
      (insert simple_sdk natural (sized (pos 0)) by_size by_nonce ctx
        (of_sender (2 ∷ []) (8 ∷ 8 ∷ [])) one).1 in
    (insert simple_sdk natural (sized (pos 0)) by_size by_nonce ctx
      (of_sender (1 ∷ []) (7 ∷ 7 ∷ 7 ∷ [])) two).1

-- Alice's element in her index keeps the priority that it had, so that it waits at its own node, and is never handed out.
replaced_left_out :
    ((select simple_sdk natural (sized (pos 0)) by_size by_nonce replaced).0
      >>= drain simple_sdk natural (sized (pos 0)) by_size by_nonce replaced 4)
    ≡ ok (some (of_sender (2 ∷ []) (8 ∷ 8 ∷ []) ∷ []))
unfolding select reorder_priority_ties reordering reorder_loop insert signed_key first_signature
    insert_key lookup update count_tx new_priority_mempool put placed add64 wrap64 sub64 without
    drop_old check_replacement skiplist_comparable iterate_priority next at_node cursor_of ready
    must_wait iterator_tx drain
replaced_left_out = refl
