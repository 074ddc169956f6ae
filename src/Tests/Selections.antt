-- ===== src/Tests/Selections.antt =====
-- The iterator of the priority nonce mempool at concrete inputs.
use pob.Prelude.{◌≡◌, refl, some, [], ◌∷◌}
use pob.Prelude.Int.{pos, add64, wrap64}
use pob.Prelude.Maps.{lookup, update}
use pob.Prelude.Outcome.{ok, ◌>>=◌}
use pob.Sdk.{Bytes, Tx}
use pob.Sdk.Skip.{placed}
use pob.PriorityNonce.{
  insert, signed_key, first_signature, insert_key, count_tx, new_priority_mempool, put,
  skiplist_comparable,
}
use pob.PriorityNonce.Iterate.{
  drain, iterate_priority, next, at_node, cursor_of, ready, must_wait, iterator_tx,
}
use pob.PriorityNonce.Ties.{select, reorder_priority_ties, reordering, reorder_loop}
use pob.Tests.Fixture.{simple_sdk, plain_tx}
use pob.Tests.Blocks.{ctx}
use pob.Tests.Indices.{natural, sized, by_size, by_nonce, signed_tx, PoolOf, empty}

-- Bob's transaction is larger than Alice's first, and smaller than her second.
abbrev pub of_sender : Bytes → Bytes → Tx
of_sender address bz = record (plain_tx bz) {
  signatures = ok ((record { address = address; sequence = 0 }) ∷ []);
}

abbrev pub insert_three : PoolOf (pos 0)
insert_three =
    let with_one =
      (insert simple_sdk natural (sized (pos 0)) by_size by_nonce ctx (of_sender (1 ∷ []) (7 ∷ []))
        (empty (pos 0))).1 in
    let with_two =
      (insert simple_sdk natural (sized (pos 0)) by_size by_nonce ctx
        (of_sender (2 ∷ []) (8 ∷ 8 ∷ [])) with_one).1 in
    (insert simple_sdk natural (sized (pos 0)) by_size by_nonce ctx (signed_tx (9 ∷ 9 ∷ 9 ∷ []))
      with_two).1

-- The larger of Alice's waits for her first one, which waits for Bob's.
drained :
    ((select simple_sdk natural (sized (pos 0)) by_size by_nonce insert_three).0
      >>= drain simple_sdk natural (sized (pos 0)) by_size by_nonce insert_three 4)
    ≡ ok (
        some (
          of_sender (2 ∷ []) (8 ∷ 8 ∷ [])
          ∷ of_sender (1 ∷ []) (7 ∷ [])
          ∷ signed_tx (9 ∷ 9 ∷ 9 ∷ [])
          ∷ []))
unfolding select reorder_priority_ties reordering reorder_loop insert signed_key first_signature
    insert_key lookup update count_tx new_priority_mempool put placed add64 wrap64
    skiplist_comparable iterate_priority next at_node cursor_of ready must_wait iterator_tx drain
drained = refl
