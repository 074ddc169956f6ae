-- ===== src/Tests/Indices.antt =====
-- The priority nonce mempool and the mempool over it at concrete inputs: skip lists as lists, and priorities that are the
-- sizes of the transactions.
use pob.Prelude.{
  ℕ, ◌≤◌, ◌≡◌, refl, arith, true, ◌==◌, ==_iff, none, some, [], ◌∷◌, length, str_eq, ◌||◌,
}
use pob.Prelude.Int.{ℤ, pos, negsuc}
use pob.Prelude.Maps.{lookup, update, erase}
use pob.Prelude.Outcome.{Outcome, ok, err, panic, with_end, max_capacity}
use pob.Sdk.{Bytes, Tx, Signature, SkipListOps}
use pob.Sdk.Skip.{placed}
use pob.PriorityNonce.{
  Comparables, PriorityNonceMempoolConfig, PriorityNonceMempool, nonce_compare, skiplist_comparable,
  new_priority_mempool, insert, remove, count_tx, next_sender_tx, insert_key, signed_key, put,
  first_signature, remove_signed, remove_key,
}
use pob.PriorityNonce.Capacity.{insert_bounded}
use pob.PriorityNonce.Removal.{next_sender_tx_emptied}
use pob.PriorityNonce.Cached.{
  ConstructorMempool, new_constructor_mempool, insert_cached, remove_cached, contains_cached,
  count_cached, cache, uncache, get_tx_hash_str,
}
use pob.PriorityNonce.Membership.{contains-insert, insert_cached_disabled}
use pob.Tests.Orders.{
  compare_ℕ, compare_text, compare_ℕ_iff, compare_text_iff, compare_text-IsOrder, compare_ℕ-lt,
  compare_ℕ-gt,
}
use pob.Tests.SkipLists.{list_ops}
use pob.Tests.Fixture.{simple_sdk, plain_tx}
use pob.Tests.Blocks.{ctx}

abbrev pub natural : Comparables ℕ
natural = record {
  same = ◌==◌;
  zero = 0;
  compare_string = compare_text;
  compare_uint64 = compare_ℕ;
  same_iff = ==_iff;
  compare_string_iff = compare_text_iff;
  compare_string-IsOrder = compare_text-IsOrder;
  compare_uint64_iff = compare_ℕ_iff;
  compare_uint64_lt = compare_ℕ-lt;
  compare_uint64_gt = compare_ℕ-gt;
}

abbrev pub sized : ℤ → PriorityNonceMempoolConfig simple_sdk ℕ
sized max = record {
  tx_priority = record {
    get_tx_priority = λ c tx. ok (length tx.rest);
    compare = compare_ℕ;
    min_value = 0;
  };
  tx_replacement = none;
  max_tx = max;
}

abbrev pub by_size : SkipListOps Tx (skiplist_comparable compare_ℕ natural)
by_size = list_ops (skiplist_comparable compare_ℕ natural)

abbrev pub by_nonce : SkipListOps Tx (nonce_compare natural)
by_nonce = list_ops (nonce_compare natural)

abbrev pub sig : Signature
sig = record { address = 1 ∷ []; sequence = 5 }

abbrev pub signed_tx : Bytes → Tx
signed_tx bz = record (plain_tx bz) { signatures = ok (sig ∷ []) }

abbrev pub PoolOf : ℤ → Type 0
PoolOf max = PriorityNonceMempool simple_sdk natural (sized max) by_size by_nonce

abbrev pub empty : (max : ℤ) → PoolOf max
empty max = new_priority_mempool simple_sdk natural (sized max) by_size by_nonce

abbrev pub put_one : (max : ℤ) → Outcome (Unit {0}) × PoolOf max
put_one max =
    insert simple_sdk natural (sized max) by_size by_nonce ctx (signed_tx (7 ∷ 8 ∷ [])) (empty max)

one_put : (put_one (pos 1)).0 ≡ ok tt
unfolding insert signed_key first_signature insert_key lookup count_tx new_priority_mempool
one_put = refl

one_counted : count_tx simple_sdk natural (sized (pos 1)) by_size by_nonce (put_one (pos 1)).1 ≤ 1
unfolding insert signed_key first_signature insert_key lookup count_tx new_priority_mempool put
    placed
one_counted = omega arith

insert_bounded_example :
    (count_tx simple_sdk natural
        (sized (pos 1))
        by_size
        by_nonce
        (insert simple_sdk natural
          (sized (pos 1))
          by_size
          by_nonce
          ctx
          (signed_tx (9 ∷ []))
          (put_one (pos 1)).1).1
      ≤ 1)
    × (count_tx simple_sdk natural (sized (pos 1)) by_size by_nonce (put_one (pos 1)).1 ≡ 1
        → insert simple_sdk natural
            (sized (pos 1))
            by_size
            by_nonce
            ctx
            (signed_tx (9 ∷ []))
            (put_one (pos 1)).1
          ≡ (err max_capacity, (put_one (pos 1)).1))
insert_bounded_example =
    insert_bounded simple_sdk natural (sized (pos 1)) by_size by_nonce ctx (signed_tx (9 ∷ []))
      (put_one (pos 1)).1 0 refl one_counted

no_index : lookup str_eq "alice" (empty (pos 1)).sender_indices ≡ none
unfolding lookup new_priority_mempool
no_index = refl

next_sender_tx_emptied_example :
    (next_sender_tx simple_sdk natural (sized (pos 1)) by_size by_nonce "alice" (put_one (pos 1)).1
      ≡ ok (some (signed_tx (7 ∷ 8 ∷ []))))
    × (next_sender_tx simple_sdk natural
          (sized (pos 1))
          by_size
          by_nonce
          "alice"
          (remove simple_sdk natural
            (sized (pos 1))
            by_size
            by_nonce
            (signed_tx (7 ∷ 8 ∷ []))
            (put_one (pos 1)).1).1
        ≡ panic)
next_sender_tx_emptied_example =
    next_sender_tx_emptied simple_sdk natural (sized (pos 1)) by_size by_nonce ctx
      (signed_tx (7 ∷ 8 ∷ [])) sig [] 2 (empty (pos 1)) (put_one (pos 1)).1 refl refl refl
      (with_end (put_one (pos 1)) one_put refl) no_index

abbrev none_yet : (max : ℤ) → ConstructorMempool simple_sdk natural (sized max) by_size by_nonce
none_yet max = new_constructor_mempool simple_sdk natural (sized max) by_size by_nonce

abbrev cache_one :
    (max : ℤ)
    → Outcome (Unit {0}) × ConstructorMempool simple_sdk natural (sized max) by_size by_nonce
cache_one max =
    insert_cached simple_sdk natural (sized max) by_size by_nonce ctx (signed_tx (7 ∷ 8 ∷ []))
      (none_yet max)

one_cached : (cache_one (pos 1)).0 ≡ ok tt
unfolding insert_cached cache get_tx_hash_str insert signed_key first_signature insert_key lookup
    count_tx new_priority_mempool new_constructor_mempool
one_cached = refl

contains-insert_example :
    contains_cached simple_sdk natural
      (sized (pos 1))
      by_size
      by_nonce
      (plain_tx (7 ∷ []))
      (cache_one (pos 1)).1
    ≡ str_eq "a" "aa"
      || contains_cached simple_sdk natural
          (sized (pos 1))
          by_size
          by_nonce
          (plain_tx (7 ∷ []))
          (none_yet (pos 1))
contains-insert_example =
    contains-insert simple_sdk natural (sized (pos 1)) by_size by_nonce (signed_tx (7 ∷ 8 ∷ []))
      (plain_tx (7 ∷ [])) (7 ∷ 8 ∷ []) (7 ∷ []) refl refl ctx (none_yet (pos 1))
      (cache_one (pos 1)).1 (with_end (cache_one (pos 1)) one_cached refl)

abbrev uncache_one :
    Outcome (Unit {0}) × ConstructorMempool simple_sdk natural (sized (pos 1)) by_size by_nonce
uncache_one =
    remove_cached simple_sdk natural (sized (pos 1)) by_size by_nonce (signed_tx (7 ∷ 8 ∷ []))
      (cache_one (pos 1)).1

one_uncached : uncache_one.0 ≡ ok tt
unfolding remove_cached uncache insert_cached cache get_tx_hash_str insert signed_key
    first_signature insert_key lookup update erase put remove remove_signed remove_key count_tx
    new_priority_mempool new_constructor_mempool
one_uncached = refl

insert_cached_disabled_example :
    ((cache_one (negsuc 0)).0 ≡ ok tt)
    × (contains_cached simple_sdk natural
          (sized (negsuc 0))
          by_size
          by_nonce
          (signed_tx (7 ∷ 8 ∷ []))
          (cache_one (negsuc 0)).1
        ≡ true)
    × (count_cached simple_sdk natural (sized (negsuc 0)) by_size by_nonce (cache_one (negsuc 0)).1
        ≡ count_cached simple_sdk natural (sized (negsuc 0)) by_size by_nonce (none_yet (negsuc 0)))
insert_cached_disabled_example =
    insert_cached_disabled simple_sdk natural (sized (negsuc 0)) by_size by_nonce
      (signed_tx (7 ∷ 8 ∷ [])) (7 ∷ 8 ∷ []) refl ctx (none_yet (negsuc 0)) refl
