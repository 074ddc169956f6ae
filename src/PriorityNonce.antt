-- ===== src/PriorityNonce.antt =====
-- blockbuster/priority_nonce.go: the mempool that orders transactions by priority and by the nonces of a sender.
mod Defs
pub mod Capacity
pub mod Put
pub mod Ascending
pub mod Distinct
pub mod Comparing
pub mod Orders
pub mod Consistent
pub mod Opened
pub mod Indexed
pub mod Kept
pub mod Taken
pub mod Filed
pub mod Refined
pub mod Removed
pub mod Removal
pub mod Iterate
pub mod Drained
pub mod Ends
pub mod Ties
pub mod Reordered
pub mod Selected
pub mod Handed
pub mod Ready
pub mod Reachable
pub mod Cached
pub mod Membership
pub use Defs.{Comparables, TxPriority, PriorityNonceMempoolConfig, TxMeta, PriorityNonceMempool}
pub use Defs.{nonce_compare}
unfoldable pub use Defs.{skiplist_comparable, new_priority_mempool, insert, remove, count_tx}
unfoldable pub use Defs.{next_sender_tx, insert_key, signed_key, remove_key, remove_signed}
unfoldable pub use Defs.{put, drop_old, check_replacement, front_value, first_signature, is_empty}
