-- ===== src/PriorityNonce/Cached.antt =====
-- blockbuster/lane_mempool.go: ConstructorMempool, the index of a lane with a set of the hashes of its transactions; and
-- GetTxHashStr of blockbuster/utils/utils.go.
use pob.Prelude.{ℕ, Bool, false, String, List, [], ◌∷◌, if◌then◌else◌, str_eq}
use pob.Prelude.Int.{ℤ}
use pob.Prelude.Outcome.{Outcome, ok, err, panic, ◌>>=◌, wrapped, wrap}
use pob.Sdk.{Sdk, Bytes, Tx, SkipListOps}
use pob.Lane.{Env}
use pob.Proposal.{add_key, has_key}
use pob.Mempool.{counts}
use pob.PriorityNonce.Defs.{
  Comparables, PriorityNonceMempoolConfig, PriorityNonceMempool, nonce_compare, skiplist_comparable,
  insert, remove, count_tx, new_priority_mempool,
}

-- `delete` of a set.
unfoldable pub delete_key : String → List String → List String
delete_key k [] = []
delete_key k (j ∷ rest) =
    let behind = delete_key k rest in if str_eq k j then behind else j ∷ behind

-- GetTxHashStr
unfoldable pub get_tx_hash_str : (sdk : Sdk) → Tx → Outcome (Bytes × String)
get_tx_hash_str sdk tx = do bz ← wrapped (sdk.encode tx); ok (bz, sdk.hash bz)

module _ (sdk : Sdk) {C : Type 0} (cs : Comparables C) (cfg : PriorityNonceMempoolConfig sdk C)
    (by_priority : SkipListOps Tx (skiplist_comparable cfg.tx_priority.compare cs))
    (by_nonce : SkipListOps Tx (nonce_compare cs)) where
  pub record ConstructorMempool : Type 0 where
    pub index : PriorityNonceMempool sdk cs cfg by_priority by_nonce
    pub tx_cache : List String

  -- NewConstructorMempool
  unfoldable pub new_constructor_mempool : ConstructorMempool
  new_constructor_mempool = record {
    index = new_priority_mempool sdk cs cfg by_priority by_nonce;
    tx_cache = [];
  }

  -- The tail of Remove.
  unfoldable pub uncache : Tx → ConstructorMempool → Outcome (Unit {0}) × ConstructorMempool
  uncache tx cm = elim (get_tx_hash_str sdk tx) [
    | ok hashed ↦ (ok tt, record cm { tx_cache = delete_key hashed.1 cm.tx_cache })
    | err e ↦ (err (wrap e), cm)
    | panic ↦ (panic, cm)
  ]

  -- Remove; ErrTxNotFound of the index is no error.
  unfoldable pub remove_cached : Tx → ConstructorMempool → Outcome (Unit {0}) × ConstructorMempool
  remove_cached tx cm =
      let (r, index) = remove sdk cs cfg by_priority by_nonce tx cm.index in
      let left : ConstructorMempool = record cm { index = index } in
      elim r [
        | ok _ ↦ uncache tx left
        | err e ↦ if counts e then (err (wrap e), left) else uncache tx left
        | panic ↦ (panic, left)
      ]

  -- The tail of Insert: a transaction without a hash is removed again, and only a panic of that counts.
  unfoldable pub cache : Tx → ConstructorMempool → Outcome (Unit {0}) × ConstructorMempool
  cache tx cm = elim (get_tx_hash_str sdk tx) [
    | ok hashed ↦ (ok tt, record cm { tx_cache = add_key hashed.1 cm.tx_cache })
    | err e ↦
        let (r, left) = remove_cached tx cm in
        elim r [ ok _ ↦ (err e, left) | err _ ↦ (err e, left) | panic ↦ (panic, left) ]
    | panic ↦ (panic, cm)
  ]

  -- Insert
  unfoldable pub insert_cached :
      Env sdk → Tx → ConstructorMempool → Outcome (Unit {0}) × ConstructorMempool
  insert_cached ctx tx cm =
      let (r, index) = insert sdk cs cfg by_priority by_nonce ctx tx cm.index in
      let left : ConstructorMempool = record cm { index = index } in
      elim r [ ok _ ↦ cache tx left | err e ↦ (err (wrap e), left) | panic ↦ (panic, left) ]

  -- CountTx
  unfoldable pub count_cached : ConstructorMempool → ℕ
  count_cached cm = count_tx sdk cs cfg by_priority by_nonce cm.index

  -- Contains; a panic of the encoder counts as no.
  unfoldable pub contains_cached : Tx → ConstructorMempool → Bool
  contains_cached tx cm = elim (get_tx_hash_str sdk tx) [
    | ok hashed ↦ has_key hashed.1 cm.tx_cache
    | err e ↦ false
    | panic ↦ false
  ]

  -- Compare
  unfoldable pub compare_txs : Env sdk → Tx → Tx → Outcome ℤ
  compare_txs ctx this other = do
    first_priority ← cfg.tx_priority.get_tx_priority ctx this
    second_priority ← cfg.tx_priority.get_tx_priority ctx other
    ok (cfg.tx_priority.compare first_priority second_priority)
