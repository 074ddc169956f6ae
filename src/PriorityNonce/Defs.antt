-- ===== src/PriorityNonce/Defs.antt =====
-- blockbuster/priority_nonce.go: the index of transactions by priority, and by sender and nonce.
use pob.Prelude.{
  ℕ, ◌≡◌, ◌↔◌, Bool, true, ◌==◌, ◌&&◌, ltb, String, Option, none, some, List, [], ◌∷◌, length, all,
  if◌then◌else◌, str_eq,
}
use pob.Prelude.Int.{ℤ, pos, ltb_ℤ, leb_ℤ, add64, sub64}
use pob.Prelude.Maps.{lookup, update, erase}
use pob.Prelude.Outcome.{
  Outcome, ok, err, panic, ◌>>=◌, ◌>>◌, guard, max_capacity, no_signers, replacement_rule,
  tx_not_found, sender_missing, not_empty,
}
use pob.Sdk.{Sdk, Tx, Signature, SkipListOps}
use pob.Sdk.Skip.{same_key, IsOrder}
use pob.Lane.{Env}

-- What Go and skiplist give for keys: the equality and the zero value of a comparable type, skiplist.String.Compare and
-- skiplist.Uint64.Compare.
pub record Comparables (C : Type 0) : Type 0 where
  pub same : C → C → Bool
  pub zero : C
  pub compare_string : String → String → ℤ
  pub compare_uint64 : ℕ → ℕ → ℤ
  pub same_iff : (a b : C) → (same a b ≡ true) ↔ (a ≡ b)
  pub compare_string_iff : (a b : String) → (compare_string a b ≡ pos 0) ↔ (a ≡ b)
  pub compare_string-IsOrder : IsOrder compare_string
  pub compare_uint64_iff : (a b : ℕ) → (compare_uint64 a b ≡ pos 0) ↔ (a ≡ b)
  pub compare_uint64_lt : (a b : ℕ) → ltb_ℤ (compare_uint64 a b) (pos 0) ≡ ltb a b
  pub compare_uint64_gt : (a b : ℕ) → ltb_ℤ (pos 0) (compare_uint64 a b) ≡ ltb b a

pub record TxPriority (sdk : Sdk) (C : Type 0) : Type 0 where
  pub get_tx_priority : Env sdk → Tx → Outcome C
  pub compare : C → C → ℤ
  pub min_value : C

-- The callback OnRead is never called.
pub record PriorityNonceMempoolConfig (sdk : Sdk) (C : Type 0) : Type 0 where
  pub tx_priority : TxPriority sdk C
  pub tx_replacement : Option (C → C → Tx → Tx → Bool)
  pub max_tx : ℤ

-- The element of the sender's index is a pointer in Go; it is named by the nonce under which it stands there.
pub record TxMeta (C : Type 0) : Type 0 where
  pub nonce : ℕ
  pub priority : C
  pub sender : String
  pub weight : C
  pub sender_element : Option ℕ

-- The comparison of the index of a sender.
abbrev pub nonce_compare : {C : Type 0} → Comparables C → TxMeta C → TxMeta C → ℤ
nonce_compare cs a b = cs.compare_uint64 b.nonce a.nonce

-- skiplistComparable
unfoldable pub skiplist_comparable :
    {C : Type 0} → (C → C → ℤ) → Comparables C → TxMeta C → TxMeta C → ℤ
skiplist_comparable compare cs a b =
    if same_key compare a.priority b.priority
    then if same_key compare a.weight b.weight
      then if same_key cs.compare_string a.sender b.sender
        then cs.compare_uint64 a.nonce b.nonce
        else cs.compare_string a.sender b.sender
      else compare a.weight b.weight
    else compare a.priority b.priority

-- The key of a map of scores: only the nonce and the sender of a txMeta are set.
abbrev pub same_score : String × ℕ → String × ℕ → Bool
same_score (s, n) (t, m) = str_eq s t && (n == m)

-- The first signature, or an error where there is none.
unfoldable pub first_signature : List Signature → Outcome Signature
first_signature [] = err no_signers
first_signature (sig ∷ rest) = ok sig

module _ (sdk : Sdk) {C : Type 0} (cs : Comparables C) (cfg : PriorityNonceMempoolConfig sdk C)
    (by_priority : SkipListOps Tx (skiplist_comparable cfg.tx_priority.compare cs))
    (by_nonce : SkipListOps Tx (nonce_compare cs)) where
  pub record PriorityNonceMempool : Type 0 where
    pub priority_index : by_priority.SkipList
    pub priority_counts : List (C × ℤ)
    pub sender_indices : List (String × by_nonce.SkipList)
    pub scores : List ((String × ℕ) × TxMeta C)

  -- NewPriorityMempool
  unfoldable pub new_priority_mempool : PriorityNonceMempool
  new_priority_mempool = record {
    priority_index = by_priority.new;
    priority_counts = [];
    sender_indices = [];
    scores = [];
  }

  -- CountTx
  unfoldable pub count_tx : PriorityNonceMempool → ℕ
  count_tx mp = length (by_priority.elements mp.priority_index)

  -- The value of a missing key is the zero value.
  abbrev pub count_of : C → List (C × ℤ) → ℤ
  count_of p counts = elim (lookup cs.same p counts) [ some n ↦ n | none ↦ pos 0 ]

  -- `mp.priorityCounts[p]++` and `--`
  abbrev pub count_up : C → List (C × ℤ) → List (C × ℤ)
  count_up p counts = update cs.same p (add64 (count_of p counts) (pos 1)) counts

  abbrev pub count_down : C → List (C × ℤ) → List (C × ℤ)
  count_down p counts = update cs.same p (sub64 (count_of p counts) (pos 1)) counts

  -- The value at the front of an index; Front of an empty one is nil, whose Value panics.
  unfoldable pub front_value : List (TxMeta C × Tx) → Outcome (Option Tx)
  front_value [] = panic
  front_value ((key, tx) ∷ rest) = ok (some tx)

  -- NextSenderTx
  unfoldable pub next_sender_tx : String → PriorityNonceMempool → Outcome (Option Tx)
  next_sender_tx sender mp = elim (lookup str_eq sender mp.sender_indices) [
    | some sender_index ↦ front_value (by_nonce.elements sender_index)
    | none ↦ ok none
  ]

  abbrev pub key_of : String → ℕ → C → C → TxMeta C
  key_of sender nonce priority weight = record {
    nonce = nonce;
    priority = priority;
    sender = sender;
    weight = weight;
    sender_element = none;
  }

  -- The index of the sender, a new one where there is none.
  abbrev pub or_new : Option by_nonce.SkipList → by_nonce.SkipList
  or_new (some sender_index) = sender_index
  or_new none = by_nonce.new

  abbrev pub index_of : String → PriorityNonceMempool → by_nonce.SkipList
  index_of sender mp = or_new (lookup str_eq sender mp.sender_indices)

  abbrev pub with_index : String → by_nonce.SkipList → PriorityNonceMempool → PriorityNonceMempool
  with_index sender sender_index mp = record mp {
    sender_indices = update str_eq sender sender_index mp.sender_indices;
  }

  -- Insert, once the old key is gone.
  unfoldable pub put : String → ℕ → C → Tx → PriorityNonceMempool → PriorityNonceMempool
  put sender nonce priority tx mp =
      let key = key_of sender nonce priority cs.zero in
      record mp {
        priority_counts = count_up priority mp.priority_counts;
        sender_indices =
            update str_eq sender (by_nonce.set key tx (index_of sender mp)) mp.sender_indices;
        scores = update same_score (sender, nonce) (key_of "" 0 priority cs.zero) mp.scores;
        priority_index =
            by_priority.set (record key { sender_element = some nonce }) tx mp.priority_index;
      }

  -- The removal of the old key.
  unfoldable pub drop_old : String → ℕ → TxMeta C → PriorityNonceMempool → PriorityNonceMempool
  drop_old sender nonce old mp = record mp {
    priority_index =
        by_priority.remove (key_of sender nonce old.priority old.weight) mp.priority_index;
    priority_counts = count_down old.priority mp.priority_counts;
  }

  -- The test of the replacement rule; Get of a missing key is nil, whose Value panics.
  unfoldable pub check_replacement : C → C → Option Tx → Tx → Outcome (Unit {0})
  check_replacement old new stored tx = elim cfg.tx_replacement [
    | some rule ↦ elim stored [
      | some old_tx ↦ guard (rule old new old_tx tx) replacement_rule
      | none ↦ panic
    ]
    | none ↦ ok tt
  ]

  -- Insert, once the key is known.
  unfoldable pub insert_key :
      String → ℕ → C → Tx → PriorityNonceMempool → Outcome (Unit {0}) × PriorityNonceMempool
  insert_key sender nonce priority tx mp =
      let sender_index = index_of sender mp in
      let indexed = with_index sender sender_index mp in
      elim (lookup same_score (sender, nonce) mp.scores) [
        | some old ↦
            elim (check_replacement old.priority priority
              (by_nonce.get (key_of sender nonce priority cs.zero) sender_index) tx) [
                | ok _ ↦ (ok tt, put sender nonce priority tx (drop_old sender nonce old indexed))
                | err e ↦ (err e, indexed)
                | panic ↦ (panic, indexed)
              ]
        | none ↦ (ok tt, put sender nonce priority tx indexed)
      ]

  -- The sender, the nonce and the priority of a transaction.
  unfoldable pub signed_key : Env sdk → Tx → Outcome (String × ℕ × C)
  signed_key ctx tx = do
    sigs ← tx.signatures
    sig ← first_signature sigs
    priority ← cfg.tx_priority.get_tx_priority ctx tx
    ok (sdk.acc_string sig.address, sig.sequence, priority)

  -- Insert
  unfoldable pub insert :
      Env sdk → Tx → PriorityNonceMempool → Outcome (Unit {0}) × PriorityNonceMempool
  insert ctx tx mp =
      if ltb_ℤ (pos 0) cfg.max_tx && leb_ℤ cfg.max_tx (pos (count_tx mp))
      then (err max_capacity, mp)
      else if ltb_ℤ cfg.max_tx (pos 0)
      then (ok tt, mp)
      else elim (signed_key ctx tx) [
        | ok key ↦ insert_key key.0 key.1 key.2 tx mp
        | err e ↦ (err e, mp)
        | panic ↦ (panic, mp)
      ]

  -- Remove, once the score is known.
  unfoldable pub remove_key :
      String → ℕ → TxMeta C → PriorityNonceMempool → Outcome (Unit {0}) × PriorityNonceMempool
  remove_key sender nonce score mp = elim (lookup str_eq sender mp.sender_indices) [
    | some sender_txs ↦
        let tk = key_of sender nonce score.priority score.weight in
        (
          ok tt,
          record mp {
            priority_index = by_priority.remove tk mp.priority_index;
            sender_indices = update str_eq sender (by_nonce.remove tk sender_txs) mp.sender_indices;
            scores = erase same_score (sender, nonce) mp.scores;
            priority_counts = count_down score.priority mp.priority_counts;
          },
        )
    | none ↦ (err sender_missing, mp)
  ]

  unfoldable pub remove_signed :
      Signature → PriorityNonceMempool → Outcome (Unit {0}) × PriorityNonceMempool
  remove_signed sig mp =
      elim (lookup same_score (sdk.acc_string sig.address, sig.sequence) mp.scores) [
        | some score ↦ remove_key (sdk.acc_string sig.address) sig.sequence score mp
        | none ↦ (err tx_not_found, mp)
      ]

  -- Remove
  unfoldable pub remove : Tx → PriorityNonceMempool → Outcome (Unit {0}) × PriorityNonceMempool
  remove tx mp = elim (tx.signatures >>= first_signature) [
    | ok sig ↦ remove_signed sig mp
    | err e ↦ (err e, mp)
    | panic ↦ (panic, mp)
  ]

  -- IsEmpty
  unfoldable pub is_empty : PriorityNonceMempool → Outcome (Unit {0})
  is_empty mp =
      guard (count_tx mp == 0) not_empty
      >> guard (all (λ e. leb_ℤ (pos 0) e.1 && leb_ℤ e.1 (pos 0)) mp.priority_counts) not_empty
      >> guard (all (λ e. length (by_nonce.elements e.1) == 0) mp.sender_indices) not_empty
