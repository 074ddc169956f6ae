-- ===== src/PriorityNonce/Membership.antt =====
-- Contains of blockbuster/lane_mempool.go behind Insert and Remove.
use pob.Prelude.{
  ◌≡◌, refl, sym, ap, ◌∙◌, subst, arith, Bool, true, false, not, ◌&&◌, ◌||◌, String, List, [], ◌∷◌,
  any, str_eq, eq_iff, Bool-cases, inl, inr,
}
use pob.Prelude.Int.{ℤ, pos, negsuc, ltb_ℤ, leb_ℤ}
use pob.Prelude.Outcome.{ok, Outcome-cases}
use pob.Sdk.{Sdk, Bytes, Tx, SkipListOps}
use pob.Lane.{Env}
use pob.Proposal.{add_key, has_key}
use pob.Mempool.{counts}
use pob.PriorityNonce.Defs.{
  Comparables, PriorityNonceMempoolConfig, PriorityNonceMempool, nonce_compare, skiplist_comparable,
  insert, remove, count_tx,
}
use pob.PriorityNonce.Cached.{
  delete_key, get_tx_hash_str, ConstructorMempool, uncache, remove_cached, cache, insert_cached,
  contains_cached, count_cached,
}

has_key-add_key :
    (k j : String) (s : List String) → has_key k (add_key j s) ≡ str_eq k j || has_key k s
unfolding has_key add_key
has_key-add_key k j s = elim (Bool-cases (any (str_eq j) s)) [
  | inl y ↦ elim (Bool-cases (str_eq k j)) [
    | inl e ↦ rw (y, e) (subst (λ x. any (str_eq x) s ≡ true) (sym ((eq_iff k j).0 e)) y)
    | inr n ↦ rw (y, n) refl
  ]
  | inr n ↦ rw n refl
]

absorbs : (a b : Bool) → not a && b ≡ not a && (a || b)
absorbs true b = refl
absorbs false b = refl

passes_by : (a b c : Bool) → (b ≡ true → a ≡ false) → a || (not b && c) ≡ not b && (a || c)
passes_by a true c apart = rw (apart refl) refl
passes_by a false c apart = refl

not_both : (a : Bool) → not a && false ≡ false
not_both true = refl
not_both false = refl

has_key-delete_key :
    (k j : String) (s : List String) → has_key k (delete_key j s) ≡ not (str_eq k j) && has_key k s
unfolding has_key delete_key
has_key-delete_key k j [] = sym (not_both (str_eq k j))
has_key-delete_key k j (x ∷ rest) = elim (Bool-cases (str_eq j x)) [
  | inl y ↦
      rw (y, delete_key)
        (has_key-delete_key k j rest
          ∙ rw (ap (str_eq k) (sym ((eq_iff j x).0 y)))
              (absorbs (str_eq k j) (any (str_eq k) rest)))
  | inr n ↦
      rw (n, delete_key)
        (ap (λ b. str_eq k x || b) (has_key-delete_key k j rest)
          ∙ passes_by (str_eq k x) (str_eq k j) (any (str_eq k) rest)
              (λ e. subst (λ z. str_eq z x ≡ false) (sym ((eq_iff k j).0 e)) n))
]

hashed :
    (sdk : Sdk) (tx : Tx) (bz : Bytes)
    → sdk.encode tx ≡ ok bz
    → get_tx_hash_str sdk tx ≡ ok (bz, sdk.hash bz)
unfolding get_tx_hash_str
hashed sdk tx bz e = rw (e, get_tx_hash_str) refl

module _ (sdk : Sdk) {C : Type 0} (cs : Comparables C) (cfg : PriorityNonceMempoolConfig sdk C)
    (by_priority : SkipListOps Tx (skiplist_comparable cfg.tx_priority.compare cs))
    (by_nonce : SkipListOps Tx (nonce_compare cs)) where
  abbrev Cached : Type 0
  Cached = ConstructorMempool sdk cs cfg by_priority by_nonce

  abbrev holds : Tx → Cached → Bool
  holds tx cm = contains_cached sdk cs cfg by_priority by_nonce tx cm

  module _ (tx other : Tx) (bz other_bz : Bytes) (encoded : sdk.encode tx ≡ ok bz)
      (other_encoded : sdk.encode other ≡ ok other_bz) where
    holds_by_hash : (cm : Cached) → holds other cm ≡ has_key (sdk.hash other_bz) cm.tx_cache
    unfolding contains_cached
    holds_by_hash cm = rw (hashed sdk other other_bz other_encoded, contains_cached) refl

    uncached :
        (cm : Cached)
        → uncache sdk cs cfg by_priority by_nonce tx cm
          ≡ (ok tt, record cm { tx_cache = delete_key (sdk.hash bz) cm.tx_cache })
    unfolding uncache
    uncached cm = rw (hashed sdk tx bz encoded, uncache) refl

    cached :
        (cm : Cached)
        → cache sdk cs cfg by_priority by_nonce tx cm
          ≡ (ok tt, record cm { tx_cache = add_key (sdk.hash bz) cm.tx_cache })
    unfolding cache
    cached cm = rw (hashed sdk tx bz encoded, cache) refl

    -- Behind an Insert that succeeds, a replacement of a transaction with the same sender and nonce included, Contains holds
    -- of what it held of before, and of the transactions that have the hash of the one inserted, provided that these can be
    -- encoded. So it is still true of a transaction that was replaced and is no longer in the mempool.
    pub contains-insert :
        (ctx : Env sdk) (cm cm' : Cached)
        → insert_cached sdk cs cfg by_priority by_nonce ctx tx cm ≡ (ok tt, cm')
        → holds other cm' ≡ str_eq (sdk.hash other_bz) (sdk.hash bz) || holds other cm
    unfolding insert_cached
    contains-insert ctx cm cm' h =
        elim (Outcome-cases (insert sdk cs cfg by_priority by_nonce ctx tx cm.index).0) [
          | inl (u, i) ↦
              let left : Cached = record cm {
                index = (insert sdk cs cfg by_priority by_nonce ctx tx cm.index).1;
              } in
              let e : record left { tx_cache = add_key (sdk.hash bz) cm.tx_cache } ≡ cm' =
                ap (λ r. r.1) (sym (cached left) ∙ rw (i, insert_cached) at h) in
              holds_by_hash cm'
              ∙ (ap (λ (c : Cached). has_key (sdk.hash other_bz) c.tx_cache) (sym e)
                  ∙ (has_key-add_key (sdk.hash other_bz) (sdk.hash bz) cm.tx_cache
                      ∙ ap (λ b. str_eq (sdk.hash other_bz) (sdk.hash bz) || b)
                          (sym (holds_by_hash cm))))
          | inr (inl (x, i)) ↦ absurd (cc (ap (λ r. r.0) (rw (i, insert_cached) at h)))
          | inr (inr i) ↦ absurd (cc (ap (λ r. r.0) (rw (i, insert_cached) at h)))
        ]

    abbrev after_index : Cached → Cached
    after_index cm = record cm { index = (remove sdk cs cfg by_priority by_nonce tx cm.index).1 }

    after_uncache :
        (cm cm' : Cached)
        → uncache sdk cs cfg by_priority by_nonce tx (after_index cm) ≡ (ok tt, cm')
        → holds other cm' ≡ not (str_eq (sdk.hash other_bz) (sdk.hash bz)) && holds other cm
    after_uncache cm cm' h =
        let e : record (after_index cm) { tx_cache = delete_key (sdk.hash bz) cm.tx_cache } ≡ cm' =
          ap (λ r. r.1) (sym (uncached (after_index cm)) ∙ h) in
        holds_by_hash cm'
        ∙ (ap (λ (c : Cached). has_key (sdk.hash other_bz) c.tx_cache) (sym e)
            ∙ (has_key-delete_key (sdk.hash other_bz) (sdk.hash bz) cm.tx_cache
                ∙ ap (λ b. not (str_eq (sdk.hash other_bz) (sdk.hash bz)) && b)
                    (sym (holds_by_hash cm))))

    -- Behind a Remove that succeeds, also of a transaction that the index does not have, Contains holds of what it held of
    -- before but for the transactions that have the hash of the one removed, provided that these can be encoded.
    pub contains-remove :
        (cm cm' : Cached)
        → remove_cached sdk cs cfg by_priority by_nonce tx cm ≡ (ok tt, cm')
        → holds other cm' ≡ not (str_eq (sdk.hash other_bz) (sdk.hash bz)) && holds other cm
    unfolding remove_cached
    contains-remove cm cm' h =
        elim (Outcome-cases (remove sdk cs cfg by_priority by_nonce tx cm.index).0) [
          | inl (u, i) ↦ after_uncache cm cm' (rw (i, remove_cached) at h)
          | inr (inl (x, i)) ↦ elim (Bool-cases (counts x)) [
            | inl y ↦ absurd (cc (ap (λ r. r.0) (rw (i, remove_cached, y) at h)))
            | inr n ↦ after_uncache cm cm' (rw (i, remove_cached, n) at h)
          ]
          | inr (inr i) ↦ absurd (cc (ap (λ r. r.0) (rw (i, remove_cached) at h)))
        ]

  not_full : (m : ℤ) (b : Bool) → ltb_ℤ m (pos 0) ≡ true → (ltb_ℤ (pos 0) m && b) ≡ false
  not_full (pos n) b h = ground (arith, h)
  not_full (negsuc n) b h = ground (arith, h)

  insert_off :
      (ctx : Env sdk) (tx : Tx) (mp : PriorityNonceMempool sdk cs cfg by_priority by_nonce)
      → ltb_ℤ cfg.max_tx (pos 0) ≡ true
      → insert sdk cs cfg by_priority by_nonce ctx tx mp ≡ (ok tt, mp)
  unfolding insert
  insert_off ctx tx mp off =
      rw
        (not_full cfg.max_tx (leb_ℤ cfg.max_tx (pos (count_tx sdk cs cfg by_priority by_nonce mp)))
          off)
        (rw (off, insert) refl)

  module _ (tx : Tx) (bz : Bytes) (encoded : sdk.encode tx ≡ ok bz) (ctx : Env sdk) (cm : Cached)
      (off : ltb_ℤ cfg.max_tx (pos 0) ≡ true) where
    insert_cached_off :
        insert_cached sdk cs cfg by_priority by_nonce ctx tx cm
        ≡ (ok tt, record cm { tx_cache = add_key (sdk.hash bz) cm.tx_cache })
    unfolding insert_cached
    insert_cached_off =
        rw
          (
            ap (λ r. r.0) (insert_off ctx tx cm.index off),
            insert_cached,
            ap (λ r. r.1) (insert_off ctx tx cm.index off),
          )
          (cached tx tx bz bz encoded encoded cm)

    -- With a negative capacity, which makes the index ignore what it is given, Insert of a transaction that can be encoded
    -- succeeds, Contains holds of it, and the number of transactions is what it was.
    pub insert_cached_disabled :
        ((insert_cached sdk cs cfg by_priority by_nonce ctx tx cm).0 ≡ ok tt)
        × (holds tx (insert_cached sdk cs cfg by_priority by_nonce ctx tx cm).1 ≡ true)
        × (count_cached sdk cs cfg by_priority by_nonce
              (insert_cached sdk cs cfg by_priority by_nonce ctx tx cm).1
            ≡ count_cached sdk cs cfg by_priority by_nonce cm)
    unfolding count_cached
    insert_cached_disabled = rw insert_cached_off (
      refl,
      holds_by_hash tx tx bz bz encoded encoded _
          ∙ (has_key-add_key (sdk.hash bz) (sdk.hash bz) cm.tx_cache
              ∙ rw ((eq_iff (sdk.hash bz) (sdk.hash bz)).1 refl) refl),
      refl,
    )
