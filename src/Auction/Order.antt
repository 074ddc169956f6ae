-- ===== src/Auction/Order.antt =====
-- CheckOrderHandler of blockbuster/lanes/auction/abci.go against its specification.
use pob.Prelude.{
  suc, Bool, true, false, Option, none, some, List, [], ◌∷◌, ◌++◌, ◌≡◌, ◌↔◌, ◌⊎◌, refl, ap, ◌∙◌,
  subst, arith, All, Bool-cases, inl, inr, length, length-append, drop, ltb, if◌then◌else◌,
}
use pob.Prelude.Outcome.{
  Outcome, ok, err, panic, Error, ◌>>◌, >>-eq-ok, multiple_bids, misplaced_bid,
}
use pob.Sdk.{Sdk, Bytes, Tx}
use pob.Lane.{Env, LaneConstructor, match}
use pob.Builder.{BidInfo}
use pob.Auction.Bids.{Factory}
use pob.Prelude.Bytes.{equal, equal_iff}
use pob.Auction.Handlers.{any_match, check_bundle, check_bid_order, check_order_handler}

none_left :
    (b : Bool) (e : Error)
    → ◌≡◌ {A = Outcome (Unit {0})} (if b then err e else ok tt) (ok tt)
    → b ≡ false
none_left true e k = absurd (cc k)
none_left false e k = refl

-- The transactions have these encodings, one for each.
abbrev pub Encodes : Sdk → List Tx → List Bytes → Type 0
Encodes sdk [] [] = Unit
Encodes sdk [] (bz ∷ bs) = ⊥
Encodes sdk (tx ∷ txs) [] = ⊥
Encodes sdk (tx ∷ txs) (bz ∷ bs) = (sdk.encode tx ≡ ok bz) × Encodes sdk txs bs

module _ (sdk : Sdk) (factory : Factory sdk) {Pool : Type 0} (l : LaneConstructor sdk Pool)
    (ctx : Env sdk) where
  abbrev pub NoneMatches : List Tx → Type 0
  NoneMatches = All (λ tx. match sdk l ctx tx ≡ false)

  any_match_iff : (txs : List Tx) → (any_match sdk factory l ctx txs ≡ false) ↔ NoneMatches txs
  unfolding any_match
  any_match_iff [] = ground arith
  any_match_iff (tx ∷ txs) = ground (arith, any_match_iff txs)

  -- The first transactions are the bundle, and none of them matches.
  record StartsWith (bundle : List Bytes) (txs : List Tx) : Type 0 where
    own : List Tx
    rest : List Tx
    split : txs ≡ own ++ rest
    behind : drop (length bundle) txs ≡ rest
    encoded : Encodes sdk own bundle
    unmatched : NoneMatches own

  check_bundle_sound :
      (txs : List Tx) (bundle : List Bytes)
      → check_bundle sdk factory l ctx txs bundle ≡ ok tt
      → StartsWith bundle txs
  unfolding check_bundle
  check_bundle_sound txs [] h = record {
    own = [];
    rest = txs;
    split = refl;
    behind = refl;
    encoded = tt;
    unmatched = tt;
  }
  check_bundle_sound [] (raw ∷ bundle) h = absurd (cc h)
  check_bundle_sound (tx ∷ txs) (raw ∷ bundle) h = elim (Bool-cases (match sdk l ctx tx)) [
    | inl m ↦ absurd (cc (rw m at h))
    | inr n ↦ encoded n (sdk.encode tx) refl (check_bundle_sound txs bundle)
  ]
    where
      same :
          (bz : Bytes)
          → sdk.encode tx ≡ ok bz
          → match sdk l ctx tx ≡ false
          → equal bz raw ≡ true
          → StartsWith bundle txs
          → StartsWith (raw ∷ bundle) (tx ∷ txs)
      same bz e n q s = record {
        own = tx ∷ s.own;
        rest = s.rest;
        split = ap (◌∷◌ tx) s.split;
        behind = s.behind;
        encoded = (e ∙ ap ok ((equal_iff bz raw).0 q), s.encoded);
        unmatched = (n, s.unmatched);
      }

      encoded :
          match sdk l ctx tx ≡ false
          → (r : Outcome Bytes) → sdk.encode tx ≡ r
          → (check_bundle sdk factory l ctx txs bundle ≡ ok tt → StartsWith bundle txs)
          → StartsWith (raw ∷ bundle) (tx ∷ txs)
      encoded n (ok bz) e ih = elim (Bool-cases (equal bz raw)) [
        | inl q ↦ same bz e n q (ih (rw (n, e, q, check_bundle) at h))
        | inr d ↦ absurd (cc (rw (n, e, d, check_bundle) at h))
      ]
      encoded n (err x) e ih = absurd (cc (rw (n, e, check_bundle) at h))
      encoded n panic e ih = absurd (cc (rw (n, e, check_bundle) at h))

  check_bundle_complete :
      (own rest : List Tx) (bundle : List Bytes)
      → Encodes sdk own bundle
      → NoneMatches own
      → check_bundle sdk factory l ctx (own ++ rest) bundle ≡ ok tt
  unfolding check_bundle
  check_bundle_complete [] rest [] e n = refl
  check_bundle_complete [] rest (raw ∷ bundle) e n = absurd e
  check_bundle_complete (tx ∷ own) rest [] e n = absurd e
  check_bundle_complete (tx ∷ own) rest (raw ∷ bundle) e n =
      rw (n.0, e.0, (equal_iff raw raw).1 refl) (check_bundle_complete own rest bundle e.1 n.1)

  Encodes-length :
      (own : List Tx) (bundle : List Bytes) → Encodes sdk own bundle → length own ≡ length bundle
  Encodes-length [] [] e = refl
  Encodes-length [] (raw ∷ bundle) e = absurd e
  Encodes-length (tx ∷ own) [] e = absurd e
  Encodes-length (tx ∷ own) (raw ∷ bundle) e = ap suc (Encodes-length own bundle e.1)

  pub enough :
      (own rest : List Tx) (bundle : List Bytes)
      → Encodes sdk own bundle
      → ltb (length (own ++ rest)) (length bundle) ≡ false
  enough own rest bundle e = ground (arith, Encodes-length own bundle e, length-append own rest)

  pub drop_own :
      (own rest : List Tx) (bundle : List Bytes)
      → Encodes sdk own bundle
      → drop (length bundle) (own ++ rest) ≡ rest
  drop_own [] rest [] e = refl
  drop_own [] rest (raw ∷ bundle) e = absurd e
  drop_own (tx ∷ own) rest [] e = absurd e
  drop_own (tx ∷ own) rest (raw ∷ bundle) e = drop_own own rest bundle e.1

  -- Behind a bid: its info is there, the transactions of its bundle follow in its order, and neither these nor
  -- any further ones are bids of the lane.
  pub record LeadsBundle (bid_tx : Tx) (txs : List Tx) : Type 0 where
    pub info : BidInfo
    pub known : factory.get_auction_bid_info bid_tx ≡ ok (some info)
    pub own : List Tx
    pub rest : List Tx
    pub split : txs ≡ own ++ rest
    pub encoded : Encodes sdk own info.transactions
    pub own_unmatched : NoneMatches own
    pub rest_unmatched : NoneMatches rest

  check_bid_sound :
      (bid_tx : Tx) (txs : List Tx) (info : Option BidInfo)
      → factory.get_auction_bid_info bid_tx ≡ ok info
      → check_bid_order sdk factory l ctx txs info ≡ ok tt
      → LeadsBundle bid_tx txs
  unfolding check_bid_order
  check_bid_sound bid_tx txs none e h = absurd (cc h)
  check_bid_sound bid_tx txs (some info) e h =
      elim (Bool-cases (ltb (length txs) (length info.transactions))) [
        | inl few ↦ absurd (cc (rw few at h))
        | inr many ↦ behind (rw many at h)
      ]
    where
      no_more : Outcome (Unit {0})
      no_more =
          if any_match sdk factory l ctx (drop (length info.transactions) txs)
          then err multiple_bids
          else ok tt

      behind :
          (check_bundle sdk factory l ctx txs info.transactions >> no_more) ≡ ok tt
          → LeadsBundle bid_tx txs
      behind k =
          let (c, n) = >>-eq-ok (check_bundle sdk factory l ctx txs info.transactions) no_more k in
          let s = check_bundle_sound txs info.transactions c in
          record {
            info = info;
            known = e;
            own = s.own;
            rest = s.rest;
            split = s.split;
            encoded = s.encoded;
            own_unmatched = s.unmatched;
            rest_unmatched = subst NoneMatches s.behind (
                (any_match_iff (drop (length info.transactions) txs)).0
                  (none_left _ multiple_bids n));
          }

  check_bid_complete :
      (own rest : List Tx) (info : BidInfo)
      → Encodes sdk own info.transactions
      → NoneMatches own
      → NoneMatches rest
      → check_bid_order sdk factory l ctx (own ++ rest) (some info) ≡ ok tt
  unfolding check_bid_order
  check_bid_complete own rest info e n m =
      rw
        (
          enough own rest info.transactions e,
          check_bundle_complete own rest info.transactions e n,
          drop_own own rest info.transactions e,
          (any_match_iff rest).1 m,
        )
        refl

  -- CheckOrder of the top-of-block lane accepts a proposal exactly if none of its transactions is a bid of the
  -- lane, or the first one alone is, its bid info can be read, and behind it the proposal starts with the
  -- transactions of the bundle, in their order, encoded as the bid has them.
  pub check_order_handler_iff :
      (bid_tx : Tx) (txs : List Tx)
      → (check_order_handler sdk factory l ctx (bid_tx ∷ txs) ≡ ok tt)
        ↔ (NoneMatches (bid_tx ∷ txs) ⊎ (match sdk l ctx bid_tx ≡ true) × LeadsBundle bid_tx txs)
  unfolding check_order_handler
  check_order_handler_iff bid_tx txs = (forward, backward)
    where
      Accepted : Type 0
      Accepted = check_order_handler sdk factory l ctx (bid_tx ∷ txs) ≡ ok tt

      known_info :
          (r : Outcome (Option BidInfo))
          → factory.get_auction_bid_info bid_tx ≡ r
          → match sdk l ctx bid_tx ≡ true
          → Accepted
          → LeadsBundle bid_tx txs
      known_info (ok info) e m h =
          check_bid_sound bid_tx txs info e (rw (m, e, check_order_handler) at h)
      known_info (err x) e m h = absurd (cc (rw (m, e, check_order_handler) at h))
      known_info panic e m h = absurd (cc (rw (m, e, check_order_handler) at h))

      forward :
          Accepted
          → NoneMatches (bid_tx ∷ txs) ⊎ (match sdk l ctx bid_tx ≡ true) × LeadsBundle bid_tx txs
      forward h = elim (Bool-cases (match sdk l ctx bid_tx)) [
        | inl m ↦ inr (m, known_info (factory.get_auction_bid_info bid_tx) refl m h)
        | inr n ↦ inl (n, (any_match_iff txs).0 (none_left _ misplaced_bid (rw n at h)))
      ]

      backward :
          NoneMatches (bid_tx ∷ txs) ⊎ (match sdk l ctx bid_tx ≡ true) × LeadsBundle bid_tx txs
          → Accepted
      backward (inl (n, ns)) = rw (n, (any_match_iff txs).1 ns) refl
      backward (inr (m, b)) =
          rw (m, b.known, b.split)
            (check_bid_complete b.own b.rest b.info b.encoded b.own_unmatched b.rest_unmatched)
