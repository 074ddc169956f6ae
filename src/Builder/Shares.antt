-- ===== src/Builder/Shares.antt =====
-- The rounds of the loop of ValidateAuctionBundle (x/builder/keeper/auction.go) and the signers that a list of
-- transactions shares.
use pob.Prelude.{
  Bool, true, false, ◌&&◌, ◌||◌, String, List, [], ◌∷◌, ◌++◌, ◌≡◌, ◌≢◌, ◌⊎◌, refl, sym, ◌∙◌, ap,
  subst, arith, All, inl, inr, Bool-cases, str_eq, eq_iff,
}
use pob.Prelude.Outcome.{Outcome, ok, err, front_running}
use pob.Proposal.{has_key}
use pob.Builder.Keeper.{filter_signers, bundle_loop}

-- Each of the transactions has `s` among its signers.
abbrev pub SignedBy : String → List (List String) → Type 0
SignedBy s = All (λ signers. has_key s signers ≡ true)

-- The transactions are as one with those before: there are none, or a signer of all before signed all.
abbrev pub SharesSigner : List String → List (List String) → Type 0
SharesSigner prev txs = (txs ≡ []) ⊎ ((s : String) × (has_key s prev ≡ true) × SignedBy s txs)

-- A first part shares a signer with what was before, and the bidder signed all of the rest.
pub record HandsOver (bidder : String) (prev : List String) (txs : List (List String))
    : Type 0 where
  pub first : List (List String)
  pub last : List (List String)
  pub split : txs ≡ first ++ last
  pub shares : SharesSigner prev first
  pub by_bidder : SignedBy bidder last

pub has_key-nil : (s : String) → has_key s [] ≡ false
unfolding has_key
has_key-nil s = refl

pub has_key-cons :
    (s k : String) (xs : List String) → has_key s (k ∷ xs) ≡ (str_eq s k || has_key s xs)
unfolding has_key
has_key-cons s k xs = refl

has_key-filter_signers :
    (s : String) (prev tx : List String)
    → has_key s (filter_signers prev tx) ≡ (has_key s prev && has_key s tx)
unfolding filter_signers
has_key-filter_signers s [] tx = unfold has_key in refl
has_key-filter_signers s (k ∷ prev) tx =
    kept_or_not (Bool-cases (has_key k tx)) (has_key-filter_signers s prev tx)
  where
    same : {b : Bool} → has_key k tx ≡ b → s ≡ k → has_key s tx ≡ b
    same o e = rw (e, o)

    kept_or_not :
        (has_key k tx ≡ true) ⊎ (has_key k tx ≡ false)
        → has_key s (filter_signers prev tx) ≡ (has_key s prev && has_key s tx)
        → has_key s (filter_signers (k ∷ prev) tx) ≡ (has_key s (k ∷ prev) && has_key s tx)
    kept_or_not (inl o) ih =
        rw (filter_signers, o) ground
          (
            arith,
            ih,
            o,
            eq_iff s k,
            has_key-cons s k (filter_signers prev tx),
            has_key-cons s k prev,
            same o,
          )
    kept_or_not (inr o) ih =
        rw (filter_signers, o) ground (arith, ih, o, eq_iff s k, has_key-cons s k prev, same o)

module _ (prev tx : List String) (kept : List String) (e : filter_signers prev tx ≡ kept) where
  kept_in : (s : String) → has_key s kept ≡ true → (has_key s prev ≡ true) × (has_key s tx ≡ true)
  kept_in s h = ground (arith, has_key-filter_signers s prev tx, ap (has_key s) e, h)

  in_kept : (s : String) → has_key s prev ≡ true → has_key s tx ≡ true → has_key s kept ≡ true
  in_kept s h g = ground (arith, has_key-filter_signers s prev tx, ap (has_key s) e, h, g)

  pub shares_next :
      (rest : List (List String))
      → kept ≢ []
      → SharesSigner kept rest
      → SharesSigner prev (tx ∷ rest)
  shares_next rest ne (inr (s, m, all_s)) = let (p, t) = kept_in s m in inr (s, p, (t, all_s))
  shares_next rest ne (inl none_left) =
      elim kept as (λ l. l ≡ kept → SharesSigner prev (tx ∷ rest)) [
        | [] ↦ λ i. absurd (ne (sym i))
        | x ∷ xs ↦ λ i.
            let (p, t) = kept_in x (rw (sym i, has_key-cons x x xs) ground (arith, eq_iff x x)) in
            inr (x, p, (t, rw none_left tt))
      ]
        refl

  pub shares_kept :
      (rest : List (List String)) → SharesSigner prev (tx ∷ rest) → SharesSigner kept rest
  shares_kept rest (inl none_left) = absurd (cc none_left)
  shares_kept rest (inr (s, m, (t, all_s))) = inr (s, in_kept s m t, all_s)

  pub shares-nonempty : (rest : List (List String)) → SharesSigner prev (tx ∷ rest) → kept ≢ []
  shares-nonempty rest (inl none_left) i = absurd (cc none_left)
  shares-nonempty rest (inr (s, m, (t, all_s))) i =
      absurd (cc (in_kept s m t, ap (has_key s) i, has_key-nil s))

-- A round of the loop, by what the two filters leave.
module _ (bidder : String) (prev tx : List String) (rest : List (List String)) where
  pub round_kept :
      (seen : Bool) (x : String) (xs : List String)
      → filter_signers prev tx ≡ x ∷ xs
      → bundle_loop bidder prev seen (tx ∷ rest) ≡ bundle_loop bidder (x ∷ xs) seen rest
  unfolding bundle_loop
  round_kept seen x xs i = rw (bundle_loop, i) refl

  pub round_refused :
      filter_signers prev tx ≡ [] → bundle_loop bidder prev true (tx ∷ rest) ≡ err front_running
  unfolding bundle_loop
  round_refused i = rw (bundle_loop, i) refl

  pub round_handed :
      (x : String) (xs : List String)
      → filter_signers prev tx ≡ []
      → filter_signers (bidder ∷ []) tx ≡ x ∷ xs
      → bundle_loop bidder prev false (tx ∷ rest) ≡ bundle_loop bidder (x ∷ xs) true rest
  unfolding bundle_loop
  round_handed x xs i j = rw (bundle_loop, i, j) refl

  pub round_not_handed :
      filter_signers prev tx ≡ []
      → filter_signers (bidder ∷ []) tx ≡ []
      → bundle_loop bidder prev false (tx ∷ rest) ≡ err front_running
  unfolding bundle_loop
  round_not_handed i j = rw (bundle_loop, i, j) refl

pub err-ne-ok : {x : Outcome (Unit {0})} → x ≡ err front_running → x ≢ ok tt
err-ne-ok e f = cc (e, f)

pub seen-shares :
    (bidder : String) (prev : List String) (txs : List (List String))
    → bundle_loop bidder prev true txs ≡ ok tt
    → SharesSigner prev txs
seen-shares bidder prev [] e = inl refl
seen-shares bidder prev (tx ∷ rest) e =
    kept_ok (filter_signers prev tx) refl (λ l. seen-shares bidder l rest)
  where
    kept_ok :
        (kept : List String)
        → filter_signers prev tx ≡ kept
        → ((l : List String) → bundle_loop bidder l true rest ≡ ok tt → SharesSigner l rest)
        → SharesSigner prev (tx ∷ rest)
    kept_ok [] i ih = absurd (err-ne-ok (round_refused bidder prev tx rest i) e)
    kept_ok (x ∷ xs) i ih =
        shares_next prev tx (x ∷ xs) i rest (λ f. cc f)
          (ih (x ∷ xs) (sym (round_kept bidder prev tx rest true x xs i) ∙ e))

pub shares-seen :
    (bidder : String) (prev : List String) (txs : List (List String))
    → SharesSigner prev txs
    → bundle_loop bidder prev true txs ≡ ok tt
shares-seen bidder prev [] sh = unfold bundle_loop in refl
shares-seen bidder prev (tx ∷ rest) sh =
    kept_ok (filter_signers prev tx) refl (λ l. shares-seen bidder l rest)
  where
    kept_ok :
        (kept : List String)
        → filter_signers prev tx ≡ kept
        → ((l : List String) → SharesSigner l rest → bundle_loop bidder l true rest ≡ ok tt)
        → bundle_loop bidder prev true (tx ∷ rest) ≡ ok tt
    kept_ok [] i ih = absurd (shares-nonempty prev tx [] i rest sh refl)
    kept_ok (x ∷ xs) i ih =
        round_kept bidder prev tx rest true x xs i
        ∙ ih (x ∷ xs) (shares_kept prev tx (x ∷ xs) i rest sh)

-- The bidder alone is shared with those that the bidder signed.
module _ (bidder : String) (tx : List String) (rest : List (List String)) where
  pub bidder_signed : SharesSigner (bidder ∷ []) (tx ∷ rest) → SignedBy bidder (tx ∷ rest)
  bidder_signed (inl none_left) = absurd (cc none_left)
  bidder_signed (inr (s, m, all_s)) =
      subst (λ k. SignedBy k (tx ∷ rest))
        (ground (arith, m, has_key-cons s bidder [], has_key-nil s, eq_iff s bidder)) all_s

  pub signed_bidder : SignedBy bidder (tx ∷ rest) → SharesSigner (bidder ∷ []) (tx ∷ rest)
  signed_bidder all_s =
      inr (bidder, ground (arith, has_key-cons bidder bidder [], eq_iff bidder bidder), all_s)

-- The first part grows by a transaction that shares.
pub HandsOver-kept :
    (bidder : String) (prev tx : List String) (rest : List (List String)) (kept : List String)
    → filter_signers prev tx ≡ kept
    → kept ≢ []
    → HandsOver bidder kept rest
    → HandsOver bidder prev (tx ∷ rest)
HandsOver-kept bidder prev tx rest kept i ne h = record {
  first = tx ∷ h.first;
  last = h.last;
  split = ap (λ l. tx ∷ l) h.split;
  shares = shares_next prev tx kept i h.first ne h.shares;
  by_bidder = h.by_bidder;
}
