-- ===== src/Builder/Bundle.antt =====
-- ValidateAuctionBundle of x/builder/keeper/auction.go against its specification.
use pob.Prelude.{
  Bool, false, String, List, [], ◌∷◌, ◌++◌, ◌≡◌, ◌↔◌, ◌⊎◌, refl, sym, ◌∙◌, ap, subst, inl, inr,
  Bool-cases,
}
use pob.Prelude.Outcome.{ok}
use pob.Sdk.{Sdk, Bytes}
use pob.Proposal.{has_key}
use pob.Builder.Types.{BuilderDeps}
use pob.Builder.Keeper.{filter_signers, bundle_loop, validate_auction_bundle}
use pob.Builder.Shares.{
  SignedBy, SharesSigner, HandsOver, shares_next, shares_kept, shares-nonempty, round_kept,
  round_handed, round_not_handed, err-ne-ok, seen-shares, shares-seen, bidder_signed, signed_bidder,
  HandsOver-kept,
}

-- With the bidder not among the signers so far, the loop passes exactly if the bundle can be split.
not_seen-HandsOver :
    (bidder : String) (prev : List String) (txs : List (List String))
    → bundle_loop bidder prev false txs ≡ ok tt
    → HandsOver bidder prev txs
not_seen-HandsOver bidder prev [] e = record {
  first = [];
  last = [];
  split = refl;
  shares = inl refl;
  by_bidder = tt;
}
not_seen-HandsOver bidder prev (tx ∷ rest) e =
    by_kept (filter_signers prev tx) refl (λ l. not_seen-HandsOver bidder l rest)
  where
    by_bidders :
        (b : List String)
        → filter_signers prev tx ≡ []
        → filter_signers (bidder ∷ []) tx ≡ b
        → HandsOver bidder prev (tx ∷ rest)
    by_bidders [] i j = absurd (err-ne-ok (round_not_handed bidder prev tx rest i j) e)
    by_bidders (x ∷ xs) i j = record {
      first = [];
      last = tx ∷ rest;
      split = refl;
      shares = inl refl;
      by_bidder = bidder_signed bidder tx rest (
          shares_next (bidder ∷ []) tx (x ∷ xs) j rest (λ f. cc f)
            (seen-shares bidder (x ∷ xs) rest
              (sym (round_handed bidder prev tx rest x xs i j) ∙ e)));
    }

    by_kept :
        (kept : List String)
        → filter_signers prev tx ≡ kept
        → ((l : List String) → bundle_loop bidder l false rest ≡ ok tt → HandsOver bidder l rest)
        → HandsOver bidder prev (tx ∷ rest)
    by_kept [] i ih = by_bidders (filter_signers (bidder ∷ []) tx) i refl
    by_kept (x ∷ xs) i ih =
        HandsOver-kept bidder prev tx rest (x ∷ xs) i (λ f. cc f)
          (ih (x ∷ xs) (sym (round_kept bidder prev tx rest false x xs i) ∙ e))

HandsOver-not_seen :
    (bidder : String) (prev : List String) (txs first last : List (List String))
    → txs ≡ first ++ last
    → SharesSigner prev first
    → SignedBy bidder last
    → bundle_loop bidder prev false txs ≡ ok tt
HandsOver-not_seen bidder prev [] first last split sh by = unfold bundle_loop in refl
HandsOver-not_seen bidder prev (tx ∷ rest) first last split sh by =
    by_kept (filter_signers prev tx) refl (λ l f z. HandsOver-not_seen bidder l rest f z) first
      split sh
  where
    Rest : Type 0
    Rest =
        (l : List String) (f z : List (List String))
        → rest ≡ f ++ z
        → SharesSigner l f
        → SignedBy bidder z
        → bundle_loop bidder l false rest ≡ ok tt

    all_by : tx ∷ rest ≡ last → SignedBy bidder (tx ∷ rest)
    all_by e = subst (SignedBy bidder) (sym e) by

    tail :
        (b : List String) (f : List (List String)) → tx ∷ rest ≡ (b ∷ f) ++ last → rest ≡ f ++ last
    tail b f e = cc e

    shares_tx :
        (b : List String) (f : List (List String))
        → tx ∷ rest ≡ (b ∷ f) ++ last
        → SharesSigner prev (b ∷ f)
        → SharesSigner prev (tx ∷ f)
    shares_tx b f e = subst (λ t. SharesSigner prev (t ∷ f)) (cc e)

    by_bidders :
        (b : List String)
        → filter_signers prev tx ≡ []
        → filter_signers (bidder ∷ []) tx ≡ b
        → SignedBy bidder (tx ∷ rest)
        → bundle_loop bidder prev false (tx ∷ rest) ≡ ok tt
    by_bidders [] i j all_s =
        absurd
          (shares-nonempty (bidder ∷ []) tx [] j rest (signed_bidder bidder tx rest all_s) refl)
    by_bidders (x ∷ xs) i j all_s =
        round_handed bidder prev tx rest x xs i j
        ∙ shares-seen bidder (x ∷ xs) rest
            (shares_kept (bidder ∷ []) tx (x ∷ xs) j rest (signed_bidder bidder tx rest all_s))

    by_kept :
        (kept : List String)
        → filter_signers prev tx ≡ kept
        → Rest
        → (first : List (List String)) → tx ∷ rest ≡ first ++ last
        → SharesSigner prev first
        → bundle_loop bidder prev false (tx ∷ rest) ≡ ok tt
    by_kept [] i ih [] e sh = by_bidders (filter_signers (bidder ∷ []) tx) i refl (all_by e)
    by_kept [] i ih (b ∷ f) e sh = absurd (shares-nonempty prev tx [] i f (shares_tx b f e sh) refl)
    by_kept (x ∷ xs) i ih [] e sh =
        round_kept bidder prev tx rest false x xs i
        ∙ ih (x ∷ xs) [] rest refl (inl refl) (all_by e).1
    by_kept (x ∷ xs) i ih (b ∷ f) e sh =
        round_kept bidder prev tx rest false x xs i
        ∙ ih (x ∷ xs) f last (tail b f e) (shares_kept prev tx (x ∷ xs) i f (shares_tx b f e sh)) by

append_nil : (l : List (List String)) → l ≡ l ++ []
append_nil [] = refl
append_nil (x ∷ xs) = ap (λ t. x ∷ t) (append_nil xs)

module _ (sdk : Sdk) (deps : BuilderDeps sdk) (bidder : Bytes) (first : List String)
    (rest : List (List String)) where
  -- The validation of a bundle of at least one transaction passes in two cases only. In the first, there are no
  -- others, or one signer of the first transaction signed all the others. In the second, the bidder did not sign
  -- the first transaction, the others are a first part (empty, or all signed by one signer of the first
  -- transaction) and a last part, and the bidder signed all of the last part.
  pub validate_auction_bundle_iff :
      (validate_auction_bundle sdk deps bidder (first ∷ rest) ≡ ok tt) ↔ (
        SharesSigner first rest
        ⊎ (has_key (sdk.acc_string bidder) first ≡ false)
          × HandsOver (sdk.acc_string bidder) first rest)
  unfolding validate_auction_bundle
  validate_auction_bundle_iff = (forward, backward)
    where
      name : String
      name = sdk.acc_string bidder

      Passes : Bool → Type 0
      Passes b = bundle_loop name first b rest ≡ ok tt

      forward :
          Passes (has_key name first)
          → SharesSigner first rest ⊎ (has_key name first ≡ false) × HandsOver name first rest
      forward e = elim (Bool-cases (has_key name first)) [
        | inl signed ↦ inl (seen-shares name first rest (subst Passes signed e))
        | inr not_signed ↦
            inr (not_signed, not_seen-HandsOver name first rest (subst Passes not_signed e))
      ]

      backward :
          SharesSigner first rest ⊎ (has_key name first ≡ false) × HandsOver name first rest
          → Passes (has_key name first)
      backward (inr (n, h)) =
          subst Passes (sym n)
            (HandsOver-not_seen name first rest h.first h.last h.split h.shares h.by_bidder)
      backward (inl sh) = elim (Bool-cases (has_key name first)) [
        | inl signed ↦ subst Passes (sym signed) (shares-seen name first rest sh)
        | inr not_signed ↦
            subst Passes (sym not_signed)
              (HandsOver-not_seen name first rest rest [] (append_nil rest) sh tt)
      ]
