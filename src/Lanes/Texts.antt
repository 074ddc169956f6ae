-- ===== src/Lanes/Texts.antt =====
-- The comparison of fees and bids of blockbuster/lane_mempool.go and blockbuster/lanes/auction/mempool.go.
use pob.Prelude.{
  ◌≡◌, refl, Bool, true, false, String, Option, none, some, Bool-cases, inl, inr, if◌then◌else◌,
}
use pob.Prelude.Int.{pos, negsuc, ltb_ℤ}
use pob.Lanes.Priority.{CoinTexts, compare_parsed, compare_texts}

above_iff :
    (g h : Bool)
    → (g ≡ true → h ≡ false)
    → ltb_ℤ (pos 0) (if g then pos 1 else if h then negsuc 0 else pos 0)
      ≡ ltb_ℤ (if h then pos 1 else if g then negsuc 0 else pos 0) (pos 0)
above_iff true true asym = absurd (cc (asym refl))
above_iff true false asym = refl
above_iff false true asym = refl
above_iff false false asym = refl

module _ (texts : CoinTexts) where
  not_above_itself : (a : texts.Coins) → texts.is_all_gt a a ≡ false
  not_above_itself a = elim (Bool-cases (texts.is_all_gt a a)) [
    | inl y ↦ texts.is_all_gt-asym a a y
    | inr n ↦ n
  ]

  compare_parsed_refl : (a : Option texts.Coins) → compare_parsed texts a a ≡ pos 0
  unfolding compare_parsed
  compare_parsed_refl none = refl
  compare_parsed_refl (some a) = rw (texts.is_all_lt_lem a a, not_above_itself a) refl

  -- Every fee, and every bid, compares as equal to itself.
  pub compare_texts_refl : (a : String) → compare_texts texts a a ≡ pos 0
  unfolding compare_texts
  compare_texts_refl a = compare_parsed_refl (texts.parse_coins_normalized a)

  compare_parsed_swap :
      (a b : Option texts.Coins)
      → ltb_ℤ (pos 0) (compare_parsed texts a b) ≡ ltb_ℤ (compare_parsed texts b a) (pos 0)
  unfolding compare_parsed
  compare_parsed_swap none none = refl
  compare_parsed_swap none (some b) = refl
  compare_parsed_swap (some a) none = refl
  compare_parsed_swap (some a) (some b) =
      rw (texts.is_all_lt_lem a b, texts.is_all_lt_lem b a)
        (above_iff (texts.is_all_gt a b) (texts.is_all_gt b a) (texts.is_all_gt-asym a b))

  -- A fee or a bid is above another exactly where the other is below it.
  pub compare_texts_swap :
      (a b : String)
      → ltb_ℤ (pos 0) (compare_texts texts a b) ≡ ltb_ℤ (compare_texts texts b a) (pos 0)
  unfolding compare_texts
  compare_texts_swap a b =
      compare_parsed_swap (texts.parse_coins_normalized a) (texts.parse_coins_normalized b)
