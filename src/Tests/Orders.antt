-- ===== src/Tests/Orders.antt =====
-- Comparisons of numbers and of texts, for the tests, and a skip list that is a list.
use Prim.Native.Nat.{ℕ}
use Prim.Native.Char.{code}
use Prim.Native.String.{String, [], ◌∷◌}
use text.Mathlib.TextEquality.{Char-path}
use pob.Prelude.{
  ◌≡◌, ◌↔◌, refl, sym, subst, ◌∙◌, arith, Bool, true, false, ◌==◌, ltb, ◌&&◌, ◌||◌, if◌then◌else◌,
}
use pob.Prelude.Int.{ℤ, pos, negsuc, ltb_ℤ}
use pob.Sdk.Skip.{IsOrder}

abbrev pub compare_ℕ : ℕ → ℕ → ℤ
compare_ℕ a b = if ltb a b then negsuc 0 else if a == b then pos 0 else pos 1

pub compare_ℕ_iff : (a b : ℕ) → (compare_ℕ a b ≡ pos 0) ↔ (a ≡ b)
compare_ℕ_iff a b = ground arith

pub compare_ℕ-lt : (a b : ℕ) → ltb_ℤ (compare_ℕ a b) (pos 0) ≡ ltb a b
compare_ℕ-lt a b = ground arith

pub compare_ℕ-gt : (a b : ℕ) → ltb_ℤ (pos 0) (compare_ℕ a b) ≡ ltb b a
compare_ℕ-gt a b = ground arith

pub compare_ℕ-IsOrder : IsOrder compare_ℕ
compare_ℕ-IsOrder = record {
  reflexive = λ a. (compare_ℕ_iff a a).1 refl;
  opposite = λ a b. compare_ℕ-lt a b ∙ sym (compare_ℕ-gt b a);
  transitive = λ a b c h i. ground (arith, h, i);
}

-- The first text is behind the second in the order of the characters.
abbrev pub text_after : String → String → Bool
text_after [] t = false
text_after (c ∷ s) [] = true
text_after (c ∷ s) (d ∷ t) = ltb (code d) (code c) || (code c == code d && text_after s t)

after_self : (s : String) → text_after s s ≡ false
after_self [] = refl
after_self (c ∷ s) = ground (arith, after_self s)

after_asym : (s t : String) → text_after s t ≡ true → text_after t s ≡ false
after_asym [] t h = absurd (cc h)
after_asym (c ∷ s) [] h = refl
after_asym (c ∷ s) (d ∷ t) h = ground (arith, h, after_asym s t)

after_total : (s t : String) → text_after s t ≡ false → text_after t s ≡ false → s ≡ t
after_total [] [] h k = refl
after_total [] (d ∷ t) h k = absurd (cc k)
after_total (c ∷ s) [] h k = absurd (cc h)
after_total (c ∷ s) (d ∷ t) h k =
    let e : code c ≡ code d = ground (arith, h, k) in
    let f : text_after s t ≡ false = ground (arith, h, k) in
    let g : text_after t s ≡ false = ground (arith, h, k) in
    λ i. Char-path c d e i ∷ after_total s t f g i

after_trans :
    (s t u : String) → text_after s t ≡ false → text_after t u ≡ false → text_after s u ≡ false
after_trans [] t u h k = refl
after_trans (c ∷ s) [] u h k = absurd (cc h)
after_trans (c ∷ s) (d ∷ t) [] h k = absurd (cc k)
after_trans (c ∷ s) (d ∷ t) (e ∷ u) h k = ground (arith, h, k, after_trans s t u)

abbrev pub compare_text : String → String → ℤ
compare_text a b = if text_after a b then pos 1 else if text_after b a then negsuc 0 else pos 0

pub compare_text_iff : (a b : String) → (compare_text a b ≡ pos 0) ↔ (a ≡ b)
compare_text_iff a b = (
  λ h. after_total a b (ground (arith, h)) (ground (arith, h)),
  λ e. subst (λ x. compare_text a x ≡ pos 0) e (rw (after_self a) refl),
)

after_iff : (a b : String) → ltb_ℤ (pos 0) (compare_text a b) ≡ text_after a b
after_iff a b = ground arith

pub compare_text-IsOrder : IsOrder compare_text
compare_text-IsOrder = record {
  reflexive = λ a. (compare_text_iff a a).1 refl;
  opposite = λ a b. ground (arith, after_asym a b);
  transitive = λ a b c h i.
      after_iff a c ∙ after_trans a b c (sym (after_iff a b) ∙ h) (sym (after_iff b c) ∙ i);
}
