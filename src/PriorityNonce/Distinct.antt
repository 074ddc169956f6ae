-- ===== src/PriorityNonce/Distinct.antt =====
-- The priority index of blockbuster/priority_nonce.go: no two elements have a sender and a nonce in common.
use pob.Prelude.{
  ℕ, ◌≡◌, ◌↔◌, refl, sym, ap, ◌∙◌, arith, Bool, true, false, ◌==◌, ◌&&◌, String, Option, none, some,
  List, [], ◌∷◌, All, Bool-cases, inl, inr, if◌then◌else◌, str_eq, eq_iff,
}
use pob.Prelude.Int.{ℤ, pos, ltb_ℤ}
use pob.Sdk.{Tx}
use pob.Sdk.Skip.{same_key, placed, without}
use pob.PriorityNonce.Defs.{TxMeta}

module _ {C : Type 0} where
  abbrev pub same_id : String → ℕ → TxMeta C → Bool
  same_id s n k = str_eq s k.sender && (n == k.nonce)

  -- The transaction with a sender and a nonce.
  abbrev pub tx_at : String → ℕ → List (TxMeta C × Tx) → Option Tx
  tx_at s n [] = none
  tx_at s n ((k, tx) ∷ rest) = if same_id s n k then some tx else tx_at s n rest

  abbrev pub IsFresh : String → ℕ → List (TxMeta C × Tx) → Type 0
  IsFresh s n = All (λ e. same_id s n e.0 ≡ false)

  abbrev pub IsDistinct : List (TxMeta C × Tx) → Type 0
  IsDistinct [] = Unit
  IsDistinct ((k, tx) ∷ rest) = IsFresh k.sender k.nonce rest × IsDistinct rest

  pub same_id_iff :
      (s : String) (n : ℕ) (k : TxMeta C)
      → (same_id s n k ≡ true) ↔ ((s ≡ k.sender) × (n ≡ k.nonce))
  same_id_iff s n k = ground (arith, eq_iff s k.sender)

  pub same_id_sym : (j k : TxMeta C) → same_id j.sender j.nonce k ≡ same_id k.sender k.nonce j
  same_id_sym j k = ground (arith, eq_iff j.sender k.sender, eq_iff k.sender j.sender)

  -- Two keys with the same identity have the same transactions.
  same_id-eq :
      (s : String) (n : ℕ) (k j : TxMeta C)
      → same_id s n k ≡ true
      → same_id k.sender k.nonce j ≡ same_id s n j
  same_id-eq s n k j h =
      let (e, f) = (same_id_iff s n k).0 h in
      ap (λ x. str_eq x j.sender && (k.nonce == j.nonce)) (sym e)
      ∙ ap (λ x. str_eq s j.sender && (x == j.nonce)) (sym f)

  pub tx_at-IsFresh :
      (s : String) (n : ℕ) (xs : List (TxMeta C × Tx)) → IsFresh s n xs → tx_at s n xs ≡ none
  tx_at-IsFresh s n [] a = refl
  tx_at-IsFresh s n ((k, tx) ∷ rest) a = rw a.0 (tx_at-IsFresh s n rest a.1)

  pub IsFresh-tx_at :
      (s : String) (n : ℕ) (xs : List (TxMeta C × Tx)) → tx_at s n xs ≡ none → IsFresh s n xs
  IsFresh-tx_at s n [] e = tt
  IsFresh-tx_at s n ((k, tx) ∷ rest) e = elim (Bool-cases (same_id s n k)) [
    | inl y ↦ absurd (cc (rw y at e))
    | inr f ↦ (f, IsFresh-tx_at s n rest (rw f at e))
  ]

  -- What is fresh for a key is fresh for those with the same identity.
  IsFresh-for :
      (s : String) (n : ℕ) (k : TxMeta C) (xs : List (TxMeta C × Tx))
      → same_id s n k ≡ true
      → IsFresh k.sender k.nonce xs
      → IsFresh s n xs
  IsFresh-for s n k [] h a = tt
  IsFresh-for s n k (e ∷ rest) h a =
      (sym (same_id-eq s n k e.0 h) ∙ a.0, IsFresh-for s n k rest h a.1)

  apart :
      (s : String) (n : ℕ) (k j : TxMeta C)
      → same_id k.sender k.nonce j ≡ false
      → same_id s n j ≡ true
      → same_id s n k ≡ false
  apart s n k j f h = elim (Bool-cases (same_id s n k)) [
    | inl y ↦ absurd (cc (same_id-eq s n k j y, f, h))
    | inr o ↦ o
  ]

  -- The head of an index passes a change behind it on.
  behind_head :
      (s : String) (n : ℕ) (k j : TxMeta C) (w v x y : Option Tx)
      → same_id k.sender k.nonce j ≡ false
      → x ≡ (if same_id s n k then v else y)
      → (if same_id s n j then w else x)
        ≡ (if same_id s n k then v else if same_id s n j then w else y)
  behind_head s n k j w v x y f e = elim (Bool-cases (same_id s n j)) [
    | inl h ↦ rw (h, apart s n k j f h) refl
    | inr o ↦ rw o e
  ]

  module _ (compare : TxMeta C → TxMeta C → ℤ)
      (sound : (a b : TxMeta C)
        → same_key compare a b ≡ true
        → same_id a.sender a.nonce b ≡ true) where
    pub All-placed {ℓ} :
        (P : TxMeta C × Tx → Type ℓ) (k : TxMeta C) (tx : Tx) (xs : List (TxMeta C × Tx))
        → P (k, tx)
        → IsFresh k.sender k.nonce xs
        → All P xs
        → All P (placed compare k tx xs)
    unfolding placed
    All-placed P k tx [] p f a = (p, tt)
    All-placed P k tx ((j, w) ∷ rest) p f a = elim (Bool-cases (same_key compare k j)) [
      | inl y ↦ absurd (cc (sound k j y, f.0))
      | inr n ↦ elim (Bool-cases (ltb_ℤ (pos 0) (compare k j))) [
        | inl y ↦ rw (n, placed, y) (p, a)
        | inr o ↦ rw (n, placed, o) (a.0, All-placed P k tx rest p f.1 a.1)
      ]
    ]

    pub tx_at-placed :
        (s : String) (n : ℕ) (k : TxMeta C) (tx : Tx) (xs : List (TxMeta C × Tx))
        → IsFresh k.sender k.nonce xs
        → tx_at s n (placed compare k tx xs) ≡ (if same_id s n k then some tx else tx_at s n xs)
    unfolding placed
    tx_at-placed s n k tx [] f = refl
    tx_at-placed s n k tx ((j, w) ∷ rest) f = elim (Bool-cases (same_key compare k j)) [
      | inl y ↦ absurd (cc (sound k j y, f.0))
      | inr m ↦ elim (Bool-cases (ltb_ℤ (pos 0) (compare k j))) [
        | inl y ↦ rw (m, placed, y) refl
        | inr o ↦
            rw (m, placed, o)
              (behind_head s n k j (some w) (some tx) _ _ f.0 (tx_at-placed s n k tx rest f.1))
      ]
    ]

    pub placed-IsDistinct :
        (k : TxMeta C) (tx : Tx) (xs : List (TxMeta C × Tx))
        → IsFresh k.sender k.nonce xs
        → IsDistinct xs
        → IsDistinct (placed compare k tx xs)
    unfolding placed
    placed-IsDistinct k tx [] f d = (tt, tt)
    placed-IsDistinct k tx ((j, w) ∷ rest) f d = elim (Bool-cases (same_key compare k j)) [
      | inl y ↦ absurd (cc (sound k j y, f.0))
      | inr m ↦ elim (Bool-cases (ltb_ℤ (pos 0) (compare k j))) [
        | inl y ↦ rw (m, placed, y) (f, d)
        | inr o ↦
            rw (m, placed, o)
              (
                All-placed (λ e. same_id j.sender j.nonce e.0 ≡ false) k tx rest
                    (same_id_sym j k ∙ f.0) f.1 d.0,
                placed-IsDistinct k tx rest f.1 d.1,
              )
      ]
    ]

    pub All-without {ℓ} :
        (P : TxMeta C × Tx → Type ℓ) (k : TxMeta C) (xs : List (TxMeta C × Tx))
        → All P xs
        → All P (without compare k xs)
    unfolding without
    All-without P k [] a = tt
    All-without P k ((j, w) ∷ rest) a = elim (Bool-cases (same_key compare k j)) [
      | inl y ↦ rw (y, without) a.1
      | inr n ↦ rw (n, without) (a.0, All-without P k rest a.1)
    ]

    pub without-IsDistinct :
        (k : TxMeta C) (xs : List (TxMeta C × Tx))
        → IsDistinct xs
        → IsDistinct (without compare k xs)
    unfolding without
    without-IsDistinct k [] d = tt
    without-IsDistinct k ((j, w) ∷ rest) d = elim (Bool-cases (same_key compare k j)) [
      | inl y ↦ rw (y, without) d.1
      | inr n ↦
          rw (n, without)
            (
              All-without (λ e. same_id j.sender j.nonce e.0 ≡ false) k rest d.0,
              without-IsDistinct k rest d.1,
            )
    ]

    -- The key has the priority and the weight of the element with its sender and nonce, where there is one.
    abbrev pub Agrees : TxMeta C → List (TxMeta C × Tx) → Type 0
    Agrees k = All (λ e. same_id k.sender k.nonce e.0 ≡ true → same_key compare k e.0 ≡ true)

    pub tx_at-without :
        (s : String) (n : ℕ) (k : TxMeta C) (xs : List (TxMeta C × Tx))
        → IsDistinct xs
        → Agrees k xs
        → tx_at s n (without compare k xs) ≡ (if same_id s n k then none else tx_at s n xs)
    unfolding without
    tx_at-without s n k [] d a = ground arith
    tx_at-without s n k ((j, w) ∷ rest) d a = elim (Bool-cases (same_key compare k j)) [
      | inl y ↦ rw (y, without) (taken (sound k j y))
      | inr m ↦
          rw (m, without)
            (behind_head s n k j (some w) none _ _ (differs m) (tx_at-without s n k rest d.1 a.1))
    ]
      where
        differs : same_key compare k j ≡ false → same_id k.sender k.nonce j ≡ false
        differs m = elim (Bool-cases (same_id k.sender k.nonce j)) [
          | inl y ↦ absurd (cc (a.0 y, m))
          | inr o ↦ o
        ]

        taken :
            same_id k.sender k.nonce j ≡ true
            → tx_at s n rest
              ≡ (if same_id s n k then none else if same_id s n j then some w else tx_at s n rest)
        taken q = elim (Bool-cases (same_id s n k)) [
          | inl y ↦
              rw y (
                tx_at-IsFresh s n rest
                  (IsFresh-for s n j rest (sym (same_id-eq s n k j y) ∙ q) d.0))
          | inr o ↦ elim (Bool-cases (same_id s n j)) [
            | inl h ↦ absurd (cc (same_id-eq s n j k h, same_id_sym j k, q, o))
            | inr p ↦ rw (o, p) refl
          ]
        ]
