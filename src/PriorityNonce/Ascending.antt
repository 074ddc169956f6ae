-- ===== src/PriorityNonce/Ascending.antt =====
-- The index of a sender in blockbuster/priority_nonce.go: its elements ascend by nonce.
use pob.Prelude.{
  ℕ, ◌<◌, ◌≡◌, refl, arith, ◌==◌, ltb, Option, none, some, List, [], ◌∷◌, All, if◌then◌else◌,
}
use pob.Prelude.Int.{pos, ltb_ℤ}
use pob.Sdk.{Tx}
use pob.Sdk.Skip.{same_key, placed, without, found}
use pob.PriorityNonce.Defs.{Comparables, TxMeta, nonce_compare}

pub ==_sym : (n m : ℕ) → (n == m) ≡ (m == n)
==_sym n m = ground arith

module _ {C : Type 0} where
  -- The nonces ascend.
  abbrev pub IsAscending : List (TxMeta C × Tx) → Type 0
  IsAscending [] = Unit
  IsAscending ((k, tx) ∷ rest) = All (λ e. k.nonce < (e.0).nonce) rest × IsAscending rest

  -- The transaction with a nonce.
  abbrev pub nonce_tx : ℕ → List (TxMeta C × Tx) → Option Tx
  nonce_tx n [] = none
  nonce_tx n ((k, tx) ∷ rest) = if k.nonce == n then some tx else nonce_tx n rest

  -- What Set and Remove of the index come to, by the nonces.
  pub by_nonce_placed : TxMeta C → Tx → List (TxMeta C × Tx) → List (TxMeta C × Tx)
  by_nonce_placed k tx [] = (k, tx) ∷ []
  by_nonce_placed k tx ((j, w) ∷ rest) =
      let behind = by_nonce_placed k tx rest in
      if k.nonce == j.nonce
      then (j, tx) ∷ rest
      else if ltb k.nonce j.nonce
      then (k, tx) ∷ (j, w) ∷ rest
      else (j, w) ∷ behind

  pub by_nonce_without : ℕ → List (TxMeta C × Tx) → List (TxMeta C × Tx)
  by_nonce_without n [] = []
  by_nonce_without n ((j, w) ∷ rest) =
      let behind = by_nonce_without n rest in if n == j.nonce then rest else (j, w) ∷ behind

  above-placed :
      (n : ℕ) (k : TxMeta C) (tx : Tx) (xs : List (TxMeta C × Tx))
      → n < k.nonce
      → All (λ e. n < (e.0).nonce) xs
      → All (λ e. n < (e.0).nonce) (by_nonce_placed k tx xs)
  unfolding by_nonce_placed
  above-placed n k tx [] h a = (h, tt)
  above-placed n k tx ((j, w) ∷ rest) h a = ground (arith, above-placed n k tx rest h a.1)

  above-without :
      (n m : ℕ) (xs : List (TxMeta C × Tx))
      → All (λ e. n < (e.0).nonce) xs
      → All (λ e. n < (e.0).nonce) (by_nonce_without m xs)
  unfolding by_nonce_without
  above-without n m [] a = tt
  above-without n m ((j, w) ∷ rest) a = ground (arith, above-without n m rest a.1)

  above_trans :
      (n m : ℕ) (xs : List (TxMeta C × Tx))
      → n < m
      → All (λ e. m < (e.0).nonce) xs
      → All (λ e. n < (e.0).nonce) xs
  above_trans n m [] h a = tt
  above_trans n m (e ∷ rest) h a = (omega (arith, h, a.0), above_trans n m rest h a.1)

  pub placed-IsAscending :
      (k : TxMeta C) (tx : Tx) (xs : List (TxMeta C × Tx))
      → IsAscending xs
      → IsAscending (by_nonce_placed k tx xs)
  unfolding by_nonce_placed
  placed-IsAscending k tx [] a = (tt, tt)
  placed-IsAscending k tx ((j, w) ∷ rest) a = ground (
    arith,
    placed-IsAscending k tx rest a.1,
    above-placed j.nonce k tx rest,
    above_trans k.nonce j.nonce rest,
  )

  pub without-IsAscending :
      (n : ℕ) (xs : List (TxMeta C × Tx)) → IsAscending xs → IsAscending (by_nonce_without n xs)
  unfolding by_nonce_without
  without-IsAscending n [] a = tt
  without-IsAscending n ((j, w) ∷ rest) a =
      ground (arith, without-IsAscending n rest a.1, above-without j.nonce n rest a.0)

  nonce_tx-above :
      (n : ℕ) (xs : List (TxMeta C × Tx)) → All (λ e. n < (e.0).nonce) xs → nonce_tx n xs ≡ none
  nonce_tx-above n [] a = refl
  nonce_tx-above n ((k, tx) ∷ rest) a = ground (arith, nonce_tx-above n rest a.1)

  pub nonce_tx-placed :
      (n : ℕ) (k : TxMeta C) (tx : Tx) (xs : List (TxMeta C × Tx))
      → nonce_tx n (by_nonce_placed k tx xs) ≡ (if k.nonce == n then some tx else nonce_tx n xs)
  unfolding by_nonce_placed
  nonce_tx-placed n k tx [] = refl
  nonce_tx-placed n k tx ((j, w) ∷ rest) = ground (arith, nonce_tx-placed n k tx rest)

  pub nonce_tx-without :
      (n m : ℕ) (xs : List (TxMeta C × Tx))
      → IsAscending xs
      → nonce_tx n (by_nonce_without m xs) ≡ (if m == n then none else nonce_tx n xs)
  unfolding by_nonce_without
  nonce_tx-without n m [] a = ground arith
  nonce_tx-without n m ((j, w) ∷ rest) a =
      ground (arith, nonce_tx-without n m rest a.1, nonce_tx-above j.nonce rest a.0)

module _ {C : Type 0} (cs : Comparables C) where
  same_key-nonce : (a b : TxMeta C) → same_key (nonce_compare cs) a b ≡ (a.nonce == b.nonce)
  same_key-nonce a b =
      rw (cs.compare_uint64_lt b.nonce a.nonce, cs.compare_uint64_gt b.nonce a.nonce) (ground arith)

  before-nonce : (a b : TxMeta C) → ltb_ℤ (pos 0) (nonce_compare cs a b) ≡ ltb a.nonce b.nonce
  before-nonce a b = cs.compare_uint64_gt b.nonce a.nonce

  pub placed-nonce :
      (k : TxMeta C) (tx : Tx) (xs : List (TxMeta C × Tx))
      → placed (nonce_compare cs) k tx xs ≡ by_nonce_placed k tx xs
  unfolding placed by_nonce_placed
  placed-nonce k tx [] = refl
  placed-nonce k tx ((j, w) ∷ rest) =
      rw (same_key-nonce k j, before-nonce k j, placed-nonce k tx rest) refl

  pub without-nonce :
      (k : TxMeta C) (xs : List (TxMeta C × Tx))
      → without (nonce_compare cs) k xs ≡ by_nonce_without k.nonce xs
  unfolding without by_nonce_without
  without-nonce k [] = refl
  without-nonce k ((j, w) ∷ rest) = rw (same_key-nonce k j, without-nonce k rest) refl

  pub found-nonce :
      (k : TxMeta C) (xs : List (TxMeta C × Tx))
      → found (nonce_compare cs) k xs ≡ nonce_tx k.nonce xs
  unfolding found
  found-nonce k [] = refl
  found-nonce k ((j, w) ∷ rest) =
      rw (same_key-nonce k j, ==_sym k.nonce j.nonce, found-nonce k rest) refl
