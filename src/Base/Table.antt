-- ===== src/Base/Table.antt =====
-- A database table as the list of its rows, the newest row first. A query without an order reads
-- at most one row, and a query ordered by `created_at` descending reads the rows in list order.
use Prim.Native.Nat.{ℕ, suc, ◌+◌, ◌≤◌}
use mathlib.Core.Path.{◌≡◌, refl, ap, subst}
use mathlib.Core.Bool.{Bool, true, false}
use mathlib.Core.Logic.{inl, inr}
use mathlib.Core.Option.{Option, none, some}
use mathlib.Core.List.{List, [], ◌∷◌}
use native.Mathlib.Omega.{arith}
use aidigiplanner_backend.Base.Tests.{if◌then◌else◌, Bool-cases}
use aidigiplanner_backend.Base.Lists.{All, length}

module _ {ℓ} {A : Type ℓ} where
  -- `session.scalar(select(T).where(test))`: the first row that fits.
  abbrev pub first : (A → Bool) → List A → Option A
  first test [] = none
  first test (x ∷ xs) = if test x then some x else first test xs

  -- `session.scalars(select(T).where(test))`: every row that fits.
  abbrev pub select : (A → Bool) → List A → List A
  select test [] = []
  select test (x ∷ xs) = let rest = select test xs in if test x then x ∷ rest else rest

  -- Attribute writes on the rows that fit.
  abbrev pub update : (A → Bool) → (A → A) → List A → List A
  update test f [] = []
  update test f (x ∷ xs) = (if test x then f x else x) ∷ update test f xs

  -- How many rows fit.
  abbrev pub count : (A → Bool) → List A → ℕ
  count test [] = 0
  count test (x ∷ xs) = (if test x then 1 else 0) + count test xs

-- The row that a query reads passes the query's test.
pub first-test {ℓ} :
    {A : Type ℓ} (test : A → Bool) (xs : List A) {a : A} → first test xs ≡ some a → test a ≡ true
first-test test [] h = cc
first-test test (x ∷ xs) {a} h = ground (arith, first-test test xs {a = a})

-- What holds of every row holds of the row that a query reads.
pub All-first {ℓ κ} :
    {A : Type ℓ} (P : A → Type κ) (test : A → Bool) (xs : List A) {a : A}
    → All P xs
    → first test xs ≡ some a
    → P a
All-first P test [] h e = cc
All-first P test (x ∷ xs) {a} h e = elim (Bool-cases (test x)) [
  | inl hit ↦ let same : x ≡ a = ground arith in subst P same h.0
  | inr miss ↦ All-first P test xs h.1 (rw miss at e)
]

-- A write keeps what it keeps of each row that it touches.
pub All-select {ℓ κ} :
    {A : Type ℓ} (P : A → Type κ) (q : A → Bool) (xs : List A) → All P xs → All P (select q xs)
All-select P q [] h = tt
All-select P q (x ∷ xs) h = elim (Bool-cases (q x)) [
  | inl kept ↦ rw kept (h.0, All-select P q xs h.1)
  | inr dropped ↦ rw dropped (All-select P q xs h.1)
]

pub All-update {ℓ κ} :
    {A : Type ℓ} (P : A → Type κ) (test : A → Bool) (f : A → A) (xs : List A)
    → ((x : A) → test x ≡ true → P x → P (f x))
    → All P xs
    → All P (update test f xs)
All-update P test f [] keep h = tt
All-update P test f (x ∷ xs) keep h = elim (Bool-cases (test x)) [
  | inl hit ↦ rw hit (keep x hit h.0, All-update P test f xs keep h.1)
  | inr miss ↦ rw miss (h.0, All-update P test f xs keep h.1)
]

pub length-update {ℓ} :
    {A : Type ℓ} (test : A → Bool) (f : A → A) (xs : List A) → length (update test f xs) ≡ length xs
length-update test f [] = refl
length-update test f (x ∷ xs) = ap suc (length-update test f xs)

-- Rows that a write takes out of a count.
module _ {ℓ} {A : Type ℓ} (p test : A → Bool) (f : A → A) where
  pub count-update_le :
      (xs : List A)
      → ((x : A) → test x ≡ true → p (f x) ≡ false)
      → count p (update test f xs) ≤ count p xs
  count-update_le [] off = ground arith
  count-update_le (x ∷ xs) off =
      let rest = count-update_le xs off in
      elim (Bool-cases (test x)) [
        | inl hit ↦ let gone = off x hit in ground arith
        | inr miss ↦ ground arith
      ]

  pub count-update_lt :
      (q : A → Bool) (xs : List A) {a : A}
      → ((x : A) → test x ≡ true → p (f x) ≡ false)
      → first q xs ≡ some a
      → test a ≡ true
      → p a ≡ true
      → count p (update test f xs) + 1 ≤ count p xs
  count-update_lt q [] off e hit pa = cc
  count-update_lt q (x ∷ xs) {a} off e hit pa = elim (Bool-cases (q x)) [
    | inl here ↦
        let same : x ≡ a = ground arith in
        let gone = off x (rw same hit) in
        let rest = count-update_le xs off in
        let hit_x : test x ≡ true = rw same hit in let p_x : p x ≡ true = rw same pa in ground arith
    | inr further ↦
        let rest = count-update_lt q xs off (rw further at e) hit pa in
        elim (Bool-cases (test x)) [
          | inl hit_x ↦ let gone = off x hit_x in ground arith
          | inr miss ↦ ground arith
        ]
  ]

  pub count-update_zero :
      (xs : List A)
      → ((x : A) → test x ≡ true → p (f x) ≡ false)
      → ((x : A) → p x ≡ true → test x ≡ true)
      → count p (update test f xs) ≡ 0
  count-update_zero [] off every = refl
  count-update_zero (x ∷ xs) off every =
      let rest = count-update_zero xs off every in
      elim (Bool-cases (test x)) [
        | inl hit ↦ let gone = off x hit in ground arith
        | inr miss ↦ elim (Bool-cases (p x)) [
          | inl counted ↦ let hit = every x counted in cc
          | inr free ↦ ground arith
        ]
      ]
