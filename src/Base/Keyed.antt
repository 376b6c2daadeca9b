-- ===== src/Base/Keyed.antt =====
-- Tables whose rows have distinct primary keys: what a write back and a deletion do to a count.
use Prim.Native.Nat.{ℕ, ◌+◌}
use mathlib.Core.Path.{◌≡◌, refl}
use mathlib.Core.Bool.{Bool, true, false, not}
use mathlib.Core.Logic.{inl, inr}
use mathlib.Core.Option.{some}
use mathlib.Core.List.{List, [], ◌∷◌}
use native.Mathlib.Omega.{arith}
use aidigiplanner_backend.Base.Tests.{if◌then◌else◌, Bool-cases, ◌==◌}
use aidigiplanner_backend.Base.Lists.{All}
use aidigiplanner_backend.Base.Table.{first, first-test, select, update, count, All-first}

-- `session.delete(row)`, for the rows that fit.
abbrev pub remove {ℓ} : {A : Type ℓ} → (A → Bool) → List A → List A
remove test xs = select (λ x. not (test x)) xs

abbrev pub one_if : Bool → ℕ
one_if b = if b then 1 else 0

module _ {ℓ} {A : Type ℓ} (key : A → ℕ) where
  -- No row has the key.
  abbrev pub IsUnused : ℕ → List A → Type 0
  IsUnused k xs = All (λ x. (key x == k) ≡ false) xs

  abbrev pub Distinct : List A → Type 0
  Distinct [] = Unit
  Distinct (x ∷ xs) = IsUnused (key x) xs × Distinct xs

  update-IsUnused :
      (k : ℕ) (f : A → A) (xs : List A) → IsUnused k xs → update (λ r. key r == k) f xs ≡ xs
  update-IsUnused k f [] h = refl
  update-IsUnused k f (x ∷ xs) h =
      let rest = update-IsUnused k f xs h.1 in let here = h.0 in ground arith

  remove-IsUnused : (k : ℕ) (xs : List A) → IsUnused k xs → remove (λ r. key r == k) xs ≡ xs
  remove-IsUnused k [] h = refl
  remove-IsUnused k (x ∷ xs) h =
      let rest = remove-IsUnused k xs h.1 in let here = h.0 in ground arith

  -- A row that is written back is found by its key.
  pub first-put :
      (k : ℕ) (m m' : A) (xs : List A)
      → first (λ r. key r == k) xs ≡ some m
      → key m' ≡ key m
      → first (λ r. key r == k) (update (λ r. key r == key m) (λ _. m') xs) ≡ some m'
  first-put k m m' [] found same = cc
  first-put k m m' (x ∷ xs) found same = elim (Bool-cases (key x == k)) [
    | inl hit ↦ ground arith
    | inr miss ↦
        let later : first (λ r. key r == k) xs ≡ some m = ground arith in
        let t = first-test (λ r. key r == k) xs later in
        let rest = first-put k m m' xs later same in ground arith
  ]

  module _ (p : A → Bool) where
    -- The row that is written back counts in the place of the one that was read.
    pub count-put :
        (q : A → Bool) (m m' : A) (xs : List A)
        → Distinct xs
        → first q xs ≡ some m
        → count p (update (λ r. key r == key m) (λ _. m') xs) + one_if (p m)
          ≡ count p xs + one_if (p m')
    count-put q m m' [] keys found = cc
    count-put q m m' (x ∷ xs) keys found = elim (Bool-cases (q x)) [
      | inl hit ↦
          let same : x ≡ m = ground arith in
          let still = update-IsUnused (key m) (λ _. m') xs (rw (← same) keys.0) in ground arith
      | inr miss ↦ elim (Bool-cases (key x == key m)) [
        | inl clash ↦
            let apart = All-first (λ y. (key y == key x) ≡ false) q xs keys.0 (rw miss at found) in
            absurd (ground arith)
        | inr other ↦ let rest = count-put q m m' xs keys.1 (rw miss at found) in ground arith
      ]
    ]

    pub count-remove :
        (q : A → Bool) (m : A) (xs : List A)
        → Distinct xs
        → first q xs ≡ some m
        → count p (remove (λ r. key r == key m) xs) + one_if (p m) ≡ count p xs
    count-remove q m [] keys found = cc
    count-remove q m (x ∷ xs) keys found = elim (Bool-cases (q x)) [
      | inl hit ↦
          let same : x ≡ m = ground arith in
          let still = remove-IsUnused (key m) xs (rw (← same) keys.0) in ground arith
      | inr miss ↦ elim (Bool-cases (key x == key m)) [
        | inl clash ↦
            let apart = All-first (λ y. (key y == key x) ≡ false) q xs keys.0 (rw miss at found) in
            absurd (ground arith)
        | inr other ↦ let rest = count-remove q m xs keys.1 (rw miss at found) in ground arith
      ]
    ]

  pub Distinct-update :
      (test : A → Bool) (f : A → A) (xs : List A)
      → ((x : A) → test x ≡ true → key (f x) ≡ key x)
      → Distinct xs
      → Distinct (update test f xs)
  Distinct-update test f [] same keys = tt
  Distinct-update test f (x ∷ xs) same keys = elim (Bool-cases (test x)) [
    | inl hit ↦
        rw hit (rw (same x hit) (unused (key x) xs keys.0), Distinct-update test f xs same keys.1)
    | inr miss ↦ rw miss (unused (key x) xs keys.0, Distinct-update test f xs same keys.1)
  ]
    where
      unused : (k : ℕ) (ys : List A) → IsUnused k ys → IsUnused k (update test f ys)
      unused k [] h = tt
      unused k (y ∷ ys) h = elim (Bool-cases (test y)) [
        | inl hit ↦ rw hit (rw (same y hit) h.0, unused k ys h.1)
        | inr miss ↦ rw miss (h.0, unused k ys h.1)
      ]

  pub Distinct-select : (test : A → Bool) (xs : List A) → Distinct xs → Distinct (select test xs)
  Distinct-select test [] keys = tt
  Distinct-select test (x ∷ xs) keys = elim (Bool-cases (test x)) [
    | inl hit ↦ rw hit (unused (key x) xs keys.0, Distinct-select test xs keys.1)
    | inr miss ↦ rw miss (Distinct-select test xs keys.1)
  ]
    where
      unused : (k : ℕ) (ys : List A) → IsUnused k ys → IsUnused k (select test ys)
      unused k [] h = tt
      unused k (y ∷ ys) h = elim (Bool-cases (test y)) [
        | inl hit ↦ rw hit (h.0, unused k ys h.1)
        | inr miss ↦ rw miss (unused k ys h.1)
      ]
