-- ===== src/Core/Slugs/Unique.antt =====
-- Slugs that no two rows of a group share, under the writes of a slug that the loop of
-- app/modules/products/service.py (and its like) has chosen.
use aidigiplanner_backend.Base.{
  ℕ, ◌≡◌, refl, Bool, false, not, ◌&&◌, ◌==◌, str_eq, eq_iff, String, some, List, [], ◌∷◌, All,
  All-first, first, update, Distinct, IsUnused, arith, inl, inr, Bool-cases,
}
use aidigiplanner_backend.Core.Slugs.{is_taken}

module _ {A : Type 0} (id group : A → ℕ) (slug_of : A → String) where
  abbrev pub clash : A → A → Bool
  clash x y = group y == group x && str_eq (slug_of y) (slug_of x)

  abbrev pub UniqueSlugs : List A → Type 0
  UniqueSlugs [] = Unit
  UniqueSlugs (x ∷ xs) = All (λ y. clash x y ≡ false) xs × UniqueSlugs xs

  -- The rows of the group that a new slug, or another row's, is compared with.
  abbrev pub others : ℕ → ℕ → A → Bool
  others g k r = group r == g && not (id r == k)

  pub apart_of_free :
      (x : A) (rows : List A)
      → is_taken slug_of (λ r. group r == group x) rows (slug_of x) ≡ false
      → All (λ y. clash x y ≡ false) rows
  unfolding is_taken
  apart_of_free x [] h = tt
  apart_of_free x (r ∷ rows) h = (ground arith, apart_of_free x rows (ground arith))

  apart_of_free_others :
      (x : A) (k : ℕ) (rows : List A)
      → IsUnused id k rows
      → is_taken slug_of (others (group x) k) rows (slug_of x) ≡ false
      → All (λ y. clash x y ≡ false) rows
  unfolding is_taken
  apart_of_free_others x k [] unused h = tt
  apart_of_free_others x k (r ∷ rows) unused h =
      let here = unused.0 in (ground arith, apart_of_free_others x k rows unused.1 (ground arith))

  update-unused :
      (k : ℕ) (x : A) (rows : List A)
      → IsUnused id k rows
      → update (λ r. id r == k) (λ _. x) rows ≡ rows
  update-unused k x [] h = refl
  update-unused k x (r ∷ rows) h =
      let rest = update-unused k x rows h.1 in let here = h.0 in ground arith

  All-put :
      (x m : A) (k : ℕ) (rows : List A)
      → clash x m ≡ false
      → All (λ y. clash x y ≡ false) rows
      → All (λ y. clash x y ≡ false) (update (λ r. id r == k) (λ _. m) rows)
  All-put x m k [] apart h = tt
  All-put x m k (r ∷ rows) apart h = let here = h.0 in (ground arith, All-put x m k rows apart h.1)

  clash_sym : (x y : A) → clash x y ≡ clash y x
  clash_sym x y = ground (arith, eq_iff (slug_of x) (slug_of y), eq_iff (slug_of y) (slug_of x))

  -- A row is written back with a slug that no other row of its group has.
  pub UniqueSlugs-put :
      (m : A) (rows : List A)
      → Distinct id rows
      → UniqueSlugs rows
      → is_taken slug_of (others (group m) (id m)) rows (slug_of m) ≡ false
      → UniqueSlugs (update (λ r. id r == id m) (λ _. m) rows)
  unfolding is_taken
  UniqueSlugs-put m [] keys unique h = tt
  UniqueSlugs-put m (r ∷ rows) keys unique h = elim (Bool-cases (id r == id m)) [
    | inl hit ↦
        let same : id r ≡ id m = ground arith in
        let apart : IsUnused id (id m) rows = rw (← same) keys.0 in
        rw hit (
          rw (update-unused (id m) m rows apart)
            (apart_of_free_others m (id m) rows apart (ground arith), unique.1))
    | inr miss ↦
        let apart : clash r m ≡ false = rw (clash_sym r m) (ground arith) in
        rw miss (
          All-put r m (id m) rows apart unique.0,
          UniqueSlugs-put m rows keys.1 unique.1 (ground arith),
        )
  ]

  taken_of_clashes :
      (m : A) (rows : List A)
      → All (λ y. clash m y ≡ false) rows
      → is_taken slug_of (others (group m) (id m)) rows (slug_of m) ≡ false
  unfolding is_taken
  taken_of_clashes m [] h = refl
  taken_of_clashes m (r ∷ rows) h =
      let here = h.0 in let rest = taken_of_clashes m rows h.1 in ground arith

  -- A row's own slug is free for it.
  pub own_slug :
      (q : A → Bool) (m : A) (rows : List A)
      → UniqueSlugs rows
      → first q rows ≡ some m
      → is_taken slug_of (others (group m) (id m)) rows (slug_of m) ≡ false
  unfolding is_taken
  own_slug q m [] unique found = cc
  own_slug q m (r ∷ rows) unique found = elim (Bool-cases (q r)) [
    | inl hit ↦
        let same : r ≡ m = ground arith in
        let rest = taken_of_clashes m rows (rw (← same) unique.0) in rw same (ground arith)
    | inr miss ↦
        let later : first q rows ≡ some m = ground arith in
        let apart = All-first (λ y. clash r y ≡ false) q rows unique.0 later in
        let mirrored : clash m r ≡ false = rw (clash_sym m r) (ground arith) in
        let rest = own_slug q m rows unique.1 later in ground arith
  ]
