-- ===== src/Core/Slugs/Search.antt =====
-- The loop that looks for a slug that is not in use (`_unique_product_slug` of
-- app/modules/products/service.py and its like).
use aidigiplanner_backend.Base.{
  ℕ, zero, suc, ◌+◌, ◌<◌, ◌≤◌, ◌≡◌, ◌≢◌, refl, sym, ◌∙◌, Bool, true, false, not, ◌==◌, String,
  Option, some, List, [], ◌∷◌, length, str_eq, eq_iff, select, arith, inl, inr, Bool-cases,
}
use aidigiplanner_backend.Core.Slugs.{numbered, search_slug, is_taken, unique_slug}
use aidigiplanner_backend.Core.Slugs.Numbers.{numbered-injective, base≢numbered}

-- The candidates in the order in which they are tried: the base, then `base-2`, `base-3` and so on.
abbrev pub candidate : String → ℕ → String
candidate base zero = base
candidate base (suc n) = numbered base (n + 2)

candidate-injective : (base : String) (m n : ℕ) → candidate base m ≡ candidate base n → m ≡ n
candidate-injective base zero zero e = refl
candidate-injective base zero (suc n) e = absurd (base≢numbered base (n + 2) e)
candidate-injective base (suc m) zero e = absurd (base≢numbered base (m + 2) (sym e))
candidate-injective base (suc m) (suc n) e =
    let same = numbered-injective base (m + 2) (n + 2) e in omega arith

-- The first candidate from the n-th on that is free.
pub record FirstFree (is_taken : String → Bool) (base : String) (n : ℕ) (result : Option String)
    : Type 0 where
  pub index : ℕ
  pub from : n ≤ index
  pub found : result ≡ some (candidate base index)
  pub free : is_taken (candidate base index) ≡ false
  pub least : (m : ℕ) → n ≤ m → m < index → is_taken (candidate base m) ≡ true

module _ (p : String → Bool) (base : String) (fuel suffix : ℕ) (slug : String) where
  round_taken :
      p slug ≡ true
      → search_slug p base (suc fuel) slug suffix
        ≡ search_slug p base fuel (numbered base (suffix + 1)) (suffix + 1)
  unfolding search_slug
  round_taken h = ground arith

  round_free : p slug ≡ false → search_slug p base (suc fuel) slug suffix ≡ some slug
  unfolding search_slug
  round_free h = ground arith

-- One round from the n-th candidate to the next.
next_round :
    (p : String → Bool) (base : String) (fuel n : ℕ)
    → p (candidate base n) ≡ true
    → search_slug p base (suc fuel) (candidate base n) (n + 1)
      ≡ search_slug p base fuel (candidate base (suc n)) (suc n + 1)
next_round p base fuel n taken =
    let next : n + 1 + 1 ≡ n + 2 = omega arith in
    let again : suc n + 1 ≡ n + 2 = omega arith in
    rw (round_taken p base fuel (n + 1) (candidate base n) taken) (rw (next, again) refl)

-- Two tests that agree on the candidates from the n-th on are searched alike.
search-ext :
    (p q : String → Bool) (base : String) (fuel n : ℕ)
    → ((m : ℕ) → n ≤ m → p (candidate base m) ≡ q (candidate base m))
    → search_slug p base fuel (candidate base n) (n + 1)
      ≡ search_slug q base fuel (candidate base n) (n + 1)
search-ext p q base zero n same = unfold search_slug in refl
search-ext p q base (suc fuel) n same =
    let here = same n (omega arith) in
    let rest = search-ext p q base fuel (suc n) (λ m h. same m (omega arith)) in
    elim (Bool-cases (q (candidate base n))) [
      | inl taken ↦
          next_round p base fuel n (here ∙ taken) ∙ rest ∙ sym (next_round q base fuel n taken)
      | inr free ↦
          round_free p base fuel (n + 1) (candidate base n) (here ∙ free)
          ∙ sym (round_free q base fuel (n + 1) (candidate base n) free)
    ]

module _ {A : Type 0} (slug_of : A → String) (is_rival : A → Bool) where
  without : String → List A → List A
  without slug rows = select (λ r. not (str_eq (slug_of r) slug)) rows

  taken-without :
      (slug other : String) (rows : List A)
      → other ≢ slug
      → is_taken slug_of is_rival (without slug rows) other ≡ is_taken slug_of is_rival rows other
  unfolding without is_taken
  taken-without slug other [] apart = refl
  taken-without slug other (r ∷ rows) apart =
      let rest = taken-without slug other rows apart in
      elim (Bool-cases (str_eq (slug_of r) slug)) [
        | inl hit ↦
            let same = (eq_iff (slug_of r) slug).0 hit in
            let miss : str_eq (slug_of r) other ≡ false =
              ground (arith, eq_iff (slug_of r) other) in
            ground arith
        | inr miss ↦ ground arith
      ]

  length-without : (slug : String) (rows : List A) → length (without slug rows) ≤ length rows
  unfolding without
  length-without slug [] = omega arith
  length-without slug (r ∷ rows) = let rest = length-without slug rows in ground arith

  without-shorter :
      (slug : String) (rows : List A)
      → is_taken slug_of is_rival rows slug ≡ true
      → length (without slug rows) < length rows
  unfolding without is_taken
  without-shorter slug [] taken = cc
  without-shorter slug (r ∷ rows) taken = elim (Bool-cases (str_eq (slug_of r) slug)) [
    | inl hit ↦ let rest = length-without slug rows in ground arith
    | inr miss ↦ let rest = without-shorter slug rows (ground arith) in ground arith
  ]

  search_slug-FirstFree :
      (base : String) (fuel n : ℕ) (rows : List A)
      → length rows < fuel
      → FirstFree
          (is_taken slug_of is_rival rows)
          base
          n
          (search_slug (is_taken slug_of is_rival rows) base fuel (candidate base n) (n + 1))
  search_slug-FirstFree base zero n rows enough = absurd (omega arith)
  search_slug-FirstFree base (suc fuel) n rows enough =
      elim (Bool-cases (is_taken slug_of is_rival rows (candidate base n))) [
        | inr free ↦ record {
          index = n;
          from = omega arith;
          found =
              round_free (is_taken slug_of is_rival rows) base fuel (n + 1) (candidate base n) free;
          free = free;
          least = λ m h l. absurd (omega arith);
        }
        | inl taken ↦
            let fewer = without (candidate base n) rows in
            let shorter = without-shorter (candidate base n) rows taken in
            let rest = search_slug-FirstFree base fuel (suc n) fewer (omega arith) in
            let agree = λ (m : ℕ) (h : suc n ≤ m).
              taken-without (candidate base n) (candidate base m) rows
                (λ e. absurd (let same = candidate-injective base m n e in omega arith)) in
            record {
              index = rest.index;
              from = let later = rest.from in omega arith;
              found =
                  next_round (is_taken slug_of is_rival rows) base fuel n taken
                  ∙ sym (
                      search-ext (is_taken slug_of is_rival fewer) (is_taken slug_of is_rival rows)
                        base fuel (suc n) agree)
                  ∙ rest.found;
              free = sym (agree rest.index rest.from) ∙ rest.free;
              least = λ m h l. elim (Bool-cases (m == n)) [
                | inl here ↦ let e : m ≡ n = ground arith in rw e taken
                | inr past ↦ sym (agree m (ground arith)) ∙ rest.least m (ground arith) l
              ];
            }
      ]

  -- The loop of a new slug ends within one round more than there are rows, with the first of `base`,
  -- `base-2`, `base-3`, … that no rival row has.
  pub unique_slug-FirstFree :
      (rows : List A) (base : String)
      → FirstFree (is_taken slug_of is_rival rows) base 0 (unique_slug slug_of is_rival rows base)
  unfolding unique_slug
  unique_slug-FirstFree rows base =
      search_slug-FirstFree base (suc (length rows)) 0 rows (omega arith)
