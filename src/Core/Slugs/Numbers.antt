-- ===== src/Core/Slugs/Numbers.antt =====
-- The candidates of the loop over numbered slugs (`_unique_product_slug` and its like).
use Prim.Native.Char.{code}
use Prim.Native.String.{◌++◌}
use text.Mathlib.TextLemmas.{
  nil-append, cons-append, append_cancel_left, append-nil, tail-eq_of_cons-eq, cons≢nil,
}
use aidigiplanner_backend.Base.{
  ℕ, zero, suc, ◌+◌, ◌-◌, ◌*◌, ◌/◌, ◌%◌, ◌<◌, ◌≡◌, ◌≢◌, refl, sym, ap, ◌∙◌, ◌==◌, String, arith,
  inl, inr, Bool-cases,
}
use aidigiplanner_backend.Core.Slugs.{digit, decimal, show, numbered}

code-digit : (n : ℕ) → n < 10 → code (digit n) ≡ 48 + n
code-digit zero h = refl
code-digit (suc zero) h = refl
code-digit (suc (suc zero)) h = refl
code-digit (suc (suc (suc zero))) h = refl
code-digit (suc (suc (suc (suc zero)))) h = refl
code-digit (suc (suc (suc (suc (suc zero))))) h = refl
code-digit (suc (suc (suc (suc (suc (suc zero)))))) h = refl
code-digit (suc (suc (suc (suc (suc (suc (suc zero))))))) h = refl
code-digit (suc (suc (suc (suc (suc (suc (suc (suc zero)))))))) h = refl
code-digit (suc (suc (suc (suc (suc (suc (suc (suc (suc n))))))))) h =
    let last : n ≡ 0 = omega arith in rw last refl

-- The number that a text of digits writes, after the digits of another.
value : ℕ → String → ℕ
value a String.[] = a
value a (String.◌∷◌ c s) = value (a * 10 + (code c - 48)) s

value-append :
    (a n : ℕ) (s : String)
    → n < 10
    → value a (s ++ String.◌∷◌ (digit n) String.[]) ≡ value a s * 10 + n
unfolding value
value-append a n String.[] h =
    let e = code-digit n h in rw (nil-append (String.◌∷◌ (digit n) String.[])) (omega arith)
value-append a n (String.◌∷◌ c s) h =
    rw (cons-append c s (String.◌∷◌ (digit n) String.[]))
      (value-append (a * 10 + (code c - 48)) n s h)

value-decimal : (fuel n : ℕ) → n < fuel → value 0 (decimal fuel n) ≡ n
unfolding decimal
value-decimal zero n h = absurd (omega arith)
value-decimal (suc fuel) n h = elim (Bool-cases (n / 10 == 0)) [
  | inl small ↦
      let e : value 0 (String.[] ++ String.◌∷◌ (digit (n % 10)) String.[])
          ≡ value 0 String.[] * 10 + n % 10 =
        value-append 0 (n % 10) String.[] (omega arith) in
      let zero_value : value 0 String.[] ≡ 0 = unfold value in refl in
      let tiny : n / 10 ≡ 0 = ground arith in rw small (rw e (rw zero_value (omega arith)))
  | inr large ↦
      let ih = value-decimal fuel (n / 10) (ground arith) in
      let e = value-append 0 (n % 10) (decimal fuel (n / 10)) (omega arith) in
      rw large (rw e (omega arith))
]

pub show-injective : (m n : ℕ) → show m ≡ show n → m ≡ n
unfolding show
show-injective m n e =
    let left = value-decimal (suc m) m (omega arith) in
    let right = value-decimal (suc n) n (omega arith) in sym left ∙ ap (value 0) e ∙ right

pub numbered-injective : (base : String) (m n : ℕ) → numbered base m ≡ numbered base n → m ≡ n
unfolding numbered
numbered-injective base m n e = show-injective m n (
    tail-eq_of_cons-eq
      (append_cancel_left base (String.◌∷◌ "-" (show m)) (String.◌∷◌ "-" (show n)) e))

pub base≢numbered : (base : String) (n : ℕ) → base ≢ numbered base n
unfolding numbered
base≢numbered base n e =
    cons≢nil
      (append_cancel_left base (String.◌∷◌ "-" (show n)) String.[] (sym e ∙ sym (append-nil base)))
