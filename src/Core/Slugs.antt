-- ===== src/Core/Slugs.antt =====
-- app/core/slugs.py, and the loop over numbered slugs that the services of products, sub-products and
-- companies share. `normalize` is `text.strip().lower()`, which Unicode decides.
pub mod Form
pub mod Numbers
pub mod Search
pub mod Unique
use Prim.Native.Char.{Char, code}
use Prim.Native.String.{◌++◌}
use aidigiplanner_backend.Base.{
  ℕ, zero, suc, ◌+◌, ◌/◌, ◌%◌, Bool, true, false, ◌&&◌, ◌||◌, ◌==◌, leb, String, Option, none, some,
  List, length, any, str_eq, if◌then◌else◌,
}

-- `[a-z0-9]`
abbrev pub is_slug_char : Char → Bool
is_slug_char c =
    (leb b'a' (code c) && leb (code c) b'z') || (leb b'0' (code c) && leb (code c) b'9')

abbrev pub is_dash : Char → Bool
is_dash c = code c == b'-'

abbrev pub is_empty : String → Bool
is_empty String.[] = true
is_empty (String.◌∷◌ c s) = false

-- `_INVALID_SLUG_CHARS.sub("-", text)`: the flag says that a run has begun.
unfoldable pub collapse : Bool → String → String
collapse in_run String.[] = String.[]
collapse in_run (String.◌∷◌ c s) =
    let rest = collapse (if is_slug_char c then false else true) s in
    if is_slug_char c then String.◌∷◌ c rest else if in_run then rest else String.◌∷◌ "-" rest

-- `strip("-")`, from either end.
unfoldable pub strip_left : String → String
strip_left String.[] = String.[]
strip_left (String.◌∷◌ c s) = let rest = strip_left s in if is_dash c then rest else String.◌∷◌ c s

unfoldable pub strip_right : String → String
strip_right String.[] = String.[]
strip_right (String.◌∷◌ c s) =
    let rest = strip_right s in if is_dash c && is_empty rest then String.[] else String.◌∷◌ c rest

unfoldable pub slugify : (String → String) → String → String
slugify normalize text =
    let slug = strip_right (strip_left (collapse false (normalize text))) in
    if is_empty slug then "item" else slug

abbrev pub digit : ℕ → Char
digit zero = "0"
digit (suc zero) = "1"
digit (suc (suc zero)) = "2"
digit (suc (suc (suc zero))) = "3"
digit (suc (suc (suc (suc zero)))) = "4"
digit (suc (suc (suc (suc (suc zero))))) = "5"
digit (suc (suc (suc (suc (suc (suc zero)))))) = "6"
digit (suc (suc (suc (suc (suc (suc (suc zero))))))) = "7"
digit (suc (suc (suc (suc (suc (suc (suc (suc zero)))))))) = "8"
digit (suc (suc (suc (suc (suc (suc (suc (suc (suc n))))))))) = "9"

-- Python's `str` of a number, by at most `fuel` digits.
unfoldable pub decimal : ℕ → ℕ → String
decimal zero n = String.[]
decimal (suc fuel) n =
    let rest = decimal fuel (n / 10) in
    (if n / 10 == 0 then String.[] else rest) ++ String.◌∷◌ (digit (n % 10)) String.[]

-- A number has no more digits than one more than itself.
unfoldable pub show : ℕ → String
show n = decimal (suc n) n

-- `f"{base}-{suffix}"`
unfoldable pub numbered : String → ℕ → String
numbered base suffix = base ++ String.◌∷◌ "-" (show suffix)

-- The `while True` loop, for so many rounds: `none` is a loop that goes on.
unfoldable pub search_slug : (String → Bool) → String → ℕ → String → ℕ → Option String
search_slug is_taken base zero candidate suffix = none
search_slug is_taken base (suc fuel) candidate suffix = elim (is_taken candidate) [
  | false ↦ some candidate
  | true ↦ search_slug is_taken base fuel (numbered base (suffix + 1)) (suffix + 1)
]

-- The rows that the query of a round looks at, and the column of the slug.
module _ {A : Type 0} (slug_of : A → String) (is_rival : A → Bool) where
  unfoldable pub is_taken : List A → String → Bool
  is_taken rows slug = any (λ r. is_rival r && str_eq (slug_of r) slug) rows

  -- One round more than there are rows.
  unfoldable pub unique_slug : List A → String → Option String
  unique_slug rows base = search_slug (is_taken rows) base (suc (length rows)) base 1
