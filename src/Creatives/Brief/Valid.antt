-- ===== src/Creatives/Brief/Valid.antt =====
-- The fields of a validated `Brief` (app/modules/creatives/domain.py).
use Prim.Native.String.{count as str_len}
use aidigiplanner_backend.Base.{ℕ, ◌≤◌, true, false, ◌≡◌, Option, none, some, arith, is_some}
use aidigiplanner_backend.Model.{is_carousel, is_reel_like}
use aidigiplanner_backend.Creatives.Brief.{Brief, validate}

-- A number is given and lies in the range.
abbrev pub Between : ℕ → ℕ → Option ℕ → Type 0
Between lo hi none = ⊥
Between lo hi (some n) = (lo ≤ n) × (n ≤ hi)

-- The fields of a carousel, of a reel or video, and of the other formats.
pub record IsValid (b : Brief) : Type 0 where
  pub product_line_fits : (1 ≤ str_len b.product_line) × (str_len b.product_line ≤ 100)
  pub topic_fits : (3 ≤ str_len b.topic) × (str_len b.topic ≤ 300)
  pub concepts_fit : (1 ≤ b.concept_count) × (b.concept_count ≤ 6)
  pub slides : is_carousel b.format ≡ true → Between 3 8 b.carousel_slides
  pub no_slides : is_carousel b.format ≡ false → b.carousel_slides ≡ none
  pub duration : is_reel_like b.format ≡ true → Between 4 30 b.reel_duration_s
  pub voice : is_reel_like b.format ≡ true → is_some b.voiceover ≡ true
  pub style : is_reel_like b.format ≡ true → is_some b.reel_style ≡ true
  pub no_reel :
      is_reel_like b.format ≡ false
      → (b.reel_duration_s ≡ none) × (b.voiceover ≡ none) × (b.reel_style ≡ none)

-- A brief that passes validation, with its defaults filled in, has the fields of its format and no
-- others, in their ranges.
pub validate-IsValid : (b b' : Brief) → validate b ≡ some b' → IsValid b'
unfolding validate
validate-IsValid b b' h = ground arith

-- Validation accepts a brief that has the fields of its format and no others, in their ranges, and
-- leaves it as it is.
pub IsValid-validate : (b : Brief) → IsValid b → validate b ≡ some b
unfolding validate
IsValid-validate b v = ground arith
