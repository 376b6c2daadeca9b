-- ===== src/Core/Slugs/Form.antt =====
-- The form of what `slugify` (app/core/slugs.py) returns.
use Prim.Native.Char.{Char}
use aidigiplanner_backend.Base.{
  if◌then◌else◌, ◌≡◌, refl, Bool, true, false, ◌&&◌, ◌||◌, String, ◌⊎◌, inl, inr, arith, Bool-cases,
}
use aidigiplanner_backend.Core.Slugs.{
  is_slug_char, is_dash, is_empty, collapse, strip_left, strip_right, slugify,
}

-- Words of `[a-z0-9]+` with one dash between two of them; the flag says that a word has begun.
abbrev pub is_slug_after : Bool → String → Bool
is_slug_after in_word String.[] = in_word
is_slug_after in_word (String.◌∷◌ c s) =
    (is_slug_char c && is_slug_after true s) || (is_dash c && in_word && is_slug_after false s)

abbrev pub is_slug : String → Bool
is_slug s = is_slug_after false s

strip_left-collapse :
    (in_run : Bool) (s : String) → strip_left (collapse in_run s) ≡ collapse true s
unfolding strip_left collapse
strip_left-collapse in_run String.[] = refl
strip_left-collapse in_run (String.◌∷◌ c s) =
    let rest = strip_left-collapse true s in
    elim (Bool-cases (is_slug_char c)) [ inl good ↦ ground arith | inr bad ↦ ground arith ]

module _ (in_run : Bool) (c : Char) (s : String) where
  collapse-word :
      is_slug_char c ≡ true → collapse in_run (String.◌∷◌ c s) ≡ String.◌∷◌ c (collapse false s)
  unfolding collapse
  collapse-word good = rw good refl

  collapse-gap :
      is_slug_char c ≡ false
      → collapse in_run (String.◌∷◌ c s)
        ≡ (if in_run then collapse true s else String.◌∷◌ "-" (collapse true s))
  unfolding collapse
  collapse-gap bad = rw bad refl

strip_right-word :
    (c : Char) (s : String)
    → is_slug_char c ≡ true
    → strip_right (String.◌∷◌ c s) ≡ String.◌∷◌ c (strip_right s)
unfolding strip_right
strip_right-word c s good = let plain : is_dash c ≡ false = ground arith in rw plain refl

strip_right-dash :
    (s : String)
    → strip_right (String.◌∷◌ "-" s)
      ≡ (if is_empty (strip_right s) then String.[] else String.◌∷◌ "-" (strip_right s))
unfolding strip_right
strip_right-dash s = ground arith

-- Empty, or well formed after what stands before.
abbrev Fits : Bool → String → Type 0
Fits in_word s = (s ≡ String.[]) ⊎ (is_slug_after in_word s ≡ true)

Fits-word :
    (in_word : Bool) (c : Char) (s : String)
    → is_slug_char c ≡ true
    → Fits true s
    → Fits in_word (String.◌∷◌ c s)
Fits-word in_word c s good (inl e) = inr (rw e (ground arith))
Fits-word in_word c s good (inr h) = inr (ground arith)

Fits-dash :
    (s : String) → Fits false s → Fits true (if is_empty s then String.[] else String.◌∷◌ "-" s)
Fits-dash String.[] h = inl refl
Fits-dash (String.◌∷◌ c s) (inl e) = cc
Fits-dash (String.◌∷◌ c s) (inr h) = inr (ground arith)

-- What follows in a text whose runs are collapsed, with no dash where none may stand.
strip_right-collapse :
    (in_run in_word : Bool) (s : String)
    → (in_run || in_word) ≡ true
    → Fits in_word (strip_right (collapse in_run s))
strip_right-collapse in_run in_word String.[] h = inl (unfold strip_right collapse in refl)
strip_right-collapse in_run in_word (String.◌∷◌ c s) h = elim (Bool-cases (is_slug_char c)) [
  | inl good ↦ rw (collapse-word in_run c s good) (
      rw (strip_right-word c (collapse false s) good) (
        Fits-word in_word c (strip_right (collapse false s)) good
          (strip_right-collapse false true s refl)))
  | inr bad ↦ rw (collapse-gap in_run c s bad) (
      after_gap in_run in_word h (strip_right-collapse true in_word s refl)
        (strip_right-collapse true false s refl))
]
  where
    after_gap :
        (in_run in_word : Bool)
        → (in_run || in_word) ≡ true
        → Fits in_word (strip_right (collapse true s))
        → Fits false (strip_right (collapse true s))
        → Fits in_word
            (strip_right (if in_run then collapse true s else String.◌∷◌ "-" (collapse true s)))
    after_gap true in_word h same fresh = same
    after_gap false true h same fresh =
        rw (strip_right-dash (collapse true s)) (Fits-dash (strip_right (collapse true s)) fresh)
    after_gap false false h same fresh = cc

Fits-or_item : (s : String) → Fits false s → is_slug (if is_empty s then "item" else s) ≡ true
Fits-or_item String.[] h = refl
Fits-or_item (String.◌∷◌ c s) (inl e) = cc
Fits-or_item (String.◌∷◌ c s) (inr h) = h

-- Whatever the text, its slug is not empty, and is words of lower-case letters and digits with
-- exactly one dash between two words and none at either end.
pub slugify-is_slug :
    (normalize : String → String) (text : String) → is_slug (slugify normalize text) ≡ true
unfolding slugify
slugify-is_slug normalize text = rw (strip_left-collapse false (normalize text)) (
    Fits-or_item (strip_right (collapse true (normalize text)))
      (strip_right-collapse true false (normalize text) refl))
