-- ===== src/Core/RateLimiter/Window.antt =====
-- The accepted hits of `InMemoryRateLimiter` (app/core/rate_limit.py), over sequences of calls.
use aidigiplanner_backend.Base.{
  ap, ◌∙◌, ℕ, ◌+◌, ◌≤◌, ◌≡◌, refl, Bool, true, false, ◌&&◌, String, str_eq, eq_iff, List, [], ◌∷◌,
  ◌++◌, not, ltb, leb, length, length-append, count, All, All-map_imp, if◌then◌else◌, arith,
  Bool-cases, inl, inr,
}
use aidigiplanner_backend.Model.Session.{Result, ok, err}
use aidigiplanner_backend.Core.RateLimiter.{Hits, popped, hit}

-- A call of `hit`.
pub record Call : Type 0 where
  pub key : String
  pub now : ℕ

abbrev pub is_ok : {A : Type 0} → Result A → Bool
is_ok (ok a) = true
is_ok (err e) = false

-- The times of the accepted calls for one key, the newest first, after those before.
abbrev pub accepted : String → ℕ → ℕ → List Call → Hits → List ℕ → List ℕ
accepted key limit window [] hits before = before
accepted key limit window (c ∷ cs) hits before =
    accepted key limit window cs (hit limit window c.key c.now hits).1 (
      if str_eq c.key key && is_ok (hit limit window c.key c.now hits).0
      then c.now ∷ before
      else before)

-- The clock does not go back.
abbrev pub Ascending : ℕ → List Call → Type 0
Ascending last [] = Unit
Ascending last (c ∷ cs) = (last ≤ c.now) × Ascending c.now cs

-- The hits in the window that ends at `t`, and those that a clean-up at `n` keeps.
abbrev pub in_window : ℕ → ℕ → ℕ → Bool
in_window window t x = leb x t && leb t (x + window)

abbrev is_recent : ℕ → ℕ → ℕ → Bool
is_recent window n x = leb n (x + window)

module _ (window : ℕ) where
  -- An earlier clean-up takes nothing from a later one.
  popped-popped :
      (now n : ℕ) (bucket : List ℕ)
      → now ≤ n
      → popped window n (popped window now bucket) ≡ popped window n bucket
  popped-popped now n [] le = refl
  popped-popped now n (t ∷ ts) le =
      let rest = popped-popped now n ts le in
      elim (Bool-cases (ltb (t + window) now)) [
        | inl old ↦ let older : ltb (t + window) n ≡ true = ground arith in ground arith
        | inr new ↦ ground arith
      ]

  -- A hit at the end of a bucket of earlier ones adds one, as long as it is recent.
  length-popped-snoc :
      (n a : ℕ) (bucket : List ℕ)
      → All (λ t. t ≤ a) bucket
      → length (popped window n (bucket ++ (a ∷ [])))
        ≡ (if is_recent window n a then 1 else 0) + length (popped window n bucket)
  length-popped-snoc n a [] early = ground arith
  length-popped-snoc n a (t ∷ ts) early =
      let rest = length-popped-snoc n a ts early.1 in
      let first_early = early.0 in
      elim (Bool-cases (ltb (t + window) n)) [
        | inl old ↦ ground arith
        | inr new ↦
            let longer = length-append ts (a ∷ []) in
            let recent : is_recent window n a ≡ true = ground arith in ground arith
      ]

  All-popped :
      (n last : ℕ) (bucket : List ℕ)
      → All (λ t. t ≤ last) bucket
      → All (λ t. t ≤ last) (popped window n bucket)
  All-popped n last [] early = tt
  All-popped n last (t ∷ ts) early = elim (Bool-cases (ltb (t + window) n)) [
    | inl old ↦ rw old (All-popped n last ts early.1)
    | inr new ↦ rw new early
  ]

  All-snoc :
      (now : ℕ) (bucket : List ℕ)
      → All (λ t. t ≤ now) bucket
      → All (λ t. t ≤ now) (bucket ++ (now ∷ []))
  All-snoc now [] early = (omega arith, tt)
  All-snoc now (t ∷ ts) early = (early.0, All-snoc now ts early.1)

  -- What a window ending later than `x` holds is recent at `x`.
  window-recent :
      (x t : ℕ) (h : List ℕ) → x ≤ t → count (in_window window t) h ≤ count (is_recent window x) h
  window-recent x t [] le = ground arith
  window-recent x t (y ∷ ys) le = let rest = window-recent x t ys le in ground arith

  -- The bucket holds no later hit than `last`, and counts the recent hits of the history `h`.
  pub record Tracks (last : ℕ) (h bucket : List ℕ) : Type 0 where
    pub early : All (λ t. t ≤ last) bucket
    pub counted :
        (n : ℕ) → last ≤ n → count (is_recent window n) h ≡ length (popped window n bucket)

  early_later :
      (last now : ℕ) (bucket : List ℕ)
      → last ≤ now
      → All (λ t. t ≤ last) bucket
      → All (λ t. t ≤ now) bucket
  early_later last now bucket later early =
      All-map_imp (λ t. t ≤ last) (λ t. t ≤ now) (λ t le. omega arith) bucket early

  Tracks-later :
      (last now : ℕ) (h bucket : List ℕ) → last ≤ now → Tracks last h bucket → Tracks now h bucket
  Tracks-later last now h bucket later tracks = record {
    early = early_later last now bucket later tracks.early;
    counted = λ n le. tracks.counted n (omega arith);
  }

  Tracks-refused :
      (last now : ℕ) (h bucket : List ℕ)
      → last ≤ now
      → Tracks last h bucket
      → Tracks now h (popped window now bucket)
  Tracks-refused last now h bucket later tracks = record {
    early = All-popped now now bucket (early_later last now bucket later tracks.early);
    counted = λ n le.
        let before = tracks.counted n (omega arith) in rw (popped-popped now n bucket le) before;
  }

  Tracks-accepted :
      (last now : ℕ) (h bucket : List ℕ)
      → last ≤ now
      → Tracks last h bucket
      → Tracks now (now ∷ h) (popped window now bucket ++ (now ∷ []))
  Tracks-accepted last now h bucket later tracks =
      let kept = Tracks-refused last now h bucket later tracks in
      record {
        early = All-snoc now (popped window now bucket) kept.early;
        counted = λ n le.
            let before = kept.counted n le in
            let more = length-popped-snoc n now (popped window now bucket) kept.early in
            ground arith;
      }

-- Every window of time holds at most `limit` of the hits.
abbrev pub IsWithin : ℕ → ℕ → List ℕ → Type 0
IsWithin limit window h = (t : ℕ) → count (in_window window t) h ≤ limit

IsWithin-accepted :
    (limit window last now : ℕ) (h bucket : List ℕ)
    → last ≤ now
    → Tracks window last h bucket
    → leb limit (length (popped window now bucket)) ≡ false
    → IsWithin limit window h
    → IsWithin limit window (now ∷ h)
IsWithin-accepted limit window last now h bucket later tracks room within t =
    elim (Bool-cases (leb now t)) [
      | inr future ↦ let before = within t in ground arith
      | inl past ↦
          let recent = window-recent window now t h (ground arith) in
          let held = tracks.counted now later in
          elim (Bool-cases (leb t (now + window))) [ inl i ↦ ground arith | inr o ↦ ground arith ]
    ]

module _ (key : String) (limit window : ℕ) where
  -- One call, whose key is `key` or another.
  module _ (c : Call) (hits : Hits) (last : ℕ) (h : List ℕ) (later : last ≤ c.now)
      (tracks : Tracks window last h (hits key)) (within : IsWithin limit window h) where
    abbrev after : Hits
    after = (hit limit window c.key c.now hits).1

    abbrev history : List ℕ
    history =
        if str_eq c.key key && is_ok (hit limit window c.key c.now hits).0 then c.now ∷ h else h

    by_state :
        (h' bucket : List ℕ)
        → history ≡ h'
        → after key ≡ bucket
        → Tracks window c.now h' bucket × IsWithin limit window h'
        → Tracks window c.now history (after key) × IsWithin limit window history
    by_state h' bucket e f both = (rw e (rw f both.0), rw e both.1)

    call_step : Tracks window c.now history (after key) × IsWithin limit window history
    unfolding hit
    call_step = elim (Bool-cases (str_eq c.key key)) [
      | inr other ↦
          by_state h (hits key) (ground arith) (ground arith)
            (Tracks-later window last c.now h (hits key) later tracks, within)
      | inl own ↦
          let same : c.key ≡ key = (eq_iff c.key key).0 own in
          elim (Bool-cases (leb limit (length (popped window c.now (hits key))))) [
            | inl full ↦
                by_state h (popped window c.now (hits key)) (ground arith) (ground arith)
                  (Tracks-refused window last c.now h (hits key) later tracks, within)
            | inr room ↦
                by_state (c.now ∷ h) (popped window c.now (hits key) ++ (c.now ∷ [])) (ground arith)
                  (ground arith)
                  (
                    Tracks-accepted window last c.now h (hits key) later tracks,
                    IsWithin-accepted limit window last c.now h (hits key) later tracks room within,
                  )
          ]
    ]

  accepted-IsWithin :
      (cs : List Call) (hits : Hits) (last : ℕ) (h : List ℕ)
      → Ascending last cs
      → Tracks window last h (hits key)
      → IsWithin limit window h
      → IsWithin limit window (accepted key limit window cs hits h)
  accepted-IsWithin [] hits last h up tracks within = within
  accepted-IsWithin (c ∷ cs) hits last h up tracks within =
      let (t, w) = call_step c hits last h up.0 tracks within in
      accepted-IsWithin cs (hit limit window c.key c.now hits).1 c.now _ up.1 t w

-- Starting without hits, and with a clock that does not go back, however the calls of different keys
-- mix, no window of time, its two ends included, holds more than `limit` accepted hits of a key.
pub rate_limiter-IsWithin :
    (key : String) (limit window : ℕ) (cs : List Call)
    → Ascending 0 cs
    → IsWithin limit window (accepted key limit window cs (λ k. []) [])
rate_limiter-IsWithin key limit window cs up =
    accepted-IsWithin key limit window cs (λ k. []) 0 [] up
      (record { early = tt; counted = λ n le. refl }) (λ t. ground arith)

-- A limiter that forgets nothing: a call passes if fewer than `limit` accepted hits of its key are no
-- older than the window.
abbrev pub remembered : String → ℕ → ℕ → List Call → List ℕ → List ℕ
remembered key limit window [] before = before
remembered key limit window (c ∷ cs) before = remembered key limit window cs (
    if str_eq c.key key && not (leb limit (count (is_recent window c.now) before))
    then c.now ∷ before
    else before)

module _ (key : String) (limit window : ℕ) where
  same_history :
      (c : Call) (hits : Hits) (last : ℕ) (h : List ℕ)
      → last ≤ c.now
      → Tracks window last h (hits key)
      → (if str_eq c.key key && is_ok (hit limit window c.key c.now hits).0 then c.now ∷ h else h)
        ≡ (if str_eq c.key key && not (leb limit (count (is_recent window c.now) h))
            then c.now ∷ h
            else h)
  unfolding hit
  same_history c hits last h later tracks = elim (Bool-cases (str_eq c.key key)) [
    | inr other ↦ ground arith
    | inl own ↦
        let same : c.key ≡ key = (eq_iff c.key key).0 own in
        let counted = tracks.counted c.now later in
        elim (Bool-cases (leb limit (length (popped window c.now (hits key))))) [
          | inl full ↦ ground arith
          | inr room ↦ ground arith
        ]
  ]

  accepted-remembered :
      (cs : List Call) (hits : Hits) (last : ℕ) (h : List ℕ)
      → Ascending last cs
      → Tracks window last h (hits key)
      → IsWithin limit window h
      → accepted key limit window cs hits h ≡ remembered key limit window cs h
  accepted-remembered [] hits last h up tracks within = refl
  accepted-remembered (c ∷ cs) hits last h up tracks within =
      let (t, w) = call_step key limit window c hits last h up.0 tracks within in
      let same = same_history c hits last h up.0 tracks in
      accepted-remembered cs (hit limit window c.key c.now hits).1 c.now _ up.1 t w
      ∙ ap (remembered key limit window cs) same

-- Starting without hits, and with a clock that does not go back, the limiter accepts exactly the
-- calls that one accepts which forgets nothing: those with fewer than `limit` accepted hits of their
-- key that are no older than the window.
pub rate_limiter-remembered :
    (key : String) (limit window : ℕ) (cs : List Call)
    → Ascending 0 cs
    → accepted key limit window cs (λ k. []) [] ≡ remembered key limit window cs []
rate_limiter-remembered key limit window cs up =
    accepted-remembered key limit window cs (λ k. []) 0 [] up
      (record { early = tt; counted = λ n le. refl }) (λ t. ground arith)
