-- ===== src/Creatives/PostingTime.antt =====
-- app/modules/creatives/posting_time.py: the next slot at a platform's hour. A time is a number of
-- microseconds since a midnight in UTC.
use aidigiplanner_backend.Base.{
  ℕ, ◌+◌, ◌*◌, ◌/◌, ◌%◌, ◌≤◌, ◌<◌, ◌≡◌, String, str_eq, List, [], ◌∷◌, ltb, if◌then◌else◌, arith,
  Bool-cases, Option-cases, inl, inr, Option, none, some, true, eq_iff,
}
use aidigiplanner_backend.Model.{SocialPlatform}

abbrev pub hour_length : ℕ
hour_length = 3600000000

abbrev pub day_length : ℕ
day_length = 86400000000

-- `_BEST_HOUR_UTC`
abbrev pub best_hour_utc : SocialPlatform → ℕ
best_hour_utc SocialPlatform.instagram = 11
best_hour_utc SocialPlatform.facebook = 13
best_hour_utc SocialPlatform.linkedin = 9
best_hour_utc SocialPlatform.youtube = 17
best_hour_utc SocialPlatform.twitter = 8
best_hour_utc SocialPlatform.google = 10

-- `SocialPlatform(value)`, `none` where it raises `ValueError`.
abbrev pub social_platform : String → Option SocialPlatform
social_platform value =
    if str_eq value "instagram"
    then some SocialPlatform.instagram
    else if str_eq value "facebook"
    then some SocialPlatform.facebook
    else if str_eq value "youtube"
    then some SocialPlatform.youtube
    else if str_eq value "google"
    then some SocialPlatform.google
    else if str_eq value "twitter"
    then some SocialPlatform.twitter
    else if str_eq value "linkedin"
    then some SocialPlatform.linkedin
    else none

-- The hour of the first platform that is recognized.
unfoldable pub posting_hour : List String → ℕ
posting_hour [] = 11
posting_hour (value ∷ values) =
    let rest = posting_hour values in
    elim (social_platform value) [ none ↦ rest | some platform ↦ best_hour_utc platform ]

-- `now.replace(hour=hour, minute=0, second=0, microsecond=0)`
abbrev pub at_hour : ℕ → ℕ → ℕ
at_hour hour now = now / day_length * day_length + hour * hour_length

unfoldable pub suggest_posting_time : List String → ℕ → ℕ → ℕ
suggest_posting_time platforms now lead_time =
    let candidate = at_hour (posting_hour platforms) now in
    if ltb candidate (now + lead_time) then candidate + day_length else candidate

best_hour-bounds : (p : SocialPlatform) → (8 ≤ best_hour_utc p) × (best_hour_utc p ≤ 17)
best_hour-bounds SocialPlatform.instagram = (ground arith, ground arith)
best_hour-bounds SocialPlatform.facebook = (ground arith, ground arith)
best_hour-bounds SocialPlatform.linkedin = (ground arith, ground arith)
best_hour-bounds SocialPlatform.youtube = (ground arith, ground arith)
best_hour-bounds SocialPlatform.twitter = (ground arith, ground arith)
best_hour-bounds SocialPlatform.google = (ground arith, ground arith)

posting_hour-bounds : (vs : List String) → (8 ≤ posting_hour vs) × (posting_hour vs ≤ 17)
unfolding posting_hour
posting_hour-bounds [] = (ground arith, ground arith)
posting_hour-bounds (v ∷ vs) =
    elim (social_platform v)
      as (λ o.
        (8 ≤ (elim o [ none ↦ posting_hour vs | some p ↦ best_hour_utc p ]))
        × ((elim o [ none ↦ posting_hour vs | some p ↦ best_hour_utc p ]) ≤ 17)) [
          | none ↦ posting_hour-bounds vs
          | some p ↦ best_hour-bounds p
        ]

-- The platforms' hours in UTC, by the texts that name them.
pub data HourOf (value : String) (hour : ℕ) : Type 0 where
  twitter : value ≡ "twitter" → hour ≡ 8 → HourOf value hour
  linkedin : value ≡ "linkedin" → hour ≡ 9 → HourOf value hour
  google : value ≡ "google" → hour ≡ 10 → HourOf value hour
  instagram : value ≡ "instagram" → hour ≡ 11 → HourOf value hour
  facebook : value ≡ "facebook" → hour ≡ 13 → HourOf value hour
  youtube : value ≡ "youtube" → hour ≡ 17 → HourOf value hour

-- The hour of the first text in the list that names a platform, and 11 if none does.
pub data FirstHour : List String → ℕ → Type 0 where
  nobody : FirstHour [] 11
  named : {v : String} {vs : List String} {hour : ℕ} → HourOf v hour → FirstHour (v ∷ vs) hour
  unknown :
      {v : String} {vs : List String} {hour : ℕ}
      → ((h : ℕ) → ¬ HourOf v h)
      → FirstHour vs hour
      → FirstHour (v ∷ vs) hour

social_platform-HourOf :
    (v : String) (p : SocialPlatform) → social_platform v ≡ some p → HourOf v (best_hour_utc p)
social_platform-HourOf v p e = elim (Bool-cases (str_eq v "instagram")) [
  | inl here ↦ HourOf.instagram (named_by here) (ground arith)
  | inr a ↦ elim (Bool-cases (str_eq v "facebook")) [
    | inl here ↦ HourOf.facebook (named_by here) (ground arith)
    | inr b ↦ elim (Bool-cases (str_eq v "youtube")) [
      | inl here ↦ HourOf.youtube (named_by here) (ground arith)
      | inr c ↦ elim (Bool-cases (str_eq v "google")) [
        | inl here ↦ HourOf.google (named_by here) (ground arith)
        | inr f ↦ elim (Bool-cases (str_eq v "twitter")) [
          | inl here ↦ HourOf.twitter (named_by here) (ground arith)
          | inr g ↦ elim (Bool-cases (str_eq v "linkedin")) [
            | inl here ↦ HourOf.linkedin (named_by here) (ground arith)
            | inr k ↦ absurd (ground arith)
          ]
        ]
      ]
    ]
  ]
]
  where
    named_by : {w : String} → str_eq v w ≡ true → v ≡ w
    named_by {w} h = (eq_iff v w).0 h

unnamed : (v : String) → social_platform v ≡ none → (h : ℕ) → ¬ HourOf v h
unnamed v e h (HourOf.twitter n q) = cc
unnamed v e h (HourOf.linkedin n q) = cc
unnamed v e h (HourOf.google n q) = cc
unnamed v e h (HourOf.instagram n q) = cc
unnamed v e h (HourOf.facebook n q) = cc
unnamed v e h (HourOf.youtube n q) = cc

posting_hour-FirstHour : (vs : List String) → FirstHour vs (posting_hour vs)
unfolding posting_hour
posting_hour-FirstHour [] = FirstHour.nobody
posting_hour-FirstHour (v ∷ vs) = elim (Option-cases (social_platform v)) [
  | inl none_of_them ↦
      rw (none_of_them, posting_hour)
        (FirstHour.unknown (unnamed v none_of_them) (posting_hour-FirstHour vs))
  | inr (p, known) ↦ rw (known, posting_hour) (FirstHour.named (social_platform-HourOf v p known))
]

-- With a lead of at most eight hours the suggested time is no earlier than the lead allows, less than
-- a day later than that, and on the hour of the first platform that is recognized: 8 for twitter, 9
-- for linkedin, 10 for google, 11 for instagram, 13 for facebook, 17 for youtube, and 11 if none is.
pub suggest_posting_time_next :
    (platforms : List String) (now lead_time : ℕ)
    → lead_time ≤ 8 * hour_length
    → (now + lead_time ≤ suggest_posting_time platforms now lead_time)
      × (suggest_posting_time platforms now lead_time < now + lead_time + day_length)
      × ((hour : ℕ) × FirstHour platforms hour
          × (suggest_posting_time platforms now lead_time % day_length ≡ hour * hour_length))
unfolding suggest_posting_time
suggest_posting_time_next platforms now lead_time short =
    let hours = posting_hour-bounds platforms in
    let low = hours.0 in
    let high = hours.1 in
    let first_hour = posting_hour-FirstHour platforms in
    elim (Bool-cases (ltb (at_hour (posting_hour platforms) now) (now + lead_time))) [
      | inl early ↦ (ground arith, ground arith, (posting_hour platforms, first_hour, ground arith))
      | inr late ↦ (ground arith, ground arith, (posting_hour platforms, first_hour, ground arith))
    ]
