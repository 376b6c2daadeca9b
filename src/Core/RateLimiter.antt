-- ===== src/Core/RateLimiter.antt =====
-- `InMemoryRateLimiter` of app/core/rate_limit.py: a sliding window of hits for each key. A time is a
-- reading of the monotonic clock, in a unit of its own.
pub mod Window
mod Tests
use aidigiplanner_backend.Base.{
  ℕ, ◌+◌, Bool, true, false, String, str_eq, List, [], ◌∷◌, ◌++◌, ltb, leb, length, if◌then◌else◌,
}
use aidigiplanner_backend.Model.Session.{Result, ok, err, app, rate_limited}

-- The deque of each key, oldest hit first; a missing key has an empty one.
abbrev pub Hits : Type 0
Hits = String → List ℕ

-- `while bucket and bucket[0] < now - window_seconds: bucket.popleft()`
abbrev pub popped : ℕ → ℕ → List ℕ → List ℕ
popped window now [] = []
popped window now (t ∷ ts) =
    let rest = popped window now ts in if ltb (t + window) now then rest else t ∷ ts

abbrev pub put_bucket : String → List ℕ → Hits → Hits
put_bucket key bucket hits k = if str_eq key k then bucket else hits k

-- The bucket after the clean-up, and whether it has room.
abbrev pub hit_bucket : ℕ → List ℕ → ℕ → Bool × List ℕ
hit_bucket limit cleaned now =
    if leb limit (length cleaned) then (false, cleaned) else (true, cleaned ++ (now ∷ []))

abbrev pub allowed : Bool → Result (Unit {0})
allowed true = ok tt
allowed false = err (app rate_limited)

unfoldable pub hit : ℕ → ℕ → String → ℕ → Hits → Result (Unit {0}) × Hits
hit limit window key now hits =
    let (room, bucket) = hit_bucket limit (popped window now (hits key)) now in
    (allowed room, put_bucket key bucket hits)
