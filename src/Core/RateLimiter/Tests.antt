-- ===== src/Core/RateLimiter/Tests.antt =====
-- The rate limiter on a short run of calls.
use aidigiplanner_backend.Base.{◌≡◌, refl, List, [], ◌∷◌, arith}
use aidigiplanner_backend.Core.RateLimiter.{hit}
use aidigiplanner_backend.Core.RateLimiter.Window.{
  Call, Ascending, IsWithin, accepted, remembered, rate_limiter-IsWithin, rate_limiter-remembered,
}

abbrev calls : List Call
calls =
    record { key = "ip:login:a"; now = 10 }
    ∷ record { key = "ip:login:b"; now = 11 }
    ∷ record { key = "ip:login:a"; now = 20 }
    ∷ record { key = "ip:login:a"; now = 70 }
    ∷ record { key = "ip:login:a"; now = 71 }
    ∷ []

ascending : Ascending 0 calls
ascending = ground arith

rate_limiter-IsWithin_example : IsWithin 2 60 (accepted "ip:login:a" 2 60 calls (λ k. []) [])
rate_limiter-IsWithin_example = rate_limiter-IsWithin "ip:login:a" 2 60 calls ascending

-- The call at 70 is refused, as the hits at 10 and 20 are in its window; the one at 71 is accepted.
two_of_three : accepted "ip:login:a" 2 60 calls (λ k. []) [] ≡ 71 ∷ 20 ∷ 10 ∷ []
unfolding hit
two_of_three = refl

rate_limiter-remembered_example :
    accepted "ip:login:a" 2 60 calls (λ k. []) [] ≡ remembered "ip:login:a" 2 60 calls []
rate_limiter-remembered_example = rate_limiter-remembered "ip:login:a" 2 60 calls ascending
