-- ===== src/Auth/Tests.antt =====
-- The theorems on sessions and codes at the sample database.
use aidigiplanner_backend.Base.{
  ◌≡◌, refl, String, str_eq, [], ◌∷◌, none, some, arith, if◌then◌else◌, Option, List,
}
use aidigiplanner_backend.Model.{Database, Otp}
use aidigiplanner_backend.Model.Session.{open_session, ok, err, app, unauthorized, bad_request}
use aidigiplanner_backend.Model.Queries.{get_user}
use aidigiplanner_backend.Core.Access.{Claims, get_current_user}
use aidigiplanner_backend.Auth.Tokens.{TokenEnvironment, find_token, refresh, logout_all}
use aidigiplanner_backend.Auth.Tokens.Families.{RefreshOutcome, refresh-RefreshOutcome}
use aidigiplanner_backend.Auth.Tokens.Requests.{
  SessionOperation, SessionRequest, DrawsFresh, IsLinear, serve_session, serve_sessions,
  serve_sessions-IsLinear,
}
use aidigiplanner_backend.Auth.Tokens.Revocation.{usable_tokens, logout_all_ends}
use aidigiplanner_backend.Auth.Login.{login, find_user}
use aidigiplanner_backend.Auth.Login.Gate.{LoginOutcome, login-LoginOutcome}
use aidigiplanner_backend.Auth.Codes.{CodeEnvironment, verify_reset_otp, find_account, current_otp}
use aidigiplanner_backend.Auth.Codes.Redeem.{ResetOutcome, verify_reset_otp-ResetOutcome}
use aidigiplanner_backend.Auth.Codes.Attempts.{CodeOperation, CodeRequest}
use aidigiplanner_backend.Samples.{database, admin, code_8}

-- Hashing leaves a text as it is, and a password is right if it is the stored hash.
abbrev env : TokenEnvironment
env = record {
  now = 10;
  refresh_token_ttl_days = 30;
  access_token_ttl_minutes = 15;
  new_id = 9;
  new_family_id = 90;
  generated_token = "new";
  hash_opaque_token = λ s. s;
  encode = λ c. "jwt";
  verify_hash = λ h p. str_eq h p;
  hash_password = λ p. p;
  dummy_hash = "dummy";
  lower = λ s. s;
}

abbrev codes : CodeEnvironment
codes = record {
  tokens = env;
  otp_max_attempts = 5;
  otp_ttl_minutes = 10;
  email_verification_otp_ttl_minutes = 15;
  password_reset_ttl_minutes = 60;
  generated_otp = "654321";
}

refresh-RefreshOutcome_example :
    RefreshOutcome env "t7" database
      (refresh env "t7" (open_session database)).0
      (refresh env "t7" (open_session database)).1
refresh-RefreshOutcome_example = refresh-RefreshOutcome env "t7" database

abbrev requests : List SessionRequest
requests =
    record { env = env; operation = SessionOperation.post_refresh "t7" }
    ∷ record { env = env; operation = SessionOperation.post_refresh "t7" }
    ∷ record { env = env; operation = SessionOperation.post_logout_all admin }
    ∷ []

fresh : DrawsFresh requests database
unfolding serve_session refresh find_token get_user
fresh = (refl, (refl, (refl, tt)))

linear : IsLinear database
linear f = ground arith

serve_sessions-IsLinear_example : IsLinear (serve_sessions requests database)
serve_sessions-IsLinear_example = serve_sessions-IsLinear requests database fresh linear

-- The token of the sample user.
abbrev claims : Claims
claims = record { sub = 1; token_type = "access"; token_version = 0 }

abbrev decode : String → Option Claims
decode t = if str_eq t "jwt" then some claims else none

logout_all_ends_example :
    (usable_tokens 1 (logout_all env admin (open_session database)).1.committed ≡ 0)
    × ((get_current_user decode
          (some "jwt")
          (open_session (logout_all env admin (open_session database)).1.committed)).0
        ≡ err (app unauthorized))
logout_all_ends_example =
    logout_all_ends decode "jwt" claims env admin database refl refl (omega arith)

login-LoginOutcome_example :
    LoginOutcome env "admin@acme.in" "h1" database
      (login env "admin@acme.in" "h1" (open_session database)).0
      (login env "admin@acme.in" "h1" (open_session database)).1
login-LoginOutcome_example = login-LoginOutcome env "admin@acme.in" "h1" database

verify_reset_otp-ResetOutcome_example :
    ResetOutcome codes "admin@acme.in" "000000" database
      (verify_reset_otp codes "admin@acme.in" "000000" (open_session database)).0
      (verify_reset_otp codes "admin@acme.in" "000000" (open_session database)).1
verify_reset_otp-ResetOutcome_example =
    verify_reset_otp-ResetOutcome codes "admin@acme.in" "000000" database

abbrev older_code : Otp
older_code = record {
  id = 6;
  user_id = 1;
  otp_hash = "111111";
  expires_at = 1000;
  used_at = none;
  attempts = 0;
}

-- With an older code of the same user behind the newest.
abbrev two_codes : Database
two_codes = record database { password_reset_otps = code_8 ∷ older_code ∷ [] }

bought : (verify_reset_otp codes "admin@acme.in" "123456" (open_session two_codes)).0 ≡ ok "new"
unfolding verify_reset_otp find_account find_user
bought = refl

left_over :
    current_otp 1 20
      (verify_reset_otp codes "admin@acme.in" "123456"
        (open_session two_codes)).1.committed.password_reset_otps
    ≡ some older_code
unfolding verify_reset_otp find_account find_user
left_over = refl

abbrev guesses : List CodeRequest
guesses =
    record { env = codes; operation = CodeOperation.post_verify_reset_otp "admin@acme.in" "000000" }
    ∷ record {
      env = codes;
      operation = CodeOperation.post_verify_reset_otp "admin@acme.in" "123456";
    }
    ∷ []

-- The fifth wrong guess locks the code: the right one is refused after it.
locked :
    (verify_reset_otp codes "admin@acme.in" "123456" (
      open_session
        (verify_reset_otp codes "admin@acme.in" "000000" (open_session database)).1.committed)).0
    ≡ err (app bad_request)
unfolding verify_reset_otp find_account find_user
locked = refl
