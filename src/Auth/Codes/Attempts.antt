-- ===== src/Auth/Codes/Attempts.antt =====
-- The attempts at the codes of app/modules/auth/service.py, over sequences of requests.
use aidigiplanner_backend.Base.{ℕ, ◌≤◌, String, List, [], ◌∷◌, All}
use aidigiplanner_backend.Model.{Database, Otp}
use aidigiplanner_backend.Model.Session.{open_session}
use aidigiplanner_backend.Auth.Codes.{
  CodeEnvironment, verify_reset_otp, verify_email, resend_verification, forgot_password,
  reset_password,
}

pub data CodeOperation : Type 0 where
  post_verify_email post_verify_reset_otp post_reset_password : String → String → CodeOperation
  post_resend_verification post_forgot_password : String → CodeOperation

pub record CodeRequest : Type 0 where
  pub env : CodeEnvironment
  pub operation : CodeOperation

abbrev pub run : CodeEnvironment → CodeOperation → Database → Database
run env (CodeOperation.post_verify_email email otp) d =
    (verify_email env email otp (open_session d)).1.committed
run env (CodeOperation.post_verify_reset_otp email otp) d =
    (verify_reset_otp env email otp (open_session d)).1.committed
run env (CodeOperation.post_reset_password raw new) d =
    (reset_password env raw new (open_session d)).1.committed
run env (CodeOperation.post_resend_verification email) d =
    (resend_verification env email (open_session d)).1.committed
run env (CodeOperation.post_forgot_password email) d =
    (forgot_password env email (open_session d)).1.committed

unfoldable pub serve_codes : List CodeRequest → Database → Database
serve_codes [] d = d
serve_codes (r ∷ rs) d = serve_codes rs (run r.env r.operation d)

-- The attempts of each code.
abbrev pub Tried : ℕ → List Otp → Type 0
Tried max rows = All (λ o. o.attempts ≤ max) rows

abbrev pub IsCapped : ℕ → Database → Type 0
IsCapped max d = Tried max d.email_verification_otps × Tried max d.password_reset_otps

module _ (env : CodeEnvironment) (d : Database) (h : IsCapped env.otp_max_attempts d) where
  abbrev M : ℕ
  M = env.otp_max_attempts
