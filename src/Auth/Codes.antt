-- ===== src/Auth/Codes.antt =====
-- The one-time codes of app/modules/auth/service.py: e-mail verification and password reset.
pub mod Attempts
pub mod Newest
pub mod Redeem
use aidigiplanner_backend.Base.{
  ℕ, ◌+◌, ◌*◌, Bool, not, ◌&&◌, ◌||◌, ◌==◌, leb, ltb, str_eq, String, Option, none, some, List, [],
  ◌∷◌, if◌then◌else◌, is_none, first, update, map, select,
}
use aidigiplanner_backend.Model.{
  Database, User, UserStatus, Otp, PasswordResetToken, RefreshTokenRevokedReason, Email,
  CompanyMember, CompanyOnboardingStep, is_user_status, is_company_admin_role,
}
use aidigiplanner_backend.Model.Session.{
  Action, ◌>>=◌, ◌>>◌, pure, raise, raise_if, query, or_raise, live, modify, commit, send,
  bad_request,
}
use aidigiplanner_backend.Model.Queries.{get_user}
use aidigiplanner_backend.Auth.Tokens.{
  TokenEnvironment, put_user, revoke_active_refresh_tokens, audit,
}
use aidigiplanner_backend.Auth.Login.{find_user}
use aidigiplanner_backend.Companies.Onboarding.{advance_all}

pub record CodeEnvironment : Type 0 where
  pub tokens : TokenEnvironment
  pub otp_max_attempts : ℕ
  pub otp_ttl_minutes : ℕ
  pub email_verification_otp_ttl_minutes : ℕ
  pub password_reset_ttl_minutes : ℕ
  pub generated_otp : String

abbrev pub minute : ℕ
minute = 60000000

-- The newest code of the user that is neither used nor expired.
abbrev pub current_otp : ℕ → ℕ → List Otp → Option Otp
current_otp user_id now =
    first (λ o. o.user_id == user_id && (is_none o.used_at && ltb now o.expires_at))

-- The write back of a loaded code.
abbrev pub put_otp : Otp → List Otp → List Otp
put_otp o = update (λ r. r.id == o.id) (λ _. o)

-- The account of an e-mail address, unless it is deleted.
unfoldable pub find_account : CodeEnvironment → String → Database → Option User
find_account env email d = live (λ u. u.deleted_at) (find_user (env.tokens.lower email) d)

-- The ids of the companies that the user administers.
abbrev pub admin_company_ids : ℕ → List CompanyMember → List ℕ
admin_company_ids user_id ms =
    map (λ m. m.company_id) (select (λ m. m.user_id == user_id && is_company_admin_role m.role) ms)

abbrev pub verified : ℕ → User → User
verified now user = record user {
  status = if is_user_status user.status UserStatus.pending then UserStatus.active else user.status;
  email_verified_at = if is_none user.email_verified_at then some now else user.email_verified_at;
}

-- A correct code: it is used up, the account becomes active, and its companies move on.
abbrev pub accept_verification : CodeEnvironment → User → Otp → Action (Unit {0})
accept_verification env user o = do
  modify (λ d. record d {
    email_verification_otps =
        put_otp (record o { used_at = some env.tokens.now }) d.email_verification_otps;
  })
  modify (put_user (verified env.tokens.now user))
  modify (λ d.
      advance_all (admin_company_ids user.id d.company_members) CompanyOnboardingStep.email_verified
        d)
  audit "auth.email_verified" user.id
  commit

abbrev pub reject_verification : Otp → Action (Unit {0})
reject_verification o = do
  modify (λ d. record d {
    email_verification_otps =
        put_otp (record o { attempts = o.attempts + 1 }) d.email_verification_otps;
  })
  commit
  raise bad_request

unfoldable pub verify_email : CodeEnvironment → String → String → Action (Unit {0})
verify_email env email otp = do
  user ← or_raise (← query (find_account env email)) bad_request
  o ←
      or_raise (← query (λ d. current_otp user.id env.tokens.now d.email_verification_otps))
        bad_request
  raise_if (leb env.otp_max_attempts o.attempts) bad_request
  if str_eq (env.tokens.hash_opaque_token otp) o.otp_hash
      then accept_verification env user o
      else reject_verification o

-- A new code, for `minutes` minutes. `id` is its primary key.
abbrev pub new_otp : CodeEnvironment → ℕ → ℕ → ℕ → Otp
new_otp env id user_id minutes = record {
  id = id;
  user_id = user_id;
  otp_hash = env.tokens.hash_opaque_token env.generated_otp;
  expires_at = env.tokens.now + minutes * minute;
  used_at = none;
  attempts = 0;
}

-- Both endpoints answer the same whether or not there is such an account.
unfoldable pub resend_verification : CodeEnvironment → String → Action (Unit {0})
resend_verification env email = do
  account ← query (find_account env email)
  elim account [
    | none ↦ pure tt
    | some user ↦
        if is_user_status user.status UserStatus.pending
        then (do
          modify (λ d. record d {
            email_verification_otps =
                new_otp env env.tokens.new_id user.id env.email_verification_otp_ttl_minutes
                ∷ d.email_verification_otps;
          })
          audit "auth.resend_verification" user.id
          commit
          send (Email.verification_otp user.email env.generated_otp))
        else pure tt
  ]

unfoldable pub forgot_password : CodeEnvironment → String → Action (Unit {0})
forgot_password env email = do
  account ← query (find_account env email)
  elim account [
    | none ↦ pure tt
    | some user ↦ do
      modify (λ d. record d {
        password_reset_otps =
            new_otp env env.tokens.new_id user.id env.otp_ttl_minutes ∷ d.password_reset_otps;
      })
      audit "auth.forgot_password" user.id
      commit
      send (Email.password_reset user.email env.generated_otp)
  ]

abbrev pub new_reset_token : CodeEnvironment → ℕ → PasswordResetToken
new_reset_token env user_id = record {
  id = env.tokens.new_id;
  user_id = user_id;
  token_hash = env.tokens.hash_opaque_token env.tokens.generated_token;
  expires_at = env.tokens.now + env.password_reset_ttl_minutes * minute;
  used_at = none;
}

abbrev pub accept_reset : CodeEnvironment → User → Otp → Action String
accept_reset env user o = do
  modify (λ d. record d {
    password_reset_otps =
        put_otp (record o { used_at = some env.tokens.now }) d.password_reset_otps;
    password_reset_tokens = new_reset_token env user.id ∷ d.password_reset_tokens;
  })
  audit "auth.otp_verified" user.id
  commit
  pure env.tokens.generated_token

abbrev pub reject_reset : Otp → Action String
reject_reset o = do
  modify (λ d. record d {
    password_reset_otps = put_otp (record o { attempts = o.attempts + 1 }) d.password_reset_otps;
  })
  commit
  raise bad_request

unfoldable pub verify_reset_otp : CodeEnvironment → String → String → Action String
verify_reset_otp env email otp = do
  user ← or_raise (← query (find_account env email)) bad_request
  o ← or_raise (← query (λ d. current_otp user.id env.tokens.now d.password_reset_otps)) bad_request
  raise_if (leb env.otp_max_attempts o.attempts) bad_request
  if str_eq (env.tokens.hash_opaque_token otp) o.otp_hash
      then accept_reset env user o
      else reject_reset o

unfoldable pub find_reset_token : CodeEnvironment → String → Database → Option PasswordResetToken
find_reset_token env raw d =
    first
      (λ t.
        str_eq t.token_hash (env.tokens.hash_opaque_token raw)
        && (is_none t.used_at && ltb env.tokens.now t.expires_at))
      d.password_reset_tokens

unfoldable pub reset_password : CodeEnvironment → String → String → Action (Unit {0})
reset_password env raw new_password = do
  token ← or_raise (← query (find_reset_token env raw)) bad_request
  user ← or_raise (← query (get_user token.user_id)) bad_request
  modify (
      put_user (record user {
        password_hash = env.tokens.hash_password new_password;
        token_version = user.token_version + 1;
      }))
  modify (λ d. record d {
    password_reset_tokens =
        update (λ t. t.id == token.id) (λ _. record token { used_at = some env.tokens.now })
          d.password_reset_tokens;
  })
  revoke_active_refresh_tokens user.id env.tokens.now RefreshTokenRevokedReason.password_changed
  audit "auth.password_reset" user.id
  commit
