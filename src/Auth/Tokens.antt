-- ===== src/Auth/Tokens.antt =====
-- The refresh tokens of app/modules/auth/service.py and token_issuance.py: their issue, rotation
-- and revocation, and the access tokens that are issued with them.
pub mod Families
pub mod Requests
pub mod Revocation
use aidigiplanner_backend.Base.{
  ℕ, ◌+◌, ◌*◌, Bool, not, ◌&&◌, ◌||◌, ◌==◌, leb, str_eq, String, Option, none, some, ◌∷◌,
  if◌then◌else◌, is_none, is_some, first, update,
}
use aidigiplanner_backend.Model.{
  Database, User, UserStatus, RefreshToken, RefreshTokenRevokedReason, is_user_status,
}
use aidigiplanner_backend.Model.Session.{
  Action, ◌>>=◌, ◌>>◌, pure, raise, raise_if, query, or_raise, modify, commit, log, unauthorized,
  with_code,
}
use aidigiplanner_backend.Model.Queries.{get_user}
use aidigiplanner_backend.Core.Access.{Claims}

-- What a request of the service reads besides the database: the clock, the settings, the values
-- that the standard library's generators draw, SHA-256, `jwt.encode` with the secret, Argon2 with
-- the fixed hash that stands in for a missing account, and `str.lower`.
pub record TokenEnvironment : Type 0 where
  pub now : ℕ
  pub refresh_token_ttl_days : ℕ
  pub access_token_ttl_minutes : ℕ
  pub new_id : ℕ
  pub new_family_id : ℕ
  pub generated_token : String
  pub hash_opaque_token : String → String
  pub encode : Claims → String
  pub verify_hash : String → String → Bool
  pub hash_password : String → String
  pub dummy_hash : String
  pub lower : String → String

-- `verify_password` of app/core/security.py, with `password_hash or _DUMMY_HASH`.
abbrev pub verify_password : TokenEnvironment → String → Option String → Bool
verify_password env password none = env.verify_hash env.dummy_hash password
verify_password env password (some password_hash) =
    env.verify_hash (if str_eq password_hash "" then env.dummy_hash else password_hash) password

-- Microseconds.
abbrev pub day : ℕ
day = 86400000000

pub record TokenPair : Type 0 where
  pub access_token : String
  pub refresh_token : String
  pub expires_in : ℕ

-- `create_access_token` of app/core/security.py.
abbrev pub create_access_token : TokenEnvironment → User → String
create_access_token env user =
    env.encode (record { sub = user.id; token_type = "access"; token_version = user.token_version })

abbrev pub token_pair : TokenEnvironment → User → TokenPair
token_pair env user = record {
  access_token = create_access_token env user;
  refresh_token = env.generated_token;
  expires_in = env.access_token_ttl_minutes * 60;
}

-- The row of the generated token. `parent_id` is `none` for the first token of a family.
abbrev pub new_refresh_token : TokenEnvironment → ℕ → ℕ → Option ℕ → RefreshToken
new_refresh_token env user_id family_id parent_id = record {
  id = env.new_id;
  user_id = user_id;
  token_hash = env.hash_opaque_token env.generated_token;
  family_id = family_id;
  parent_id = parent_id;
  expires_at = env.now + env.refresh_token_ttl_days * day;
  revoked_at = none;
  revoked_reason = none;
}

abbrev pub add_token : RefreshToken → Database → Database
add_token t d = record d { refresh_tokens = t ∷ d.refresh_tokens }

-- A token that has not been revoked.
abbrev pub is_live : RefreshToken → Bool
is_live t = is_none t.revoked_at

abbrev pub revoked : ℕ → RefreshTokenRevokedReason → RefreshToken → RefreshToken
revoked now reason t = record t { revoked_at = some now; revoked_reason = some reason }

-- The loop that revokes what a query of live tokens has found.
abbrev pub revoke_live : (RefreshToken → Bool) → ℕ → RefreshTokenRevokedReason → Database → Database
revoke_live test now reason d = record d {
  refresh_tokens = update (λ t. test t && is_live t) (revoked now reason) d.refresh_tokens;
}

unfoldable pub find_token : String → Database → Option RefreshToken
find_token token_hash d = first (λ t. str_eq t.token_hash token_hash) d.refresh_tokens

abbrev pub audit : String → ℕ → Action (Unit {0})
audit action user_id = log (record {
  action = action;
  actor_user_id = some user_id;
  company_id = none;
  product_id = none;
  resource_type = none;
  resource_id = none;
})

unfoldable pub issue_token_pair : TokenEnvironment → User → Action TokenPair
issue_token_pair env user = do
  modify (add_token (new_refresh_token env user.id env.new_family_id none))
  pure (token_pair env user)

-- The branch of `refresh` for a token that was revoked before.
abbrev reuse_detected : TokenEnvironment → RefreshToken → Action TokenPair
reuse_detected env token = do
  modify (
      revoke_live (λ t. t.family_id == token.family_id) env.now
        RefreshTokenRevokedReason.reuse_detected)
  audit "auth.refresh.reuse_detected" token.user_id
  commit
  raise unauthorized

abbrev rotate : TokenEnvironment → RefreshToken → Action TokenPair
rotate env token = do
  raise_if (leb token.expires_at env.now) unauthorized
  user ← or_raise (← query (get_user token.user_id)) unauthorized
  raise_if (not (is_none user.deleted_at) || not (is_user_status user.status UserStatus.active))
      unauthorized
  modify (λ d. record d {
    refresh_tokens =
        update (λ t. t.id == token.id)
          (λ _. revoked env.now RefreshTokenRevokedReason.rotated token) d.refresh_tokens;
  })
  modify (add_token (new_refresh_token env user.id token.family_id (some token.id)))
  commit
  pure (token_pair env user)

unfoldable pub refresh : TokenEnvironment → String → Action TokenPair
refresh env raw_refresh_token = do
  token ← or_raise (← query (find_token (env.hash_opaque_token raw_refresh_token))) unauthorized
  if is_some token.revoked_at then reuse_detected env token else rotate env token

unfoldable pub logout : TokenEnvironment → User → String → Action (Unit {0})
logout env user raw_refresh_token = do
  found ← query (λ d.
      first
        (λ t. str_eq t.token_hash (env.hash_opaque_token raw_refresh_token) && t.user_id == user.id)
        d.refresh_tokens)
  elim found [
    | none ↦ pure tt
    | some token ↦
        if is_live token
        then (do
          modify (λ d. record d {
            refresh_tokens =
                update (λ t. t.id == token.id)
                  (λ _. revoked env.now RefreshTokenRevokedReason.logout token) d.refresh_tokens;
          })
          audit "auth.logout" user.id
          commit)
        else pure tt
  ]

-- The write back of a loaded user.
abbrev pub put_user : User → Database → Database
put_user user d = record d { users = update (λ u. u.id == user.id) (λ _. user) d.users }

unfoldable pub logout_all : TokenEnvironment → User → Action (Unit {0})
logout_all env user = do
  modify (put_user (record user { token_version = user.token_version + 1 }))
  modify (revoke_live (λ t. t.user_id == user.id) env.now RefreshTokenRevokedReason.logout_all)
  audit "auth.logout_all" user.id
  commit

-- `_revoke_active_refresh_tokens`
abbrev pub revoke_active_refresh_tokens : ℕ → ℕ → RefreshTokenRevokedReason → Action (Unit {0})
revoke_active_refresh_tokens user_id now reason =
    modify (revoke_live (λ t. t.user_id == user_id) now reason)

unfoldable pub change_password : TokenEnvironment → User → String → String → Action (Unit {0})
change_password env user current_password new_password = do
  raise_if (not (verify_password env current_password (some user.password_hash)))
      (with_code unauthorized "invalid_credentials")
  modify (
      put_user (record user {
        password_hash = env.hash_password new_password;
        token_version = user.token_version + 1;
      }))
  revoke_active_refresh_tokens user.id env.now RefreshTokenRevokedReason.password_changed
  audit "auth.password_changed" user.id
  commit
