-- ===== src/Auth/Tokens/Requests.antt =====
-- Sequences of requests to the session endpoints, over one database.
use aidigiplanner_backend.Base.{
  ℕ, ◌+◌, ◌≤◌, ◌≡◌, not, ◌&&◌, ◌||◌, ◌==◌, str_eq, String, Option, none, some, List, [], ◌∷◌,
  is_none, first, Bool-cases, Option-cases, arith, inl, inr, ◌⊎◌, subst,
}
use aidigiplanner_backend.Model.{Database, User, UserStatus, RefreshTokenRevokedReason}
use aidigiplanner_backend.Model.Session.{Session, open_session}
use aidigiplanner_backend.Auth.Tokens.{
  TokenEnvironment, refresh, logout, logout_all, change_password, is_live, issue_token_pair,
  verify_password,
}
use aidigiplanner_backend.Auth.Login.{
  login, find_user, login_as, unless_blocked, gate, open_user_session,
}
use aidigiplanner_backend.Auth.Tokens.Families.{
  live_tokens, RefreshOutcome, refresh-RefreshOutcome, revoke_live_le, revoke_row_le,
}

pub data SessionOperation : Type 0 where
  post_login : String → String → SessionOperation
  post_refresh : String → SessionOperation
  post_logout : User → String → SessionOperation
  post_logout_all : User → SessionOperation
  post_change_password : User → String → String → SessionOperation

-- A request, with what its handling reads besides the database.
pub record SessionRequest : Type 0 where
  pub env : TokenEnvironment
  pub operation : SessionOperation

-- The database after an operation; what was not committed is lost.
abbrev pub run : TokenEnvironment → SessionOperation → Database → Database
run env (SessionOperation.post_login email password) d =
    (login env email password (open_session d)).1.committed
run env (SessionOperation.post_refresh raw) d = (refresh env raw (open_session d)).1.committed
run env (SessionOperation.post_logout user raw) d =
    (logout env user raw (open_session d)).1.committed
run env (SessionOperation.post_logout_all user) d =
    (logout_all env user (open_session d)).1.committed
run env (SessionOperation.post_change_password user current new) d =
    (change_password env user current new (open_session d)).1.committed

unfoldable pub serve_session : SessionRequest → Database → Database
serve_session r d = run r.env r.operation d

unfoldable pub serve_sessions : List SessionRequest → Database → Database
serve_sessions [] d = d
serve_sessions (r ∷ rs) d = serve_sessions rs (serve_session r d)

module _ (env : TokenEnvironment) (user : User) (d : Database) (f : ℕ) where
  logout-live_tokens :
      (raw : String)
      → live_tokens f (logout env user raw (open_session d)).1.committed ≤ live_tokens f d
  unfolding logout
  logout-live_tokens raw =
      elim (Option-cases (
        first (λ t. str_eq t.token_hash (env.hash_opaque_token raw) && t.user_id == user.id)
          d.refresh_tokens)) [
            | inl missing ↦ ground arith
            | inr (token, found) ↦
                let le =
                  revoke_row_le env.now RefreshTokenRevokedReason.logout token d.refresh_tokens f in
                elim (Bool-cases (is_live token)) [
                  | inl live ↦ ground arith
                  | inr dead ↦ ground arith
                ]
          ]

  logout_all-live_tokens :
      live_tokens f (logout_all env user (open_session d)).1.committed ≤ live_tokens f d
  unfolding logout_all
  logout_all-live_tokens =
      let le =
        revoke_live_le env.now RefreshTokenRevokedReason.logout_all (λ t. t.user_id == user.id) d
          f in
      ground arith

  change_password-live_tokens :
      (current new : String)
      → live_tokens f (change_password env user current new (open_session d)).1.committed
        ≤ live_tokens f d
  unfolding change_password
  change_password-live_tokens current new =
      let le =
        revoke_live_le env.now RefreshTokenRevokedReason.password_changed
          (λ t. t.user_id == user.id) d f in
      elim (Bool-cases (verify_password env current (some user.password_hash))) [
        | inl right ↦ ground arith
        | inr wrong ↦ ground arith
      ]

refresh-live_tokens :
    (env : TokenEnvironment) (raw : String) (d : Database) (f : ℕ)
    → live_tokens f (refresh env raw (open_session d)).1.committed ≤ live_tokens f d
refresh-live_tokens env raw d f = elim (refresh-RefreshOutcome env raw d) [
  | RefreshOutcome.refused e same ↦ rw same (ground arith)
  | RefreshOutcome.reused token found dead e zero le ↦ le f
  | RefreshOutcome.rotated token user found live fresh u no_deletion active e new le ↦ le f
]

module _ (env : TokenEnvironment) (d : Database) (f : ℕ) where
  -- One more token if a session is opened, in the family that is drawn for it.
  abbrev MoreIn : Session → Type 0
  MoreIn s =
      (live_tokens f s.committed ≤ live_tokens f d)
      ⊎ ((env.new_family_id ≡ f) × (live_tokens f s.committed ≤ live_tokens f d + 1))

  open_user_session-MoreIn : (user : User) → MoreIn (open_user_session env user (open_session d)).1
  unfolding issue_token_pair
  open_user_session-MoreIn user = elim (Bool-cases (env.new_family_id == f)) [
    | inl same ↦ inr (ground arith, ground arith)
    | inr other ↦ inl (ground arith)
  ]

  unless_blocked-MoreIn :
      (user : User) (reason : Option (String × ℕ))
      → MoreIn (unless_blocked env user reason (open_session d)).1
  unless_blocked-MoreIn user none = open_user_session-MoreIn user
  unless_blocked-MoreIn user (some (code, company_id)) = inl (ground arith)

  login_as-MoreIn :
      (user : User) (status : UserStatus) → MoreIn (login_as env user status (open_session d)).1
  login_as-MoreIn user UserStatus.pending = inl (ground arith)
  login_as-MoreIn user UserStatus.suspended = inl (ground arith)
  login_as-MoreIn user UserStatus.active = unless_blocked-MoreIn user (gate user d)

  login-MoreIn : (email password : String) → MoreIn (login env email password (open_session d)).1
  unfolding login
  login-MoreIn email password = elim (Option-cases (find_user (env.lower email) d)) [
    | inl missing ↦ inl (ground arith)
    | inr (user, found) ↦
        elim (Bool-cases (
          not (is_none user.deleted_at)
          || not (verify_password env password (some user.password_hash)))) [
            | inl refused ↦ inl (ground arith)
            | inr passed ↦
                let more = login_as-MoreIn user user.status in
                let same : login env email password (open_session d)
                    ≡ login_as env user user.status (open_session d) =
                  ground arith in
                rw same more
          ]
  ]

run-live_tokens :
    (env : TokenEnvironment) (o : SessionOperation) (d : Database) (f : ℕ)
    → (live_tokens f (run env o d) ≤ live_tokens f d)
      ⊎ ((env.new_family_id ≡ f) × (live_tokens f (run env o d) ≤ live_tokens f d + 1))
run-live_tokens env (SessionOperation.post_login email password) d f =
    login-MoreIn env d f email password
run-live_tokens env (SessionOperation.post_refresh raw) d f = inl (refresh-live_tokens env raw d f)
run-live_tokens env (SessionOperation.post_logout user raw) d f =
    inl (logout-live_tokens env user d f raw)
run-live_tokens env (SessionOperation.post_logout_all user) d f =
    inl (logout_all-live_tokens env user d f)
run-live_tokens env (SessionOperation.post_change_password user current new) d f =
    inl (change_password-live_tokens env user d f current new)

-- Each family that a login could start has no usable token when it is drawn.
abbrev pub DrawsFresh : List SessionRequest → Database → Type 0
DrawsFresh [] d = Unit
DrawsFresh (r ∷ rs) d = (live_tokens r.env.new_family_id d ≡ 0) × DrawsFresh rs (serve_session r d)

-- At most one token of each family is usable.
abbrev pub IsLinear : Database → Type 0
IsLinear d = (f : ℕ) → live_tokens f d ≤ 1

serve_session-IsLinear :
    (r : SessionRequest) (d : Database)
    → live_tokens r.env.new_family_id d ≡ 0
    → IsLinear d
    → IsLinear (serve_session r d)
unfolding serve_session
serve_session-IsLinear r d fresh h f = elim (run-live_tokens r.env r.operation d f) [
  | inl le ↦ let before = h f in ground arith
  | inr (same, le) ↦
      let unused : live_tokens f d ≡ 0 = subst (λ k. live_tokens k d ≡ 0) same fresh in ground arith
]

-- Over every sequence of logins, refreshes, logouts, logouts from all devices and password changes,
-- refused or not, in which a drawn family has no usable token yet, a family of refresh tokens that
-- has at most one usable token keeps at most one.
pub serve_sessions-IsLinear :
    (rs : List SessionRequest) (d : Database)
    → DrawsFresh rs d
    → IsLinear d
    → IsLinear (serve_sessions rs d)
unfolding serve_sessions
serve_sessions-IsLinear [] d fresh h = h
serve_sessions-IsLinear (r ∷ rs) d fresh h =
    serve_sessions-IsLinear rs (serve_session r d) fresh.1 (serve_session-IsLinear r d fresh.0 h)
