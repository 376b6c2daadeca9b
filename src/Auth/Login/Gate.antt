-- ===== src/Auth/Login/Gate.antt =====
-- The conditions of `login` in app/modules/auth/service.py, and the ways in which it ends.
use aidigiplanner_backend.Base.{
  ℕ, Bool, true, ◌&&◌, ◌≡◌, refl, String, Option, none, some, List, [], ◌∷◌, is_none, any, arith,
  Bool-cases, Option-cases, ◌⊎◌, inl, inr,
}
use aidigiplanner_backend.Model.{Database, User, UserStatus, Company}
use aidigiplanner_backend.Model.Session.{
  Session, Result, AppError, ok, err, app, unauthorized, forbidden, with_code, open_session,
}
use aidigiplanner_backend.Auth.Tokens.{
  TokenEnvironment, verify_password, issue_token_pair, new_refresh_token, token_pair,
}
use aidigiplanner_backend.Auth.Login.{
  LoginResponse, login, find_user, companies_of, is_active_company, blocking_reason, gate,
  blocking_company_status_reason, login_as, unless_blocked,
}

-- A company that lets its people in.
abbrev pub is_open : Company → Bool
is_open c = is_active_company c && is_none c.deleted_at

-- Whom the password, the account and the companies let in.
pub record MayLogIn (env : TokenEnvironment) (email password : String) (d : Database) : Type 0 where
  pub user : User
  pub found : find_user (env.lower email) d ≡ some user
  pub kept : user.deleted_at ≡ none
  pub verified : verify_password env password (some user.password_hash) ≡ true
  pub active : user.status ≡ UserStatus.active
  pub admitted :
      (user.is_super_admin ≡ true)
      ⊎ ((companies_of user.id d ≡ []) ⊎ (any is_open (companies_of user.id d) ≡ true))

blocking_reason-none :
    (cs : List Company) → blocking_reason cs ≡ none → (cs ≡ []) ⊎ (any is_open cs ≡ true)
blocking_reason-none [] h = inl refl
blocking_reason-none (c ∷ cs) h = elim (Bool-cases (any is_open (c ∷ cs))) [
  | inl some_open ↦ inr some_open
  | inr all_shut ↦ ground arith
]

none-blocking_reason :
    (cs : List Company) → (cs ≡ []) ⊎ (any is_open cs ≡ true) → blocking_reason cs ≡ none
none-blocking_reason [] h = refl
none-blocking_reason (c ∷ cs) (inl e) = cc
none-blocking_reason (c ∷ cs) (inr e) = ground arith

module _ (env : TokenEnvironment) (email password : String) (d : Database) where
  -- How a login ends.
  pub data LoginOutcome (r : Result LoginResponse) (s : Session) : Type 0 where
    opened :
        (m : MayLogIn env email password d) (response : LoginResponse)
        → r ≡ ok response
        → response.tokens ≡ token_pair env m.user
        → s.committed.refresh_tokens
          ≡ new_refresh_token env m.user.id env.new_family_id none ∷ d.refresh_tokens
        → LoginOutcome r s
    shut :
        ¬ MayLogIn env email password d
        → (e : AppError) → r ≡ err (app e)
        → s.committed.refresh_tokens ≡ d.refresh_tokens
        → s.committed.users ≡ d.users
        → LoginOutcome r s

  abbrev run : Result LoginResponse × Session
  run = login env email password (open_session d)

  -- The user whom the e-mail address names is the one that a permission is about.
  same_user :
      (user : User) (m : MayLogIn env email password d)
      → find_user (env.lower email) d ≡ some user
      → m.user ≡ user
  same_user user m found = let e = m.found in ground arith

  module _ (user : User) (found : find_user (env.lower email) d ≡ some user) where
    gate-none :
        gate user d ≡ none
        → (user.is_super_admin ≡ true)
          ⊎ ((companies_of user.id d ≡ []) ⊎ (any is_open (companies_of user.id d) ≡ true))
    unfolding gate blocking_company_status_reason
    gate-none h = elim (Bool-cases user.is_super_admin) [
      | inl super ↦ inl super
      | inr plain ↦ inr (blocking_reason-none (companies_of user.id d) (rw plain at h))
    ]

    none-gate : (m : MayLogIn env email password d) → gate user d ≡ none
    unfolding gate blocking_company_status_reason
    none-gate m = elim m.admitted [
      | inl super ↦
          let here : user.is_super_admin ≡ true = rw (same_user user m found) at super in
          rw here refl
      | inr free ↦
          let here = rw (same_user user m found) at free in
          let unblocked = none-blocking_reason (companies_of user.id d) here in
          elim (Bool-cases user.is_super_admin) [
            | inl super ↦ rw super refl
            | inr plain ↦ rw plain unblocked
          ]
    ]

    module _ (kept : user.deleted_at ≡ none)
        (verified : verify_password env password (some user.password_hash) ≡ true) where
      pass :
          login env email password (open_session d) ≡ login_as env user user.status (open_session d)
      unfolding login
      pass = ground arith

      unless_blocked-LoginOutcome :
          user.status ≡ UserStatus.active
          → (reason : Option (String × ℕ)) → gate user d ≡ reason
          → LoginOutcome
              (unless_blocked env user reason (open_session d)).0
              (unless_blocked env user reason (open_session d)).1
      unfolding issue_token_pair
      unless_blocked-LoginOutcome active none e =
          let may : MayLogIn env email password d = record {
            user = user;
            found = found;
            kept = kept;
            verified = verified;
            active = active;
            admitted = gate-none e;
          } in
          LoginOutcome.opened may _ refl refl refl
      unless_blocked-LoginOutcome active (some (code, company_id)) e =
          LoginOutcome.shut (λ m. let free = none-gate m in cc) (with_code forbidden code) refl refl
            refl

      login_as-LoginOutcome :
          (status : UserStatus)
          → user.status ≡ status
          → LoginOutcome
              (login_as env user status (open_session d)).0
              (login_as env user status (open_session d)).1
      login_as-LoginOutcome UserStatus.pending e =
          LoginOutcome.shut (λ m. let active = rw (same_user user m found) at m.active in cc)
            (with_code forbidden "email_not_verified") refl refl refl
      login_as-LoginOutcome UserStatus.suspended e =
          LoginOutcome.shut (λ m. let active = rw (same_user user m found) at m.active in cc)
            (with_code forbidden "account_suspended") refl refl refl
      login_as-LoginOutcome UserStatus.active e = unless_blocked-LoginOutcome e (gate user d) refl

  -- A login opens a session, with one new refresh token in the family drawn for it, exactly when the
  -- address names an account that is not deleted, the password is verified, the account is active,
  -- and it is a super admin's, or has no company, or has a company that is active and not deleted.
  -- Otherwise it raises an `AppError`, and no token is added and no account changed.
  pub login-LoginOutcome :
      LoginOutcome
        (login env email password (open_session d)).0
        (login env email password (open_session d)).1
  unfolding login
  login-LoginOutcome = elim (Option-cases (find_user (env.lower email) d)) [
    | inl missing ↦
        LoginOutcome.shut (λ m. let e = m.found in cc)
          (with_code unauthorized "invalid_credentials") (ground arith) (ground arith)
          (ground arith)
    | inr (user, found) ↦ elim (Option-cases user.deleted_at) [
      | inr (t, deleted) ↦
          LoginOutcome.shut (λ m. let kept = rw (same_user user m found) at m.kept in cc)
            (with_code unauthorized "invalid_credentials") (ground arith) (ground arith)
            (ground arith)
      | inl kept ↦ elim (Bool-cases (verify_password env password (some user.password_hash))) [
        | inr wrong ↦
            LoginOutcome.shut (λ m. let right = rw (same_user user m found) at m.verified in cc)
              (with_code unauthorized "invalid_credentials") (ground arith) (ground arith)
              (ground arith)
        | inl verified ↦
            let outcome = login_as-LoginOutcome user found kept verified user.status refl in
            rw (pass user found kept verified) outcome
      ]
    ]
  ]
