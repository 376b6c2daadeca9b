-- ===== src/Auth/Login.antt =====
-- `login` of app/modules/auth/service.py: who gets a session.
pub mod Gate
use aidigiplanner_backend.Base.{
  ℕ, Bool, not, ◌&&◌, ◌||◌, ◌==◌, str_eq, String, Option, none, some, List, [], ◌∷◌, if◌then◌else◌,
  is_none, first, select, any,
}
use aidigiplanner_backend.Model.{
  Database, User, UserStatus, Company, CompanyMember, CompanyStatus, is_user_status,
  is_company_admin_role, company_status_code,
}
use aidigiplanner_backend.Model.Session.{
  Action, ◌>>=◌, ◌>>◌, pure, raise, query, modify, commit, log, unauthorized, forbidden, with_code,
}
use aidigiplanner_backend.Auth.Tokens.{
  TokenEnvironment, TokenPair, issue_token_pair, put_user, verify_password,
}

abbrev pub audit : String → Option ℕ → Option ℕ → Action (Unit {0})
audit action user_id company_id = log (record {
  action = action;
  actor_user_id = user_id;
  company_id = company_id;
  product_id = none;
  resource_type = none;
  resource_id = none;
})

-- The join of a user's memberships with their companies, the newest company first.
unfoldable pub companies_of : ℕ → Database → List Company
companies_of user_id d =
    select (λ c. any (λ m. m.company_id == c.id && m.user_id == user_id) d.company_members)
      d.companies

abbrev pub is_active_company : Company → Bool
is_active_company c = company_status_code c.status == company_status_code CompanyStatus.active

-- The code and the company of the reason.
abbrev pub reason_of : Company → String × ℕ
reason_of c = if not (is_none c.deleted_at) then ("company_deleted", c.id) else elim c.status [
  | CompanyStatus.pending_approval ↦ ("company_pending_approval", c.id)
  | CompanyStatus.rejected ↦ ("company_rejected", c.id)
  | _ ↦ ("company_suspended", c.id)
]

abbrev pub blocking_reason : List Company → Option (String × ℕ)
blocking_reason [] = none
blocking_reason (c ∷ cs) =
    if any (λ k. is_active_company k && is_none k.deleted_at) (c ∷ cs)
    then none
    else some (reason_of c)

unfoldable pub blocking_company_status_reason : ℕ → Database → Option (String × ℕ)
blocking_company_status_reason user_id d = blocking_reason (companies_of user_id d)

-- The membership in the newest active company.
abbrev pub login_membership : List Company → ℕ → List CompanyMember → Option CompanyMember
login_membership [] user_id members = none
login_membership (c ∷ cs) user_id members =
    let rest = login_membership cs user_id members in
    if is_active_company c
    then (elim (first (λ m. m.company_id == c.id && m.user_id == user_id) members) [
      | none ↦ rest
      | some m ↦ some m
    ])
    else rest

-- `company_id`, `member_id` and the company for the audit log.
unfoldable pub company_login_context : ℕ → Database → Option ℕ × Option ℕ × Option ℕ
company_login_context user_id d = elim (login_membership d.companies user_id d.company_members) [
  | none ↦ (none, none, none)
  | some m ↦
      if is_company_admin_role m.role
      then (some m.company_id, none, some m.company_id)
      else (none, some m.id, some m.company_id)
]

-- The response of a login.
pub record LoginResponse : Type 0 where
  pub tokens : TokenPair
  pub company_id : Option ℕ
  pub member_id : Option ℕ

-- A refused login is logged, and the log is kept.
abbrev blocked : User → Option ℕ → String → Action LoginResponse
blocked user company_id code = do
  audit "auth.login.blocked" (some user.id) company_id
  commit
  raise (with_code forbidden code)

-- The session of a user whom the gates have let through.
abbrev pub open_user_session : TokenEnvironment → User → Action LoginResponse
open_user_session env user = do
  modify (put_user (record user { last_login_at = some env.now }))
  tokens ← issue_token_pair env user
  (company_id, member_id, audit_company_id) ←
      query
        (λ d. if user.is_super_admin then (none, none, none) else company_login_context user.id d)
  audit "auth.login.success" (some user.id) audit_company_id
  commit
  pure (record { tokens = tokens; company_id = company_id; member_id = member_id })

-- `if blocking_reason is not None`
abbrev pub unless_blocked : TokenEnvironment → User → Option (String × ℕ) → Action LoginResponse
unless_blocked env user none = open_user_session env user
unless_blocked env user (some (code, company_id)) = blocked user (some company_id) code

-- No company blocks a super admin.
unfoldable pub gate : User → Database → Option (String × ℕ)
gate user d = if user.is_super_admin then none else blocking_company_status_reason user.id d

abbrev pub login_as : TokenEnvironment → User → UserStatus → Action LoginResponse
login_as env user UserStatus.pending = blocked user none "email_not_verified"
login_as env user UserStatus.suspended = blocked user none "account_suspended"
login_as env user UserStatus.active = do reason ← query (gate user); unless_blocked env user reason

abbrev pub invalid_credentials : Option ℕ → Action LoginResponse
invalid_credentials user_id = do
  audit "auth.login.failure" user_id none
  commit
  raise (with_code unauthorized "invalid_credentials")

unfoldable pub find_user : String → Database → Option User
find_user email d = first (λ u. str_eq u.email email) d.users

unfoldable pub login : TokenEnvironment → String → String → Action LoginResponse
login env email password = do
  found ← query (find_user (env.lower email))
  elim found [
    | none ↦ invalid_credentials none
    | some user ↦
        if not (is_none user.deleted_at)
          || not (verify_password env password (some user.password_hash))
        then invalid_credentials (some user.id)
        else login_as env user user.status
  ]
