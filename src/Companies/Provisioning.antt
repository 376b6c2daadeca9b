-- ===== src/Companies/Provisioning.antt =====
-- app/modules/companies/provisioning.py: the account of an e-mail address, made on the spot if
-- there is none.
use aidigiplanner_backend.Base.{
  ℕ, false, str_eq, String, Option, none, some, ◌∷◌, if◌then◌else◌, is_none,
}
use aidigiplanner_backend.Model.{User, UserStatus}
use aidigiplanner_backend.Model.Session.{
  Action, ◌>>=◌, ◌>>◌, pure, raise, query, modify, bad_request, not_found,
}
use aidigiplanner_backend.Auth.Login.{find_user}

-- The clock, the keys of new rows, the generated password, Argon2 and `str.lower`.
pub record ProvisioningEnvironment : Type 0 where
  pub now : ℕ
  pub user_id : ℕ
  pub member_id : ℕ
  pub product_member_id : ℕ
  pub temporary_password : String
  pub hash_password : String → String
  pub lower : String → String

abbrev pub new_user : ProvisioningEnvironment → String → String → User
new_user env email full_name = record {
  id = env.user_id;
  email = email;
  password_hash = env.hash_password env.temporary_password;
  full_name = full_name;
  is_super_admin = false;
  status = UserStatus.active;
  email_verified_at = some env.now;
  last_login_at = none;
  token_version = 0;
  deleted_at = none;
}

-- `if not full_name`
abbrev pub given_name : Option String → Option String
given_name none = none
given_name (some name) = if str_eq name "" then none else some name

-- The account, and the temporary password if it is new.
abbrev pub Provisioned : Type 0
Provisioned = User × Option String

abbrev pub create_user : ProvisioningEnvironment → String → Option String → Action Provisioned
create_user env email none = raise bad_request
create_user env email (some name) = do
  modify (λ d. record d { users = new_user env email name ∷ d.users })
  pure (new_user env email name, some env.temporary_password)

unfoldable pub find_or_create_user_by_email :
    ProvisioningEnvironment → String → Option String → Action Provisioned
find_or_create_user_by_email env email full_name = do
  found ← query (find_user (env.lower email))
  elim found [
    | none ↦ create_user env (env.lower email) (given_name full_name)
    | some user ↦ if is_none user.deleted_at then pure (user, none) else raise not_found
  ]
