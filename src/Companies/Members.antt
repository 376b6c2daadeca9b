-- ===== src/Companies/Members.antt =====
-- `CompanyMemberService` of app/modules/companies/service.py: who belongs to a company.
pub mod Admins
pub mod Gaps
use aidigiplanner_backend.Base.{
  ℕ, Bool, true, false, not, ◌&&◌, ◌||◌, ◌==◌, String, Option, none, some, ◌∷◌, if◌then◌else◌,
  is_none, is_some, first, update, count, remove, merge,
}
use aidigiplanner_backend.Model.{
  Database, User, Company, CompanyMember, CompanyRole, CompanyMemberStatus, Email,
  is_company_admin_role,
}
use aidigiplanner_backend.Model.Session.{
  Action, ◌>>=◌, ◌>>◌, pure, raise_if, query, or_raise, or_crash, modify, commit, log, send,
  conflict, not_found,
}
use aidigiplanner_backend.Model.Queries.{get_user, get_company, company_membership}
use aidigiplanner_backend.Companies.Provisioning.{
  ProvisioningEnvironment, Provisioned, find_or_create_user_by_email,
}

-- The admins of a company, apart from one row. The status of a membership is not looked at.
abbrev pub is_admin_of : ℕ → CompanyMember → Bool
is_admin_of company_id m = m.company_id == company_id && is_company_admin_role m.role

unfoldable pub active_admin_count : ℕ → ℕ → Database → ℕ
active_admin_count company_id excluding_member_id d =
    count (λ m. is_admin_of company_id m && not (m.id == excluding_member_id)) d.company_members

unfoldable pub find_member : ℕ → ℕ → Database → Option CompanyMember
find_member company_id member_id d =
    first (λ m. m.id == member_id && m.company_id == company_id) d.company_members

-- The key of a new row is drawn when the row is flushed, so it is not there yet when `add_member` logs.
abbrev pub member_log : String → User → ℕ → Option ℕ → Action (Unit {0})
member_log action actor company_id member_id = log (record {
  action = action;
  actor_user_id = some actor.id;
  company_id = some company_id;
  product_id = none;
  resource_type = some "company_member";
  resource_id = member_id;
})

-- The mail with the temporary password of a new account.
abbrev pub send_credentials : ℕ → Provisioned → Action (Unit {0})
send_credentials company_id (user, none) = pure tt
send_credentials company_id (user, some password) = do
  company ← query (get_company company_id)
  send (Email.new_member_credentials user.email password)

abbrev pub new_member : ProvisioningEnvironment → ℕ → ℕ → CompanyRole → User → CompanyMember
new_member env company_id user_id role actor = record {
  id = env.member_id;
  company_id = company_id;
  user_id = user_id;
  role = role;
  status = CompanyMemberStatus.active;
  invited_by = some actor.id;
  joined_at = some env.now;
}

-- Only an account that was there before can be a member already.
abbrev pub is_duplicate : ℕ → Provisioned → Database → Bool
is_duplicate company_id (user, password) d =
    is_none password && is_some (company_membership company_id user.id d)

-- The rest of `add_member`, with the account.
abbrev pub add_provisioned :
    ProvisioningEnvironment → ℕ → User → CompanyRole → Provisioned → Action CompanyMember
add_provisioned env company_id actor role target = do
  duplicate ← query (is_duplicate company_id target)
  raise_if duplicate conflict
  let member = new_member env company_id target.0.id role actor
  modify (λ d. record d { company_members = member ∷ d.company_members })
  member_log "company_member.added" actor company_id none
  commit
  send_credentials company_id target
  pure member

unfoldable pub add_member :
    ProvisioningEnvironment → ℕ → User → String → Option String → CompanyRole → Action CompanyMember
add_member env company_id actor email full_name role =
    find_or_create_user_by_email env email full_name >>= add_provisioned env company_id actor role

-- `payload.role is not None and payload.role != CompanyRole.company_admin`
abbrev pub is_demotion : Option CompanyRole → Bool
is_demotion none = false
is_demotion (some role) = not (is_company_admin_role role)

abbrev pub put_member : CompanyMember → Database → Database
put_member m d = record d {
  company_members = update (λ r. r.id == m.id) (λ _. m) d.company_members;
}

unfoldable pub update_member :
    ℕ → ℕ → User → Option CompanyRole → Option CompanyMemberStatus → Action CompanyMember
update_member company_id member_id actor role status = do
  member ← or_raise (← query (find_member company_id member_id)) not_found
  others ← query (active_admin_count company_id member.id)
  raise_if (is_company_admin_role member.role && is_demotion role && others == 0) conflict
  let m = record member { role = merge role member.role; status = merge status member.status }
  modify (put_member m)
  or_crash (← query (get_user member.user_id))
  member_log "company_member.updated" actor company_id (some member.id)
  commit
  pure m

unfoldable pub remove_member : ℕ → ℕ → User → Action (Unit {0})
remove_member company_id member_id actor = do
  member ← or_raise (← query (find_member company_id member_id)) not_found
  others ← query (active_admin_count company_id member.id)
  raise_if (is_company_admin_role member.role && others == 0) conflict
  modify (λ d. record d { company_members = remove (λ r. r.id == member.id) d.company_members })
  member_log "company_member.removed" actor company_id (some member_id)
  commit
