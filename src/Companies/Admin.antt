-- ===== src/Companies/Admin.antt =====
-- The decisions of a super admin on a company (app/modules/admin/service.py): approval, rejection,
-- suspension and deletion. `now` is what `utcnow` returns.
pub mod Recipients
pub mod Status
use aidigiplanner_backend.Base.{
  ℕ, Bool, not, ◌&&◌, ◌==◌, if◌then◌else◌, String, Option, none, some, List, [], ◌∷◌, ◌++◌, map,
  select,
}
use aidigiplanner_backend.Model.{
  Database, User, Company, CompanyMember, CompanyStatus, Email, company_status_code,
  is_company_admin_role,
}
use aidigiplanner_backend.Model.Session.{
  Action, ok, ◌>>=◌, ◌>>◌, pure, raise_if, query, or_raise, modify, commit, log, live, not_found,
  conflict,
}
use aidigiplanner_backend.Model.Queries.{get_company}
use aidigiplanner_backend.Companies.Onboarding.{put_company}

abbrev pub is_company_status : CompanyStatus → Company → Bool
is_company_status status c = company_status_code c.status == company_status_code status

-- The join of a company's admins with their accounts.
abbrev pub emails_of : ℕ → List CompanyMember → List User → List String
emails_of company_id [] users = []
emails_of company_id (m ∷ ms) users =
    let rest = emails_of company_id ms users in
    if m.company_id == company_id && is_company_admin_role m.role
    then map (λ u. u.email) (select (λ u. u.id == m.user_id) users) ++ rest
    else rest

unfoldable pub company_admin_emails : ℕ → Database → List String
company_admin_emails company_id d = emails_of company_id d.company_members d.users

-- The loop that mails each address.
abbrev pub deliver : List Email → List Email → List Email
deliver [] outbox = outbox
deliver (m ∷ ms) outbox = deliver ms (m ∷ outbox)

abbrev pub send_all : List Email → Action (Unit {0})
send_all ms s = (ok tt, record s { outbox = deliver ms s.outbox })

abbrev pub company_log : String → User → ℕ → Action (Unit {0})
company_log action actor company_id = log (record {
  action = action;
  actor_user_id = some actor.id;
  company_id = some company_id;
  product_id = none;
  resource_type = some "company";
  resource_id = some company_id;
})

abbrev pub get_company_row : ℕ → Action Company
get_company_row company_id = do
  found ← query (λ d. live (λ c. c.deleted_at) (get_company company_id d))
  or_raise found not_found

unfoldable pub approve_company : ℕ → User → ℕ → Action Company
approve_company company_id actor now = do
  company ← get_company_row company_id
  raise_if (is_company_status CompanyStatus.active company) conflict
  let c = record company {
    status = CompanyStatus.active;
    approved_by = some actor.id;
    approved_at = some now;
    rejected_at = none;
    rejection_reason = none;
  }
  modify (put_company c)
  company_log "company.approved" actor company_id
  commit
  emails ← query (company_admin_emails company_id)
  send_all (map (λ e. Email.company_approved e c.name) emails)
  pure c

unfoldable pub reject_company : ℕ → User → String → ℕ → Action Company
reject_company company_id actor reason now = do
  company ← get_company_row company_id
  raise_if (not (is_company_status CompanyStatus.pending_approval company)) conflict
  let c = record company {
    status = CompanyStatus.rejected;
    rejected_at = some now;
    rejection_reason = some reason;
  }
  modify (put_company c)
  company_log "company.rejected" actor company_id
  commit
  emails ← query (company_admin_emails company_id)
  send_all (map (λ e. Email.company_rejected e c.name reason) emails)
  pure c

unfoldable pub suspend_company : ℕ → User → String → Action Company
suspend_company company_id actor reason = do
  company ← get_company_row company_id
  raise_if (is_company_status CompanyStatus.suspended company) conflict
  let c = record company { status = CompanyStatus.suspended }
  modify (put_company c)
  company_log "company.suspended" actor company_id
  commit
  emails ← query (company_admin_emails company_id)
  send_all (map (λ e. Email.company_suspended e c.name reason) emails)
  pure c

unfoldable pub delete_company : ℕ → User → ℕ → Action (Unit {0})
delete_company company_id actor now = do
  company ← get_company_row company_id
  emails ← query (company_admin_emails company_id)
  modify (put_company (record company { deleted_at = some now }))
  company_log "company.deleted" actor company_id
  commit
  send_all (map (λ e. Email.company_deleted e company.name) emails)
