-- ===== src/Companies/Admin/Status.antt =====
-- The status machine of a company under the decisions of app/modules/admin/service.py.
use mathlib.Core.List.{Memᴰ, reverse_aux}
use aidigiplanner_backend.Base.{
  ℕ, ◌≡◌, ◌≢◌, refl, true, ◌==◌, String, Option, none, some, List, [], ◌∷◌, All, All-first,
  All-update, is_none, is_some, update, arith, Bool-cases, Option-cases, inl, inr, map, ◌↔◌, ◌∙◌,
}
use aidigiplanner_backend.Model.{Database, User, Company, CompanyStatus, Email, company_status_code}
use aidigiplanner_backend.Model.Session.{Session, open_session, live}
use aidigiplanner_backend.Model.Queries.{get_company}
use aidigiplanner_backend.Companies.Admin.{
  approve_company, reject_company, suspend_company, delete_company, company_admin_emails, deliver,
  is_company_status,
}
use aidigiplanner_backend.Companies.Admin.Recipients.{
  IsRecipient, company_admin_emails_iff, delivered,
}

pub data Decision : Type 0 where
  approve delete : Decision
  reject suspend : String → Decision

-- A decision, on which company, by whom and when.
pub record DecisionRequest : Type 0 where
  pub decision : Decision
  pub company_id : ℕ
  pub actor : User
  pub now : ℕ

abbrev pub decide : Decision → ℕ → User → ℕ → Session → Session
decide Decision.approve id actor now s = (approve_company id actor now s).1
decide (Decision.reject reason) id actor now s = (reject_company id actor reason now s).1
decide (Decision.suspend reason) id actor now s = (suspend_company id actor reason s).1
decide Decision.delete id actor now s = (delete_company id actor now s).1

-- The steps of a company under a decision, with the mail that each of its admins gets.
pub data StatusEdge (actor : User) (now : ℕ) (before after : Company)
    : Decision → (String → Email) → Type 0 where
  approved :
      before.status ≢ CompanyStatus.active
      → after.status ≡ CompanyStatus.active
      → after.approved_by ≡ some actor.id
      → after.approved_at ≡ some now
      → after.rejected_at ≡ none
      → StatusEdge actor now before after Decision.approve
          (λ e. Email.company_approved e before.name)
  rejected :
      {reason : String}
      → before.status ≡ CompanyStatus.pending_approval
      → after.status ≡ CompanyStatus.rejected
      → after.rejection_reason ≡ some reason
      → StatusEdge actor now before after
          (Decision.reject reason)
          (λ e. Email.company_rejected e before.name reason)
  suspended :
      {reason : String}
      → before.status ≢ CompanyStatus.suspended
      → after.status ≡ CompanyStatus.suspended
      → StatusEdge actor now before after
          (Decision.suspend reason)
          (λ e. Email.company_suspended e before.name reason)
  deleted :
      after ≡ record before { deleted_at = some now }
      → StatusEdge actor now before after Decision.delete (λ e. Email.company_deleted e before.name)

-- The companies for which a decision comes at the wrong time.
abbrev pub Refuses : Decision → Company → Type 0
Refuses Decision.approve c = c.status ≡ CompanyStatus.active
Refuses (Decision.reject reason) c = c.status ≢ CompanyStatus.pending_approval
Refuses (Decision.suspend reason) c = c.status ≡ CompanyStatus.suspended
Refuses Decision.delete c = ⊥

is_active :
    (status : CompanyStatus)
    → (company_status_code status == company_status_code CompanyStatus.active) ≡ true
    → status ≡ CompanyStatus.active
is_active CompanyStatus.active h = refl
is_active CompanyStatus.pending_approval h = ground arith
is_active CompanyStatus.rejected h = ground arith
is_active CompanyStatus.suspended h = ground arith

is_suspended :
    (status : CompanyStatus)
    → (company_status_code status == company_status_code CompanyStatus.suspended) ≡ true
    → status ≡ CompanyStatus.suspended
is_suspended CompanyStatus.suspended h = refl
is_suspended CompanyStatus.active h = ground arith
is_suspended CompanyStatus.pending_approval h = ground arith
is_suspended CompanyStatus.rejected h = ground arith

is_pending :
    (status : CompanyStatus)
    → (company_status_code status == company_status_code CompanyStatus.pending_approval) ≡ true
    → status ≡ CompanyStatus.pending_approval
is_pending CompanyStatus.pending_approval h = refl
is_pending CompanyStatus.active h = ground arith
is_pending CompanyStatus.rejected h = ground arith
is_pending CompanyStatus.suspended h = ground arith

module _ (id : ℕ) (actor : User) (now : ℕ) (d : Database) where
  pub data CompanyChange (o : Decision) (s : Session) : Type 0 where
    untouched :
        ((c : Company) → live (λ x. x.deleted_at) (get_company id d) ≡ some c → Refuses o c)
        → s ≡ open_session d
        → CompanyChange o s
    wrote :
        (c c' : Company) (mail : String → Email) (recipients : List String)
        → live (λ x. x.deleted_at) (get_company id d) ≡ some c
        → c'.id ≡ c.id
        → StatusEdge actor now c c' o mail
        → s.committed.companies ≡ update (λ x. x.id == c'.id) (λ _. c') d.companies
        → ((e : String) → Memᴰ e recipients ↔ IsRecipient id d.company_members d.users e)
        → s.outbox ≡ reverse_aux (map mail recipients) []
        → CompanyChange o s

  -- The mail goes to the admins of the company.
  mailed :
      {o : Decision} {s : Session} (c c' : Company) (mail : String → Email)
      → live (λ x. x.deleted_at) (get_company id d) ≡ some c
      → c'.id ≡ c.id
      → StatusEdge actor now c c' o mail
      → s.committed.companies ≡ update (λ x. x.id == c'.id) (λ _. c') d.companies
      → s.outbox ≡ deliver (map mail (company_admin_emails id d)) []
      → CompanyChange o s
  mailed c c' mail found key edge written out =
      CompanyChange.wrote c c' mail (company_admin_emails id d) found key edge written
        (company_admin_emails_iff id d) (out ∙ delivered (map mail (company_admin_emails id d)))

  approve-CompanyChange :
      CompanyChange Decision.approve (approve_company id actor now (open_session d)).1
  unfolding approve_company company_admin_emails
  approve-CompanyChange = elim (Option-cases (live (λ c. c.deleted_at) (get_company id d))) [
    | inl missing ↦ CompanyChange.untouched (λ x found. absurd (cc)) (ground arith)
    | inr (c, found) ↦ elim (Bool-cases (is_company_status CompanyStatus.active c)) [
      | inl already ↦
          CompanyChange.untouched (λ x there. is_active x.status (ground arith)) (ground arith)
      | inr other ↦
          mailed c
            (record c {
              status = CompanyStatus.active;
              approved_by = some actor.id;
              approved_at = some now;
              rejected_at = none;
              rejection_reason = none;
            })
            (λ e. Email.company_approved e c.name) found refl
            (StatusEdge.approved (λ e. ground arith) refl refl refl refl) (ground arith)
            (ground arith)
    ]
  ]

  reject-CompanyChange :
      (reason : String)
      → CompanyChange
          (Decision.reject reason)
          (reject_company id actor reason now (open_session d)).1
  unfolding reject_company company_admin_emails
  reject-CompanyChange reason = elim (Option-cases (live (λ c. c.deleted_at) (get_company id d))) [
    | inl missing ↦ CompanyChange.untouched (λ x found. absurd (cc)) (ground arith)
    | inr (c, found) ↦ elim (Bool-cases (is_company_status CompanyStatus.pending_approval c)) [
      | inr other ↦ CompanyChange.untouched (λ x there e. ground arith) (ground arith)
      | inl pending ↦
          mailed c
            (record c {
              status = CompanyStatus.rejected;
              rejected_at = some now;
              rejection_reason = some reason;
            })
            (λ e. Email.company_rejected e c.name reason) found refl
            (StatusEdge.rejected (is_pending c.status (ground arith)) refl refl) (ground arith)
            (ground arith)
    ]
  ]

  suspend-CompanyChange :
      (reason : String)
      → CompanyChange (Decision.suspend reason) (suspend_company id actor reason (open_session d)).1
  unfolding suspend_company company_admin_emails
  suspend-CompanyChange reason = elim (Option-cases (live (λ c. c.deleted_at) (get_company id d))) [
    | inl missing ↦ CompanyChange.untouched (λ x found. absurd (cc)) (ground arith)
    | inr (c, found) ↦ elim (Bool-cases (is_company_status CompanyStatus.suspended c)) [
      | inl already ↦
          CompanyChange.untouched (λ x there. is_suspended x.status (ground arith)) (ground arith)
      | inr other ↦
          mailed c (record c { status = CompanyStatus.suspended })
            (λ e. Email.company_suspended e c.name reason) found refl
            (StatusEdge.suspended (λ e. ground arith) refl) (ground arith) (ground arith)
    ]
  ]

  delete-CompanyChange :
      CompanyChange Decision.delete (delete_company id actor now (open_session d)).1
  unfolding delete_company company_admin_emails
  delete-CompanyChange = elim (Option-cases (live (λ c. c.deleted_at) (get_company id d))) [
    | inl missing ↦ CompanyChange.untouched (λ x found. absurd (cc)) (ground arith)
    | inr (c, found) ↦
        mailed c (record c { deleted_at = some now }) (λ e. Email.company_deleted e c.name) found
          refl (StatusEdge.deleted refl) (ground arith) (ground arith)
  ]

  -- A decision of a super admin is refused and changes nothing, or moves one company that is not
  -- deleted along the edge of that decision: approval to active from another status, rejection to
  -- rejected from pending approval, suspension to suspended from another status, and deletion to
  -- deleted with all else kept. It is refused only for a company that is missing, or that has the
  -- wrong status. Exactly the addresses of the accounts that the company has as admins get the mail.
  pub decide-CompanyChange :
      (o : Decision) → CompanyChange o (decide o id actor now (open_session d))
  decide-CompanyChange Decision.approve = approve-CompanyChange
  decide-CompanyChange (Decision.reject reason) = reject-CompanyChange reason
  decide-CompanyChange (Decision.suspend reason) = suspend-CompanyChange reason
  decide-CompanyChange Decision.delete = delete-CompanyChange

unfoldable pub decide_all : List DecisionRequest → Database → Database
decide_all [] d = d
decide_all (r ∷ rs) d =
    decide_all rs (decide r.decision r.company_id r.actor r.now (open_session d)).committed

-- An active company has its approval on record, and no rejection.
abbrev pub ApprovedRow : Company → Type 0
ApprovedRow c =
    c.status ≡ CompanyStatus.active
    → (is_some c.approved_by ≡ true) × (is_some c.approved_at ≡ true) × (c.rejected_at ≡ none)

abbrev pub IsApproved : Database → Type 0
IsApproved d = All ApprovedRow d.companies

ApprovedRow-StatusEdge :
    {actor : User} {now : ℕ} (c c' : Company) {o : Decision} {mail : String → Email}
    → ApprovedRow c
    → StatusEdge actor now c c' o mail
    → ApprovedRow c'
ApprovedRow-StatusEdge c c' h (StatusEdge.approved other to by at clear) =
    λ e. (ground arith, ground arith, clear)
ApprovedRow-StatusEdge c c' h (StatusEdge.rejected from to why) = λ e. cc
ApprovedRow-StatusEdge c c' h (StatusEdge.suspended other to) = λ e. cc
ApprovedRow-StatusEdge c c' h (StatusEdge.deleted same) = rw same h

live_row : (o : Option Company) {c : Company} → live (λ x. x.deleted_at) o ≡ some c → o ≡ some c
live_row none h = cc
live_row (some x) {c} h = elim (Bool-cases (is_none x.deleted_at)) [
  | inl kept ↦ ground arith
  | inr dropped ↦ ground arith
]

IsApproved-CompanyChange :
    (id : ℕ) (actor : User) (now : ℕ) (d : Database) (o : Decision) (s : Session)
    → IsApproved d
    → CompanyChange id actor now d o s
    → IsApproved s.committed
unfolding get_company
IsApproved-CompanyChange id actor now d o s h (CompanyChange.untouched why e) = rw e h
IsApproved-CompanyChange id actor now d o s h
      (CompanyChange.wrote c c' mail recipients found key edge e to out) =
    let before : ApprovedRow c =
      All-first ApprovedRow (λ x. x.id == id) d.companies h (live_row (get_company id d) found) in
    rw e (
      All-update ApprovedRow (λ x. x.id == c'.id) (λ _. c') d.companies
        (λ x hit p. ApprovedRow-StatusEdge c c' before edge) h)

-- Over every sequence of decisions on companies, each active company has on record who approved it
-- and when, and no rejection, if that was so before.
pub decide_all-IsApproved :
    (rs : List DecisionRequest) (d : Database) → IsApproved d → IsApproved (decide_all rs d)
unfolding decide_all
decide_all-IsApproved [] d h = h
decide_all-IsApproved (r ∷ rs) d h = decide_all-IsApproved rs _ (
    IsApproved-CompanyChange r.company_id r.actor r.now d r.decision
      (decide r.decision r.company_id r.actor r.now (open_session d)) h
      (decide-CompanyChange r.company_id r.actor r.now d r.decision))
