-- ===== src/Companies/Tests.antt =====
-- The theorems on companies at the sample database.
use aidigiplanner_backend.Base.{◌≡◌, refl, inl, arith, List, [], ◌∷◌, some, true}
use aidigiplanner_backend.Model.{Database, User, Company, CompanyStatus, Email}
use aidigiplanner_backend.Model.Session.{open_session}
use aidigiplanner_backend.Model.Queries.{get_company}
use aidigiplanner_backend.Companies.Admin.{approve_company, company_admin_emails}
use aidigiplanner_backend.Companies.Admin.Status.{
  Decision, DecisionRequest, CompanyChange, IsApproved, decide, decide_all, decide-CompanyChange,
  decide_all-IsApproved,
}
use aidigiplanner_backend.Model.{CompanyMember, CompanyRole, CompanyMemberStatus, ProductRole}
use aidigiplanner_backend.Model.Session.{ok}
use aidigiplanner_backend.Model.Queries.{
  get_user, get_product, company_membership, product_membership,
}
use aidigiplanner_backend.Core.Access.{require_product_access}
use aidigiplanner_backend.Core.Access.Grants.{Passes}
use aidigiplanner_backend.Base.{String, none, count}
use aidigiplanner_backend.Auth.Login.{find_user}
use aidigiplanner_backend.Companies.Provisioning.{
  ProvisioningEnvironment, find_or_create_user_by_email,
}
use aidigiplanner_backend.Companies.Members.{
  add_member, update_member, remove_member, find_member, active_admin_count,
}
use aidigiplanner_backend.Companies.Members.Admins.{
  MemberOperation, MemberRequest, IsAdministered, DrawsUnused, serve_members,
  serve_members-IsAdministered,
}
use aidigiplanner_backend.Companies.Members.Gaps.{
  is_active_admin_of, removed_member_keeps_access, last_admin_suspended,
}
use aidigiplanner_backend.Model.{CompanyBrandStructure}
use aidigiplanner_backend.Companies.Onboarding.Progress.{progress, Forward}
use aidigiplanner_backend.Companies.Setup.Progress.{
  SetupOperation, SetupRequest, serve_setup, serve_setup-Forward,
}
use aidigiplanner_backend.Samples.{database, acme, admin, admin_row, manager, product, product_row}

acme_there : get_company 1 database ≡ some acme
unfolding get_company
acme_there = refl

abbrev applicant : Company
applicant = record acme { status = CompanyStatus.pending_approval }

abbrev applied : Database
applied = record database { companies = applicant ∷ [] }

abbrev super : User
super = record admin { id = 99; is_super_admin = true }

decide-CompanyChange_example :
    CompanyChange 1 super 7 applied Decision.approve
      (decide Decision.approve 1 super 7 (open_session applied))
decide-CompanyChange_example = decide-CompanyChange 1 super 7 applied Decision.approve

abbrev decisions : List DecisionRequest
decisions =
    record { decision = Decision.reject "incomplete"; company_id = 1; actor = super; now = 7 }
    ∷ record { decision = Decision.approve; company_id = 1; actor = super; now = 8 }
    ∷ []

unapproved : IsApproved applied
unapproved = (λ e. absurd (cc), tt)

decide_all-IsApproved_example : IsApproved (decide_all decisions applied)
decide_all-IsApproved_example = decide_all-IsApproved decisions applied unapproved

-- The one admin of the company is told of the approval.
told :
    (decide Decision.approve 1 super 7 (open_session applied)).outbox
    ≡ Email.company_approved "admin@acme.in" "Acme" ∷ []
unfolding approve_company company_admin_emails get_company
told = refl

abbrev same_text : String → String
same_text s = s

abbrev provisioning : ProvisioningEnvironment
provisioning = record {
  now = 7;
  user_id = 60;
  member_id = 61;
  product_member_id = 62;
  temporary_password = "t";
  hash_password = same_text;
  lower = same_text;
}

abbrev member_requests : List MemberRequest
member_requests =
    record {
      env = provisioning;
      company_id = 1;
      actor = admin;
      operation = MemberOperation.post_member "manager@acme.in" none CompanyRole.member;
    }
    ∷ record {
      env = record provisioning { member_id = 63 };
      company_id = 1;
      actor = admin;
      operation = MemberOperation.delete_member 1;
    }
    ∷ []

administered : IsAdministered 1 database
administered = ((tt, tt), omega arith)

member_draws : DrawsUnused member_requests database
unfolding add_member find_or_create_user_by_email find_user company_membership
member_draws = ((refl, tt), ((refl, (refl, tt)), tt))

serve_members-IsAdministered_example : IsAdministered 1 (serve_members member_requests database)
serve_members-IsAdministered_example =
    serve_members-IsAdministered 1 member_requests database member_draws administered

abbrev manager_row : CompanyMember
manager_row = record admin_row { id = 2; user_id = 2; role = CompanyRole.member }

abbrev joined : Database
joined = record database { company_members = manager_row ∷ admin_row ∷ [] }

found_manager : find_member 1 2 joined ≡ some manager_row
unfolding find_member
found_manager = refl

found_product : get_product 10 joined ≡ some product
unfolding get_product
found_product = refl

found_row : product_membership 10 2 joined ≡ some (product_row 1 2 ProductRole.product_manager)
unfolding product_membership
found_row = refl

removed_member_keeps_access_example :
    ((remove_member 1 2 admin (open_session joined)).0 ≡ ok tt)
    × Passes (
        require_product_access [] 10 manager
          (open_session (remove_member 1 2 admin (open_session joined)).1.committed))
removed_member_keeps_access_example =
    removed_member_keeps_access 1 2 admin manager joined manager_row product
      (product_row 1 2 ProductRole.product_manager) [] found_manager refl refl found_product refl
      found_row (inl refl)

found_admin_row : find_member 1 1 database ≡ some admin_row
unfolding find_member
found_admin_row = refl

found_admin : get_user 1 database ≡ some admin
unfolding get_user
found_admin = refl

no_other_admin : active_admin_count 1 1 database ≡ 0
unfolding active_admin_count
no_other_admin = refl

last_admin_suspended_example :
    count
      (is_active_admin_of 1)
      (update_member 1 1 admin none
        (some CompanyMemberStatus.suspended)
        (open_session database)).1.committed.company_members
    ≡ 0
last_admin_suspended_example =
    last_admin_suspended 1 1 admin admin database admin_row (tt, tt) found_admin_row found_admin
      refl no_other_admin

abbrev setup_requests : List SetupRequest
setup_requests =
    record {
      company_id = 1;
      actor = admin;
      operation = SetupOperation.choose_structure CompanyBrandStructure.multi_brand;
    }
    ∷ record {
      company_id = 1;
      actor = admin;
      operation = SetupOperation.set_group_logo "1" (some tt) "image/png";
    }
    ∷ record { company_id = 1; actor = admin; operation = SetupOperation.set_group_profile none }
    ∷ record { company_id = 1; actor = admin; operation = SetupOperation.finish }
    ∷ []

serve_setup-Forward_example :
    Forward (progress 1 database) (progress 1 (serve_setup setup_requests database))
serve_setup-Forward_example = serve_setup-Forward setup_requests database 1
