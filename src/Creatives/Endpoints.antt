-- ===== src/Creatives/Endpoints.antt =====
-- The routes of app/modules/creatives/router.py that approve content: an access check by role in
-- front of the service's own check of the approval policy.
use aidigiplanner_backend.Base.{ℕ, false, ◌≡◌, inl, none, some, [], ◌∷◌, arith}
use aidigiplanner_backend.Model.{
  User, Product, ProductMember, ProductRole, CreativeConcept, ContentApprovalPolicy,
}
use aidigiplanner_backend.Model.Session.{Action, Session, ◌>>◌, err, app, forbidden}
use aidigiplanner_backend.Model.Queries.{get_product, company_membership, product_membership}
use aidigiplanner_backend.Core.Access.{require_product_access, administers}
use aidigiplanner_backend.Creatives.Lifecycle.{
  approve_concept, approve_and_publish_concept, product_role,
}
use aidigiplanner_backend.Creatives.Lifecycle.Policy.{Authority}

-- `POST …/concepts/{id}/approve`
unfoldable pub approve_creative_concept : ℕ → ℕ → User → ℕ → Action CreativeConcept
approve_creative_concept product_id concept_id user now = do
  require_product_access (ProductRole.product_manager ∷ ProductRole.creator ∷ []) product_id user
  approve_concept product_id concept_id user now

-- `POST …/concepts/{id}/approve-and-publish`
unfoldable pub approve_and_publish_creative_concept : ℕ → ℕ → User → ℕ → Action CreativeConcept
approve_and_publish_creative_concept product_id concept_id user now = do
  require_product_access (ProductRole.product_manager ∷ ProductRole.creator ∷ []) product_id user
  approve_and_publish_concept product_id concept_id user now

-- A member with the role approver, whom the policy one_approver gives the authority to approve, is
-- answered 403 by the routes that approve, with nothing changed: the access check in front of the
-- service lists only product managers and creators.
pub approver_shut_out :
    (concept_id now : ℕ) (user : User) (p : Product) (m : ProductMember) (s : Session)
    → get_product p.id s.db ≡ some p
    → p.deleted_at ≡ none
    → p.approval_policy ≡ ContentApprovalPolicy.one_approver
    → user.is_super_admin ≡ false
    → administers (company_membership p.company_id user.id s.db) ≡ false
    → product_membership p.id user.id s.db ≡ some m
    → m.role ≡ ProductRole.approver
    → Authority p user s.db
      × (approve_creative_concept p.id concept_id user now s ≡ (err (app forbidden), s))
      × (approve_and_publish_creative_concept p.id concept_id user now s ≡ (err (app forbidden), s))
unfolding approve_creative_concept approve_and_publish_creative_concept require_product_access
    product_role
approver_shut_out concept_id now user p m s found there policy plain other member role =
    (Authority.by_approver m policy (ground arith) (inl (ground arith)), ground arith, ground arith)
