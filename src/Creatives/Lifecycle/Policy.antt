-- ===== src/Creatives/Lifecycle/Policy.antt =====
-- Who may approve content, against the four approval policies of a product.
use aidigiplanner_backend.Base.{
  true, false, ◌≡◌, refl, ◌⊎◌, inl, inr, Option, none, some, arith, Bool-cases, Option-cases,
}
use aidigiplanner_backend.Model.{
  Database, User, Product, ProductMember, ProductRole, CompanyMember, CompanyRole,
  ContentApprovalPolicy,
}
use aidigiplanner_backend.Model.Session.{Session, ok, err, app, forbidden}
use aidigiplanner_backend.Model.Queries.{company_membership, product_membership}
use aidigiplanner_backend.Core.Access.Grants.{administers_row}
use aidigiplanner_backend.Creatives.Lifecycle.{
  is_company_admin, product_role, require_approval_authority,
}

-- What gives the right to approve, reject or publish directly, read off the rows.
pub data Authority (product : Product) (actor : User) (d : Database) : Type 0 where
  by_super_admin : actor.is_super_admin ≡ true → Authority product actor d
  by_company_admin :
      (m : CompanyMember)
      → company_membership product.company_id actor.id d ≡ some m
      → m.role ≡ CompanyRole.company_admin
      → Authority product actor d
  by_anyone :
      product.approval_policy ≡ ContentApprovalPolicy.no_approval → Authority product actor d
  by_manager :
      (m : ProductMember)
      → product.approval_policy ≡ ContentApprovalPolicy.product_manager_approval
      → product_membership product.id actor.id d ≡ some m
      → m.role ≡ ProductRole.product_manager
      → Authority product actor d
  by_approver :
      (m : ProductMember)
      → product.approval_policy ≡ ContentApprovalPolicy.one_approver
      → product_membership product.id actor.id d ≡ some m
      → (m.role ≡ ProductRole.approver) ⊎ (m.role ≡ ProductRole.product_manager)
      → Authority product actor d

module _ (product : Product) (actor : User) (d : Database) where
  pub Authority-admin :
      is_company_admin product.company_id actor d ≡ true → Authority product actor d
  unfolding is_company_admin
  Authority-admin h = elim (Bool-cases actor.is_super_admin) [
    | inl super ↦ Authority.by_super_admin super
    | inr plain ↦
        let (m, found, role) =
          administers_row (company_membership product.company_id actor.id d) (ground arith) in
        Authority.by_company_admin m found role
  ]

  role_row :
      (role : ProductRole)
      → product_role product.id actor d ≡ some role
      → (m : ProductMember) × (product_membership product.id actor.id d ≡ some m) × (m.role ≡ role)
  unfolding product_role
  role_row role h = elim (Option-cases (product_membership product.id actor.id d)) [
    | inl outside ↦ absurd (ground arith)
    | inr (m, found) ↦ (m, found, ground arith)
  ]

module _ (product : Product) (actor : User) (s : Session) where
  Authority-suffices :
      Authority product actor s.db → require_approval_authority product actor s ≡ (ok tt, s)
  unfolding require_approval_authority is_company_admin product_role
  Authority-suffices (Authority.by_super_admin h) = ground arith
  Authority-suffices (Authority.by_company_admin m found r) = ground arith
  Authority-suffices (Authority.by_anyone p) = ground arith
  Authority-suffices (Authority.by_manager m p found r) = ground arith
  Authority-suffices (Authority.by_approver m p found (inl r)) = ground arith
  Authority-suffices (Authority.by_approver m p found (inr r)) = ground arith

  -- The actor has the authority, or is answered 403.
  abbrev pub Decided : Type 0
  Decided =
      (Authority product actor s.db × (require_approval_authority product actor s ≡ (ok tt, s)))
      ⊎ (require_approval_authority product actor s ≡ (err (app forbidden), s))

  passes : Authority product actor s.db → Decided
  passes a = inl (a, Authority-suffices a)

  decided_by_role :
      (policy : ContentApprovalPolicy) (role : Option ProductRole)
      → product.approval_policy ≡ policy
      → product_role product.id actor s.db ≡ role
      → is_company_admin product.company_id actor s.db ≡ false
      → Decided
  unfolding require_approval_authority
  decided_by_role ContentApprovalPolicy.no_approval r p e plain = passes (Authority.by_anyone p)
  decided_by_role ContentApprovalPolicy.company_admin_approval r p e plain = inr (ground arith)
  decided_by_role ContentApprovalPolicy.product_manager_approval none p e plain = inr (ground arith)
  decided_by_role ContentApprovalPolicy.product_manager_approval (some ProductRole.product_manager)
        p e plain =
      let (m, found, role) = role_row product actor s.db ProductRole.product_manager e in
      passes (Authority.by_manager m p found role)
  decided_by_role ContentApprovalPolicy.product_manager_approval (some _) p e plain =
      inr (ground arith)
  decided_by_role ContentApprovalPolicy.one_approver none p e plain = inr (ground arith)
  decided_by_role ContentApprovalPolicy.one_approver (some ProductRole.approver) p e plain =
      let (m, found, role) = role_row product actor s.db ProductRole.approver e in
      passes (Authority.by_approver m p found (inl role))
  decided_by_role ContentApprovalPolicy.one_approver (some ProductRole.product_manager) p e plain =
      let (m, found, role) = role_row product actor s.db ProductRole.product_manager e in
      passes (Authority.by_approver m p found (inr role))
  decided_by_role ContentApprovalPolicy.one_approver (some _) p e plain = inr (ground arith)

  pub decided : Decided
  decided = elim (Bool-cases (is_company_admin product.company_id actor s.db)) [
    | inl admin ↦ passes (Authority-admin product actor s.db admin)
    | inr plain ↦
        decided_by_role product.approval_policy (product_role product.id actor s.db) refl refl plain
  ]

  -- The check lets the actor through exactly when the actor is a super admin, or a company admin in
  -- the product's company, or has the role in the product that its policy asks for, and answers 403
  -- otherwise. Either way it changes nothing.
  pub require_approval_authority_decides :
      (Authority product actor s.db × (require_approval_authority product actor s ≡ (ok tt, s)))
      ⊎ (¬ Authority product actor s.db
          × (require_approval_authority product actor s ≡ (err (app forbidden), s)))
  require_approval_authority_decides = elim decided [
    | inl a ↦ inl a
    | inr refused ↦ inr (λ a. let passed = Authority-suffices a in cc, refused)
  ]
