-- ===== src/Core/Access/Grants.antt =====
-- Whom the dependencies of app/core/deps.py let through, against a list of the ways to have access.
use mathlib.Core.List.{Memᴰ}
use aidigiplanner_backend.Base.{
  ℕ, true, false, ◌||◌, ◌≡◌, refl, ◌↔◌, ◌⊎◌, inl, inr, Option, none, some, List, [], ◌∷◌, ◌==◌,
  first-test, arith, Bool-cases, Option-cases,
}
use aidigiplanner_backend.Model.{
  Database, User, CompanyMember, CompanyRole, Product, ProductMember, ProductRole,
  product_role_code, product_role_in,
}
use aidigiplanner_backend.Model.Session.{Session, Result, ok, err, app, not_found}
use aidigiplanner_backend.Model.Queries.{get_product, company_membership, product_membership}
use aidigiplanner_backend.Core.Access.{require_product_access, lacks_product_role, administers}

-- No roles are asked for, or the role is one of them.
abbrev pub Fits : List ProductRole → ProductRole → Type 0
Fits roles role = (roles ≡ []) ⊎ Memᴰ role roles

product_role_code-injective :
    (a b : ProductRole) → product_role_code a ≡ product_role_code b → a ≡ b
product_role_code-injective a b h = ground arith

Memᴰ_of_in :
    (role : ProductRole) (roles : List ProductRole)
    → product_role_in role roles ≡ true
    → Memᴰ role roles
Memᴰ_of_in role [] h = cc
Memᴰ_of_in role (r ∷ rs) h = elim (Bool-cases (product_role_code role == product_role_code r)) [
  | inl same ↦ Memᴰ.head (product_role_code-injective role r (ground arith))
  | inr other ↦ Memᴰ.tail (Memᴰ_of_in role rs (ground arith))
]

in_of_Memᴰ :
    (role : ProductRole) (roles : List ProductRole)
    → Memᴰ role roles
    → product_role_in role roles ≡ true
in_of_Memᴰ role [] m = elim m [ ]
in_of_Memᴰ role (r ∷ rs) (Memᴰ.head e) = rw e (ground arith)
in_of_Memᴰ role (r ∷ rs) (Memᴰ.tail m) = ground (arith, in_of_Memᴰ role rs m)

Fits-lacks :
    (roles : List ProductRole) (role : ProductRole)
    → lacks_product_role roles role ≡ false
    → Fits roles role
Fits-lacks [] role h = inl refl
Fits-lacks (r ∷ rs) role h = inr (Memᴰ_of_in role (r ∷ rs) (ground arith))

lacks-Fits :
    (roles : List ProductRole) (role : ProductRole)
    → Fits roles role
    → lacks_product_role roles role ≡ false
lacks-Fits [] role h = refl
lacks-Fits (r ∷ rs) role (inl e) = cc
lacks-Fits (r ∷ rs) role (inr m) = ground (arith, in_of_Memᴰ role (r ∷ rs) m)

-- The ways to have access to a product.
pub data ProductGrant (roles : List ProductRole) (user : User) (product : Product) (d : Database)
    : Type 0 where
  super_admin : user.is_super_admin ≡ true → ProductGrant roles user product d
  company_admin :
      (m : CompanyMember)
      → company_membership product.company_id user.id d ≡ some m
      → m.role ≡ CompanyRole.company_admin
      → ProductGrant roles user product d
  member :
      (m : ProductMember)
      → product_membership product.id user.id d ≡ some m
      → Fits roles m.role
      → ProductGrant roles user product d

abbrev pub Passes : {A : Type 0} → Result A × Session → Type 0
Passes (ok a, s) = Unit
Passes (err e, s) = ⊥

get_product-id : (id : ℕ) (d : Database) {p : Product} → get_product id d ≡ some p → p.id ≡ id
unfolding get_product
get_product-id id d {p} e = ground (arith, first-test (λ (q : Product). q.id == id) d.products e)

pub administers_row :
    (o : Option CompanyMember)
    → administers o ≡ true
    → (m : CompanyMember) × (o ≡ some m) × (m.role ≡ CompanyRole.company_admin)
administers_row none h = cc
administers_row (some m) h = (m, refl, ground arith)

module _ (roles : List ProductRole) (id : ℕ) (user : User) (s : Session) where
  -- A product that is there, and a grant on it.
  abbrev pub Granted : Type 0
  Granted =
      (p : Product) × (get_product id s.db ≡ some p)
      × (p.deleted_at ≡ none)
      × ProductGrant roles user p s.db

  pub require_product_access_complete :
      (p : Product)
      → get_product id s.db ≡ some p
      → p.deleted_at ≡ none
      → ProductGrant roles user p s.db
      → Passes (require_product_access roles id user s)
  unfolding require_product_access
  require_product_access_complete p found there (ProductGrant.super_admin h) = ground arith
  require_product_access_complete p found there (ProductGrant.company_admin m e h) = ground arith
  require_product_access_complete p found there (ProductGrant.member m e h) =
      ground (arith, lacks-Fits roles m.role h, get_product-id id s.db found)

  granted_by_member :
      (p : Product)
      → get_product id s.db ≡ some p
      → (user.is_super_admin || administers (company_membership p.company_id user.id s.db)) ≡ false
      → Passes (require_product_access roles id user s)
      → ProductGrant roles user p s.db
  unfolding require_product_access
  granted_by_member p found plain h = elim (Option-cases (product_membership id user.id s.db)) [
    | inl stranger ↦ absurd (ground arith)
    | inr (m, e) ↦
        ProductGrant.member m (rw (get_product-id id s.db found) e)
          (Fits-lacks roles m.role (ground arith))
  ]

  require_product_access_sound :
      (p : Product)
      → get_product id s.db ≡ some p
      → Passes (require_product_access roles id user s)
      → Granted
  unfolding require_product_access
  require_product_access_sound p found h =
      let there : p.deleted_at ≡ none = ground arith in
      elim (Bool-cases user.is_super_admin) [
        | inl super ↦ (p, found, there, ProductGrant.super_admin super)
        | inr plain ↦
            elim (Bool-cases (administers (company_membership p.company_id user.id s.db))) [
              | inl admin ↦
                  let (m, e, r) = administers_row _ admin in
                  (p, found, there, ProductGrant.company_admin m e r)
              | inr other ↦ (p, found, there, granted_by_member p found (ground arith) h)
            ]
      ]

  -- A request is let through exactly when the product is there, not deleted, and the user is a
  -- super admin, an admin of the company that owns it, or a member of it with a role that fits.
  pub require_product_access_iff : Passes (require_product_access roles id user s) ↔ Granted
  unfolding require_product_access
  require_product_access_iff = (
    λ h. elim (Option-cases (get_product id s.db)) [
      | inl missing ↦ absurd (ground arith)
      | inr (p, found) ↦ require_product_access_sound p found h
    ],
    λ g. require_product_access_complete g.0 g.1 g.2 g.3,
  )

  -- Someone who is no super admin, administers no company that owns the product, and is no member
  -- of it, gets the answer that a product which does not exist gives: 404, and never 403.
  pub require_product_access_outsider :
      user.is_super_admin ≡ false
      → ((p : Product)
          → get_product id s.db ≡ some p
          → administers (company_membership p.company_id user.id s.db) ≡ false)
      → product_membership id user.id s.db ≡ none
      → require_product_access roles id user s ≡ (err (app not_found), s)
  unfolding require_product_access
  require_product_access_outsider plain foreign stranger =
      elim (Option-cases (get_product id s.db)) [
        | inl missing ↦ ground arith
        | inr (p, found) ↦ ground (arith, foreign p found)
      ]
