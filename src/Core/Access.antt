-- ===== src/Core/Access.antt =====
-- app/core/deps.py: the FastAPI dependencies that let a request through. Each returns the
-- membership row that grants access, or `none` where a super or company admin passes without one.
pub mod Grants
mod Tests
use aidigiplanner_backend.Base.{
  ℕ, Bool, true, false, not, ◌&&◌, ◌||◌, ◌==◌, str_eq, String, Option, none, some, List, [], ◌∷◌,
  any, if◌then◌else◌, is_none,
}
use aidigiplanner_backend.Model.{
  Database, User, UserStatus, Company, CompanyMember, CompanyRole, Product, ProductMember,
  ProductRole, SubProduct, is_company_admin_role, product_role_in, is_user_status,
}
use aidigiplanner_backend.Model.Session.{
  Action, ◌>>=◌, ◌>>◌, pure, raise, raise_if, query, or_raise, live, not_found, forbidden,
  unauthorized,
}
use aidigiplanner_backend.Model.Queries.{
  get_user, get_company, get_product, get_sub_product, company_membership, product_membership,
}

-- The claims of an access token that the code reads.
pub record Claims : Type 0 where
  pub sub : ℕ
  pub token_type : String
  pub token_version : ℕ

-- `decode` is `jwt.decode` with the application's secret: `none` where PyJWT raises.
module _ (decode : String → Option Claims) where
  -- `decode_access_token` of app/core/security.py.
  abbrev pub decode_access_token : String → Option Claims
  decode_access_token token = elim (decode token) [
    | none ↦ none
    | some claims ↦ if str_eq claims.token_type "access" then some claims else none
  ]

  unfoldable pub get_current_user : Option String → Action User
  get_current_user credentials = do
    token ← or_raise credentials unauthorized
    claims ← or_raise (decode_access_token token) unauthorized
    user ← or_raise (← query (get_user claims.sub)) unauthorized
    raise_if
        (not (is_none user.deleted_at)
          || not (is_user_status user.status UserStatus.active)
          || not (user.token_version == claims.token_version))
        unauthorized
    pure user

unfoldable pub require_super_admin : User → Action User
require_super_admin user = do raise_if (not user.is_super_admin) forbidden; pure user

abbrev pub is_company_role : CompanyRole → CompanyRole → Bool
is_company_role CompanyRole.company_admin b = is_company_admin_role b
is_company_role CompanyRole.member b = not (is_company_admin_role b)

-- `roles and membership.role not in roles`
abbrev pub lacks_company_role : List CompanyRole → CompanyRole → Bool
lacks_company_role [] role = false
lacks_company_role (r ∷ rs) role = not (any (λ a. is_company_role a role) (r ∷ rs))

abbrev pub lacks_product_role : List ProductRole → ProductRole → Bool
lacks_product_role [] role = false
lacks_product_role (r ∷ rs) role = not (product_role_in role (r ∷ rs))

unfoldable pub require_company_role : List CompanyRole → ℕ → User → Action (Option CompanyMember)
require_company_role roles company_id user = do
  or_raise (live (λ (c : Company). c.deleted_at) (← query (get_company company_id))) not_found
  membership ← query (company_membership company_id user.id)
  if user.is_super_admin then pure none else (do
    row ← or_raise membership not_found
    raise_if (lacks_company_role roles row.role) forbidden
    pure (some row))

abbrev pub administers : Option CompanyMember → Bool
administers none = false
administers (some m) = is_company_admin_role m.role

unfoldable pub require_product_access : List ProductRole → ℕ → User → Action (Option ProductMember)
require_product_access roles product_id user = do
  product ←
      or_raise (live (λ (p : Product). p.deleted_at) (← query (get_product product_id))) not_found
  admin ← query (company_membership product.company_id user.id)
  member ← query (product_membership product_id user.id)
  if user.is_super_admin || administers admin then pure none else (do
    row ← or_raise member not_found
    raise_if (lacks_product_role roles row.role) forbidden
    pure (some row))

-- `sub_product_ids and sub_product_id not in sub_product_ids`
abbrev pub is_outside : List ℕ → ℕ → Bool
is_outside [] id = false
is_outside (i ∷ is) id = not (any (λ j. j == id) (i ∷ is))

unfoldable pub require_sub_product_access :
    List ProductRole → ℕ → User → Action (Option ProductMember)
require_sub_product_access roles sub_product_id user = do
  sub_product ←
      or_raise (live (λ (p : SubProduct). p.deleted_at) (← query (get_sub_product sub_product_id)))
        not_found
  product ←
      or_raise (live (λ (p : Product). p.deleted_at) (← query (get_product sub_product.product_id)))
        not_found
  admin ← query (company_membership product.company_id user.id)
  member ← query (product_membership product.id user.id)
  if user.is_super_admin || administers admin then pure none else (do
    row ← or_raise member not_found
    raise_if (is_outside row.sub_product_ids sub_product_id) not_found
    raise_if (lacks_product_role roles row.role) forbidden
    pure (some row))
