-- ===== src/Products/Catalogue.antt =====
-- `create_product`, `update_product` and `delete_product` of app/modules/products/service.py.
pub mod Deletion
pub mod Uniqueness
use aidigiplanner_backend.Base.{
  ℕ, Bool, true, false, not, ◌&&◌, ◌==◌, str_eq, String, Option, none, some, ◌∷◌, if◌then◌else◌,
  is_none, merge, or_else, update,
}
use aidigiplanner_backend.Model.{
  Database, User, Product, ProductStatus, ProductBrandingMode, ContentApprovalPolicy,
  CompanyOnboardingStep, SocialAccount,
}
use aidigiplanner_backend.Model.Session.{
  Action, ◌>>=◌, ◌>>◌, pure, query, or_raise, or_crash, modify, commit, log, live, not_found,
}
use aidigiplanner_backend.Model.Queries.{get_product}
use aidigiplanner_backend.Core.Slugs.{slugify, unique_slug}
use aidigiplanner_backend.Companies.Onboarding.{advance_onboarding_step}

-- The clock, the key of a new row, and `text.strip().lower()`.
pub record CatalogueEnvironment : Type 0 where
  pub now : ℕ
  pub product_id : ℕ
  pub normalize : String → String

-- `CreateProductRequest` and `UpdateProductRequest` of app/modules/products/schemas.py.
pub record ProductDraft : Type 0 where
  pub name : String
  pub description : Option String
  pub branding_mode : ProductBrandingMode

pub record ProductChanges : Type 0 where
  pub name : Option String
  pub description : Option String
  pub status : Option ProductStatus
  pub branding_mode : Option ProductBrandingMode
  pub approval_policy : Option ContentApprovalPolicy

-- `exclude_product_id is not None` and the row's key is that one.
abbrev pub is_excluded : Option ℕ → ℕ → Bool
is_excluded none id = false
is_excluded (some excluded) id = id == excluded

abbrev pub is_rival : ℕ → Option ℕ → Product → Bool
is_rival company_id exclude p = p.company_id == company_id && not (is_excluded exclude p.id)

unfoldable pub unique_product_slug :
    (String → String) → ℕ → String → Option ℕ → Database → Option String
unique_product_slug normalize company_id name exclude d =
    unique_slug (λ (p : Product). p.slug) (is_rival company_id exclude) d.products
      (slugify normalize name)

abbrev pub product_log : String → User → Product → Action (Unit {0})
product_log action actor product = log (record {
  action = action;
  actor_user_id = some actor.id;
  company_id = some product.company_id;
  product_id = some product.id;
  resource_type = some "product";
  resource_id = some product.id;
})

abbrev pub new_product : CatalogueEnvironment → ℕ → User → ProductDraft → String → Product
new_product env company_id actor draft slug = record {
  id = env.product_id;
  company_id = company_id;
  name = draft.name;
  slug = slug;
  description = draft.description;
  status = ProductStatus.active;
  branding_mode = draft.branding_mode;
  approval_policy = ContentApprovalPolicy.no_approval;
  created_by = actor.id;
  deleted_at = none;
}

unfoldable pub create_product : CatalogueEnvironment → ℕ → User → ProductDraft → Action Product
create_product env company_id actor draft = do
  slug ← or_crash (← query (unique_product_slug env.normalize company_id draft.name none))
  let product = new_product env company_id actor draft slug
  modify (λ d. record d { products = product ∷ d.products })
  modify (advance_onboarding_step company_id CompanyOnboardingStep.first_product_created)
  log (record {
    action = "product.created";
    actor_user_id = some actor.id;
    company_id = some company_id;
    product_id = none;
    resource_type = some "product";
    resource_id = none;
  })
  commit
  pure product

-- The slug after a change of name, if the name changes.
abbrev pub renamed_slug : (String → String) → Product → Option String → Database → Option String
renamed_slug normalize product none d = some product.slug
renamed_slug normalize product (some name) d =
    if str_eq name product.name
    then some product.slug
    else unique_product_slug normalize product.company_id name (some product.id) d

abbrev pub changed_product : Product → ProductChanges → String → Product
changed_product product changes slug = record product {
  name = merge changes.name product.name;
  slug = slug;
  description = elim changes.description [ none ↦ product.description | some text ↦ some text ];
  status = merge changes.status product.status;
  branding_mode = merge changes.branding_mode product.branding_mode;
  approval_policy = merge changes.approval_policy product.approval_policy;
}

abbrev pub put_product : Product → Database → Database
put_product p d = record d { products = update (λ r. r.id == p.id) (λ _. p) d.products }

unfoldable pub update_product : (String → String) → ℕ → User → ProductChanges → Action Product
update_product normalize product_id actor changes = do
  product ←
      or_raise (live (λ (p : Product). p.deleted_at) (← query (get_product product_id))) not_found
  slug ← or_crash (← query (renamed_slug normalize product changes.name))
  let changed = changed_product product changes slug
  modify (put_product changed)
  product_log "product.updated" actor changed
  commit
  pure changed

abbrev pub is_account_of : ℕ → SocialAccount → Bool
is_account_of product_id a = a.product_id == product_id && is_none a.deleted_at

-- The loop over the product's social accounts.
abbrev pub delete_accounts : ℕ → ℕ → Database → Database
delete_accounts product_id now d = record d {
  social_accounts =
      update (is_account_of product_id) (λ a. record a { deleted_at = some now }) d.social_accounts;
}

unfoldable pub delete_product : ℕ → User → ℕ → Action (Unit {0})
delete_product product_id actor now = do
  product ←
      or_raise (live (λ (p : Product). p.deleted_at) (← query (get_product product_id))) not_found
  modify (put_product (record product { deleted_at = some now }))
  modify (delete_accounts product_id now)
  product_log "product.deleted" actor product
  commit
