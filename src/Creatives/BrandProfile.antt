-- ===== src/Creatives/BrandProfile.antt =====
-- Which brand profile applies to a product (app/modules/brand_profiles/resolution.py), and its
-- product lines (app/modules/creatives/brand.py).
pub mod Resolution
use aidigiplanner_backend.Base.{
  ℕ, Bool, true, false, ◌&&◌, ◌==◌, str_eq, String, Option, none, some, List, first, is_none,
  if◌then◌else◌,
}
use aidigiplanner_backend.Model.{
  Database, Product, ProductBrandingMode, SubProduct, SubProductBrandingMode, BrandProfile,
  BrandAnalysisScope, ProductLineProfile, scope_code,
}
use aidigiplanner_backend.Model.Session.{
  Action, ◌>>=◌, ◌>>◌, pure, raise, query, or_raise, live, bad_request, not_found,
}
use aidigiplanner_backend.Model.Queries.{get_product, get_sub_product}

unfoldable pub get_own_brand_profile : BrandAnalysisScope → ℕ → Database → Option BrandProfile
get_own_brand_profile scope owner_id d =
    first (λ b. scope_code b.scope == scope_code scope && b.owner_id == owner_id) d.brand_profiles

-- The profile of a product with a brand of its own.
abbrev pub product_profile : Product → Database → Option BrandProfile
product_profile p d = elim p.branding_mode [
  | ProductBrandingMode.use_company_branding ↦ none
  | ProductBrandingMode.separate_brand ↦ get_own_brand_profile BrandAnalysisScope.product p.id d
]

abbrev pub sub_product_profile : SubProduct → Database → Option BrandProfile
sub_product_profile p d = elim p.branding_mode [
  | SubProductBrandingMode.use_product_branding ↦ none
  | SubProductBrandingMode.separate_brand ↦
      get_own_brand_profile BrandAnalysisScope.sub_product p.id d
]

-- The walk from the product on.
unfoldable pub resolve_product_profile : ℕ → Action BrandProfile
resolve_product_profile product_id = do
  product ←
      or_raise (live (λ (p : Product). p.deleted_at) (← query (get_product product_id))) not_found
  own ← query (product_profile product)
  company ← query (get_own_brand_profile BrandAnalysisScope.company product.company_id)
  or_raise (elim own [ none ↦ company | some b ↦ some b ]) bad_request

abbrev own_or_product : Option BrandProfile → ℕ → Action BrandProfile
own_or_product none product_id = resolve_product_profile product_id
own_or_product (some b) product_id = pure b

unfoldable pub resolve_effective_brand_profile : ℕ → Option ℕ → Action BrandProfile
resolve_effective_brand_profile product_id none = resolve_product_profile product_id
resolve_effective_brand_profile product_id (some sub_product_id) = do
  sub ←
      or_raise (live (λ (p : SubProduct). p.deleted_at) (← query (get_sub_product sub_product_id)))
        not_found
  own_or_product (← query (sub_product_profile sub)) product_id

-- `BrandProfileDTO.product_line`: `none` is its `KeyError`.
unfoldable pub product_line : String → BrandProfile → Option ProductLineProfile
product_line id b = first (λ (l : ProductLineProfile). str_eq l.id id) b.product_lines
