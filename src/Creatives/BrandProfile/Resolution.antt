-- ===== src/Creatives/BrandProfile/Resolution.antt =====
-- The look-up of a product's brand profile as a step of a request
-- (app/modules/brand_profiles/resolution.py).
use aidigiplanner_backend.Base.{ℕ, ◌≡◌, ◌⊎◌, inl, inr, arith, Option-cases}
use aidigiplanner_backend.Model.{Product, BrandProfile, BrandAnalysisScope}
use aidigiplanner_backend.Model.Session.{
  Session, AppError, ok, err, app, bad_request, not_found, live,
}
use aidigiplanner_backend.Model.Queries.{get_product}
use aidigiplanner_backend.Creatives.BrandProfile.{
  get_own_brand_profile, product_profile, resolve_product_profile,
}

module _ (product_id : ℕ) (s : Session) where
  -- The resolution of a product's profile reads and does not write.
  pub resolve_product-quiet :
      ((e : AppError) × (resolve_product_profile product_id s ≡ (err (app e), s)))
      ⊎ ((b : BrandProfile) × (resolve_product_profile product_id s ≡ (ok b, s)))
  unfolding resolve_product_profile
  resolve_product-quiet =
      elim (Option-cases (live (λ (p : Product). p.deleted_at) (get_product product_id s.db))) [
        | inl gone ↦ inl (not_found, ground arith)
        | inr (p, there) ↦ elim (Option-cases (product_profile p s.db)) [
          | inr (b, own) ↦ inr (b, ground arith)
          | inl bare ↦
              elim (Option-cases
                (get_own_brand_profile BrandAnalysisScope.company p.company_id s.db)) [
                  | inl nothing ↦ inl (bad_request, ground arith)
                  | inr (b, shared) ↦ inr (b, ground arith)
                ]
        ]
      ]
