-- ===== src/Products/Catalogue/Uniqueness.antt =====
-- The slugs of a company's products under the requests to `ProductService`
-- (app/modules/products/service.py).
use aidigiplanner_backend.Base.{
  ℕ, ◌≡◌, refl, sym, ◌∙◌, Bool, false, ◌==◌, str_eq, String, Option, none, some, List, [], ◌∷◌,
  is_none, update, Distinct, IsUnused, Distinct-update, arith, Bool-cases, Option-cases, inl, inr,
}
use aidigiplanner_backend.Model.{Database, User, Product, CompanyOnboardingStep}
use aidigiplanner_backend.Model.Session.{open_session}
use aidigiplanner_backend.Model.Queries.{get_product}
use aidigiplanner_backend.Core.Slugs.{is_taken, slugify}
use aidigiplanner_backend.Core.Slugs.Search.{unique_slug-FirstFree}
use aidigiplanner_backend.Core.Slugs.Unique.{
  UniqueSlugs, UniqueSlugs-put, own_slug, apart_of_free, others,
}
use aidigiplanner_backend.Companies.Onboarding.{advance_onboarding_step}
use aidigiplanner_backend.Products.Catalogue.{
  CatalogueEnvironment, ProductDraft, ProductChanges, is_rival, unique_product_slug, new_product,
  create_product, renamed_slug, changed_product, update_product, delete_product,
}

pub data ProductOperation : Type 0 where
  post_product : ℕ → ProductDraft → ProductOperation
  patch_product : ℕ → ProductChanges → ProductOperation
  delete_product_by_id : ℕ → ProductOperation

pub record ProductRequest : Type 0 where
  pub env : CatalogueEnvironment
  pub actor : User
  pub operation : ProductOperation

-- The database after the operation; what was not committed is lost.
abbrev pub run : CatalogueEnvironment → User → ProductOperation → Database → Database
run env actor (ProductOperation.post_product company_id draft) d =
    (create_product env company_id actor draft (open_session d)).1.committed
run env actor (ProductOperation.patch_product product_id changes) d =
    (update_product env.normalize product_id actor changes (open_session d)).1.committed
run env actor (ProductOperation.delete_product_by_id product_id) d =
    (delete_product product_id actor env.now (open_session d)).1.committed

unfoldable pub serve_products : List ProductRequest → Database → Database
serve_products [] d = d
serve_products (r ∷ rs) d = serve_products rs (run r.env r.actor r.operation d)

abbrev pub product_key : Product → ℕ
product_key p = p.id

abbrev pub product_company : Product → ℕ
product_company p = p.company_id

abbrev pub product_slug : Product → String
product_slug p = p.slug

-- Distinct keys, and no two products of a company, deleted or not, with one slug.
abbrev pub IsCatalogue : List Product → Type 0
IsCatalogue ps = Distinct product_key ps × UniqueSlugs product_key product_company product_slug ps

-- The slug that is chosen is there, and free.
chosen :
    (normalize : String → String) (company_id : ℕ) (name : String) (exclude : Option ℕ)
    (d : Database)
    → (slug : String) × (unique_product_slug normalize company_id name exclude d ≡ some slug)
      × (is_taken product_slug (is_rival company_id exclude) d.products slug ≡ false)
unfolding unique_product_slug
chosen normalize company_id name exclude d =
    let first_free =
      unique_slug-FirstFree product_slug (is_rival company_id exclude) d.products
        (slugify normalize name) in
    (_, first_free.found, first_free.free)

same_rivals :
    (p q : Product → Bool) (rows : List Product) (slug : String)
    → ((r : Product) → p r ≡ q r)
    → is_taken product_slug p rows slug ≡ is_taken product_slug q rows slug
unfolding is_taken
same_rivals p q [] slug same = refl
same_rivals p q (r ∷ rows) slug same =
    let rest = same_rivals p q rows slug same in let here = same r in ground arith

advance-products :
    (company_id : ℕ) (step : CompanyOnboardingStep) (d : Database)
    → (advance_onboarding_step company_id step d).products ≡ d.products
unfolding advance_onboarding_step
advance-products company_id step d = ground arith

module _ (d : Database) (h : IsCatalogue d.products) where
  by_products :
      (d' : Database) (ps : List Product)
      → d'.products ≡ ps
      → IsCatalogue ps
      → IsCatalogue d'.products
  by_products d' ps e fine = rw e fine

  create_product-IsCatalogue :
      (env : CatalogueEnvironment) (company_id : ℕ) (actor : User) (draft : ProductDraft)
      → IsUnused product_key env.product_id d.products
      → IsCatalogue
          (create_product env company_id actor draft (open_session d)).1.committed.products
  unfolding create_product
  create_product-IsCatalogue env company_id actor draft unused =
      let (slug, e, free) = chosen env.normalize company_id draft.name none d in
      let p = new_product env company_id actor draft slug in
      let moved =
        advance-products company_id CompanyOnboardingStep.first_product_created
          (record d { products = p ∷ d.products }) in
      let free' =
        same_rivals (is_rival company_id none) (λ r. r.company_id == company_id) d.products slug
          (λ r. ground arith) in
      by_products (create_product env company_id actor draft (open_session d)).1.committed
        (p ∷ d.products) (ground arith)
        (
          (unused, h.0),
          (
            apart_of_free product_key product_company product_slug p d.products (sym free' ∙ free),
            h.1,
          ),
        )

  put-IsCatalogue :
      (p : Product)
      → is_taken product_slug
          (others product_key product_company product_slug p.company_id p.id)
          d.products
          p.slug
        ≡ false
      → IsCatalogue (update (λ r. r.id == p.id) (λ _. p) d.products)
  put-IsCatalogue p free = (
    Distinct-update product_key (λ r. r.id == p.id) (λ _. p) d.products (λ x hit. ground arith) h.0,
    UniqueSlugs-put product_key product_company product_slug p d.products h.0 h.1 free,
  )

  -- The slug after an update is free for the product.
  renamed :
      (normalize : String → String) (product_id : ℕ) (p : Product) (name : Option String)
      → get_product product_id d ≡ some p
      → (slug : String) × (renamed_slug normalize p name d ≡ some slug)
        × (is_taken product_slug
              (others product_key product_company product_slug p.company_id p.id)
              d.products
              slug
            ≡ false)
  unfolding get_product
  renamed normalize product_id p none found = (
    p.slug,
    refl,
    own_slug product_key product_company product_slug (λ r. r.id == product_id) p d.products h.1
        found,
  )
  renamed normalize product_id p (some name) found = elim (Bool-cases (str_eq name p.name)) [
    | inl same ↦ (
      p.slug,
      rw same refl,
      own_slug product_key product_company product_slug (λ r. r.id == product_id) p d.products h.1
          found,
    )
    | inr new ↦
        let (slug, e, free) = chosen normalize p.company_id name (some p.id) d in
        (slug, rw new e, free)
  ]

  update_product-IsCatalogue :
      (normalize : String → String) (product_id : ℕ) (actor : User) (changes : ProductChanges)
      → IsCatalogue
          (update_product normalize product_id actor changes (open_session d)).1.committed.products
  unfolding update_product
  update_product-IsCatalogue normalize product_id actor changes =
      elim (Option-cases (get_product product_id d)) [
        | inl missing ↦
            by_products
              (update_product normalize product_id actor changes (open_session d)).1.committed
              d.products (ground arith) h
        | inr (p, found) ↦ elim (Bool-cases (is_none p.deleted_at)) [
          | inr gone ↦
              by_products
                (update_product normalize product_id actor changes (open_session d)).1.committed
                d.products (ground arith) h
          | inl there ↦
              let (slug, e, free) = renamed normalize product_id p changes.name found in
              by_products
                (update_product normalize product_id actor changes (open_session d)).1.committed
                (update (λ r. r.id == p.id) (λ _. changed_product p changes slug) d.products)
                (ground arith) (put-IsCatalogue (changed_product p changes slug) free)
        ]
      ]

  delete_product-IsCatalogue :
      (product_id : ℕ) (actor : User) (now : ℕ)
      → IsCatalogue (delete_product product_id actor now (open_session d)).1.committed.products
  unfolding delete_product
  delete_product-IsCatalogue product_id actor now = elim (Option-cases (get_product product_id d)) [
    | inl missing ↦
        by_products (delete_product product_id actor now (open_session d)).1.committed d.products
          (ground arith) h
    | inr (p, found) ↦ elim (Bool-cases (is_none p.deleted_at)) [
      | inr gone ↦
          by_products (delete_product product_id actor now (open_session d)).1.committed d.products
            (ground arith) h
      | inl there ↦
          let (slug, e, free) = renamed (λ s. s) product_id p none found in
          let own : slug ≡ p.slug = ground arith in
          by_products (delete_product product_id actor now (open_session d)).1.committed
            (update (λ r. r.id == p.id) (λ _. record p { deleted_at = some now }) d.products)
            (ground arith) (put-IsCatalogue (record p { deleted_at = some now }) (rw own at free))
    ]
  ]

  run-IsCatalogue :
      (env : CatalogueEnvironment) (actor : User) (o : ProductOperation)
      → IsUnused product_key env.product_id d.products
      → IsCatalogue (run env actor o d).products
  run-IsCatalogue env actor (ProductOperation.post_product company_id draft) unused =
      create_product-IsCatalogue env company_id actor draft unused
  run-IsCatalogue env actor (ProductOperation.patch_product product_id changes) unused =
      update_product-IsCatalogue env.normalize product_id actor changes
  run-IsCatalogue env actor (ProductOperation.delete_product_by_id product_id) unused =
      delete_product-IsCatalogue product_id actor env.now

-- The key that each request would give a new product is not in use when it comes.
abbrev pub DrawsUnused : List ProductRequest → Database → Type 0
DrawsUnused [] d = Unit
DrawsUnused (r ∷ rs) d =
    IsUnused product_key r.env.product_id d.products
    × DrawsUnused rs (run r.env r.actor r.operation d)

-- Over every sequence of requests that create, change and delete products, refused or not, in which a
-- new product draws a key that is not in use, keys stay distinct and no two products of a company,
-- deleted ones included, come to share a slug.
pub serve_products-IsCatalogue :
    (rs : List ProductRequest) (d : Database)
    → DrawsUnused rs d
    → IsCatalogue d.products
    → IsCatalogue (serve_products rs d).products
unfolding serve_products
serve_products-IsCatalogue [] d unused h = h
serve_products-IsCatalogue (r ∷ rs) d unused h =
    serve_products-IsCatalogue rs (run r.env r.actor r.operation d) unused.1
      (run-IsCatalogue d h r.env r.actor r.operation unused.0)
