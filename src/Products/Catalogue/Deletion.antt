-- ===== src/Products/Catalogue/Deletion.antt =====
-- What `delete_product` of app/modules/products/service.py leaves behind.
use aidigiplanner_backend.Base.{
  ℕ, ◌≡◌, refl, false, ◌==◌, none, some, List, [], ◌∷◌, first, first-put, select, update, arith,
  Bool-cases, inl, inr,
}
use aidigiplanner_backend.Model.{Database, User, Product, ProductRole, SocialAccount}
use aidigiplanner_backend.Model.Session.{ok, err, app, not_found, open_session}
use aidigiplanner_backend.Model.Queries.{get_product}
use aidigiplanner_backend.Core.Access.{require_product_access}
use aidigiplanner_backend.Products.Catalogue.{delete_product, is_account_of}

-- The accounts of a product that are shown.
abbrev pub live_accounts : ℕ → Database → List SocialAccount
live_accounts product_id d = select (is_account_of product_id) d.social_accounts

none_live :
    (product_id now : ℕ) (xs : List SocialAccount)
    → select
        (is_account_of product_id)
        (update (is_account_of product_id) (λ a. record a { deleted_at = some now }) xs)
      ≡ []
none_live product_id now [] = refl
none_live product_id now (x ∷ xs) =
    let rest = none_live product_id now xs in
    elim (Bool-cases (is_account_of product_id x)) [
      | inl hit ↦ rw hit (ground arith)
      | inr miss ↦ rw miss (rw miss rest)
    ]

same_live :
    (product_id other now : ℕ) (xs : List SocialAccount)
    → (other == product_id) ≡ false
    → select
        (is_account_of other)
        (update (is_account_of product_id) (λ a. record a { deleted_at = some now }) xs)
      ≡ select (is_account_of other) xs
same_live product_id other now [] apart = refl
same_live product_id other now (x ∷ xs) apart =
    let rest = same_live product_id other now xs apart in
    elim (Bool-cases (is_account_of product_id x)) [
      | inl hit ↦
          let foreign : (x.product_id == other) ≡ false = ground arith in rw (hit, foreign) rest
      | inr miss ↦ rw miss (rw rest refl)
    ]

-- A product that is there can be deleted; then none of its social accounts is live any more, those of
-- another product stay as they were, and it is not found by anyone, super admins included.
pub delete_product-gone :
    (product_id other now : ℕ) (actor user : User) (d : Database) (p : Product)
    (roles : List ProductRole)
    → get_product product_id d ≡ some p
    → p.deleted_at ≡ none
    → (other == product_id) ≡ false
    → ((delete_product product_id actor now (open_session d)).0 ≡ ok tt)
      × (live_accounts product_id (delete_product product_id actor now (open_session d)).1.committed
          ≡ [])
      × (live_accounts other (delete_product product_id actor now (open_session d)).1.committed
          ≡ live_accounts other d)
      × ((require_product_access roles product_id user
            (open_session (delete_product product_id actor now (open_session d)).1.committed)).0
          ≡ err (app not_found))
unfolding delete_product get_product require_product_access
delete_product-gone product_id other now actor user d p roles found there apart =
    let d' = (delete_product product_id actor now (open_session d)).1.committed in
    let accounts : d'.social_accounts
        ≡ update (is_account_of product_id) (λ a. record a { deleted_at = some now })
            d.social_accounts =
      ground arith in
    let products : d'.products
        ≡ update (λ r. r.id == p.id) (λ _. record p { deleted_at = some now }) d.products =
      ground arith in
    let still =
      first-put (λ (r : Product). r.id) product_id p (record p { deleted_at = some now }) d.products
        found refl in
    let again : first (λ r. r.id == product_id) d'.products
        ≡ some (record p { deleted_at = some now }) =
      rw products still in
    (
      ground arith,
      rw accounts (none_live product_id now d.social_accounts),
      rw accounts (same_live product_id other now d.social_accounts apart),
      ground arith,
    )
