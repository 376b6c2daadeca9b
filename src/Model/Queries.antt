-- ===== src/Model/Queries.antt =====
-- The look-ups that several services make: by primary key, and of a user's memberships
-- (app/core/deps.py and the services under app/modules/).
use aidigiplanner_backend.Base.{ℕ, ◌&&◌, ◌==◌, Option, first}
use aidigiplanner_backend.Model.Accounts.{
  User, Company, CompanyMember, Product, ProductMember, SubProduct,
}
use aidigiplanner_backend.Model.Content.{CreativeBrief, GenerationJob}
use aidigiplanner_backend.Model.Tables.{Database}

-- `session.get(User, id)`, and so for each table.
unfoldable pub get_user : ℕ → Database → Option User
get_user id d = first (λ u. u.id == id) d.users

unfoldable pub get_company : ℕ → Database → Option Company
get_company id d = first (λ c. c.id == id) d.companies

unfoldable pub get_product : ℕ → Database → Option Product
get_product id d = first (λ p. p.id == id) d.products

unfoldable pub get_sub_product : ℕ → Database → Option SubProduct
get_sub_product id d = first (λ p. p.id == id) d.sub_products

unfoldable pub get_brief : ℕ → Database → Option CreativeBrief
get_brief id d = first (λ b. b.id == id) d.creative_briefs

unfoldable pub get_job : ℕ → Database → Option GenerationJob
get_job id d = first (λ j. j.id == id) d.generation_jobs

-- The row of a user in a company, and in a product.
unfoldable pub company_membership : ℕ → ℕ → Database → Option CompanyMember
company_membership company_id user_id d =
    first (λ m. m.company_id == company_id && m.user_id == user_id) d.company_members

unfoldable pub product_membership : ℕ → ℕ → Database → Option ProductMember
product_membership product_id user_id d =
    first (λ m. m.product_id == product_id && m.user_id == user_id) d.product_members
