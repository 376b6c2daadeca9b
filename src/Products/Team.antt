-- ===== src/Products/Team.antt =====
-- `add_member`, `invite_member` and `remove_member` of `ProductService`
-- (app/modules/products/service.py): who works on a product.
pub mod Requests
pub mod Rows
use aidigiplanner_backend.Base.{
  ℕ, Bool, not, ◌&&◌, ◌==◌, String, Option, none, some, List, ◌∷◌, if◌then◌else◌, is_none, is_some,
  first, remove,
}
use aidigiplanner_backend.Model.{
  Database, User, CompanyMember, CompanyMemberStatus, CompanyRole, Product, ProductMember,
  ProductRole,
}
use aidigiplanner_backend.Model.Session.{
  Action, ◌>>=◌, ◌>>◌, pure, raise_if, query, or_raise, modify, commit, log, live, not_found,
  bad_request, conflict,
}
use aidigiplanner_backend.Model.Queries.{
  get_user, get_product, company_membership, product_membership,
}
use aidigiplanner_backend.Companies.Provisioning.{
  ProvisioningEnvironment, Provisioned, find_or_create_user_by_email,
}
use aidigiplanner_backend.Companies.Members.{send_credentials, new_member}

-- What the requests to add and to invite say of the new row.
pub record Assignment : Type 0 where
  pub role : ProductRole
  pub sub_product_ids : List ℕ

abbrev pub new_product_member : ProvisioningEnvironment → ℕ → ℕ → Assignment → User → ProductMember
new_product_member env product_id user_id assignment actor = record {
  id = env.product_member_id;
  product_id = product_id;
  user_id = user_id;
  role = assignment.role;
  sub_product_ids = assignment.sub_product_ids;
  added_by = actor.id;
}

-- The key of a new row is drawn when the row is flushed, so it is not there yet when an addition is logged.
abbrev pub team_log : String → User → Option ℕ → ℕ → Option ℕ → Action (Unit {0})
team_log action actor company_id product_id member_id = log (record {
  action = action;
  actor_user_id = some actor.id;
  company_id = company_id;
  product_id = some product_id;
  resource_type = some "product_member";
  resource_id = member_id;
})

abbrev pub insert_product_member : ProductMember → Database → Database
insert_product_member m d = record d { product_members = m ∷ d.product_members }

unfoldable pub add_member :
    ProvisioningEnvironment → ℕ → User → ℕ → Assignment → Action ProductMember
add_member env product_id actor user_id assignment = do
  product ←
      or_raise (live (λ (p : Product). p.deleted_at) (← query (get_product product_id))) not_found
  or_raise (live (λ (u : User). u.deleted_at) (← query (get_user user_id))) not_found
  or_raise (← query (company_membership product.company_id user_id)) bad_request
  existing ← query (product_membership product_id user_id)
  raise_if (is_some existing) conflict
  let member = new_product_member env product_id user_id assignment actor
  modify (insert_product_member member)
  team_log "product_member.added" actor (some product.company_id) product_id none
  commit
  pure member

-- The row in the company, unless the account has one.
unfoldable pub join_company : ProvisioningEnvironment → ℕ → ℕ → User → Database → Database
join_company env company_id user_id actor d =
    if is_none (company_membership company_id user_id d)
    then record d {
      company_members =
          new_member env company_id user_id CompanyRole.member actor ∷ d.company_members;
    }
    else d

-- The rest of `invite_member`, with the account.
abbrev pub invite_provisioned :
    ProvisioningEnvironment → Product → User → Assignment → Provisioned → Action ProductMember
invite_provisioned env product actor assignment target = do
  modify (join_company env product.company_id target.0.id actor)
  existing ← query (product_membership product.id target.0.id)
  raise_if (is_some existing) conflict
  let member = new_product_member env product.id target.0.id assignment actor
  modify (insert_product_member member)
  team_log "product_member.invited" actor (some product.company_id) product.id none
  commit
  send_credentials product.company_id target
  pure member

unfoldable pub invite_member :
    ProvisioningEnvironment → ℕ → User → String → Option String → Assignment → Action ProductMember
invite_member env product_id actor email full_name assignment = do
  product ←
      or_raise (live (λ (p : Product). p.deleted_at) (← query (get_product product_id))) not_found
  target ← find_or_create_user_by_email env email full_name
  invite_provisioned env product actor assignment target

unfoldable pub find_product_member : ℕ → ℕ → Database → Option ProductMember
find_product_member product_id member_id d =
    first (λ m. m.id == member_id && m.product_id == product_id) d.product_members

abbrev pub company_of : Option Product → Option ℕ
company_of none = none
company_of (some p) = some p.company_id

unfoldable pub remove_member : ℕ → ℕ → User → Action (Unit {0})
remove_member product_id member_id actor = do
  member ← or_raise (← query (find_product_member product_id member_id)) not_found
  product ← query (get_product product_id)
  modify (λ d. record d { product_members = remove (λ r. r.id == member.id) d.product_members })
  team_log "product_member.removed" actor (company_of product) product_id (some member_id)
  commit
