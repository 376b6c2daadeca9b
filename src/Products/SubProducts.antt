-- ===== src/Products/SubProducts.antt =====
-- app/modules/sub_products/service.py: the sub-products of a product.
pub mod Batches
use aidigiplanner_backend.Base.{
  ℕ, suc, ◌+◌, Bool, true, false, not, ◌&&◌, ◌||◌, ◌==◌, str_eq, String, Option, none, some, List,
  [], ◌∷◌, ◌++◌, any, if◌then◌else◌, is_none, merge, update,
}
use aidigiplanner_backend.Model.{Database, User, SubProduct, ProductStatus, SubProductBrandingMode}
use aidigiplanner_backend.Model.Session.{
  Action, ◌>>=◌, ◌>>◌, pure, query, or_raise, or_crash, modify, commit, log, live, not_found,
}
use aidigiplanner_backend.Model.Queries.{get_sub_product}
use aidigiplanner_backend.Core.Slugs.{slugify, unique_slug}
use aidigiplanner_backend.Products.Catalogue.{is_excluded}

-- The keys of new rows, `str.strip`, and `text.strip().lower()`.
pub record SubProductEnvironment : Type 0 where
  pub first_id : ℕ
  pub strip : String → String
  pub normalize : String → String

abbrev pub is_rival : ℕ → Option ℕ → SubProduct → Bool
is_rival product_id exclude p = p.product_id == product_id && not (is_excluded exclude p.id)

unfoldable pub unique_sub_product_slug :
    (String → String) → ℕ → String → Option ℕ → Database → Option String
unique_sub_product_slug normalize product_id name exclude d =
    unique_slug (λ (p : SubProduct). p.slug) (is_rival product_id exclude) d.sub_products
      (slugify normalize name)

abbrev pub sub_product_log : String → User → ℕ → Option ℕ → Action (Unit {0})
sub_product_log action actor product_id sub_product_id = log (record {
  action = action;
  actor_user_id = some actor.id;
  company_id = none;
  product_id = some product_id;
  resource_type = some "sub_product";
  resource_id = sub_product_id;
})

abbrev pub new_sub_product : ℕ → ℕ → User → String → String → SubProduct
new_sub_product id product_id actor name slug = record {
  id = id;
  product_id = product_id;
  name = name;
  slug = slug;
  status = ProductStatus.active;
  branding_mode = SubProductBrandingMode.use_product_branding;
  created_by = actor.id;
  deleted_at = none;
}

abbrev pub prepend :
    (String → SubProduct) → Option String → Option (List SubProduct) → Option (List SubProduct)
prepend row none created = none
prepend row (some slug) none = none
prepend row (some slug) (some created) = some (row slug ∷ created)

-- The loop over the names, with the key that comes next. Rows that are added and not flushed are not
-- seen by the query of the next name, since the session does not flush by itself (app/db/session.py).
unfoldable pub build_sub_products :
    SubProductEnvironment → ℕ → ℕ → User → List String → Database → Option (List SubProduct)
build_sub_products env id product_id actor [] d = some []
build_sub_products env id product_id actor (name ∷ names) d =
    let rest = build_sub_products env (id + 1) product_id actor names d in
    if str_eq (env.strip name) ""
    then rest
    else prepend (new_sub_product id product_id actor (env.strip name))
        (unique_sub_product_slug env.normalize product_id (env.strip name) none d) rest

-- The table's unique constraint on the product and the slug.
abbrev pub breaks_constraint : SubProduct → List SubProduct → Bool
breaks_constraint p rows = any (λ r. r.product_id == p.product_id && str_eq r.slug p.slug) rows

-- `session.flush()`: the rows go in one after the other, and `none` is an `IntegrityError`.
unfoldable pub flush : List SubProduct → List SubProduct → Option (List SubProduct)
flush [] rows = some rows
flush (p ∷ ps) rows = elim (breaks_constraint p rows) [ true ↦ none | false ↦ flush ps (p ∷ rows) ]

abbrev pub insert_sub_products : User → ℕ → List SubProduct → Action (List SubProduct)
insert_sub_products actor product_id [] = pure []
insert_sub_products actor product_id (p ∷ ps) = do
  rows ← or_crash (← query (λ d. flush (p ∷ ps) d.sub_products))
  modify (λ d. record d { sub_products = rows })
  sub_product_log "sub_product.created" actor product_id none
  commit
  pure (p ∷ ps)

unfoldable pub create_sub_products :
    SubProductEnvironment → ℕ → User → List String → Action (List SubProduct)
create_sub_products env product_id actor names = do
  created ← or_crash (← query (build_sub_products env env.first_id product_id actor names))
  insert_sub_products actor product_id created

-- `UpdateSubProductRequest` of app/modules/sub_products/schemas.py.
pub record SubProductChanges : Type 0 where
  pub name : Option String
  pub status : Option ProductStatus
  pub branding_mode : Option SubProductBrandingMode

-- The slug after a change of name, if the name changes.
abbrev pub renamed_slug : (String → String) → SubProduct → Option String → Database → Option String
renamed_slug normalize p none d = some p.slug
renamed_slug normalize p (some name) d =
    if str_eq name p.name
    then some p.slug
    else unique_sub_product_slug normalize p.product_id name (some p.id) d

abbrev pub changed_sub_product : SubProduct → SubProductChanges → String → SubProduct
changed_sub_product p changes slug = record p {
  name = merge changes.name p.name;
  slug = slug;
  status = merge changes.status p.status;
  branding_mode = merge changes.branding_mode p.branding_mode;
}

abbrev pub put_sub_product : SubProduct → Database → Database
put_sub_product p d = record d { sub_products = update (λ r. r.id == p.id) (λ _. p) d.sub_products }

unfoldable pub update_sub_product :
    (String → String) → ℕ → User → SubProductChanges → Action SubProduct
update_sub_product normalize sub_product_id actor changes = do
  sub_product ←
      or_raise (live (λ (p : SubProduct). p.deleted_at) (← query (get_sub_product sub_product_id)))
        not_found
  slug ← or_crash (← query (renamed_slug normalize sub_product changes.name))
  let changed = changed_sub_product sub_product changes slug
  modify (put_sub_product changed)
  sub_product_log "sub_product.updated" actor sub_product.product_id (some sub_product_id)
  commit
  pure changed

unfoldable pub delete_sub_product : ℕ → User → ℕ → Action (Unit {0})
delete_sub_product sub_product_id actor now = do
  sub_product ←
      or_raise (live (λ (p : SubProduct). p.deleted_at) (← query (get_sub_product sub_product_id)))
        not_found
  modify (put_sub_product (record sub_product { deleted_at = some now }))
  sub_product_log "sub_product.deleted" actor sub_product.product_id (some sub_product_id)
  commit
