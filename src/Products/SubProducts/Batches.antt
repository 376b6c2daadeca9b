-- ===== src/Products/SubProducts/Batches.antt =====
-- Batches of names in one request to `create_sub_products` (app/modules/sub_products/service.py).
use text.Mathlib.TextPositions.{eq_refl}
use aidigiplanner_backend.Base.{
  ℕ, ◌+◌, ◌≡◌, refl, true, false, str_eq, String, none, List, ◌∷◌, arith, Bool-cases, Option-cases,
  inl, inr,
}
use aidigiplanner_backend.Model.{Database, User, SubProduct}
use aidigiplanner_backend.Model.Session.{err, crash, open_session}
use aidigiplanner_backend.Core.Slugs.{slugify}
use aidigiplanner_backend.Products.SubProducts.{
  SubProductEnvironment, unique_sub_product_slug, new_sub_product, build_sub_products, prepend,
  breaks_constraint, flush, create_sub_products,
}

-- Two rows that share a product and a slug do not go in together.
flush-clash :
    (p q : SubProduct) (ps rows : List SubProduct)
    → q.product_id ≡ p.product_id
    → q.slug ≡ p.slug
    → flush (p ∷ q ∷ ps) rows ≡ none
unfolding flush
flush-clash p q ps rows same_product same_slug =
    let own = eq_refl p.slug in
    elim (Bool-cases (breaks_constraint p rows)) [
      | inl before ↦ ground arith
      | inr fresh ↦
          let again : breaks_constraint q (p ∷ rows) ≡ true =
            rw same_slug (rw own (ground arith)) in
          ground arith
    ]

same_unique_slug :
    (normalize : String → String) (product_id : ℕ) (a b : String) (d : Database)
    → slugify normalize a ≡ slugify normalize b
    → unique_sub_product_slug normalize product_id a none d
      ≡ unique_sub_product_slug normalize product_id b none d
unfolding unique_sub_product_slug
same_unique_slug normalize product_id a b d same = rw same refl

build-step :
    (env : SubProductEnvironment) (id product_id : ℕ) (actor : User) (name : String)
    (names : List String) (d : Database)
    → str_eq (env.strip name) "" ≡ false
    → build_sub_products env id product_id actor (name ∷ names) d
      ≡ prepend
          (new_sub_product id product_id actor (env.strip name))
          (unique_sub_product_slug env.normalize product_id (env.strip name) none d)
          (build_sub_products env (id + 1) product_id actor names d)
unfolding build_sub_products
build-step env id product_id actor name names d named = ground arith

-- A request whose first two names are not blank and have the same slug before it is numbered fails with
-- an exception that is no answer of the API, and stores nothing, not even the other names.
pub clashing_batch :
    (env : SubProductEnvironment) (product_id : ℕ) (actor : User) (a b : String)
    (names : List String) (d : Database)
    → str_eq (env.strip a) "" ≡ false
    → str_eq (env.strip b) "" ≡ false
    → slugify env.normalize (env.strip a) ≡ slugify env.normalize (env.strip b)
    → create_sub_products env product_id actor (a ∷ b ∷ names) (open_session d)
      ≡ (err crash, open_session d)
unfolding create_sub_products
clashing_batch env product_id actor a b names d some_a some_b same =
    let id = env.first_id in
    let built = build-step env id product_id actor a (b ∷ names) d some_a in
    let next = build-step env (id + 1) product_id actor b names d some_b in
    let slugs = same_unique_slug env.normalize product_id (env.strip a) (env.strip b) d same in
    elim (Option-cases (unique_sub_product_slug env.normalize product_id (env.strip b) none d)) [
      | inl stuck ↦ ground arith
      | inr (slug, e) ↦
          elim (Option-cases (build_sub_products env (id + 1 + 1) product_id actor names d)) [
            | inl stuck ↦ ground arith
            | inr (rest, e') ↦
                let clash =
                  flush-clash (new_sub_product id product_id actor (env.strip a) slug)
                    (new_sub_product (id + 1) product_id actor (env.strip b) slug) rest
                    d.sub_products refl refl in
                ground arith
          ]
    ]
