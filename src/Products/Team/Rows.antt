-- ===== src/Products/Team/Rows.antt =====
-- The rows of `ProductMember` under the requests to `ProductService` (app/modules/products/service.py).
use aidigiplanner_backend.Base.{
  ℕ, ◌≡◌, sym, subst, Bool, true, false, ◌&&◌, ◌==◌, String, Option, none, some, List, [], ◌∷◌,
  is_none, is_some, All, All-map_imp, All-select, first, select, arith, Bool-cases, Option-cases,
  inl, inr,
}
use aidigiplanner_backend.Model.{Database, User, Product, ProductMember, CompanyMember}
use aidigiplanner_backend.Model.Session.{Session, Result}
use aidigiplanner_backend.Model.Queries.{get_product, company_membership, product_membership}
use aidigiplanner_backend.Auth.Login.{find_user}
use aidigiplanner_backend.Companies.Provisioning.{
  ProvisioningEnvironment, find_or_create_user_by_email, given_name, new_user,
}
use aidigiplanner_backend.Products.Team.{join_company}

abbrev pub same_place : ProductMember → ProductMember → Bool
same_place a b = b.product_id == a.product_id && b.user_id == a.user_id

-- No user has two rows in a product.
abbrev pub OneEach : List ProductMember → Type 0
OneEach [] = Unit
OneEach (m ∷ ms) = All (λ r. same_place m r ≡ false) ms × OneEach ms

abbrev pub backed_by : ℕ → Option Product → Database → Bool
backed_by user_id none d = true
backed_by user_id (some p) d = is_some (company_membership p.company_id user_id d)

-- The user has a row in the company that owns the product.
abbrev pub is_backed : Database → ProductMember → Bool
is_backed d m = backed_by m.user_id (get_product m.product_id d) d

abbrev pub IsTeam : Database → Type 0
IsTeam d = OneEach d.product_members × All (λ m. is_backed d m ≡ true) d.product_members

pub OneEach-select :
    (q : ProductMember → Bool) (ms : List ProductMember) → OneEach ms → OneEach (select q ms)
OneEach-select q [] h = tt
OneEach-select q (m ∷ ms) h = elim (Bool-cases (q m)) [
  | inl kept ↦ rw kept (All-select (λ r. same_place m r ≡ false) q ms h.0, OneEach-select q ms h.1)
  | inr dropped ↦ rw dropped (OneEach-select q ms h.1)
]

apart_of_missing :
    (m : ProductMember) (ms : List ProductMember)
    → first (λ r. r.product_id == m.product_id && r.user_id == m.user_id) ms ≡ none
    → All (λ r. same_place m r ≡ false) ms
apart_of_missing m [] h = tt
apart_of_missing m (r ∷ ms) h = (ground arith, apart_of_missing m ms (ground arith))

-- Every row of a company is still there.
abbrev pub Grows : Database → Database → Type 0
Grows d d' =
    (c u : ℕ)
    → is_some (company_membership c u d) ≡ true
    → is_some (company_membership c u d') ≡ true

pub is_backed-Grows :
    (d d' : Database) (m : ProductMember)
    → d'.products ≡ d.products
    → Grows d d'
    → is_backed d m ≡ true
    → is_backed d' m ≡ true
unfolding get_product
is_backed-Grows d d' m same grows backed =
    elim (Option-cases (first (λ (p : Product). p.id == m.product_id) d.products)) [
      | inl missing ↦ ground arith
      | inr (p, found) ↦ let still = grows p.company_id m.user_id (ground arith) in ground arith
    ]

pub Grows_same : (d d' : Database) → d'.company_members ≡ d.company_members → Grows d d'
unfolding company_membership
Grows_same d d' same c u h = rw same h

module _ (d : Database) (h : IsTeam d) where
  -- Through the tables that a session has committed.
  pub by_rows :
      (d' : Database) (ms : List ProductMember)
      → d'.product_members ≡ ms
      → d'.products ≡ d.products
      → Grows d d'
      → OneEach ms
      → All (λ m. is_backed d m ≡ true) ms
      → IsTeam d'
  by_rows d' ms rows products grows once backed =
      subst (λ ms. OneEach ms × All (λ m. is_backed d' m ≡ true) ms) (sym rows)
        (
          once,
          All-map_imp (λ m. is_backed d m ≡ true) (λ m. is_backed d' m ≡ true)
              (λ m b. is_backed-Grows d d' m products grows b) ms backed,
        )

  -- With one row more.
  pub with_row :
      (d' : Database) (m : ProductMember)
      → d'.product_members ≡ m ∷ d.product_members
      → d'.products ≡ d.products
      → Grows d d'
      → product_membership m.product_id m.user_id d ≡ none
      → is_backed d' m ≡ true
      → IsTeam d'
  unfolding product_membership
  with_row d' m rows products grows missing backed =
      subst (λ ms. OneEach ms × All (λ m. is_backed d' m ≡ true) ms) (sym rows)
        (
          (apart_of_missing m d.product_members missing, h.0),
          (
            backed,
            All-map_imp (λ m. is_backed d m ≡ true) (λ m. is_backed d' m ≡ true)
                (λ m b. is_backed-Grows d d' m products grows b) d.product_members h.1,
          ),
        )

  pub untouched :
      (d' : Database)
      → d'.product_members ≡ d.product_members
      → d'.products ≡ d.products
      → d'.company_members ≡ d.company_members
      → IsTeam d'
  untouched d' rows products members =
      by_rows d' d.product_members rows products (Grows_same d d' members) h.0 h.1

-- Finding or making an account touches no other table and commits nothing.
pub provision-only :
    (env : ProvisioningEnvironment) (email : String) (name : Option String) (s : Session)
    → (us : List User) × ((find_or_create_user_by_email env email name s).1.db
        ≡ record s.db { users = us })
      × ((find_or_create_user_by_email env email name s).1.committed ≡ s.committed)
unfolding find_or_create_user_by_email
provision-only env email name s = elim (Option-cases (find_user (env.lower email) s.db)) [
  | inr (u, found) ↦ elim (Bool-cases (is_none u.deleted_at)) [
    | inl kept ↦ (s.db.users, ground arith, ground arith)
    | inr gone ↦ (s.db.users, ground arith, ground arith)
  ]
  | inl missing ↦ elim (Option-cases (given_name name)) [
    | inl nameless ↦ (s.db.users, ground arith, ground arith)
    | inr (n, named) ↦ (new_user env (env.lower email) n ∷ s.db.users, ground arith, ground arith)
  ]
]

pub joined :
    (env : ProvisioningEnvironment) (company_id user_id : ℕ) (actor : User) (d : Database)
    → Grows d (join_company env company_id user_id actor d)
      × (is_some
            (company_membership company_id user_id (join_company env company_id user_id actor d))
          ≡ true)
      × ((join_company env company_id user_id actor d).products ≡ d.products)
      × ((join_company env company_id user_id actor d).product_members ≡ d.product_members)
unfolding company_membership join_company
joined env company_id user_id actor d =
    elim (Option-cases (
      first (λ (m : CompanyMember). m.company_id == company_id && m.user_id == user_id)
        d.company_members)) [
          | inl missing ↦ (λ c u h. ground arith, ground arith, ground arith, ground arith)
          | inr (m, found) ↦ (λ c u h. ground arith, ground arith, ground arith, ground arith)
        ]

abbrev pub committed_of : {A : Type 0} → Result A × Session → Database
committed_of x = x.1.committed

pub session_path :
    (t : Session) (x y : Database)
    → t.db ≡ x
    → t.committed ≡ y
    → t ≡ record { db = x; committed = y; outbox = t.outbox; queue = t.queue }
session_path t x y e f =
    λ i. record { db = e i; committed = f i; outbox = t.outbox; queue = t.queue }

-- A new row whose user has joined the product's company.
pub backed_row :
    (d : Database) (p : Product) (m : ProductMember)
    → get_product m.product_id d ≡ some p
    → is_some (company_membership p.company_id m.user_id d) ≡ true
    → is_backed d m ≡ true
backed_row d p m found member = rw found member
