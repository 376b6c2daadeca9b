-- ===== src/Products/Team/Requests.antt =====
-- The requests to `ProductService` that add, invite and remove members of products
-- (app/modules/products/service.py).
use aidigiplanner_backend.Base.{
  ℕ, ◌≡◌, refl, sym, ap, ◌∙◌, subst, Bool, true, not, ◌==◌, String, Option, none, some, List, [],
  ◌∷◌, is_none, All-select, first, first-test, select, arith, Bool-cases, Option-cases, inl, inr,
}
use aidigiplanner_backend.Model.{Database, User, Product, ProductMember, Email, Task}
use aidigiplanner_backend.Model.Session.{
  open_session, Result-cases, ◌>>=◌, or_raise, live, not_found, >>=-ok, >>=-err,
}
use aidigiplanner_backend.Model.Queries.{
  get_user, get_product, company_membership, product_membership,
}
use aidigiplanner_backend.Companies.Provisioning.{
  ProvisioningEnvironment, Provisioned, find_or_create_user_by_email,
}
use aidigiplanner_backend.Products.Team.{
  Assignment, new_product_member, add_member, join_company, invite_provisioned, invite_member,
  find_product_member, remove_member,
}
use aidigiplanner_backend.Products.Team.Rows.{
  IsTeam, is_backed, OneEach-select, Grows_same, by_rows, with_row, untouched, provision-only,
  joined, committed_of, session_path, backed_row,
}

module _ (d : Database) (h : IsTeam d) where
  remove_member-IsTeam :
      (product_id member_id : ℕ) (actor : User)
      → IsTeam (remove_member product_id member_id actor (open_session d)).1.committed
  unfolding remove_member
  remove_member-IsTeam product_id member_id actor =
      let d' = (remove_member product_id member_id actor (open_session d)).1.committed in
      elim (Option-cases (find_product_member product_id member_id d)) [
        | inl missing ↦ untouched d h d' (ground arith) (ground arith) (ground arith)
        | inr (m, found) ↦
            let q : ProductMember → Bool = λ r. not (r.id == m.id) in
            by_rows d h d' (select q d.product_members) (ground arith) (ground arith)
              (Grows_same d d' (ground arith)) (OneEach-select q d.product_members h.0)
              (All-select (λ m. is_backed d m ≡ true) q d.product_members h.1)
      ]

  add_member-IsTeam :
      (env : ProvisioningEnvironment) (product_id : ℕ) (actor : User) (user_id : ℕ)
      (assignment : Assignment)
      → IsTeam (add_member env product_id actor user_id assignment (open_session d)).1.committed
  unfolding add_member get_product company_membership
  add_member-IsTeam env product_id actor user_id assignment =
      let d' = (add_member env product_id actor user_id assignment (open_session d)).1.committed in
      let m = new_product_member env product_id user_id assignment actor in
      elim (Option-cases (first (λ (p : Product). p.id == product_id) d.products)) [
        | inl missing ↦ untouched d h d' (ground arith) (ground arith) (ground arith)
        | inr (p, found) ↦ elim (Bool-cases (is_none p.deleted_at)) [
          | inr gone ↦ untouched d h d' (ground arith) (ground arith) (ground arith)
          | inl there ↦ elim (Option-cases (get_user user_id d)) [
            | inl nobody ↦ untouched d h d' (ground arith) (ground arith) (ground arith)
            | inr (u, known) ↦ elim (Bool-cases (is_none u.deleted_at)) [
              | inr gone ↦ untouched d h d' (ground arith) (ground arith) (ground arith)
              | inl kept ↦ elim (Option-cases (company_membership p.company_id user_id d)) [
                | inl foreign ↦ untouched d h d' (ground arith) (ground arith) (ground arith)
                | inr (c, member) ↦ elim (Option-cases (product_membership product_id user_id d)) [
                  | inr (r, twice) ↦ untouched d h d' (ground arith) (ground arith) (ground arith)
                  | inl once ↦
                      let products : d'.products ≡ d.products = ground arith in
                      let members : d'.company_members ≡ d.company_members = ground arith in
                      with_row d h d' m (ground arith) products (Grows_same d d' members) once
                        (backed_row d' p m (rw products found) (rw members (ground arith)))
                ]
              ]
            ]
          ]
        ]
      ]

  invited :
      (env : ProvisioningEnvironment) (p : Product) (actor : User) (assignment : Assignment)
      (target : Provisioned) (us : List User) (outbox : List Email) (queue : List Task)
      → get_product p.id d ≡ some p
      → IsTeam
          (invite_provisioned env p actor assignment target (record {
            db = record d { users = us };
            committed = d;
            outbox = outbox;
            queue = queue;
          })).1.committed
  unfolding get_product product_membership company_membership
  invited env p actor assignment (user, password) us outbox queue found =
      let d' =
        (invite_provisioned env p actor assignment (user, password)
          (record {
            db = record d { users = us };
            committed = d;
            outbox = outbox;
            queue = queue;
          })).1.committed in
      let j = join_company env p.company_id user.id actor (record d { users = us }) in
      let m = new_product_member env p.id user.id assignment actor in
      let (grows, member, products, rows) =
        joined env p.company_id user.id actor (record d { users = us }) in
      elim (Option-cases (product_membership p.id user.id d)) [
        | inr (r, twice) ↦
            let again : product_membership p.id user.id j ≡ some r = rw rows twice in
            untouched d h d' (ground arith) (ground arith) (ground arith)
        | inl once ↦
            let again : product_membership p.id user.id j ≡ none = rw rows once in
            let same : d'.products ≡ d.products = ground arith in
            let members : d'.company_members ≡ j.company_members = ground arith in
            let added : d'.product_members ≡ m ∷ d.product_members = ground arith in
            with_row d h d' m added same (λ c u here. rw members (grows c u here)) once
              (backed_row d' p m (rw same found) (rw members member))
      ]

  invited_by_email :
      (env : ProvisioningEnvironment) (p : Product) (actor : User) (email : String)
      (name : Option String) (assignment : Assignment)
      → get_product p.id d ≡ some p
      → IsTeam
          ((find_or_create_user_by_email env email name
              >>= invite_provisioned env p actor assignment)
            (open_session d)).1.committed
  invited_by_email env p actor email name assignment found =
      let find = find_or_create_user_by_email env email name in
      let rest = invite_provisioned env p actor assignment in
      let only = provision-only env email name (open_session d) in
      elim (Result-cases (find (open_session d))) [
        | inr (e, t, failed) ↦
            let kept : t.committed ≡ d = rw failed at only.2 in
            subst IsTeam
              (sym (ap committed_of (>>=-err find rest (open_session d) e t failed) ∙ kept)) h
        | inl (target, t, made) ↦
            let next = >>=-ok find rest (open_session d) target t made in
            let kept : t.committed ≡ d = rw made at only.2 in
            let users : t.db ≡ record d { users = only.0 } = rw made at only.1 in
            let there = session_path t (record d { users = only.0 }) d users kept in
            subst IsTeam (sym (ap committed_of (next ∙ ap (rest target) there)))
              (invited env p actor assignment target only.0 t.outbox t.queue found)
      ]

  invite_member-IsTeam :
      (env : ProvisioningEnvironment) (product_id : ℕ) (actor : User) (email : String)
      (name : Option String) (assignment : Assignment)
      → IsTeam
          (invite_member env product_id actor email name assignment (open_session d)).1.committed
  unfolding invite_member get_product
  invite_member-IsTeam env product_id actor email name assignment =
      let d' =
        (invite_member env product_id actor email name assignment (open_session d)).1.committed in
      elim (Option-cases (first (λ (p : Product). p.id == product_id) d.products)) [
        | inl missing ↦ untouched d h d' (ground arith) (ground arith) (ground arith)
        | inr (p, found) ↦ elim (Bool-cases (is_none p.deleted_at)) [
          | inr gone ↦ untouched d h d' (ground arith) (ground arith) (ground arith)
          | inl there ↦
              let t = first-test (λ (p : Product). p.id == product_id) d.products found in
              let own : p.id ≡ product_id = ground arith in
              let past : live (λ (p : Product). p.deleted_at) (get_product product_id d) ≡ some p =
                ground arith in
              let step : invite_member env product_id actor email name assignment (open_session d)
                  ≡ (find_or_create_user_by_email env email name
                        >>= invite_provisioned env p actor assignment)
                      (open_session d) =
                >>=-ok
                  (or_raise (live (λ (p : Product). p.deleted_at) (get_product product_id d))
                    not_found)
                  (λ product.
                    find_or_create_user_by_email env email name
                    >>= invite_provisioned env product actor assignment)
                  (open_session d) p (open_session d) (rw past refl) in
              subst IsTeam (sym (ap committed_of step)) (
                invited_by_email env p actor email name assignment
                  (ap (λ i. get_product i d) own ∙ found))
        ]
      ]

pub data TeamOperation : Type 0 where
  post_member : ℕ → Assignment → TeamOperation
  post_invite : String → Option String → Assignment → TeamOperation
  delete_member : ℕ → TeamOperation

pub record TeamRequest : Type 0 where
  pub env : ProvisioningEnvironment
  pub product_id : ℕ
  pub actor : User
  pub operation : TeamOperation

-- The database after the operation; what was not committed is lost.
abbrev pub run : ProvisioningEnvironment → ℕ → User → TeamOperation → Database → Database
run env product_id actor (TeamOperation.post_member user_id assignment) d =
    (add_member env product_id actor user_id assignment (open_session d)).1.committed
run env product_id actor (TeamOperation.post_invite email name assignment) d =
    (invite_member env product_id actor email name assignment (open_session d)).1.committed
run env product_id actor (TeamOperation.delete_member member_id) d =
    (remove_member product_id member_id actor (open_session d)).1.committed

unfoldable pub serve_team : List TeamRequest → Database → Database
serve_team [] d = d
serve_team (r ∷ rs) d = serve_team rs (run r.env r.product_id r.actor r.operation d)

run-IsTeam :
    (env : ProvisioningEnvironment) (product_id : ℕ) (actor : User) (o : TeamOperation)
    (d : Database)
    → IsTeam d
    → IsTeam (run env product_id actor o d)
run-IsTeam env product_id actor (TeamOperation.post_member user_id assignment) d h =
    add_member-IsTeam d h env product_id actor user_id assignment
run-IsTeam env product_id actor (TeamOperation.post_invite email name assignment) d h =
    invite_member-IsTeam d h env product_id actor email name assignment
run-IsTeam env product_id actor (TeamOperation.delete_member member_id) d h =
    remove_member-IsTeam d h product_id member_id actor

-- Over every sequence of requests that add, invite and remove members of products, refused or not, it
-- stays so that no user has two rows in a product, and that whoever has a row in a product that is there
-- has one in the company that owns it.
pub serve_team-IsTeam : (rs : List TeamRequest) (d : Database) → IsTeam d → IsTeam (serve_team rs d)
unfolding serve_team
serve_team-IsTeam [] d h = h
serve_team-IsTeam (r ∷ rs) d h =
    serve_team-IsTeam rs (run r.env r.product_id r.actor r.operation d)
      (run-IsTeam r.env r.product_id r.actor r.operation d h)
