-- ===== src/Companies/Members/Admins.antt =====
-- The admins of a company under the requests to `CompanyMemberService`
-- (app/modules/companies/service.py).
use aidigiplanner_backend.Base.{
  ℕ, ◌+◌, ◌≤◌, ◌≡◌, refl, ap, Bool, false, not, ◌&&◌, ◌==◌, String, Option, none, some, List, [],
  ◌∷◌, is_none, first-test, update, count, remove, select, one_if, Distinct, IsUnused, count-put,
  count-remove, Distinct-update, Distinct-select, arith, Bool-cases, Option-cases, inl, inr, ◌⊎◌,
  merge,
}
use aidigiplanner_backend.Model.{
  Database, User, CompanyMember, CompanyRole, CompanyMemberStatus, is_company_admin_role,
}
use aidigiplanner_backend.Model.Session.{Session, open_session, Result-cases, >>=-ok, >>=-err}
use aidigiplanner_backend.Model.Queries.{get_user}
use aidigiplanner_backend.Auth.Login.{find_user}
use aidigiplanner_backend.Companies.Provisioning.{
  ProvisioningEnvironment, Provisioned, find_or_create_user_by_email, given_name,
}
use aidigiplanner_backend.Companies.Members.{
  add_member, update_member, remove_member, is_admin_of, active_admin_count, find_member,
  new_member, is_duplicate, add_provisioned, is_demotion,
}

pub data MemberOperation : Type 0 where
  post_member : String → Option String → CompanyRole → MemberOperation
  patch_member : ℕ → Option CompanyRole → Option CompanyMemberStatus → MemberOperation
  delete_member : ℕ → MemberOperation

pub record MemberRequest : Type 0 where
  pub env : ProvisioningEnvironment
  pub company_id : ℕ
  pub actor : User
  pub operation : MemberOperation

-- The database after the operation; what was not committed is lost.
abbrev pub run : ProvisioningEnvironment → ℕ → User → MemberOperation → Database → Database
run env company_id actor (MemberOperation.post_member email full_name role) d =
    (add_member env company_id actor email full_name role (open_session d)).1.committed
run env company_id actor (MemberOperation.patch_member member_id role status) d =
    (update_member company_id member_id actor role status (open_session d)).1.committed
run env company_id actor (MemberOperation.delete_member member_id) d =
    (remove_member company_id member_id actor (open_session d)).1.committed

unfoldable pub serve_members : List MemberRequest → Database → Database
serve_members [] d = d
serve_members (r ∷ rs) d = serve_members rs (run r.env r.company_id r.actor r.operation d)

abbrev pub member_id : CompanyMember → ℕ
member_id m = m.id

abbrev pub HasKeys : Database → Type 0
HasKeys d = Distinct member_id d.company_members

abbrev pub admins : ℕ → Database → ℕ
admins company_id d = count (is_admin_of company_id) d.company_members

count-select {ℓ} :
    {A : Type ℓ} (p q : A → Bool) (xs : List A) → count p (select q xs) ≡ count (λ x. p x && q x) xs
count-select p q [] = refl
count-select p q (x ∷ xs) =
    let rest = count-select p q xs in
    elim (Bool-cases (q x)) [ inl hit ↦ ground arith | inr miss ↦ ground arith ]

module _ (d : Database) (keys : HasKeys d) (company_id member_id' : ℕ) (m : CompanyMember)
    (found : find_member company_id member_id' d ≡ some m) where
  own_company : (m.company_id ≡ company_id)
  unfolding find_member
  own_company =
      let t =
        first-test (λ m. m.id == member_id' && m.company_id == company_id) d.company_members
          found in
      ground arith

  -- The member's row and the others.
  pub admins-split :
      active_admin_count company_id m.id d + one_if (is_admin_of company_id m) ≡ admins company_id d
  unfolding find_member active_admin_count
  admins-split =
      let removed =
        count-remove member_id (is_admin_of company_id)
          (λ m. m.id == member_id' && m.company_id == company_id) m d.company_members keys found in
      let others =
        count-select (is_admin_of company_id) (λ r. not (r.id == m.id)) d.company_members in
      ground arith

  -- A write of the member's row that keeps its key and company, and a guard on demoting an admin.
  put-admins :
      (m' : CompanyMember) (company : ℕ)
      → m'.company_id ≡ m.company_id
      → (is_company_admin_role m.role
          && not (is_company_admin_role m'.role)
          && active_admin_count company_id m.id d == 0)
        ≡ false
      → 1 ≤ admins company d
      → 1 ≤ count (is_admin_of company) (update (λ r. r.id == m.id) (λ _. m') d.company_members)
  unfolding find_member
  put-admins m' company same guard some_admin =
      let own = own_company in
      let split = admins-split in
      let counted =
        count-put member_id (is_admin_of company)
          (λ m. m.id == member_id' && m.company_id == company_id) m m' d.company_members keys
          found in
      elim (Bool-cases (company == company_id)) [
        | inl here ↦
            let e : company_id ≡ company = ground arith in
            let here_too : admins company_id d ≡ admins company d = ap (λ c. admins c d) e in
            ground arith
        | inr other ↦ ground arith
      ]

  -- The removal of the row, unless it is the last admin's.
  remove-admins :
      (company : ℕ)
      → (is_company_admin_role m.role && active_admin_count company_id m.id d == 0) ≡ false
      → 1 ≤ admins company d
      → 1 ≤ count (is_admin_of company) (remove (λ r. r.id == m.id) d.company_members)
  unfolding find_member
  remove-admins company guard some_admin =
      let own = own_company in
      let split = admins-split in
      let counted =
        count-remove member_id (is_admin_of company)
          (λ m. m.id == member_id' && m.company_id == company_id) m d.company_members keys found in
      elim (Bool-cases (company == company_id)) [
        | inl here ↦
            let e : company_id ≡ company = ground arith in
            let here_too : admins company_id d ≡ admins company d = ap (λ c. admins c d) e in
            ground arith
        | inr other ↦ ground arith
      ]

-- The keys of memberships are distinct, and the company has an admin.
abbrev pub IsAdministered : ℕ → Database → Type 0
IsAdministered company d = HasKeys d × (1 ≤ admins company d)

demotion :
    (role : Option CompanyRole) (old : CompanyRole) (k : Bool)
    → (is_company_admin_role old && is_demotion role && k) ≡ false
    → (is_company_admin_role old && not (is_company_admin_role (merge role old)) && k) ≡ false
demotion none old k h = ground arith
demotion (some role) old k h = h

module _ (company : ℕ) (d : Database) (h : IsAdministered company d) where
  -- Through the table of memberships that a session has committed.
  by_members :
      (d' : Database) (ms : List CompanyMember)
      → d'.company_members ≡ ms
      → Distinct member_id ms × (1 ≤ count (is_admin_of company) ms)
      → IsAdministered company d'
  by_members d' ms e both = rw e both

  unchanged : (d' : Database) → d'.company_members ≡ d.company_members → IsAdministered company d'
  unchanged d' e = by_members d' d.company_members e h

  remove_member-IsAdministered :
      (company_id member_id' : ℕ) (actor : User)
      → IsAdministered company
          (remove_member company_id member_id' actor (open_session d)).1.committed
  unfolding remove_member
  remove_member-IsAdministered company_id member_id' actor =
      elim (Option-cases (find_member company_id member_id' d)) [
        | inl missing ↦
            unchanged (remove_member company_id member_id' actor (open_session d)).1.committed
              (ground arith)
        | inr (m, found) ↦
            elim (Bool-cases
              (is_company_admin_role m.role && active_admin_count company_id m.id d == 0)) [
                | inl last ↦
                    unchanged
                      (remove_member company_id member_id' actor (open_session d)).1.committed
                      (ground arith)
                | inr allowed ↦
                    by_members
                      (remove_member company_id member_id' actor (open_session d)).1.committed
                      (remove (λ r. r.id == m.id) d.company_members) (ground arith)
                      (
                        Distinct-select member_id (λ r. not (r.id == m.id)) d.company_members h.0,
                        remove-admins d h.0 company_id member_id' m found company allowed h.1,
                      )
              ]
      ]

  update_member-IsAdministered :
      (company_id member_id' : ℕ) (actor : User) (role : Option CompanyRole)
      (status : Option CompanyMemberStatus)
      → IsAdministered company
          (update_member company_id member_id' actor role status (open_session d)).1.committed
  unfolding update_member get_user
  update_member-IsAdministered company_id member_id' actor role status =
      elim (Option-cases (find_member company_id member_id' d)) [
        | inl missing ↦
            unchanged
              (update_member company_id member_id' actor role status (open_session d)).1.committed
              (ground arith)
        | inr (m, found) ↦
            elim (Bool-cases (
              is_company_admin_role m.role
              && is_demotion role
              && active_admin_count company_id m.id d == 0)) [
                | inl last ↦
                    unchanged
                      (update_member company_id member_id' actor role status
                        (open_session d)).1.committed
                      (ground arith)
                | inr allowed ↦ elim (Option-cases (get_user m.user_id d)) [
                  | inl nobody ↦
                      unchanged
                        (update_member company_id member_id' actor role status
                          (open_session d)).1.committed
                        (ground arith)
                  | inr (u, there) ↦
                      let m' : CompanyMember = record m {
                        role = merge role m.role;
                        status = merge status m.status;
                      } in
                      by_members
                        (update_member company_id member_id' actor role status
                          (open_session d)).1.committed
                        (update (λ r. r.id == m.id) (λ _. m') d.company_members) (ground arith)
                        (
                          Distinct-update member_id (λ r. r.id == m.id) (λ _. m') d.company_members
                              (λ x hit. ground arith) h.0,
                          put-admins d h.0 company_id member_id' m found m' company refl
                              (demotion role m.role _ allowed) h.1,
                        )
                ]
              ]
      ]

-- Finding or making an account leaves memberships alone and commits nothing.
pub provision-quiet :
    (env : ProvisioningEnvironment) (email : String) (name : Option String) (s : Session)
    → ((find_or_create_user_by_email env email name s).1.db.company_members ≡ s.db.company_members)
      × ((find_or_create_user_by_email env email name s).1.committed ≡ s.committed)
unfolding find_or_create_user_by_email
provision-quiet env email name s = elim (Option-cases (find_user (env.lower email) s.db)) [
  | inr (u, found) ↦ elim (Bool-cases (is_none u.deleted_at)) [
    | inl kept ↦ (ground arith, ground arith)
    | inr gone ↦ (ground arith, ground arith)
  ]
  | inl missing ↦ elim (Option-cases (given_name name)) [
    | inl nameless ↦ (ground arith, ground arith)
    | inr (n, named) ↦ (ground arith, ground arith)
  ]
]

module _ (env : ProvisioningEnvironment) (company_id : ℕ) (actor : User) (role : CompanyRole) where
  -- What `add_member` does once it has the account.
  added :
      (target : Provisioned) (d : Database) (s : Session)
      → s.db.company_members ≡ d.company_members
      → s.committed ≡ d
      → ((add_provisioned env company_id actor role target s).1.committed.company_members
          ≡ d.company_members)
        ⊎ ((add_provisioned env company_id actor role target s).1.committed.company_members
            ≡ new_member env company_id target.0.id role actor ∷ d.company_members)
  added (user, none) d s e f = elim (Bool-cases (is_duplicate company_id (user, none) s.db)) [
    | inl twice ↦ inl (ground arith)
    | inr once ↦ inr (ground arith)
  ]
  added (user, some password) d s e f = inr (ground arith)

module _ (company : ℕ) (d : Database) (h : IsAdministered company d) where
  with_member :
      (d' : Database) (m : CompanyMember)
      → IsUnused member_id m.id d.company_members
      → d'.company_members ≡ m ∷ d.company_members
      → IsAdministered company d'
  with_member d' m unused e =
      let before = h.1 in
      by_members company d h d' (m ∷ d.company_members) e ((unused, h.0), ground arith)

  add_member-IsAdministered :
      (env : ProvisioningEnvironment) (company_id : ℕ) (actor : User) (email : String)
      (name : Option String) (role : CompanyRole)
      → IsUnused member_id env.member_id d.company_members
      → IsAdministered company
          (add_member env company_id actor email name role (open_session d)).1.committed
  unfolding add_member
  add_member-IsAdministered env company_id actor email name role unused =
      let quiet = provision-quiet env email name (open_session d) in
      let rest = add_provisioned env company_id actor role in
      elim (Result-cases (find_or_create_user_by_email env email name (open_session d))) [
        | inr (e, t, failed) ↦
            let same =
              >>=-err (find_or_create_user_by_email env email name) rest (open_session d) e t
                failed in
            let kept : t.committed ≡ d = rw failed at quiet.1 in rw same (rw kept h)
        | inl (target, t, made) ↦
            let same =
              >>=-ok (find_or_create_user_by_email env email name) rest (open_session d) target t
                made in
            let rows : t.db.company_members ≡ d.company_members = rw made at quiet.0 in
            let kept : t.committed ≡ d = rw made at quiet.1 in
            rw same (elim (added env company_id actor role target d t rows kept) [
              | inl e ↦
                  unchanged company d h
                    (add_provisioned env company_id actor role target t).1.committed e
              | inr e ↦
                  with_member (add_provisioned env company_id actor role target t).1.committed
                    (new_member env company_id target.0.id role actor) unused e
            ])
      ]

  run-IsAdministered :
      (env : ProvisioningEnvironment) (company_id : ℕ) (actor : User) (o : MemberOperation)
      → IsUnused member_id env.member_id d.company_members
      → IsAdministered company (run env company_id actor o d)
  run-IsAdministered env company_id actor (MemberOperation.post_member email name role) unused =
      add_member-IsAdministered env company_id actor email name role unused
  run-IsAdministered env company_id actor (MemberOperation.patch_member id role status) unused =
      update_member-IsAdministered company d h company_id id actor role status
  run-IsAdministered env company_id actor (MemberOperation.delete_member id) unused =
      remove_member-IsAdministered company d h company_id id actor

-- The key that each request would give a new membership is not in use when it comes.
abbrev pub DrawsUnused : List MemberRequest → Database → Type 0
DrawsUnused [] d = Unit
DrawsUnused (r ∷ rs) d =
    IsUnused member_id r.env.member_id d.company_members
    × DrawsUnused rs (run r.env r.company_id r.actor r.operation d)

-- Over every sequence of requests that add, change and remove members of companies, refused or not, in
-- which a new membership draws a key that is not in use, the keys of memberships stay distinct and a
-- company that has an admin, suspended or not, keeps one.
pub serve_members-IsAdministered :
    (company : ℕ) (rs : List MemberRequest) (d : Database)
    → DrawsUnused rs d
    → IsAdministered company d
    → IsAdministered company (serve_members rs d)
unfolding serve_members
serve_members-IsAdministered company [] d unused h = h
serve_members-IsAdministered company (r ∷ rs) d unused h =
    serve_members-IsAdministered company rs (run r.env r.company_id r.actor r.operation d) unused.1
      (run-IsAdministered company d h r.env r.company_id r.actor r.operation unused.0)
