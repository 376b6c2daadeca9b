-- ===== src/Companies/Members/Gaps.antt =====
-- What the guards of `CompanyMemberService` (app/modules/companies/service.py) let pass.
use aidigiplanner_backend.Base.{
  ℕ, ◌≡◌, ◌≤◌, Bool, true, false, ◌&&◌, ◌==◌, none, some, List, [], ◌∷◌, count, update, arith,
  Distinct, count-put,
}
use aidigiplanner_backend.Model.{
  Database, User, CompanyMember, CompanyMemberStatus, Product, ProductMember, ProductRole,
  is_company_admin_role,
}
use aidigiplanner_backend.Model.Session.{ok, open_session}
use aidigiplanner_backend.Model.Queries.{get_user, get_product, product_membership}
use aidigiplanner_backend.Core.Access.{require_product_access}
use aidigiplanner_backend.Core.Access.Grants.{
  Passes, Fits, ProductGrant, require_product_access_complete,
}
use aidigiplanner_backend.Companies.Members.Admins.{admins-split}
use aidigiplanner_backend.Companies.Members.{
  update_member, remove_member, find_member, is_admin_of, active_admin_count,
}

-- A member who is no admin is removed from the company, and who held a membership of a product with a
-- fitting role is let through to that product afterwards as before.
pub removed_member_keeps_access :
    (company_id member_id : ℕ) (actor user : User) (d : Database) (m : CompanyMember) (p : Product)
    (row : ProductMember) (roles : List ProductRole)
    → find_member company_id member_id d ≡ some m
    → is_company_admin_role m.role ≡ false
    → m.user_id ≡ user.id
    → get_product p.id d ≡ some p
    → p.deleted_at ≡ none
    → product_membership p.id user.id d ≡ some row
    → Fits roles row.role
    → ((remove_member company_id member_id actor (open_session d)).0 ≡ ok tt)
      × Passes (
          require_product_access roles p.id user
            (open_session (remove_member company_id member_id actor (open_session d)).1.committed))
unfolding remove_member get_product product_membership
removed_member_keeps_access company_id member_id actor user d m p row roles found plain self there
      kept member fits =
    let d' = (remove_member company_id member_id actor (open_session d)).1.committed in
    let products : d'.products ≡ d.products = ground arith in
    let members : d'.product_members ≡ d.product_members = ground arith in
    (
      ground arith,
      require_product_access_complete roles p.id user (open_session d') p (rw products there) kept
          (ProductGrant.member row (rw members member) fits),
    )

abbrev pub is_active : CompanyMemberStatus → Bool
is_active CompanyMemberStatus.active = true
is_active CompanyMemberStatus.suspended = false

abbrev pub is_active_admin_of : ℕ → CompanyMember → Bool
is_active_admin_of company_id m = is_admin_of company_id m && is_active m.status

count-le {ℓ} : {A : Type ℓ} (p q : A → Bool) (xs : List A) → count (λ x. p x && q x) xs ≤ count p xs
count-le p q [] = omega arith
count-le p q (x ∷ xs) = let rest = count-le p q xs in ground arith

-- The only admin of a company, who is active, can be suspended: no admin is active afterwards.
pub last_admin_suspended :
    (company_id member_id : ℕ) (actor user : User) (d : Database) (m : CompanyMember)
    → Distinct (λ (r : CompanyMember). r.id) d.company_members
    → find_member company_id member_id d ≡ some m
    → get_user m.user_id d ≡ some user
    → is_active_admin_of company_id m ≡ true
    → active_admin_count company_id m.id d ≡ 0
    → count
        (is_active_admin_of company_id)
        (update_member company_id member_id actor none
          (some CompanyMemberStatus.suspended)
          (open_session d)).1.committed.company_members
      ≡ 0
unfolding update_member get_user find_member
last_admin_suspended company_id member_id actor user d m keys found there active last =
    let m' : CompanyMember = record m { status = CompanyMemberStatus.suspended } in
    let d' =
      (update_member company_id member_id actor none (some CompanyMemberStatus.suspended)
        (open_session d)).1.committed in
    let rows : d'.company_members ≡ update (λ r. r.id == m.id) (λ _. m') d.company_members =
      ground arith in
    let counted =
      count-put (λ r. r.id) (is_active_admin_of company_id)
        (λ m. m.id == member_id && m.company_id == company_id) m m' d.company_members keys found in
    let all = admins-split d keys company_id member_id m found in
    let fewer = count-le (is_admin_of company_id) (λ m. is_active m.status) d.company_members in
    rw rows (ground arith)
