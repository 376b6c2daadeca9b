-- ===== src/Companies/Admin/Recipients.antt =====
-- Who gets the mail of a decision (app/modules/admin/service.py), read off the rows.
use mathlib.Core.List.{Memᴰ, reverse_aux}
use mathlib.Core.List.Memᴰ as Membership
use aidigiplanner_backend.Base.{
  ℕ, ◌≡◌, refl, sym, ◌∙◌, ap, subst, Bool, true, ◌&&◌, ◌==◌, ◌↔◌, inl, inr, String, List, [], ◌∷◌,
  map, select, arith, Bool-cases,
}
use aidigiplanner_backend.Model.{
  Database, User, CompanyMember, CompanyRole, Email, is_company_admin_role,
}
use aidigiplanner_backend.Companies.Admin.{emails_of, company_admin_emails, deliver}

deliver-reverse : (ms outbox : List Email) → deliver ms outbox ≡ reverse_aux ms outbox
deliver-reverse [] outbox = refl
deliver-reverse (m ∷ ms) outbox = deliver-reverse ms (m ∷ outbox)

pub delivered : (ms : List Email) → deliver ms [] ≡ reverse_aux ms []
delivered ms = deliver-reverse ms []

module _ {A : Type 0} (test : A → Bool) where
  Memᴰ-select : (x : A) (xs : List A) → Memᴰ x (select test xs) → Memᴰ x xs × (test x ≡ true)
  Memᴰ-select x [] m = elim m [ ]
  Memᴰ-select x (y ∷ ys) m = elim (Bool-cases (test y)) [
    | inl hit ↦ elim (Membership.cases_cons (rw hit at m)) [
      | inl same ↦ (Memᴰ.head same, ap test same ∙ hit)
      | inr later ↦ let rest = Memᴰ-select x ys later in (Memᴰ.tail rest.0, rest.1)
    ]
    | inr miss ↦ let rest = Memᴰ-select x ys (rw miss at m) in (Memᴰ.tail rest.0, rest.1)
  ]

  select-Memᴰ : (x : A) (xs : List A) → Memᴰ x xs → test x ≡ true → Memᴰ x (select test xs)
  select-Memᴰ x [] m h = elim m [ ]
  select-Memᴰ x (y ∷ ys) (Memᴰ.head e) h = rw (ap test (sym e) ∙ h) (Memᴰ.head e)
  select-Memᴰ x (y ∷ ys) (Memᴰ.tail m) h = elim (Bool-cases (test y)) [
    | inl hit ↦ rw hit (Memᴰ.tail (select-Memᴰ x ys m h))
    | inr miss ↦ rw miss (select-Memᴰ x ys m h)
  ]

module _ (company_id : ℕ) where
  -- The address of an account that the company has as an admin.
  pub record IsRecipient (members : List CompanyMember) (users : List User) (e : String)
      : Type 0 where
    pub member : CompanyMember
    pub user : User
    pub listed : Memᴰ member members
    pub of_company : member.company_id ≡ company_id
    pub admin : member.role ≡ CompanyRole.company_admin
    pub account : Memᴰ user users
    pub theirs : user.id ≡ member.user_id
    pub address : user.email ≡ e

  admin_test :
      (m : CompanyMember) → is_company_admin_role m.role ≡ true → m.role ≡ CompanyRole.company_admin
  admin_test m h = ground arith

  wider :
      (m : CompanyMember) (ms : List CompanyMember) (users : List User) (e : String)
      → IsRecipient ms users e
      → IsRecipient (m ∷ ms) users e
  wider m ms users e r = record {
    member = r.member;
    user = r.user;
    listed = Memᴰ.tail r.listed;
    of_company = r.of_company;
    admin = r.admin;
    account = r.account;
    theirs = r.theirs;
    address = r.address;
  }

  emails_of_sound :
      (ms : List CompanyMember) (users : List User) (e : String)
      → Memᴰ e (emails_of company_id ms users)
      → IsRecipient ms users e
  emails_of_sound [] users e h = elim h [ ]
  emails_of_sound (m ∷ ms) users e h =
      elim (Bool-cases (m.company_id == company_id && is_company_admin_role m.role)) [
        | inr other ↦ wider m ms users e (emails_of_sound ms users e (rw other at h))
        | inl its_admin ↦
            elim (Membership.append_cases
              (map (λ u. u.email) (select (λ u. u.id == m.user_id) users)) (rw its_admin at h)) [
                | inr later ↦ wider m ms users e (emails_of_sound ms users e later)
                | inl here ↦
                    let (u, picked, address) =
                      Membership.of_map (λ u. u.email) (select (λ u. u.id == m.user_id) users)
                        here in
                    let found = Memᴰ-select (λ u. u.id == m.user_id) u users picked in
                    record {
                      member = m;
                      user = u;
                      listed = Memᴰ.head refl;
                      of_company = ground arith;
                      admin = admin_test m (ground arith);
                      account = found.0;
                      theirs = ground (arith, found.1);
                      address = address;
                    }
              ]
      ]

  emails_of_complete :
      (ms : List CompanyMember) (users : List User) (m : CompanyMember) (u : User)
      → Memᴰ m ms
      → m.company_id ≡ company_id
      → m.role ≡ CompanyRole.company_admin
      → Memᴰ u users
      → u.id ≡ m.user_id
      → Memᴰ u.email (emails_of company_id ms users)
  emails_of_complete [] users m u h c r account own = elim h [ ]
  emails_of_complete (x ∷ ms) users m u (Memᴰ.head e) c r account own =
      let its_admin : (x.company_id == company_id && is_company_admin_role x.role) ≡ true =
        ground arith in
      rw its_admin (
        Membership.append_left (emails_of company_id ms users) (
          Membership.map (λ (v : User). v.email)
            (select-Memᴰ (λ v. v.id == x.user_id) u users account (ground arith))))
  emails_of_complete (x ∷ ms) users m u (Memᴰ.tail h) c r account own =
      let rest = emails_of_complete ms users m u h c r account own in
      elim (Bool-cases (x.company_id == company_id && is_company_admin_role x.role)) [
        | inl its_admin ↦ rw its_admin (
            Membership.append_right (map (λ v. v.email) (select (λ v. v.id == x.user_id) users))
              rest)
        | inr other ↦ rw other rest
      ]

  -- The addresses are those of the accounts that the company has as admins.
  pub company_admin_emails_iff :
      (d : Database) (e : String)
      → Memᴰ e (company_admin_emails company_id d) ↔ IsRecipient d.company_members d.users e
  unfolding company_admin_emails
  company_admin_emails_iff d e = (
    emails_of_sound d.company_members d.users e,
    λ r.
        subst (λ x. Memᴰ x (emails_of company_id d.company_members d.users)) r.address
          (emails_of_complete d.company_members d.users r.member r.user r.listed r.of_company
            r.admin r.account r.theirs),
  )
