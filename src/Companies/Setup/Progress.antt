-- ===== src/Companies/Setup/Progress.antt =====
-- The progress of companies under the requests to `CompanyService`
-- (app/modules/companies/service.py).
use Prim.Native.String.{◌++◌}
use aidigiplanner_backend.Base.{
  ℕ, ◌≡◌, refl, sym, subst, true, ◌==◌, String, Option, none, some, List, [], ◌∷◌, is_none, first,
  first-test, arith, Bool-cases, Option-cases, inl, inr,
}
use aidigiplanner_backend.Model.{
  Database, User, Company, CompanyBrandStructure, CompanyOnboardingStep, BrandAnalysisScope,
}
use aidigiplanner_backend.Model.Session.{open_session, live}
use aidigiplanner_backend.Model.Queries.{get_company}
use aidigiplanner_backend.Creatives.BrandProfile.{get_own_brand_profile}
use aidigiplanner_backend.Companies.Onboarding.{put_company, advance_onboarding_step}
use aidigiplanner_backend.Companies.Onboarding.Progress.{
  progress, Forward, Forward-refl, Forward-trans, first-put_other, first-put_same, advance-Forward,
}
use aidigiplanner_backend.Companies.Setup.{
  select_brand_structure, update_single_brand_details, update_group_profile, upload_group_logo,
  complete_onboarding, with_website, image_extension,
}

-- Only the table of companies counts.
progress-same :
    (id : ℕ) (d d' : Database) → d'.companies ≡ d.companies → progress id d' ≡ progress id d
unfolding get_company
progress-same id d d' e = rw e refl

-- A write of a row that keeps its key and its step.
put-same :
    (company_id id : ℕ) (d : Database) (c new : Company)
    → get_company company_id d ≡ some c
    → new.id ≡ c.id
    → new.onboarding_step ≡ c.onboarding_step
    → progress id (put_company new d) ≡ progress id d
unfolding get_company
put-same company_id id d c new found same step =
    let own : (c.id == company_id) ≡ true =
      first-test (λ x. x.id == company_id) d.companies found in
    elim (Bool-cases (new.id == id)) [
      | inr other ↦ let kept = first-put_other new id d.companies other in ground arith
      | inl here ↦
          let key : id ≡ company_id = ground arith in
          let before : first (λ x. x.id == id) d.companies ≡ some c = rw key found in
          let written = first-put_same new id d.companies c here before in ground arith
    ]

pub data SetupOperation : Type 0 where
  choose_structure : CompanyBrandStructure → SetupOperation
  set_industry : ℕ → String → SetupOperation
  set_group_profile : Option String → SetupOperation
  set_group_logo : String → Option (Unit {0}) → String → SetupOperation
  finish : SetupOperation

pub record SetupRequest : Type 0 where
  pub company_id : ℕ
  pub actor : User
  pub operation : SetupOperation

-- The database after the operation; what was not committed is lost.
abbrev pub run : ℕ → User → SetupOperation → Database → Database
run company_id actor (SetupOperation.choose_structure structure) d =
    (select_brand_structure company_id actor structure (open_session d)).1.committed
run company_id actor (SetupOperation.set_industry profile_id industry) d =
    (update_single_brand_details profile_id company_id actor industry (open_session d)).1.committed
run company_id actor (SetupOperation.set_group_profile url) d =
    (update_group_profile company_id actor url (open_session d)).1.committed
run company_id actor (SetupOperation.set_group_logo key saved content_type) d =
    (upload_group_logo key saved company_id actor content_type (open_session d)).1.committed
run company_id actor SetupOperation.finish d =
    (complete_onboarding company_id actor (open_session d)).1.committed

unfoldable pub serve_setup : List SetupRequest → Database → Database
serve_setup [] d = d
serve_setup (r ∷ rs) d = serve_setup rs (run r.company_id r.actor r.operation d)

module _ (d : Database) (id : ℕ) where
  -- Through the table of companies that a session has committed.
  by_companies :
      (d' e : Database)
      → d'.companies ≡ e.companies
      → Forward (progress id d) (progress id e)
      → Forward (progress id d) (progress id d')
  by_companies d' e same forth = rw (progress-same id e d' same) forth

  unmoved : (d' : Database) → d'.companies ≡ d.companies → Forward (progress id d) (progress id d')
  unmoved d' same = by_companies d' d same (Forward-refl (progress id d))

  put_and_advanced :
      (company_id : ℕ) (step : CompanyOnboardingStep) (c new : Company)
      → get_company company_id d ≡ some c
      → new.id ≡ c.id
      → new.onboarding_step ≡ c.onboarding_step
      → Forward
          (progress id d)
          (progress id (advance_onboarding_step company_id step (put_company new d)))
  put_and_advanced company_id step c new found same kept =
      subst
        (λ o. Forward o (progress id (advance_onboarding_step company_id step (put_company new d))))
        (put-same company_id id d c new found same kept)
        (advance-Forward company_id step (put_company new d) id)

  website-same :
      (url : Option String) (c : Company)
      → ((with_website url c).id ≡ c.id)
        × ((with_website url c).onboarding_step ≡ c.onboarding_step)
  website-same none c = (refl, refl)
  website-same (some u) c = (refl, refl)

  refused :
      (company_id : ℕ) (actor : User) (o : SetupOperation)
      → live (λ (c : Company). c.deleted_at) (get_company company_id d) ≡ none
      → (run company_id actor o d).companies ≡ d.companies
  unfolding select_brand_structure update_single_brand_details update_group_profile
      upload_group_logo complete_onboarding
  refused company_id actor (SetupOperation.choose_structure structure) h = ground arith
  refused company_id actor (SetupOperation.set_industry profile_id industry) h = ground arith
  refused company_id actor (SetupOperation.set_group_profile url) h = ground arith
  refused company_id actor (SetupOperation.set_group_logo key saved content_type) h = ground arith
  refused company_id actor SetupOperation.finish h = ground arith

  structure_chosen :
      (company_id : ℕ) (actor : User) (structure : CompanyBrandStructure) (c : Company)
      → get_company company_id d ≡ some c
      → is_none c.deleted_at ≡ true
      → (run company_id actor (SetupOperation.choose_structure structure) d).companies
        ≡ (advance_onboarding_step company_id CompanyOnboardingStep.brand_structure_selected
            (put_company (record c { brand_structure = some structure }) d)).companies
  unfolding select_brand_structure
  structure_chosen company_id actor structure c found kept = ground arith

  industry_set :
      (company_id profile_id : ℕ) (actor : User) (industry : String) (c : Company)
      → get_company company_id d ≡ some c
      → is_none c.deleted_at ≡ true
      → (run company_id actor (SetupOperation.set_industry profile_id industry) d).companies
        ≡ d.companies
  unfolding update_single_brand_details
  industry_set company_id profile_id actor industry c found kept =
      elim (Option-cases (get_own_brand_profile BrandAnalysisScope.company company_id d)) [
        | inl new ↦ ground arith
        | inr (b, old) ↦ ground arith
      ]

  profile_set :
      (company_id : ℕ) (actor : User) (url : Option String) (c : Company)
      → get_company company_id d ≡ some c
      → is_none c.deleted_at ≡ true
      → (run company_id actor (SetupOperation.set_group_profile url) d).companies
        ≡ (advance_onboarding_step company_id CompanyOnboardingStep.brand_profile_completed
            (put_company (with_website url c) d)).companies
  unfolding update_group_profile
  profile_set company_id actor url c found kept = ground arith

  finished :
      (company_id : ℕ) (actor : User) (c : Company)
      → get_company company_id d ≡ some c
      → is_none c.deleted_at ≡ true
      → (run company_id actor SetupOperation.finish d).companies
        ≡ (advance_onboarding_step company_id CompanyOnboardingStep.completed d).companies
  unfolding complete_onboarding
  finished company_id actor c found kept = ground arith

  abbrev logo_key : String → String → String
  logo_key key extension = "companies/" ++ (key ++ ("/group-logo." ++ extension))

  logo_refused :
      (company_id : ℕ) (actor : User) (key content_type : String) (saved : Option (Unit {0}))
      (c : Company)
      → get_company company_id d ≡ some c
      → image_extension content_type ≡ none
      → (run company_id actor (SetupOperation.set_group_logo key saved content_type) d).companies
        ≡ d.companies
  unfolding upload_group_logo
  logo_refused company_id actor key content_type saved c found wrong = ground arith

  logo_lost :
      (company_id : ℕ) (actor : User) (key content_type extension : String) (c : Company)
      → get_company company_id d ≡ some c
      → image_extension content_type ≡ some extension
      → (run company_id actor (SetupOperation.set_group_logo key none content_type) d).companies
        ≡ d.companies
  unfolding upload_group_logo
  logo_lost company_id actor key content_type extension c found right = ground arith

  abbrev with_logo : String → String → String → Company → Company
  with_logo key content_type extension c = record c {
    group_logo_storage_key = some (logo_key key extension);
    group_logo_mime_type = some content_type;
  }

  logo_saved :
      (company_id : ℕ) (actor : User) (key content_type extension : String) (c : Company)
      → get_company company_id d ≡ some c
      → is_none c.deleted_at ≡ true
      → image_extension content_type ≡ some extension
      → (run company_id actor
          (SetupOperation.set_group_logo key (some tt) content_type)
          d).companies
        ≡ (put_company (with_logo key content_type extension c) d).companies
  unfolding upload_group_logo
  logo_saved company_id actor key content_type extension c found kept right = ground arith

  logo-Forward :
      (company_id : ℕ) (actor : User) (key content_type : String) (saved : Option (Unit {0}))
      (c : Company)
      → get_company company_id d ≡ some c
      → is_none c.deleted_at ≡ true
      → Forward (progress id d) (
          progress id
            (run company_id actor (SetupOperation.set_group_logo key saved content_type) d))
  logo-Forward company_id actor key content_type saved c found kept =
      elim (Option-cases (image_extension content_type)) [
        | inl wrong ↦
            unmoved (run company_id actor (SetupOperation.set_group_logo key saved content_type) d)
              (logo_refused company_id actor key content_type saved c found wrong)
        | inr (extension, right) ↦ stored saved extension right
      ]
    where
      stored :
          (saved : Option (Unit {0})) (extension : String)
          → image_extension content_type ≡ some extension
          → Forward (progress id d) (
              progress id
                (run company_id actor (SetupOperation.set_group_logo key saved content_type) d))
      stored none extension right =
          unmoved (run company_id actor (SetupOperation.set_group_logo key none content_type) d)
            (logo_lost company_id actor key content_type extension c found right)
      stored (some tt) extension right =
          let new : Company = with_logo key content_type extension c in
          by_companies
            (run company_id actor (SetupOperation.set_group_logo key (some tt) content_type) d)
            (put_company new d)
            (logo_saved company_id actor key content_type extension c found kept right)
            (subst (λ o. Forward (progress id d) o)
              (sym (put-same company_id id d c new found refl refl)) (Forward-refl (progress id d)))

  served :
      (company_id : ℕ) (actor : User) (o : SetupOperation) (c : Company)
      → get_company company_id d ≡ some c
      → is_none c.deleted_at ≡ true
      → Forward (progress id d) (progress id (run company_id actor o d))
  served company_id actor (SetupOperation.choose_structure structure) c found kept =
      let new : Company = record c { brand_structure = some structure } in
      by_companies (run company_id actor (SetupOperation.choose_structure structure) d)
        (advance_onboarding_step company_id CompanyOnboardingStep.brand_structure_selected
          (put_company new d))
        (structure_chosen company_id actor structure c found kept)
        (put_and_advanced company_id CompanyOnboardingStep.brand_structure_selected c new found refl
          refl)
  served company_id actor (SetupOperation.set_industry profile_id industry) c found kept =
      unmoved (run company_id actor (SetupOperation.set_industry profile_id industry) d)
        (industry_set company_id profile_id actor industry c found kept)
  served company_id actor (SetupOperation.set_group_profile url) c found kept =
      by_companies (run company_id actor (SetupOperation.set_group_profile url) d)
        (advance_onboarding_step company_id CompanyOnboardingStep.brand_profile_completed
          (put_company (with_website url c) d))
        (profile_set company_id actor url c found kept)
        (put_and_advanced company_id CompanyOnboardingStep.brand_profile_completed c
          (with_website url c) found (website-same url c).0 (website-same url c).1)
  served company_id actor (SetupOperation.set_group_logo key saved content_type) c found kept =
      logo-Forward company_id actor key content_type saved c found kept
  served company_id actor SetupOperation.finish c found kept =
      by_companies (run company_id actor SetupOperation.finish d)
        (advance_onboarding_step company_id CompanyOnboardingStep.completed d)
        (finished company_id actor c found kept)
        (advance-Forward company_id CompanyOnboardingStep.completed d id)

  run-Forward :
      (company_id : ℕ) (actor : User) (o : SetupOperation)
      → Forward (progress id d) (progress id (run company_id actor o d))
  run-Forward company_id actor o = elim (Option-cases (get_company company_id d)) [
    | inl missing ↦ unmoved (run company_id actor o d) (refused company_id actor o (ground arith))
    | inr (c, found) ↦ elim (Bool-cases (is_none c.deleted_at)) [
      | inr gone ↦ unmoved (run company_id actor o d) (refused company_id actor o (ground arith))
      | inl kept ↦ served company_id actor o c found kept
    ]
  ]

-- Over every sequence of requests by which companies set themselves up, refused or not, no company's
-- onboarding moves back.
pub serve_setup-Forward :
    (rs : List SetupRequest) (d : Database) (id : ℕ)
    → Forward (progress id d) (progress id (serve_setup rs d))
unfolding serve_setup
serve_setup-Forward [] d id = Forward-refl (progress id d)
serve_setup-Forward (r ∷ rs) d id =
    Forward-trans (run-Forward d id r.company_id r.actor r.operation)
      (serve_setup-Forward rs (run r.company_id r.actor r.operation d) id)
