-- ===== src/Companies/Onboarding.antt =====
-- app/modules/companies/onboarding.py: how far a company has been set up.
pub mod Progress
use aidigiplanner_backend.Base.{
  ℕ, Bool, ◌==◌, ltb, Option, none, some, List, [], ◌∷◌, if◌then◌else◌, update,
}
use aidigiplanner_backend.Model.{Database, Company, CompanyOnboardingStep}
use aidigiplanner_backend.Model.Session.{live}
use aidigiplanner_backend.Model.Queries.{get_company}

-- `_STEP_ORDER.index(step)`
abbrev pub step_index : CompanyOnboardingStep → ℕ
step_index CompanyOnboardingStep.registered = 0
step_index CompanyOnboardingStep.email_verified = 1
step_index CompanyOnboardingStep.brand_structure_selected = 2
step_index CompanyOnboardingStep.brand_profile_completed = 3
step_index CompanyOnboardingStep.first_product_created = 4
step_index CompanyOnboardingStep.completed = 5

abbrev pub put_company : Company → Database → Database
put_company company d = record d {
  companies = update (λ c. c.id == company.id) (λ _. company) d.companies;
}

unfoldable pub advance_onboarding_step : ℕ → CompanyOnboardingStep → Database → Database
advance_onboarding_step company_id step d =
    elim (live (λ c. c.deleted_at) (get_company company_id d)) [
      | none ↦ d
      | some company ↦
          if ltb (step_index company.onboarding_step) (step_index step)
          then put_company (record company { onboarding_step = step }) d
          else d
    ]

-- The loop of `verify_email` over the companies that a user administers.
unfoldable pub advance_all : List ℕ → CompanyOnboardingStep → Database → Database
advance_all [] step d = d
advance_all (id ∷ ids) step d = advance_all ids step (advance_onboarding_step id step d)
