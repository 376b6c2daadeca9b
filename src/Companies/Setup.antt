-- ===== src/Companies/Setup.antt =====
-- `CompanyService` of app/modules/companies/service.py: a company's own way through onboarding.
pub mod Progress
use Prim.Native.String.{◌++◌}
use aidigiplanner_backend.Base.{
  ℕ, Bool, true, false, ◌==◌, str_eq, String, Option, none, some, List, [], ◌∷◌, if◌then◌else◌,
  update, merge,
}
use aidigiplanner_backend.Model.{
  Database, User, Company, CompanyBrandStructure, CompanyOnboardingStep, BrandProfile,
  BrandAnalysisScope,
}
use aidigiplanner_backend.Model.Session.{
  Action, ◌>>=◌, ◌>>◌, pure, query, or_raise, or_crash, modify, commit, log, live, not_found,
  bad_request,
}
use aidigiplanner_backend.Model.Queries.{get_company}
use aidigiplanner_backend.Companies.Onboarding.{put_company, advance_onboarding_step}
use aidigiplanner_backend.Creatives.BrandProfile.{get_own_brand_profile}

abbrev pub live_company : ℕ → Action Company
live_company company_id = do
  found ← query (get_company company_id)
  or_raise (live (λ (c : Company). c.deleted_at) found) not_found

abbrev pub setup_log : String → User → ℕ → Action (Unit {0})
setup_log action actor company_id = log (record {
  action = action;
  actor_user_id = some actor.id;
  company_id = some company_id;
  product_id = none;
  resource_type = some "company";
  resource_id = some company_id;
})

unfoldable pub select_brand_structure : ℕ → User → CompanyBrandStructure → Action (Unit {0})
select_brand_structure company_id actor structure = do
  company ← live_company company_id
  modify (put_company (record company { brand_structure = some structure }))
  modify (advance_onboarding_step company_id CompanyOnboardingStep.brand_structure_selected)
  setup_log "company.brand_structure_selected" actor company_id
  commit

abbrev pub new_profile : ℕ → Company → User → String → BrandProfile
new_profile id company actor industry = record {
  id = id;
  scope = BrandAnalysisScope.company;
  owner_id = company.id;
  name = company.name;
  category = industry;
  audience_primary = "";
  audience_secondary = "";
  tone = [];
  product_lines = [];
  logo_storage_key = none;
  avatar_storage_key = none;
  mandatory_disclaimer = "";
  banned_claims = [];
  created_by = actor.id;
}

-- The profile is made if it is not there yet.
abbrev pub set_category : ℕ → Company → User → String → Option BrandProfile → Database → Database
set_category id company actor industry none d = record d {
  brand_profiles = new_profile id company actor industry ∷ d.brand_profiles;
}
set_category id company actor industry (some profile) d = record d {
  brand_profiles =
      update (λ b. b.id == profile.id) (λ _. record profile { category = industry })
        d.brand_profiles;
}

unfoldable pub update_single_brand_details : ℕ → ℕ → User → String → Action (Unit {0})
update_single_brand_details profile_id company_id actor industry = do
  company ← live_company company_id
  profile ← query (get_own_brand_profile BrandAnalysisScope.company company_id)
  modify (set_category profile_id company actor industry profile)
  setup_log "company.industry_set" actor company_id
  commit

abbrev pub with_website : Option String → Company → Company
with_website none company = company
with_website (some url) company = record company { group_website_url = some url }

unfoldable pub update_group_profile : ℕ → User → Option String → Action (Unit {0})
update_group_profile company_id actor url = do
  company ← live_company company_id
  modify (put_company (with_website url company))
  modify (advance_onboarding_step company_id CompanyOnboardingStep.brand_profile_completed)
  setup_log "company.group_profile_updated" actor company_id
  commit

-- `ALLOWED_IMAGE_MIME_TYPES.get(content_type)`
abbrev pub image_extension : String → Option String
image_extension content_type =
    if str_eq content_type "image/png"
    then some "png"
    else if str_eq content_type "image/jpeg"
    then some "jpg"
    else if str_eq content_type "image/webp"
    then some "webp"
    else none

-- `key_text` is the text of the company's key, and `saved` whether the storage takes the file.
unfoldable pub upload_group_logo :
    String → Option (Unit {0}) → ℕ → User → String → Action (Unit {0})
upload_group_logo key_text saved company_id actor content_type = do
  company ← live_company company_id
  extension ← or_raise (image_extension content_type) bad_request
  or_crash saved
  modify (
      put_company (record company {
        group_logo_storage_key = some ("companies/" ++ (key_text ++ ("/group-logo." ++ extension)));
        group_logo_mime_type = some content_type;
      }))
  setup_log "company.group_logo_uploaded" actor company_id
  commit

unfoldable pub complete_onboarding : ℕ → User → Action (Unit {0})
complete_onboarding company_id actor = do
  live_company company_id
  modify (advance_onboarding_step company_id CompanyOnboardingStep.completed)
  setup_log "company.onboarding_completed" actor company_id
  commit
