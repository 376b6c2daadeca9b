-- ===== src/Samples.antt =====
-- A small database, for the tests: one company with one product, its people, one concept in review
-- and one generation job that awaits rendering.
use aidigiplanner_backend.Base.{ℕ, String, false, none, some, [], ◌∷◌}
use aidigiplanner_backend.Model.{
  Database, User, UserStatus, Company, CompanyStatus, CompanyMember, CompanyRole,
  CompanyMemberStatus, CompanyOnboardingStep, Product, ProductStatus, ProductBrandingMode,
  ProductMember, ProductRole, ContentApprovalPolicy, BrandProfile, BrandAnalysisScope,
  CreativeBrief, CreativeFormat, CreativeLanguage, CreativeQuality, GenerationJob,
  GenerationJobStatus, CreativeConcept, ContentStatus, RefreshToken, Otp,
}

abbrev pub person : ℕ → String → User
person id email = record {
  id = id;
  email = email;
  password_hash = "h1";
  full_name = "A Person";
  is_super_admin = false;
  status = UserStatus.active;
  email_verified_at = some 1;
  last_login_at = none;
  token_version = 0;
  deleted_at = none;
}

abbrev pub admin : User
admin = person 1 "admin@acme.in"

abbrev pub manager : User
manager = person 2 "manager@acme.in"

abbrev pub outsider : User
outsider = person 3 "someone@else.in"

abbrev pub approver : User
approver = person 4 "approver@acme.in"

abbrev pub acme : Company
acme = record {
  id = 1;
  name = "Acme";
  slug = "acme";
  status = CompanyStatus.active;
  approved_by = none;
  approved_at = none;
  rejected_at = none;
  rejection_reason = none;
  brand_structure = none;
  onboarding_step = CompanyOnboardingStep.email_verified;
  group_website_url = none;
  group_logo_storage_key = none;
  group_logo_mime_type = none;
  deleted_at = none;
}

abbrev pub admin_row : CompanyMember
admin_row = record {
  id = 1;
  company_id = 1;
  user_id = 1;
  role = CompanyRole.company_admin;
  status = CompanyMemberStatus.active;
  invited_by = none;
  joined_at = some 1;
}

abbrev pub product : Product
product = record {
  id = 10;
  company_id = 1;
  name = "Loans";
  slug = "loans";
  description = none;
  status = ProductStatus.active;
  branding_mode = ProductBrandingMode.use_company_branding;
  approval_policy = ContentApprovalPolicy.one_approver;
  created_by = 1;
  deleted_at = none;
}

abbrev pub product_row : ℕ → ℕ → ProductRole → ProductMember
product_row id user_id role = record {
  id = id;
  product_id = 10;
  user_id = user_id;
  role = role;
  sub_product_ids = [];
  added_by = 1;
}

abbrev pub approver_row : ProductMember
approver_row = product_row 2 4 ProductRole.approver

abbrev pub brand : BrandProfile
brand = record {
  id = 1;
  scope = BrandAnalysisScope.company;
  owner_id = 1;
  name = "Acme";
  category = "finance";
  audience_primary = "families";
  audience_secondary = "students";
  tone = "warm" ∷ [];
  product_lines = (record { id = "loans"; label = "Loans"; partners = [] }) ∷ [];
  logo_storage_key = none;
  avatar_storage_key = none;
  mandatory_disclaimer = "T&C apply";
  banned_claims = [];
  created_by = 1;
}

abbrev pub brief_40 : CreativeBrief
brief_40 = record {
  id = 40;
  product_id = 10;
  product_line = "loans";
  topic = "home loans";
  format = CreativeFormat.post;
  carousel_slides = none;
  reel_duration_s = none;
  language = CreativeLanguage.en;
  concept_count = 2;
  quality = CreativeQuality.draft;
  extra_notes = "";
  voiceover = none;
  reel_style = none;
  platforms = [];
  sub_product_id = none;
  objective = "";
  offer = "";
  festival_occasion = "";
  audience_override = none;
  tone_override = none;
  cta_override = none;
  reference_image_storage_key = none;
  publishing_date = none;
  job_key = "k";
  created_by = 2;
}

abbrev pub job_30 : GenerationJob
job_30 = record {
  id = 30;
  brief_id = 40;
  product_id = 10;
  company_id = 1;
  status = GenerationJobStatus.awaiting_render;
  prompt_version = "ideate_v1";
  dry_run = false;
  estimated_cost_inr = 0;
  actual_cost_inr = none;
  error_message = none;
  requested_by = 2;
  started_at = some 5;
  finished_at = none;
  arq_job_id = none;
  created_at = 5;
}

abbrev pub concept_20 : CreativeConcept
concept_20 = record {
  id = 20;
  job_id = 30;
  concept_index = 0;
  angle = "problem_solution";
  hook = "A home of your own";
  caption = "T&C apply";
  hashtags = [];
  cta = "Apply";
  on_image_text = record { headline = "Home"; subhead = "of your own"; kicker = "" };
  image_prompt = "";
  negative_prompt = "";
  reel_script = none;
  carousel_slides = none;
  disclaimer_line = "T&C apply";
  compliance_notes = [];
  compliance_rejected = false;
  compliance_rejection_reason = "";
  status = ContentStatus.in_review;
  reviewed_by = none;
  reviewed_at = none;
  scheduled_at = none;
  published_at = none;
  suggested_posting_time = some 9;
  deleted_at = none;
}

abbrev pub token_7 : RefreshToken
token_7 = record {
  id = 7;
  user_id = 1;
  token_hash = "t7";
  family_id = 70;
  parent_id = none;
  expires_at = 1000;
  revoked_at = none;
  revoked_reason = none;
}

abbrev pub code_8 : Otp
code_8 = record {
  id = 8;
  user_id = 1;
  otp_hash = "123456";
  expires_at = 1000;
  used_at = none;
  attempts = 4;
}

abbrev pub database : Database
database = record {
  users = admin ∷ manager ∷ outsider ∷ approver ∷ [];
  companies = acme ∷ [];
  company_members = admin_row ∷ [];
  products = product ∷ [];
  product_members = product_row 1 2 ProductRole.product_manager ∷ approver_row ∷ [];
  sub_products = [];
  social_accounts = [];
  refresh_tokens = token_7 ∷ [];
  email_verification_otps = [];
  password_reset_otps = code_8 ∷ [];
  password_reset_tokens = [];
  brand_profiles = brand ∷ [];
  creative_briefs = brief_40 ∷ [];
  generation_jobs = job_30 ∷ [];
  creative_concepts = concept_20 ∷ [];
  creative_assets = [];
  content_comments = [];
  audit_logs = [];
}
