-- ===== src/Model/Enums.antt =====
-- app/models/enums.py: the enumerations, each with the Boolean tests that the services make.
use aidigiplanner_backend.Base.{ℕ, Bool, true, false, ◌==◌, List, any}

pub data CompanyStatus : Type 0 where
  pending_approval active rejected suspended : CompanyStatus

pub data UserStatus : Type 0 where
  pending active suspended : UserStatus

pub data CompanyRole : Type 0 where
  company_admin member : CompanyRole

pub data CompanyMemberStatus : Type 0 where
  active suspended : CompanyMemberStatus

pub data SocialPlatform : Type 0 where
  instagram facebook youtube google twitter linkedin : SocialPlatform

pub data SocialAccountScope : Type 0 where
  product sub_products company : SocialAccountScope

pub data ProductStatus : Type 0 where
  active archived : ProductStatus

pub data ProductRole : Type 0 where
  creator approver publisher analyst product_manager : ProductRole

pub data CompanyBrandStructure : Type 0 where
  single_brand multi_brand unsure : CompanyBrandStructure

pub data CompanyOnboardingStep : Type 0 where
  registered email_verified brand_structure_selected : CompanyOnboardingStep
  brand_profile_completed first_product_created completed : CompanyOnboardingStep

pub data ProductBrandingMode : Type 0 where
  use_company_branding separate_brand : ProductBrandingMode

pub data SubProductBrandingMode : Type 0 where
  use_product_branding separate_brand : SubProductBrandingMode

pub data ContentApprovalPolicy : Type 0 where
  no_approval one_approver : ContentApprovalPolicy
  product_manager_approval company_admin_approval : ContentApprovalPolicy

pub data ContentStatus : Type 0 where
  draft in_review approved rejected scheduled published : ContentStatus

pub data BrandAnalysisScope : Type 0 where
  company product sub_product : BrandAnalysisScope

pub data CreativeFormat : Type 0 where
  post carousel reel story video : CreativeFormat

pub data CreativeLanguage : Type 0 where
  en hi hinglish : CreativeLanguage

pub data CreativeQuality : Type 0 where
  draft standard hero : CreativeQuality

pub data VoiceoverMode : Type 0 where
  native_audio silent_text : VoiceoverMode

pub data ReelStyle : Type 0 where
  story avatar : ReelStyle

pub data GenerationJobStatus : Type 0 where
  queued running awaiting_render succeeded failed partially_failed : GenerationJobStatus

pub data CreativeAssetKind : Type 0 where
  image video raw_clip : CreativeAssetKind

pub data RefreshTokenRevokedReason : Type 0 where
  rotated reuse_detected logout logout_all password_changed : RefreshTokenRevokedReason

-- `status == CompanyStatus.…`
abbrev pub company_status_code : CompanyStatus → ℕ
company_status_code CompanyStatus.pending_approval = 0
company_status_code CompanyStatus.active = 1
company_status_code CompanyStatus.rejected = 2
company_status_code CompanyStatus.suspended = 3

abbrev pub is_user_status : UserStatus → UserStatus → Bool
is_user_status UserStatus.pending UserStatus.pending = true
is_user_status UserStatus.active UserStatus.active = true
is_user_status UserStatus.suspended UserStatus.suspended = true
is_user_status _ _ = false

abbrev pub is_company_admin_role : CompanyRole → Bool
is_company_admin_role CompanyRole.company_admin = true
is_company_admin_role CompanyRole.member = false

abbrev pub product_role_code : ProductRole → ℕ
product_role_code ProductRole.creator = 0
product_role_code ProductRole.approver = 1
product_role_code ProductRole.publisher = 2
product_role_code ProductRole.analyst = 3
product_role_code ProductRole.product_manager = 4

-- `role in roles`
abbrev pub product_role_in : ProductRole → List ProductRole → Bool
product_role_in role = any (λ r. product_role_code role == product_role_code r)

abbrev pub content_status_code : ContentStatus → ℕ
content_status_code ContentStatus.draft = 0
content_status_code ContentStatus.in_review = 1
content_status_code ContentStatus.approved = 2
content_status_code ContentStatus.rejected = 3
content_status_code ContentStatus.scheduled = 4
content_status_code ContentStatus.published = 5

-- `concept.status == status`
abbrev pub is_status : ContentStatus → ContentStatus → Bool
is_status a b = content_status_code a == content_status_code b

abbrev pub is_awaiting_render : GenerationJobStatus → Bool
is_awaiting_render GenerationJobStatus.awaiting_render = true
is_awaiting_render _ = false

abbrev pub is_carousel : CreativeFormat → Bool
is_carousel CreativeFormat.carousel = true
is_carousel _ = false

-- `REEL_LIKE_FORMATS` of app/modules/creatives/domain.py.
abbrev pub is_reel_like : CreativeFormat → Bool
is_reel_like CreativeFormat.reel = true
is_reel_like CreativeFormat.video = true
is_reel_like _ = false

abbrev pub is_avatar : ReelStyle → Bool
is_avatar ReelStyle.avatar = true
is_avatar ReelStyle.story = false

abbrev pub scope_code : BrandAnalysisScope → ℕ
scope_code BrandAnalysisScope.company = 0
scope_code BrandAnalysisScope.product = 1
scope_code BrandAnalysisScope.sub_product = 2

-- `platform == SocialPlatform.…`
abbrev pub social_platform_code : SocialPlatform → ℕ
social_platform_code SocialPlatform.instagram = 0
social_platform_code SocialPlatform.facebook = 1
social_platform_code SocialPlatform.youtube = 2
social_platform_code SocialPlatform.google = 3
social_platform_code SocialPlatform.twitter = 4
social_platform_code SocialPlatform.linkedin = 5
