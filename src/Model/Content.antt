-- ===== src/Model/Content.antt =====
-- The rows of the creative pipeline (app/models/): brand profiles, briefs, jobs, concepts, assets
-- and comments. An amount of money is a number of millionths of a rupee.
use aidigiplanner_backend.Base.{ℕ, Bool, String, Option, List}
use aidigiplanner_backend.Model.Enums.{
  SocialPlatform, BrandAnalysisScope, CreativeFormat, CreativeLanguage, CreativeQuality,
  VoiceoverMode, ReelStyle, GenerationJobStatus, CreativeAssetKind, ContentStatus,
}

-- `ProductLineProfile` of app/modules/creatives/brand.py, which a brand profile stores as JSON.
pub record ProductLineProfile : Type 0 where
  pub id : String
  pub label : String
  pub partners : List String

-- app/models/brand_profile.py, the columns that the modelled code reads.
pub record BrandProfile : Type 0 where
  pub id : ℕ
  pub scope : BrandAnalysisScope
  pub owner_id : ℕ
  pub name : String
  pub category : String
  pub audience_primary : String
  pub audience_secondary : String
  pub tone : List String
  pub product_lines : List ProductLineProfile
  pub logo_storage_key : Option String
  pub avatar_storage_key : Option String
  pub mandatory_disclaimer : String
  pub banned_claims : List String
  pub created_by : ℕ

-- app/models/creative_brief.py
pub record CreativeBrief : Type 0 where
  pub id : ℕ
  pub product_id : ℕ
  pub product_line : String
  pub topic : String
  pub format : CreativeFormat
  pub carousel_slides : Option ℕ
  pub reel_duration_s : Option ℕ
  pub language : CreativeLanguage
  pub concept_count : ℕ
  pub quality : CreativeQuality
  pub extra_notes : String
  pub voiceover : Option VoiceoverMode
  pub reel_style : Option ReelStyle
  pub platforms : List SocialPlatform
  pub sub_product_id : Option ℕ
  pub objective : String
  pub offer : String
  pub festival_occasion : String
  pub audience_override : Option String
  pub tone_override : Option (List String)
  pub cta_override : Option String
  pub reference_image_storage_key : Option String
  pub publishing_date : Option ℕ
  pub job_key : String
  pub created_by : ℕ

-- app/models/generation_job.py
pub record GenerationJob : Type 0 where
  pub id : ℕ
  pub brief_id : ℕ
  pub product_id : ℕ
  pub company_id : ℕ
  pub status : GenerationJobStatus
  pub prompt_version : String
  pub dry_run : Bool
  pub estimated_cost_inr : ℕ
  pub actual_cost_inr : Option ℕ
  pub error_message : Option String
  pub requested_by : ℕ
  pub started_at : Option ℕ
  pub finished_at : Option ℕ
  pub arq_job_id : Option ℕ
  pub created_at : ℕ

-- `ReelScene` of app/modules/creatives/domain.py.
pub record ReelScene : Type 0 where
  pub visual_prompt : String
  pub vo_line : String
  pub duration_s : ℕ
  pub on_screen_text : String

-- `CarouselSlide` of app/modules/creatives/domain.py.
pub record CarouselSlide : Type 0 where
  pub visual_prompt : String
  pub headline : String
  pub subhead : String

-- `OnImageText` of app/modules/creatives/domain.py.
pub record OnImageText : Type 0 where
  pub headline : String
  pub subhead : String
  pub kicker : String

-- app/models/creative_concept.py
pub record CreativeConcept : Type 0 where
  pub id : ℕ
  pub job_id : ℕ
  pub concept_index : ℕ
  pub angle : String
  pub hook : String
  pub caption : String
  pub hashtags : List String
  pub cta : String
  pub on_image_text : OnImageText
  pub image_prompt : String
  pub negative_prompt : String
  pub reel_script : Option (List ReelScene)
  pub carousel_slides : Option (List CarouselSlide)
  pub disclaimer_line : String
  pub compliance_notes : List String
  pub compliance_rejected : Bool
  pub compliance_rejection_reason : String
  pub status : ContentStatus
  pub reviewed_by : Option ℕ
  pub reviewed_at : Option ℕ
  pub scheduled_at : Option ℕ
  pub published_at : Option ℕ
  pub suggested_posting_time : Option ℕ
  pub deleted_at : Option ℕ

-- app/models/creative_asset.py
pub record CreativeAsset : Type 0 where
  pub id : ℕ
  pub concept_id : ℕ
  pub kind : CreativeAssetKind
  pub storage_key : String
  pub label : String
  pub model_id : String
  pub mime_type : String
  pub estimated_cost_inr : ℕ
  pub generated_at : ℕ
  pub deleted_at : Option ℕ

-- app/models/content_comment.py
pub record ContentComment : Type 0 where
  pub id : ℕ
  pub concept_id : ℕ
  pub author_id : ℕ
  pub body : String
