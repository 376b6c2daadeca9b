-- ===== src/Model/Tables.antt =====
-- The tables of the database, and what leaves the process: mail and queued tasks.
use aidigiplanner_backend.Base.{ℕ, String, Option, List}
use aidigiplanner_backend.Model.Accounts.{
  User, Company, CompanyMember, Product, ProductMember, SubProduct, SocialAccount, RefreshToken,
  Otp, PasswordResetToken,
}
use aidigiplanner_backend.Model.Content.{
  BrandProfile, CreativeBrief, GenerationJob, CreativeConcept, CreativeAsset, ContentComment,
}

-- app/models/audit_log.py: who did what to which resource. The client's address and agent and the
-- free-form metadata are left out.
pub record AuditLog : Type 0 where
  pub action : String
  pub actor_user_id : Option ℕ
  pub company_id : Option ℕ
  pub product_id : Option ℕ
  pub resource_type : Option String
  pub resource_id : Option ℕ

pub record Database : Type 0 where
  pub users : List User
  pub companies : List Company
  pub company_members : List CompanyMember
  pub products : List Product
  pub product_members : List ProductMember
  pub sub_products : List SubProduct
  pub social_accounts : List SocialAccount
  pub refresh_tokens : List RefreshToken
  pub email_verification_otps : List Otp
  pub password_reset_otps : List Otp
  pub password_reset_tokens : List PasswordResetToken
  pub brand_profiles : List BrandProfile
  pub creative_briefs : List CreativeBrief
  pub generation_jobs : List GenerationJob
  pub creative_concepts : List CreativeConcept
  pub creative_assets : List CreativeAsset
  pub content_comments : List ContentComment
  pub audit_logs : List AuditLog

-- The messages of app/modules/email/base.py, each with its recipient.
pub data Email : Type 0 where
  verification_otp password_reset new_member_credentials : String → String → Email
  company_approved company_deleted : String → String → Email
  company_rejected company_suspended : String → String → String → Email

-- The arq tasks of app/modules/creatives/worker.py, each with its job.
pub data Task : Type 0 where
  generate_creatives_job render_creative_assets_job : ℕ → Task
