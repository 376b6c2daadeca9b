-- ===== src/Model/Accounts.antt =====
-- The rows of users, companies, products, their members and their tokens (app/models/). An id is
-- only compared, so it is a number; a time is a number of microseconds.
use aidigiplanner_backend.Base.{ℕ, Bool, String, Option, List}
use aidigiplanner_backend.Model.Enums.{
  CompanyStatus, UserStatus, CompanyRole, CompanyMemberStatus, SocialPlatform, SocialAccountScope,
  ProductStatus, ProductRole, CompanyBrandStructure, CompanyOnboardingStep, ProductBrandingMode,
  SubProductBrandingMode, ContentApprovalPolicy, RefreshTokenRevokedReason,
}

-- app/models/user.py
pub record User : Type 0 where
  pub id : ℕ
  pub email : String
  pub password_hash : String
  pub full_name : String
  pub is_super_admin : Bool
  pub status : UserStatus
  pub email_verified_at : Option ℕ
  pub last_login_at : Option ℕ
  pub token_version : ℕ
  pub deleted_at : Option ℕ

-- app/models/company.py
pub record Company : Type 0 where
  pub id : ℕ
  pub name : String
  pub slug : String
  pub status : CompanyStatus
  pub approved_by : Option ℕ
  pub approved_at : Option ℕ
  pub rejected_at : Option ℕ
  pub rejection_reason : Option String
  pub brand_structure : Option CompanyBrandStructure
  pub onboarding_step : CompanyOnboardingStep
  pub group_website_url : Option String
  pub group_logo_storage_key : Option String
  pub group_logo_mime_type : Option String
  pub deleted_at : Option ℕ

-- app/models/company_member.py
pub record CompanyMember : Type 0 where
  pub id : ℕ
  pub company_id : ℕ
  pub user_id : ℕ
  pub role : CompanyRole
  pub status : CompanyMemberStatus
  pub invited_by : Option ℕ
  pub joined_at : Option ℕ

-- app/models/product.py
pub record Product : Type 0 where
  pub id : ℕ
  pub company_id : ℕ
  pub name : String
  pub slug : String
  pub description : Option String
  pub status : ProductStatus
  pub branding_mode : ProductBrandingMode
  pub approval_policy : ContentApprovalPolicy
  pub created_by : ℕ
  pub deleted_at : Option ℕ

-- app/models/product_member.py
pub record ProductMember : Type 0 where
  pub id : ℕ
  pub product_id : ℕ
  pub user_id : ℕ
  pub role : ProductRole
  pub sub_product_ids : List ℕ
  pub added_by : ℕ

-- app/models/sub_product.py
pub record SubProduct : Type 0 where
  pub id : ℕ
  pub product_id : ℕ
  pub name : String
  pub slug : String
  pub status : ProductStatus
  pub branding_mode : SubProductBrandingMode
  pub created_by : ℕ
  pub deleted_at : Option ℕ

-- app/models/social_account.py, without the columns that only the OAuth client fills.
pub record SocialAccount : Type 0 where
  pub id : ℕ
  pub product_id : ℕ
  pub platform : SocialPlatform
  pub handle : String
  pub profile_url : Option String
  pub scope : SocialAccountScope
  pub sub_product_ids : List ℕ
  pub added_by : ℕ
  pub deleted_at : Option ℕ

-- app/models/refresh_token.py
pub record RefreshToken : Type 0 where
  pub id : ℕ
  pub user_id : ℕ
  pub token_hash : String
  pub family_id : ℕ
  pub parent_id : Option ℕ
  pub expires_at : ℕ
  pub revoked_at : Option ℕ
  pub revoked_reason : Option RefreshTokenRevokedReason

-- app/models/email_verification_otp.py and app/models/password_reset_otp.py have the same columns.
pub record Otp : Type 0 where
  pub id : ℕ
  pub user_id : ℕ
  pub otp_hash : String
  pub expires_at : ℕ
  pub used_at : Option ℕ
  pub attempts : ℕ

-- app/models/password_reset_token.py
pub record PasswordResetToken : Type 0 where
  pub id : ℕ
  pub user_id : ℕ
  pub token_hash : String
  pub expires_at : ℕ
  pub used_at : Option ℕ
