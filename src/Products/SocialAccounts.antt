-- ===== src/Products/SocialAccounts.antt =====
-- `SocialAccountService` of app/modules/social_accounts/service.py, as far as accounts are entered by
-- hand, and `safe_oauth_return_to` of app/modules/social_accounts/state.py.
pub mod Again
pub mod Returns
use text.Mathlib.Text.{starts_with, find?}
use aidigiplanner_backend.Base.{
  ℕ, Bool, true, false, not, ◌&&◌, ◌||◌, ◌==◌, str_eq, String, Option, none, some, List, ◌∷◌, any,
  first, if◌then◌else◌, is_none, is_some, update,
}
use aidigiplanner_backend.Model.{
  Database, User, SocialAccount, SocialAccountScope, SocialPlatform, social_platform_code,
}
use aidigiplanner_backend.Model.Session.{
  Action, ◌>>=◌, ◌>>◌, pure, raise_if, query, or_raise, or_crash, modify, commit, log, not_found,
  conflict,
}

-- `AddSocialAccountRequest` of app/modules/social_accounts/schemas.py.
pub record AccountDraft : Type 0 where
  pub platform : SocialPlatform
  pub handle : String
  pub profile_url : Option String
  pub scope : SocialAccountScope
  pub sub_product_ids : List ℕ

-- The columns of the table's unique constraint.
abbrev pub is_twin : ℕ → AccountDraft → SocialAccount → Bool
is_twin product_id draft a =
    a.product_id == product_id
    && social_platform_code a.platform == social_platform_code draft.platform
    && str_eq a.handle draft.handle

unfoldable pub live_twin : ℕ → AccountDraft → Database → Option SocialAccount
live_twin product_id draft d =
    first (λ a. is_twin product_id draft a && is_none a.deleted_at) d.social_accounts

abbrev pub new_account : ℕ → ℕ → User → AccountDraft → SocialAccount
new_account id product_id actor draft = record {
  id = id;
  product_id = product_id;
  platform = draft.platform;
  handle = draft.handle;
  profile_url = draft.profile_url;
  scope = draft.scope;
  sub_product_ids = draft.sub_product_ids;
  added_by = actor.id;
  deleted_at = none;
}

-- The insert at the flush: `none` is an `IntegrityError`.
abbrev pub insert_account :
    ℕ → AccountDraft → SocialAccount → Database → Option (List SocialAccount)
insert_account product_id draft a d =
    if any (is_twin product_id draft) d.social_accounts then none else some (a ∷ d.social_accounts)

abbrev pub account_log : String → User → ℕ → Option ℕ → Action (Unit {0})
account_log action actor product_id account_id = log (record {
  action = action;
  actor_user_id = some actor.id;
  company_id = none;
  product_id = some product_id;
  resource_type = some "social_account";
  resource_id = account_id;
})

unfoldable pub add_account : ℕ → ℕ → User → AccountDraft → Action SocialAccount
add_account id product_id actor draft = do
  existing ← query (live_twin product_id draft)
  raise_if (is_some existing) conflict
  let account = new_account id product_id actor draft
  rows ← or_crash (← query (insert_account product_id draft account))
  modify (λ d. record d { social_accounts = rows })
  account_log "social_account.added" actor product_id none
  commit
  pure account

unfoldable pub find_account : ℕ → ℕ → Database → Option SocialAccount
find_account product_id account_id d =
    first (λ a. a.id == account_id && a.product_id == product_id && is_none a.deleted_at)
      d.social_accounts

abbrev pub put_account : SocialAccount → Database → Database
put_account a d = record d {
  social_accounts = update (λ r. r.id == a.id) (λ _. a) d.social_accounts;
}

unfoldable pub remove_account : ℕ → ℕ → User → ℕ → Action (Unit {0})
remove_account product_id account_id actor now = do
  account ← or_raise (← query (find_account product_id account_id)) not_found
  modify (put_account (record account { deleted_at = some now }))
  account_log "social_account.removed" actor product_id (some account_id)
  commit

-- `text.split("?", 1)[0]`
unfoldable pub before_question : String → String
before_question String.[] = String.[]
before_question (String.◌∷◌ c text) =
    let rest = before_question text in
    if str_eq (String.◌∷◌ c String.[]) "?" then String.[] else String.◌∷◌ c rest

abbrev pub default_oauth_return_to : String
default_oauth_return_to = "/app/social-accounts"

abbrev pub stripped : (String → String) → Option String → String
stripped strip none = strip ""
stripped strip (some value) = strip value

abbrev pub inner_path : String → String
inner_path path =
    if starts_with path "/app/" || starts_with path "/onboarding/"
    then path
    else default_oauth_return_to

abbrev pub leads_outside : String → Bool
leads_outside raw =
    not (starts_with raw "/")
    || starts_with raw "//"
    || is_some (find? raw "://")
    || is_some (find? raw "\\")

unfoldable pub safe_oauth_return_to : (String → String) → Option String → String
safe_oauth_return_to strip value =
    let raw = stripped strip value in
    if leads_outside raw then default_oauth_return_to else inner_path (before_question raw)
