-- ===== src/Products/SocialAccounts/Returns.antt =====
-- Where the browser is sent after a connection (app/modules/social_accounts/state.py).
use text.Mathlib.Text.{starts_with}
use aidigiplanner_backend.Base.{
  if◌then◌else◌, ◌≡◌, refl, Bool, true, false, ◌||◌, String, Option, Bool-cases, inl, inr,
}
use aidigiplanner_backend.Products.SocialAccounts.{
  safe_oauth_return_to, inner_path, before_question, leads_outside, stripped,
  default_oauth_return_to,
}

inner_path-inside :
    (path : String)
    → (starts_with (inner_path path) "/app/" || starts_with (inner_path path) "/onboarding/") ≡ true
inner_path-inside path =
    elim (Bool-cases (starts_with path "/app/" || starts_with path "/onboarding/")) [
      | inl inside ↦ rw inside inside
      | inr outside ↦ rw outside refl
    ]

abbrev pub is_inside : String → Bool
is_inside path = starts_with path "/app/" || starts_with path "/onboarding/"

either_inside :
    (outside : Bool) (path : String)
    → is_inside (if outside then default_oauth_return_to else inner_path path) ≡ true
either_inside true path = refl
either_inside false path = inner_path-inside path

-- Whatever is asked for, the path stays inside the application.
pub safe_oauth_return_to_inside :
    (strip : String → String) (value : Option String)
    → is_inside (safe_oauth_return_to strip value) ≡ true
unfolding safe_oauth_return_to
safe_oauth_return_to_inside strip value =
    either_inside (leads_outside (stripped strip value)) (before_question (stripped strip value))
