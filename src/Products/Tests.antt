-- ===== src/Products/Tests.antt =====
-- The theorems on products at the sample database.
use aidigiplanner_backend.Base.{◌≡◌, refl, String, List, [], ◌∷◌, none, some, true}
use aidigiplanner_backend.Model.{
  Database, ProductRole, ProductBrandingMode, SocialAccount, SocialPlatform, SocialAccountScope,
}
use aidigiplanner_backend.Model.Session.{ok, err, app, crash, not_found, open_session}
use aidigiplanner_backend.Model.Queries.{get_product, get_company, company_membership}
use aidigiplanner_backend.Core.Access.{require_product_access}
use aidigiplanner_backend.Core.Slugs.{
  slugify, unique_slug, is_taken, search_slug, numbered, show, decimal, collapse, strip_left,
  strip_right,
}
use aidigiplanner_backend.Core.Slugs.Form.{is_slug, slugify-is_slug}
use aidigiplanner_backend.Core.Slugs.Search.{FirstFree, unique_slug-FirstFree}
use aidigiplanner_backend.Companies.Onboarding.{advance_onboarding_step}
use aidigiplanner_backend.Companies.Provisioning.{ProvisioningEnvironment}
use aidigiplanner_backend.Products.Catalogue.{create_product, unique_product_slug, delete_product}
use aidigiplanner_backend.Products.Catalogue.Deletion.{live_accounts, delete_product-gone}
use aidigiplanner_backend.Products.Catalogue.Uniqueness.{
  ProductOperation, ProductRequest, IsCatalogue, DrawsUnused, serve_products,
  serve_products-IsCatalogue,
}
use aidigiplanner_backend.Products.SubProducts.{create_sub_products}
use aidigiplanner_backend.Products.SubProducts.Batches.{clashing_batch}
use aidigiplanner_backend.Products.Team.Rows.{IsTeam}
use aidigiplanner_backend.Products.Team.Requests.{
  TeamOperation, TeamRequest, serve_team, serve_team-IsTeam,
}
use aidigiplanner_backend.Products.SocialAccounts.{
  AccountDraft, live_twin, find_account, add_account, remove_account,
}
use aidigiplanner_backend.Products.SocialAccounts.Again.{removed_account_stays_taken}
use aidigiplanner_backend.Samples.{database, admin, product, product_row}

abbrev same_text : String → String
same_text s = s

slug_of_title : slugify same_text "  home & car -- loans! " ≡ "home-car-loans"
unfolding slugify collapse strip_left strip_right
slug_of_title = refl

slug_of_signs : slugify same_text "!?" ≡ "item"
unfolding slugify collapse strip_left strip_right
slug_of_signs = refl

slugify-is_slug_example : is_slug (slugify same_text "a & b") ≡ true
slugify-is_slug_example = slugify-is_slug same_text "a & b"

third_slug :
    unique_slug (λ (s : String). s) (λ s. true) ("loans" ∷ "loans-2" ∷ []) "loans" ≡ some "loans-3"
unfolding unique_slug is_taken search_slug numbered show decimal
third_slug = refl

unique_slug-FirstFree_example :
    FirstFree
      (is_taken (λ (s : String). s) (λ s. true) ("loans" ∷ []))
      "loans"
      0
      (unique_slug (λ (s : String). s) (λ s. true) ("loans" ∷ []) "loans")
unique_slug-FirstFree_example =
    unique_slug-FirstFree (λ (s : String). s) (λ s. true) ("loans" ∷ []) "loans"

abbrev drafts : List ProductRequest
drafts =
    record {
      env = record { now = 7; product_id = 11; normalize = same_text };
      actor = admin;
      operation = ProductOperation.post_product 1 (record {
        name = "loans";
        description = none;
        branding_mode = ProductBrandingMode.separate_brand;
      });
    }
    ∷ record {
      env = record { now = 8; product_id = 12; normalize = same_text };
      actor = admin;
      operation = ProductOperation.delete_product_by_id 10;
    }
    ∷ []

catalogue : IsCatalogue database.products
catalogue = ((tt, tt), (tt, tt))

draws : DrawsUnused drafts database
unfolding create_product unique_product_slug unique_slug is_taken search_slug numbered show decimal
    slugify collapse strip_left strip_right advance_onboarding_step get_company
draws = ((refl, tt), ((refl, (refl, tt)), tt))

serve_products-IsCatalogue_example : IsCatalogue (serve_products drafts database).products
serve_products-IsCatalogue_example = serve_products-IsCatalogue drafts database draws catalogue

abbrev account : SocialAccount
account = record {
  id = 5;
  product_id = 10;
  platform = SocialPlatform.instagram;
  handle = "acme";
  profile_url = none;
  scope = SocialAccountScope.product;
  sub_product_ids = [];
  added_by = 1;
  deleted_at = none;
}

abbrev connected : Database
connected = record database { social_accounts = account ∷ [] }

found_product : get_product 10 connected ≡ some product
unfolding get_product
found_product = refl

delete_product-gone_example :
    ((delete_product 10 admin 7 (open_session connected)).0 ≡ ok tt)
    × (live_accounts 10 (delete_product 10 admin 7 (open_session connected)).1.committed ≡ [])
    × (live_accounts 11 (delete_product 10 admin 7 (open_session connected)).1.committed
        ≡ live_accounts 11 connected)
    × ((require_product_access [] 10 admin
          (open_session (delete_product 10 admin 7 (open_session connected)).1.committed)).0
        ≡ err (app not_found))
delete_product-gone_example =
    delete_product-gone 10 11 7 admin admin connected product [] found_product refl refl

abbrev account_draft : AccountDraft
account_draft = record {
  platform = SocialPlatform.instagram;
  handle = "acme";
  profile_url = none;
  scope = SocialAccountScope.product;
  sub_product_ids = [];
}

abbrev disconnected : Database
disconnected = (remove_account 10 5 admin 7 (open_session connected)).1.committed

removed_account_stays_taken_example :
    add_account 6 10 admin account_draft (open_session disconnected)
    ≡ (err crash, open_session disconnected)
removed_account_stays_taken_example =
    removed_account_stays_taken 10 5 7 6 admin account_draft connected account there refl alone
  where
    there : find_account 10 5 connected ≡ some account
    there = unfold find_account in refl

    alone : live_twin 10 account_draft disconnected ≡ none
    alone = unfold live_twin remove_account find_account in refl

clashing_batch_example :
    create_sub_products
      (record { first_id = 50; strip = same_text; normalize = same_text })
      10
      admin
      ("gold!" ∷ "gold" ∷ [])
      (open_session database)
    ≡ (err crash, open_session database)
clashing_batch_example =
    clashing_batch (record { first_id = 50; strip = same_text; normalize = same_text }) 10 admin
      "gold!" "gold" [] database refl refl same_slugs
  where
    same_slugs : slugify same_text "gold!" ≡ slugify same_text "gold"
    same_slugs = unfold slugify collapse strip_left strip_right in refl

abbrev provisioning : ProvisioningEnvironment
provisioning = record {
  now = 7;
  user_id = 60;
  member_id = 61;
  product_member_id = 62;
  temporary_password = "t";
  hash_password = same_text;
  lower = same_text;
}

abbrev invitations : List TeamRequest
invitations =
    record {
      env = provisioning;
      product_id = 10;
      actor = admin;
      operation =
          TeamOperation.post_invite "new@acme.in" (some "New")
            (record { role = ProductRole.creator; sub_product_ids = [] });
    }
    ∷ []

abbrev staffed : Database
staffed = record database { product_members = product_row 1 1 ProductRole.product_manager ∷ [] }

team : IsTeam staffed
unfolding get_product company_membership
team = ((tt, tt), (refl, tt))

serve_team-IsTeam_example : IsTeam (serve_team invitations staffed)
serve_team-IsTeam_example = serve_team-IsTeam invitations staffed team
