-- ===== src/Creatives/Lifecycle/Tests.antt =====
-- The workflow theorems at the sample database.
use aidigiplanner_backend.Base.{◌≡◌, refl, ◌⊎◌, [], ◌∷◌, none, true, arith, map}
use aidigiplanner_backend.Model.{ContentStatus}
use aidigiplanner_backend.Model.Session.{open_session, ok, err, app, forbidden}
use aidigiplanner_backend.Creatives.Lifecycle.{
  require_approval_authority, is_company_admin, product_role, find_concept, approve_concept,
  schedule_concept, publish_concept, in_product,
}
use aidigiplanner_backend.Creatives.Lifecycle.Policy.{Authority, require_approval_authority_decides}
use aidigiplanner_backend.Creatives.Lifecycle.Requests.{Request, Operation, serve, serve_all}
use aidigiplanner_backend.Creatives.Lifecycle.Steps.{Change, HasAuthority, serve-Change}
use aidigiplanner_backend.Creatives.Lifecycle.Safety.{
  IsPending, IsStamped, serve_all-IsPending, serve_all-IsStamped,
}
use aidigiplanner_backend.Model.Queries.{get_product, company_membership, product_membership}
use aidigiplanner_backend.Samples.{database, approver, outsider, product}

require_approval_authority_decides_example :
    (Authority product approver database
      × (require_approval_authority product approver (open_session database)
          ≡ (ok tt, open_session database)))
    ⊎ (¬ Authority product approver database
        × (require_approval_authority product approver (open_session database)
            ≡ (err (app forbidden), open_session database)))
require_approval_authority_decides_example =
    require_approval_authority_decides product approver (open_session database)

abbrev approval : Request
approval = record { operation = Operation.approve; concept_id = 20; actor = approver; now = 6 }

abbrev attempt : Operation → Request
attempt o = record { operation = o; concept_id = 20; actor = outsider; now = 6 }

serve-Change_example : Change 10 20 approver database (serve 10 approval database)
serve-Change_example = serve-Change 10 approval database

no_authority : ¬ HasAuthority 10 outsider database
unfolding get_product company_membership product_membership is_company_admin product_role
no_authority (p, there, Authority.by_super_admin h) = ground arith
no_authority (p, there, Authority.by_company_admin m found r) = ground arith
no_authority (p, there, Authority.by_anyone h) = ground arith
no_authority (p, there, Authority.by_manager m h found r) = ground arith
no_authority (p, there, Authority.by_approver m h found r) = ground arith

pending : IsPending 20 database
pending = (λ e. refl, tt)

serve_all-IsPending_example :
    IsPending 20
      (serve_all 10 (attempt Operation.approve ∷ attempt Operation.publish ∷ []) database)
serve_all-IsPending_example =
    serve_all-IsPending 20 10 (attempt Operation.approve ∷ attempt Operation.publish ∷ []) database
      (no_authority, (no_authority, tt)) pending

stamped : IsStamped database
stamped = ((λ e. absurd (cc), λ e. absurd (cc)), tt)

serve_all-IsStamped_example :
    IsStamped (serve_all 10 (approval ∷ attempt (Operation.schedule none true) ∷ []) database)
serve_all-IsStamped_example =
    serve_all-IsStamped 10 (approval ∷ attempt (Operation.schedule none true) ∷ []) database stamped

-- The approver approves, someone schedules at the suggested time, and the concept is published.
published :
    map
      (λ c. c.status)
      (serve_all 10
        (approval ∷ attempt (Operation.schedule none true) ∷ attempt Operation.publish ∷ [])
        database).creative_concepts
    ≡ ContentStatus.published ∷ []
unfolding serve_all serve approve_concept schedule_concept publish_concept find_concept
    require_approval_authority is_company_admin product_role get_product company_membership
    in_product product_membership
published = refl
