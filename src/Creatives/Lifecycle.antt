-- ===== src/Creatives/Lifecycle.antt =====
-- The content workflow of `CreativeService` (app/modules/creatives/service.py): a concept is
-- submitted, approved or rejected, scheduled and published. `now` is what `utcnow` returns.
pub mod Policy
pub mod Requests
pub mod Steps
pub mod Safety
mod Tests
use aidigiplanner_backend.Base.{
  ℕ, Bool, true, false, not, ◌&&◌, ◌||◌, ◌==◌, String, Option, none, some, List, [], ◌∷◌, any,
  first, update, if◌then◌else◌, is_none,
}
use aidigiplanner_backend.Model.{
  Database, User, Product, ProductMember, ProductRole, GenerationJob, CreativeConcept,
  ContentComment, ContentStatus, ContentApprovalPolicy, AuditLog, is_status, product_role_in,
}
use aidigiplanner_backend.Model.Session.{
  Action, ◌>>=◌, ◌>>◌, pure, raise, raise_if, query, or_raise, modify, commit, log, live,
  bad_request, not_found, forbidden,
}
use aidigiplanner_backend.Model.Queries.{get_product, company_membership, product_membership}
use aidigiplanner_backend.Core.Access.{administers}

-- The join of a concept with its job: the job belongs to the product.
unfoldable pub in_product : ℕ → Database → CreativeConcept → Bool
in_product product_id d c =
    any (λ (j : GenerationJob). j.id == c.job_id && j.product_id == product_id) d.generation_jobs

-- `_get_concept`
unfoldable pub find_concept : ℕ → ℕ → Database → Option CreativeConcept
find_concept product_id concept_id d =
    first (λ c. c.id == concept_id && in_product product_id d c && is_none c.deleted_at)
      d.creative_concepts

abbrev get_concept : ℕ → ℕ → Action CreativeConcept
get_concept product_id concept_id = do
  or_raise (← query (find_concept product_id concept_id)) not_found

-- `_get_product`
abbrev get_product_row : ℕ → Action Product
get_product_row product_id = do
  or_raise (live (λ (p : Product). p.deleted_at) (← query (get_product product_id))) not_found

-- `_is_company_admin`
unfoldable pub is_company_admin : ℕ → User → Database → Bool
is_company_admin company_id actor d =
    actor.is_super_admin || administers (company_membership company_id actor.id d)

-- `_product_role`
unfoldable pub product_role : ℕ → User → Database → Option ProductRole
product_role product_id actor d = elim (product_membership product_id actor.id d) [
  | none ↦ none
  | some m ↦ some m.role
]

-- `role in roles` for a role that may be missing.
abbrev role_in : Option ProductRole → List ProductRole → Bool
role_in none roles = false
role_in (some role) roles = product_role_in role roles

-- The ladder of `_require_approval_authority` below the company admin's bypass.
abbrev check_policy : ContentApprovalPolicy → Option ProductRole → Action (Unit {0})
check_policy ContentApprovalPolicy.no_approval role = pure tt
check_policy ContentApprovalPolicy.company_admin_approval role = raise forbidden
check_policy ContentApprovalPolicy.product_manager_approval role =
    raise_if (not (role_in role (ProductRole.product_manager ∷ []))) forbidden
check_policy ContentApprovalPolicy.one_approver role =
    raise_if (not (role_in role (ProductRole.approver ∷ ProductRole.product_manager ∷ [])))
      forbidden

unfoldable pub require_approval_authority : Product → User → Action (Unit {0})
require_approval_authority product actor = do
  admin ← query (is_company_admin product.company_id actor)
  role ← query (product_role product.id actor)
  if admin then pure tt else check_policy product.approval_policy role

-- The row of a loaded concept is written back under its primary key.
abbrev put_concept : CreativeConcept → Action (Unit {0})
put_concept c =
    modify (λ d. record d {
      creative_concepts = update (λ r. r.id == c.id) (λ _. c) d.creative_concepts;
    })

-- What every transition writes: the new status, and who acted when.
abbrev reviewed : ContentStatus → User → ℕ → CreativeConcept → CreativeConcept
reviewed status actor now c = record c {
  status = status;
  reviewed_by = some actor.id;
  reviewed_at = some now;
}

abbrev audit : String → User → ℕ → ℕ → Action (Unit {0})
audit action actor product_id concept_id = log (record {
  action = action;
  actor_user_id = some actor.id;
  company_id = none;
  product_id = some product_id;
  resource_type = some "creative_concept";
  resource_id = some concept_id;
})

unfoldable pub submit_for_review : ℕ → ℕ → User → ℕ → Action CreativeConcept
submit_for_review product_id concept_id actor now = do
  concept ← get_concept product_id concept_id
  let c = reviewed ContentStatus.in_review actor now concept
  put_concept c
  audit "creative_concept.submitted_for_review" actor product_id concept_id
  commit
  pure c

unfoldable pub approve_concept : ℕ → ℕ → User → ℕ → Action CreativeConcept
approve_concept product_id concept_id actor now = do
  product ← get_product_row product_id
  require_approval_authority product actor
  concept ← get_concept product_id concept_id
  let c = reviewed ContentStatus.approved actor now concept
  put_concept c
  audit "creative_concept.approved" actor product_id concept_id
  commit
  pure c

abbrev add_comment_row : ContentComment → Action (Unit {0})
add_comment_row c = modify (λ d. record d { content_comments = c ∷ d.content_comments })

-- `comment_id` is the key that the database's mixin draws for the comment.
unfoldable pub reject_concept : ℕ → ℕ → User → String → ℕ → ℕ → Action CreativeConcept
reject_concept product_id concept_id actor reason comment_id now = do
  product ← get_product_row product_id
  require_approval_authority product actor
  concept ← get_concept product_id concept_id
  let c = reviewed ContentStatus.rejected actor now concept
  put_concept c
  add_comment_row
      (record { id = comment_id; concept_id = concept_id; author_id = actor.id; body = reason })
  audit "creative_concept.rejected" actor product_id concept_id
  commit
  pure c

-- The time that a request to schedule asks for.
abbrev resolve_time : CreativeConcept → Option ℕ → Bool → Option ℕ
resolve_time concept scheduled_at use_suggested_time =
    if use_suggested_time then concept.suggested_posting_time else scheduled_at

unfoldable pub schedule_concept : ℕ → ℕ → User → Option ℕ → Bool → ℕ → Action CreativeConcept
schedule_concept product_id concept_id actor scheduled_at use_suggested_time now = do
  concept ← get_concept product_id concept_id
  raise_if (not (is_status concept.status ContentStatus.approved)) bad_request
  at ← or_raise (resolve_time concept scheduled_at use_suggested_time) bad_request
  let c = record (reviewed ContentStatus.scheduled actor now concept) { scheduled_at = some at }
  put_concept c
  audit "creative_concept.scheduled" actor product_id concept_id
  commit
  pure c

unfoldable pub publish_concept : ℕ → ℕ → User → ℕ → Action CreativeConcept
publish_concept product_id concept_id actor now = do
  concept ← get_concept product_id concept_id
  raise_if
      (not (
        is_status concept.status ContentStatus.approved
        || is_status concept.status ContentStatus.scheduled))
      bad_request
  let c = record (reviewed ContentStatus.published actor now concept) { published_at = some now }
  put_concept c
  audit "creative_concept.published" actor product_id concept_id
  commit
  pure c

unfoldable pub approve_and_publish_concept : ℕ → ℕ → User → ℕ → Action CreativeConcept
approve_and_publish_concept product_id concept_id actor now = do
  product ← get_product_row product_id
  require_approval_authority product actor
  concept ← get_concept product_id concept_id
  let c = record (reviewed ContentStatus.published actor now concept) { published_at = some now }
  put_concept c
  audit "creative_concept.approved_and_published" actor product_id concept_id
  commit
  pure c

unfoldable pub add_comment : ℕ → ℕ → User → String → ℕ → Action ContentComment
add_comment product_id concept_id actor body comment_id = do
  concept ← get_concept product_id concept_id
  let comment : ContentComment = record {
    id = comment_id;
    concept_id = concept_id;
    author_id = actor.id;
    body = body;
  }
  add_comment_row comment
  log (record {
    action = "creative_concept.comment_added";
    actor_user_id = some actor.id;
    company_id = none;
    product_id = some product_id;
    resource_type = some "content_comment";
    resource_id = none;
  })
  commit
  pure comment
