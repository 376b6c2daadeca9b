-- ===== src/Creatives/Lifecycle/Requests.antt =====
-- The requests to the content workflow, and the database that each leaves behind.
use aidigiplanner_backend.Base.{ℕ, Bool, String, Option, List, [], ◌∷◌}
use aidigiplanner_backend.Model.{Database, User}
use aidigiplanner_backend.Model.Session.{Session, open_session}
use aidigiplanner_backend.Creatives.Lifecycle.{
  submit_for_review, approve_concept, reject_concept, schedule_concept, publish_concept,
  approve_and_publish_concept, add_comment,
}

pub data Operation : Type 0 where
  submit approve publish approve_and_publish : Operation
  reject : String → ℕ → Operation
  schedule : Option ℕ → Bool → Operation
  comment : String → ℕ → Operation

pub record Request : Type 0 where
  pub operation : Operation
  pub concept_id : ℕ
  pub actor : User
  pub now : ℕ

-- The session after the operation, which returned a value or raised an error.
abbrev pub dispatch : Operation → ℕ → ℕ → User → ℕ → Session → Session
dispatch Operation.submit p c u t s = (submit_for_review p c u t s).1
dispatch Operation.approve p c u t s = (approve_concept p c u t s).1
dispatch Operation.publish p c u t s = (publish_concept p c u t s).1
dispatch Operation.approve_and_publish p c u t s = (approve_and_publish_concept p c u t s).1
dispatch (Operation.reject reason id) p c u t s = (reject_concept p c u reason id t s).1
dispatch (Operation.schedule at suggested) p c u t s = (schedule_concept p c u at suggested t s).1
dispatch (Operation.comment body id) p c u t s = (add_comment p c u body id s).1

-- A request in a session of its own: what it commits is what lasts.
unfoldable pub serve : ℕ → Request → Database → Database
serve product_id r d =
    (dispatch r.operation product_id r.concept_id r.actor r.now (open_session d)).committed

unfoldable pub serve_all : ℕ → List Request → Database → Database
serve_all product_id [] d = d
serve_all product_id (r ∷ rs) d = serve_all product_id rs (serve product_id r d)
