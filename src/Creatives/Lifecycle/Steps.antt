-- ===== src/Creatives/Lifecycle/Steps.antt =====
-- What one request to the content workflow may do to a concept.
use aidigiplanner_backend.Base.{
  ℕ, Bool, ◌≡◌, refl, ◌⊎◌, ◌==◌, inl, inr, String, Option, none, some, update, arith, Bool-cases,
  Option-cases, ◌||◌,
}
use aidigiplanner_backend.Model.{Database, User, Product, CreativeConcept, ContentStatus, is_status}
use aidigiplanner_backend.Model.Session.{ok, err, app, forbidden, open_session, live}
use aidigiplanner_backend.Model.Queries.{get_product}
use aidigiplanner_backend.Creatives.Lifecycle.{
  find_concept, require_approval_authority, submit_for_review, approve_concept, reject_concept,
  schedule_concept, publish_concept, approve_and_publish_concept, add_comment, resolve_time,
}
use aidigiplanner_backend.Creatives.Lifecycle.Policy.{Authority, decided}
use aidigiplanner_backend.Creatives.Lifecycle.Requests.{Operation, Request, dispatch, serve}

-- The transitions: `Right` is the authority to approve.
pub data Edge (Right : Type 0) (before after : CreativeConcept) : Type 0 where
  submitted : after.status ≡ ContentStatus.in_review → Edge Right before after
  approved : Right → after.status ≡ ContentStatus.approved → Edge Right before after
  rejected : Right → after.status ≡ ContentStatus.rejected → Edge Right before after
  scheduled :
      (at : ℕ)
      → before.status ≡ ContentStatus.approved
      → after.status ≡ ContentStatus.scheduled
      → after.scheduled_at ≡ some at
      → Edge Right before after
  published :
      (at : ℕ)
      → Right ⊎ (before.status ≡ ContentStatus.approved) ⊎ (before.status ≡ ContentStatus.scheduled)
      → after.status ≡ ContentStatus.published
      → after.published_at ≡ some at
      → Edge Right before after

-- The approval authority over the product of a request.
abbrev pub HasAuthority : ℕ → User → Database → Type 0
HasAuthority product_id actor d =
    (p : Product) × (live (λ (q : Product). q.deleted_at) (get_product product_id d) ≡ some p)
    × Authority p actor d

-- The tables that decide who may do what.
pub record SameRoles (d d' : Database) : Type 0 where
  pub products : d'.products ≡ d.products
  pub company_members : d'.company_members ≡ d.company_members
  pub product_members : d'.product_members ≡ d.product_members

pub data Change (product_id k : ℕ) (actor : User) (d d' : Database) : Type 0 where
  untouched :
      d'.creative_concepts ≡ d.creative_concepts → SameRoles d d' → Change product_id k actor d d'
  wrote :
      (c c' : CreativeConcept)
      → find_concept product_id k d ≡ some c
      → d'.creative_concepts ≡ update (λ r. r.id == c'.id) (λ _. c') d.creative_concepts
      → c'.id ≡ c.id
      → c'.reviewed_by ≡ some actor.id
      → Edge (HasAuthority product_id actor d) c c'
      → SameRoles d d'
      → Change product_id k actor d d'

module _ (product_id k : ℕ) (actor : User) (now : ℕ) (d : Database) where
  submit-Change :
      Change product_id k actor d
        (submit_for_review product_id k actor now (open_session d)).1.committed
  unfolding submit_for_review
  submit-Change = elim (Option-cases (find_concept product_id k d)) [
    | inl missing ↦ Change.untouched (ground arith) (ground arith)
    | inr (c, e) ↦
        Change.wrote c
          (record c {
            status = ContentStatus.in_review;
            reviewed_by = some actor.id;
            reviewed_at = some now;
          })
          e (ground arith) refl refl (Edge.submitted refl) (ground arith)
  ]

  schedule-Change :
      (at : Option ℕ) (suggested : Bool)
      → Change product_id k actor d
          (schedule_concept product_id k actor at suggested now (open_session d)).1.committed
  unfolding schedule_concept
  schedule-Change at suggested = elim (Option-cases (find_concept product_id k d)) [
    | inl missing ↦ Change.untouched (ground arith) (ground arith)
    | inr (c, e) ↦ elim (Bool-cases (is_status c.status ContentStatus.approved)) [
      | inr early ↦ Change.untouched (ground arith) (ground arith)
      | inl ready ↦ elim (Option-cases (resolve_time c at suggested)) [
        | inl nothing ↦ Change.untouched (ground arith) (ground arith)
        | inr (t, found) ↦
            Change.wrote c
              (record c {
                status = ContentStatus.scheduled;
                reviewed_by = some actor.id;
                reviewed_at = some now;
                scheduled_at = some t;
              })
              e (ground arith) refl refl (Edge.scheduled t (ground arith) refl refl) (ground arith)
      ]
    ]
  ]

  publish-Change :
      Change product_id k actor d
        (publish_concept product_id k actor now (open_session d)).1.committed
  unfolding publish_concept
  publish-Change = elim (Option-cases (find_concept product_id k d)) [
    | inl missing ↦ Change.untouched (ground arith) (ground arith)
    | inr (c, e) ↦
        elim (Bool-cases (
          is_status c.status ContentStatus.approved
          || is_status c.status ContentStatus.scheduled)) [
            | inr early ↦ Change.untouched (ground arith) (ground arith)
            | inl ready ↦
                Change.wrote c
                  (record c {
                    status = ContentStatus.published;
                    reviewed_by = some actor.id;
                    reviewed_at = some now;
                    published_at = some now;
                  })
                  e (ground arith) refl refl (Edge.published now (inr (ground arith)) refl refl)
                  (ground arith)
          ]
  ]

  comment-Change :
      (body : String) (id : ℕ)
      → Change product_id k actor d
          (add_comment product_id k actor body id (open_session d)).1.committed
  unfolding add_comment
  comment-Change body id = elim (Option-cases (find_concept product_id k d)) [
    | inl missing ↦ Change.untouched (ground arith) (ground arith)
    | inr (c, e) ↦ Change.untouched (ground arith) (ground arith)
  ]

  -- How a request that asks for authority fares up to the concept that it works on.
  data Entry : Type 0 where
    gone : live (λ (q : Product). q.deleted_at) (get_product product_id d) ≡ none → Entry
    denied :
        (p : Product)
        → live (λ (q : Product). q.deleted_at) (get_product product_id d) ≡ some p
        → require_approval_authority p actor (open_session d)
          ≡ (err (app forbidden), open_session d)
        → Entry
    absent :
        (p : Product)
        → live (λ (q : Product). q.deleted_at) (get_product product_id d) ≡ some p
        → require_approval_authority p actor (open_session d) ≡ (ok tt, open_session d)
        → find_concept product_id k d ≡ none
        → Entry
    entered :
        (p : Product) (c : CreativeConcept)
        → live (λ (q : Product). q.deleted_at) (get_product product_id d) ≡ some p
        → require_approval_authority p actor (open_session d) ≡ (ok tt, open_session d)
        → Authority p actor d
        → find_concept product_id k d ≡ some c
        → Entry

  entry_at :
      (p : Product)
      → live (λ (q : Product). q.deleted_at) (get_product product_id d) ≡ some p
      → Entry
  entry_at p there = elim (decided p actor (open_session d)) [
    | inr refused ↦ Entry.denied p there refused
    | inl (right, passed) ↦ elim (Option-cases (find_concept product_id k d)) [
      | inl missing ↦ Entry.absent p there passed missing
      | inr (c, e) ↦ Entry.entered p c there passed right e
    ]
  ]

  entry : Entry
  entry = elim (Option-cases (live (λ (q : Product). q.deleted_at) (get_product product_id d))) [
    | inl missing ↦ Entry.gone missing
    | inr (p, there) ↦ entry_at p there
  ]

  approve-Change_at :
      Entry
      → Change product_id k actor d
          (approve_concept product_id k actor now (open_session d)).1.committed
  unfolding approve_concept
  approve-Change_at (Entry.gone g) = Change.untouched (ground arith) (ground arith)
  approve-Change_at (Entry.denied p g r) = Change.untouched (ground arith) (ground arith)
  approve-Change_at (Entry.absent p g r m) = Change.untouched (ground arith) (ground arith)
  approve-Change_at (Entry.entered p c g r a e) =
      Change.wrote c
        (record c {
          status = ContentStatus.approved;
          reviewed_by = some actor.id;
          reviewed_at = some now;
        })
        e (ground arith) refl refl (Edge.approved (p, g, a) refl) (ground arith)

  reject-Change_at :
      (reason : String) (id : ℕ)
      → Entry
      → Change product_id k actor d
          (reject_concept product_id k actor reason id now (open_session d)).1.committed
  unfolding reject_concept
  reject-Change_at reason id (Entry.gone g) = Change.untouched (ground arith) (ground arith)
  reject-Change_at reason id (Entry.denied p g r) = Change.untouched (ground arith) (ground arith)
  reject-Change_at reason id (Entry.absent p g r m) = Change.untouched (ground arith) (ground arith)
  reject-Change_at reason id (Entry.entered p c g r a e) =
      Change.wrote c
        (record c {
          status = ContentStatus.rejected;
          reviewed_by = some actor.id;
          reviewed_at = some now;
        })
        e (ground arith) refl refl (Edge.rejected (p, g, a) refl) (ground arith)

  direct-Change_at :
      Entry
      → Change product_id k actor d
          (approve_and_publish_concept product_id k actor now (open_session d)).1.committed
  unfolding approve_and_publish_concept
  direct-Change_at (Entry.gone g) = Change.untouched (ground arith) (ground arith)
  direct-Change_at (Entry.denied p g r) = Change.untouched (ground arith) (ground arith)
  direct-Change_at (Entry.absent p g r m) = Change.untouched (ground arith) (ground arith)
  direct-Change_at (Entry.entered p c g r a e) =
      Change.wrote c
        (record c {
          status = ContentStatus.published;
          reviewed_by = some actor.id;
          reviewed_at = some now;
          published_at = some now;
        })
        e (ground arith) refl refl (Edge.published now (inl (p, g, a)) refl refl) (ground arith)

  dispatch-Change :
      (o : Operation)
      → Change product_id k actor d (dispatch o product_id k actor now (open_session d)).committed
  dispatch-Change Operation.submit = submit-Change
  dispatch-Change Operation.approve = approve-Change_at entry
  dispatch-Change Operation.publish = publish-Change
  dispatch-Change Operation.approve_and_publish = direct-Change_at entry
  dispatch-Change (Operation.reject reason id) = reject-Change_at reason id entry
  dispatch-Change (Operation.schedule at suggested) = schedule-Change at suggested
  dispatch-Change (Operation.comment body id) = comment-Change body id

-- Whatever a request asks for, it leaves every concept alone, or rewrites the one concept that it
-- names, records the actor as its reviewer and moves it along an edge: into review by anybody, to
-- approved and rejected by authority, to scheduled from approved, to published from approved or
-- scheduled or by authority. Products and memberships stay as they are.
pub serve-Change :
    (product_id : ℕ) (r : Request) (d : Database)
    → Change product_id r.concept_id r.actor d (serve product_id r d)
unfolding serve
serve-Change product_id r d = dispatch-Change product_id r.concept_id r.actor r.now d r.operation
