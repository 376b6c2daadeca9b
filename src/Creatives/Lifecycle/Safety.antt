-- ===== src/Creatives/Lifecycle/Safety.antt =====
-- What holds of the concepts over every sequence of requests to the content workflow.
use aidigiplanner_backend.Base.{
  ℕ, Bool, true, false, ◌≡◌, ◌==◌, ◌&&◌, inl, inr, List, [], ◌∷◌, All, All-first, All-update,
  All-map_imp, arith, is_none, is_some,
}
use aidigiplanner_backend.Model.{Database, User, Product, CreativeConcept, ContentStatus}
use aidigiplanner_backend.Model.Queries.{get_product, company_membership, product_membership}
use aidigiplanner_backend.Creatives.Lifecycle.{find_concept, in_product}
use aidigiplanner_backend.Creatives.Lifecycle.Policy.{Authority}
use aidigiplanner_backend.Creatives.Lifecycle.Requests.{Request, serve, serve_all}
use aidigiplanner_backend.Creatives.Lifecycle.Steps.{
  Edge, Change, SameRoles, HasAuthority, serve-Change,
}

module _ {d d' : Database} (same : SameRoles d d') where
  get_product-same : (product_id : ℕ) → get_product product_id d' ≡ get_product product_id d
  unfolding get_product
  get_product-same product_id = rw same.products

  Authority-same : (p : Product) (actor : User) → Authority p actor d' → Authority p actor d
  unfolding company_membership product_membership
  Authority-same p actor (Authority.by_super_admin h) = Authority.by_super_admin h
  Authority-same p actor (Authority.by_company_admin m found r) =
      Authority.by_company_admin m (rw same.company_members at found) r
  Authority-same p actor (Authority.by_anyone h) = Authority.by_anyone h
  Authority-same p actor (Authority.by_manager m h found r) =
      Authority.by_manager m h (rw same.product_members at found) r
  Authority-same p actor (Authority.by_approver m h found r) =
      Authority.by_approver m h (rw same.product_members at found) r

  HasAuthority-same :
      (product_id : ℕ) (actor : User)
      → HasAuthority product_id actor d'
      → HasAuthority product_id actor d
  HasAuthority-same product_id actor (p, found, right) =
      (p, rw (get_product-same product_id) at found, Authority-same p actor right)

Change-SameRoles :
    {product_id k : ℕ} {actor : User} {d d' : Database}
    → Change product_id k actor d d'
    → SameRoles d d'
Change-SameRoles (Change.untouched e same) = same
Change-SameRoles (Change.wrote c c' found e id who edge same) = same

-- A change keeps what its edge keeps of the concept that it rewrites.
module _ (Keeps : CreativeConcept → Type 0) {product_id k : ℕ} {actor : User}
    {d d' : Database} where
  All-Change :
      ((c c' : CreativeConcept)
        → Keeps c
        → c'.id ≡ c.id
        → Edge (HasAuthority product_id actor d) c c'
        → Keeps c')
      → Change product_id k actor d d'
      → All Keeps d.creative_concepts
      → All Keeps d'.creative_concepts
  unfolding find_concept
  All-Change keep (Change.untouched e same) h = rw e h
  All-Change keep (Change.wrote c c' found e id who edge same) h = rw e (
      All-update Keeps (λ r. r.id == c'.id) (λ _. c') d.creative_concepts
        (λ x hit p.
          keep c c'
            (All-first Keeps (λ x. x.id == k && in_product product_id d x && is_none x.deleted_at)
              d.creative_concepts h found)
            id edge)
        h)

-- Not approved yet, nor scheduled, nor published.
abbrev pub is_pending : ContentStatus → Bool
is_pending ContentStatus.draft = true
is_pending ContentStatus.in_review = true
is_pending ContentStatus.rejected = true
is_pending _ = false

-- The concept `cid` has such a status.
abbrev PendingRow : ℕ → CreativeConcept → Type 0
PendingRow cid c = c.id ≡ cid → is_pending c.status ≡ true

abbrev pub IsPending : ℕ → Database → Type 0
IsPending cid d = All (PendingRow cid) d.creative_concepts

PendingRow-Edge :
    {Right : Type 0} (cid : ℕ) (c c' : CreativeConcept)
    → ¬ Right
    → PendingRow cid c
    → c'.id ≡ c.id
    → Edge Right c c'
    → PendingRow cid c'
PendingRow-Edge cid c c' no_right h id (Edge.submitted e) = ground arith
PendingRow-Edge cid c c' no_right h id (Edge.approved right e) = absurd (no_right right)
PendingRow-Edge cid c c' no_right h id (Edge.rejected right e) = absurd (no_right right)
PendingRow-Edge cid c c' no_right h id (Edge.scheduled at b e t) = ground arith
PendingRow-Edge cid c c' no_right h id (Edge.published at (inl right) e t) = absurd (no_right right)
PendingRow-Edge cid c c' no_right h id (Edge.published at (inr (inl b)) e t) = ground arith
PendingRow-Edge cid c c' no_right h id (Edge.published at (inr (inr b)) e t) = ground arith

-- Whatever people without approval authority over the product ask for, and in whatever order, a
-- concept that is not approved yet does not become approved, scheduled or published.
pub serve_all-IsPending :
    (cid product_id : ℕ) (rs : List Request) (d : Database)
    → All (λ r. ¬ HasAuthority product_id r.actor d) rs
    → IsPending cid d
    → IsPending cid (serve_all product_id rs d)
unfolding serve_all
serve_all-IsPending cid product_id [] d nobody h = h
serve_all-IsPending cid product_id (r ∷ rs) d nobody h =
    let step = serve-Change product_id r d in
    serve_all-IsPending cid product_id rs (serve product_id r d)
      (All-map_imp (λ (q : Request). ¬ HasAuthority product_id q.actor d) _
        (λ q no_right right.
          no_right (HasAuthority-same (Change-SameRoles step) product_id q.actor right))
        rs nobody.1)
      (All-Change (PendingRow cid)
        (λ c c' before id edge. PendingRow-Edge cid c c' nobody.0 before id edge) step h)

-- A scheduled concept has its time, and a published one its date.
abbrev StampedRow : CreativeConcept → Type 0
StampedRow c =
    (c.status ≡ ContentStatus.scheduled → is_some c.scheduled_at ≡ true)
    × (c.status ≡ ContentStatus.published → is_some c.published_at ≡ true)

abbrev pub IsStamped : Database → Type 0
IsStamped d = All StampedRow d.creative_concepts

StampedRow-Edge : {Right : Type 0} (c c' : CreativeConcept) → Edge Right c c' → StampedRow c'
StampedRow-Edge c c' (Edge.submitted e) = (λ s. cc, λ s. cc)
StampedRow-Edge c c' (Edge.approved right e) = (λ s. cc, λ s. cc)
StampedRow-Edge c c' (Edge.rejected right e) = (λ s. cc, λ s. cc)
StampedRow-Edge c c' (Edge.scheduled at b e t) = (λ s. ground arith, λ s. cc)
StampedRow-Edge c c' (Edge.published at b e t) = (λ s. cc, λ s. ground arith)

-- Over every sequence of requests a scheduled concept has a time to be posted at, and a published
-- one has its date of publication.
pub serve_all-IsStamped :
    (product_id : ℕ) (rs : List Request) (d : Database)
    → IsStamped d
    → IsStamped (serve_all product_id rs d)
unfolding serve_all
serve_all-IsStamped product_id [] d h = h
serve_all-IsStamped product_id (r ∷ rs) d h =
    serve_all-IsStamped product_id rs (serve product_id r d) (
      All-Change StampedRow (λ c c' before id edge. StampedRow-Edge c c' edge)
        (serve-Change product_id r d) h)
