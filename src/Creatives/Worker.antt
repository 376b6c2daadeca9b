-- ===== src/Creatives/Worker.antt =====
-- app/modules/creatives/worker.py: the two arq tasks. What a task calls outside of the database (the
-- pipeline with its providers, the storage) ends in one of three ways, and is a field of the environment.
pub mod Endings
pub mod Ideation
pub mod Stored
pub mod Outcome
pub mod Quiet
pub mod Rendering
mod Tests
use aidigiplanner_backend.Base.{
  ℕ, zero, suc, ◌+◌, Bool, true, false, ◌==◌, String, Option, none, some, List, [], ◌∷◌, update,
  if◌then◌else◌, str_eq,
}
use aidigiplanner_backend.Model.{
  Database, GenerationJob, GenerationJobStatus, CreativeConcept, CreativeAsset, CreativeAssetKind,
  BrandProfile, OnImageText, ReelScene, CarouselSlide, VoiceoverMode, AuditLog,
}
use aidigiplanner_backend.Model.Session.{Action, Session, Result, ok, err}
use aidigiplanner_backend.Model.Queries.{get_job}
use aidigiplanner_backend.Creatives.Brief.{Brief, VideoBackend}

-- How an awaited call ends: with a value, with an exception and its text, or with the
-- `CancelledError` by which arq ends a task that takes too long.
pub data Ending (A : Type 0) : Type 0 where
  done : A → Ending A
  raised : String → Ending A
  cancelled : Ending A

-- `GeneratedConcept` of app/modules/creatives/domain.py.
pub record GeneratedConcept : Type 0 where
  pub angle : String
  pub hook : String
  pub caption : String
  pub hashtags : List String
  pub cta : String
  pub on_image_text : OnImageText
  pub image_prompt : String
  pub negative_prompt : String
  pub reel : Option (List ReelScene)
  pub carousel_slides : Option (List CarouselSlide)
  pub disclaimer_line : String
  pub compliance_notes : List String
  pub rejected : Bool
  pub rejection_reason : String

-- `slides if slides else None`: an empty list of slides is stored, and read back, as `None`.
abbrev pub slides_or_none : Option (List CarouselSlide) → Option (List CarouselSlide)
slides_or_none none = none
slides_or_none (some []) = none
slides_or_none (some (slide ∷ slides)) = some (slide ∷ slides)

-- `RenderedAsset` of app/modules/creatives/pipeline/types.py; bytes are a text.
pub record RenderedAsset : Type 0 where
  pub kind : CreativeAssetKind
  pub concept_index : ℕ
  pub label : String
  pub model_id : String
  pub mime_type : String
  pub content : String
  pub estimated_cost_inr : ℕ

abbrev pub Indexed : Type 0
Indexed = List (ℕ × GeneratedConcept)

-- The clock, the keys that the new rows draw, the text of a key, the pipeline's steps, which begin with
-- the `dry_run` of the job, and the storage.
pub record WorkerEnvironment : Type 0 where
  pub now : ℕ
  pub concept_key : ℕ → ℕ
  pub asset_key : ℕ → String → ℕ
  pub show_key : ℕ → String
  pub run_ideation : Bool → Brief → BrandProfile → Ending (List GeneratedConcept)
  pub render_images :
      Bool → Indexed → Brief → BrandProfile → Option String → Ending (List RenderedAsset)
  pub render_clips :
      Bool → VideoBackend → Indexed → List (ℕ × String) → Brief → Ending (List RenderedAsset)
  pub assemble_reel :
      GeneratedConcept → ℕ → List String → BrandProfile → Option String → Ending RenderedAsset
  pub read : String → Ending String
  pub save : String → String → Ending (Unit {0})

-- The session, and the variable `rendered_assets`.
pub record WorkerState : Type 0 where
  pub session : Session
  pub rendered_assets : List RenderedAsset

-- A step of a coroutine.
abbrev pub Step : Type 0 → Type 0
Step A = WorkerState → Ending A × WorkerState

infixl 5 ◌>>=◌ ◌>>◌
unfoldable pub ◌>>=◌ : {A B : Type 0} → Step A → (A → Step B) → Step B
◌>>=◌ m f w =
    let (r, v) = m w in
    elim r [ done a ↦ f a v | raised text ↦ (raised text, v) | cancelled ↦ (cancelled, v) ]

abbrev pub ◌>>◌ : {A B : Type 0} → Step A → Step B → Step B
m >> k = m >>= λ _. k

module _ {A : Type 0} where
  unfoldable pub pure : A → Step A
  pure a w = (done a, w)

  -- An awaited call.
  unfoldable pub await : Ending A → Step A
  await e w = (e, w)

  unfoldable pub query : (Database → A) → Step A
  query f w = (done (f w.session.db), w)

  -- The value, or an exception.
  unfoldable pub expect : String → Option A → Step A
  unfolding await pure
  expect text none = await (raised text)
  expect text (some a) = pure a

  -- An operation of the services, whose errors are exceptions.
  unfoldable pub run_action : Action A → Step A
  run_action m w =
      let (r, s) = m w.session in
      elim r [
        | ok a ↦ (done a, record w { session = s })
        | err e ↦ (raised "", record w { session = s })
      ]

unfoldable pub write : (Database → Database) → Step (Unit {0})
write f w = (done tt, record w { session = record w.session { db = f w.session.db } })

unfoldable pub commit : Step (Unit {0})
commit w = (done tt, record w { session = record w.session { committed = w.session.db } })

unfoldable pub rollback : Step (Unit {0})
rollback w = (done tt, record w { session = record w.session { db = w.session.committed } })

-- `rendered_assets = …`
unfoldable pub keep_rendered : List RenderedAsset → Step (Unit {0})
keep_rendered assets w = (done tt, record w { rendered_assets = assets })

abbrev pub put_job : GenerationJob → Database → Database
put_job job d = record d {
  generation_jobs = update (λ j. j.id == job.id) (λ _. job) d.generation_jobs;
}

abbrev pub worker_log : String → GenerationJob → Database → Database
worker_log action job d = record d {
  audit_logs =
      record {
        action = action;
        actor_user_id = some job.requested_by;
        company_id = some job.company_id;
        product_id = some job.product_id;
        resource_type = some "generation_job";
        resource_id = some job.id;
      }
      ∷ d.audit_logs;
}

-- `text[:length]`
unfoldable pub clip : ℕ → String → String
clip zero text = String.[]
clip (suc length) String.[] = String.[]
clip (suc length) (String.◌∷◌ c text) = String.◌∷◌ c (clip length text)

-- What the `except` branches do after the rollback: the job is read again and changed.
abbrev pub mark_job :
    (GenerationJob → GenerationJob) → Option String → Option GenerationJob → Step (Unit {0})
mark_job change action none = pure tt
mark_job change none (some job) = write (put_job (change job)) >> commit
mark_job change (some action) (some job) = do
  write (put_job (change job))
  write (worker_log action (change job))
  commit

abbrev pub mark_ended :
    WorkerEnvironment → ℕ → GenerationJobStatus → String → Option String → Step (Unit {0})
mark_ended env job_id status text action = do
  rollback
  job ← query (get_job job_id)
  mark_job
      (λ (j : GenerationJob). record j {
        status = status;
        error_message = some text;
        finished_at = some env.now;
      })
      action job
