-- ===== src/Creatives/Worker/Ideation.antt =====
-- `_run_ideation` of app/modules/creatives/worker.py, and the two arq tasks.
use aidigiplanner_backend.Base.{
  ℕ, ◌+◌, Bool, true, false, String, Option, none, some, List, [], ◌∷◌, map, if◌then◌else◌,
}
use aidigiplanner_backend.Model.{
  Database, GenerationJob, GenerationJobStatus, CreativeConcept, ContentStatus, Task,
  SocialPlatform, is_reel_like,
}
use aidigiplanner_backend.Model.Session.{open_session}
use aidigiplanner_backend.Model.Queries.{get_job, get_brief}
use aidigiplanner_backend.Creatives.Brief.{Brief}
use aidigiplanner_backend.Creatives.BrandProfile.{resolve_effective_brand_profile}
use aidigiplanner_backend.Creatives.Generation.{brief_from_row}
use aidigiplanner_backend.Creatives.PostingTime.{suggest_posting_time, hour_length}
use aidigiplanner_backend.Creatives.Worker.{
  Ending, done, raised, cancelled, GeneratedConcept, WorkerEnvironment, WorkerState, Step, ◌>>=◌,
  ◌>>◌, pure, await, query, expect, run_action, write, commit, put_job, worker_log, clip,
  slides_or_none, mark_ended,
}
use aidigiplanner_backend.Creatives.Worker.Rendering.{run_asset_rendering}

-- The values of `SocialPlatform`.
abbrev pub platform_value : SocialPlatform → String
platform_value SocialPlatform.instagram = "instagram"
platform_value SocialPlatform.facebook = "facebook"
platform_value SocialPlatform.youtube = "youtube"
platform_value SocialPlatform.google = "google"
platform_value SocialPlatform.twitter = "twitter"
platform_value SocialPlatform.linkedin = "linkedin"

abbrev pub new_concept :
    WorkerEnvironment → GenerationJob → ℕ → ℕ → GeneratedConcept → CreativeConcept
new_concept env job suggested_time index concept = record {
  id = env.concept_key index;
  job_id = job.id;
  concept_index = index;
  angle = concept.angle;
  hook = concept.hook;
  caption = concept.caption;
  hashtags = concept.hashtags;
  cta = concept.cta;
  on_image_text = concept.on_image_text;
  image_prompt = concept.image_prompt;
  negative_prompt = concept.negative_prompt;
  reel_script = concept.reel;
  carousel_slides = slides_or_none concept.carousel_slides;
  disclaimer_line = concept.disclaimer_line;
  compliance_notes = concept.compliance_notes;
  compliance_rejected = concept.rejected;
  compliance_rejection_reason = concept.rejection_reason;
  status = ContentStatus.draft;
  reviewed_by = none;
  reviewed_at = none;
  scheduled_at = none;
  published_at = none;
  suggested_posting_time = some suggested_time;
  deleted_at = none;
}

-- The loop over `enumerate(ideation.concepts)`, from an index on; the newest row stands first.
unfoldable pub add_concepts :
    WorkerEnvironment
    → GenerationJob
    → ℕ
    → ℕ
    → List GeneratedConcept
    → List CreativeConcept
    → List CreativeConcept
add_concepts env job suggested_time index [] rows = rows
add_concepts env job suggested_time index (c ∷ cs) rows =
    add_concepts env job suggested_time (index + 1) cs
      (new_concept env job suggested_time index c ∷ rows)

abbrev pub awaiting_job : GenerationJob → GenerationJob
awaiting_job job = record job { status = GenerationJobStatus.awaiting_render }

-- The end of the `try` block: whether the assets are rendered at once.
abbrev pub store_concepts : GenerationJob → Brief → Step Bool
store_concepts job brief =
    if is_reel_like brief.format
    then (do
      write (put_job (awaiting_job job))
      write (worker_log "creative_job.awaiting_render" (awaiting_job job))
      commit
      pure false)
    else commit >> pure true

-- The brief, the time that is suggested, and the concepts.
unfoldable pub ideate : WorkerEnvironment → GenerationJob → Step (Brief × ℕ × List GeneratedConcept)
ideate env job = do
  row ← expect "creative brief missing" (← query (get_brief job.brief_id))
  brand ← run_action (resolve_effective_brand_profile job.product_id none)
  brief ← expect "invalid brief" (brief_from_row row)
  concepts ← await (env.run_ideation job.dry_run brief brand)
  pure
      (brief, suggest_posting_time (map platform_value row.platforms) env.now hour_length, concepts)

abbrev pub save_ideas :
    WorkerEnvironment → GenerationJob → Brief × ℕ × List GeneratedConcept → Step Bool
save_ideas env job (brief, suggested_time, concepts) = do
  write (λ d. record d {
    creative_concepts = add_concepts env job suggested_time 0 concepts d.creative_concepts;
  })
  store_concepts job brief

-- The `except` branches, and what follows the block.
abbrev pub settle_ideation : WorkerEnvironment → ℕ → Ending Bool → Step (Unit {0})
settle_ideation env job_id (done true) w = run_asset_rendering env job_id w
settle_ideation env job_id (done false) w = (done tt, w)
settle_ideation env job_id (raised text) w =
    mark_ended env job_id GenerationJobStatus.failed (clip 2000 text) (some "creative_job.failed") w
settle_ideation env job_id cancelled w =
    (mark_ended env job_id GenerationJobStatus.failed "Generation timed out." none
        >> await cancelled)
      w

abbrev pub try_ideation : WorkerEnvironment → ℕ → Step Bool → Step (Unit {0})
try_ideation env job_id body w = settle_ideation env job_id (body w).0 (body w).1

abbrev pub started_job : WorkerEnvironment → GenerationJob → GenerationJob
started_job env job = record job { status = GenerationJobStatus.running; started_at = some env.now }

abbrev pub ideate_job : WorkerEnvironment → Option GenerationJob → Step (Unit {0})
ideate_job env none = pure tt
ideate_job env (some job) = do
  write (put_job (started_job env job))
  commit
  try_ideation env job.id
      (ideate env (started_job env job) >>= save_ideas env (started_job env job))

unfoldable pub run_ideation_task : WorkerEnvironment → ℕ → Step (Unit {0})
run_ideation_task env job_id = do job ← query (get_job job_id); ideate_job env job

-- The worker opens a session of its own for a task.
abbrev pub fresh_state : Database → WorkerState
fresh_state d = record { session = open_session d; rendered_assets = [] }

unfoldable pub run_task : WorkerEnvironment → Task → Database → Database
run_task env (Task.generate_creatives_job job_id) d =
    (run_ideation_task env job_id (fresh_state d)).1.session.committed
run_task env (Task.render_creative_assets_job job_id) d =
    (run_asset_rendering env job_id (fresh_state d)).1.session.committed
