-- ===== src/Creatives/Generation.antt =====
-- `request_generation` and `render_assets` of `CreativeService`
-- (app/modules/creatives/service.py): the requests that spend money.
pub mod Outcome
pub mod Caps
pub mod Stranded
pub mod Render
mod Tests
use Prim.Native.String.{◌++◌ as str_append}
use aidigiplanner_backend.Base.{
  ℕ, ◌+◌, ◌*◌, ◌/◌, Bool, true, false, not, ◌&&◌, ◌==◌, str_eq, ltb, leb, String, Option, none,
  some, List, [], ◌∷◌, map, sum, first, select, update, is_none, is_some, or_else, if◌then◌else◌,
}
use aidigiplanner_backend.Model.{
  Database, User, Product, SocialPlatform, ReelStyle, BrandProfile, CreativeBrief, GenerationJob,
  GenerationJobStatus, AuditLog, Task, is_avatar, is_awaiting_render,
}
use aidigiplanner_backend.Model.Session.{
  Action, ◌>>=◌, ◌>>◌, Error, crash, err, pure, raise, raise_if, query, or_raise, or_crash, modify,
  commit, log, enqueue, bad_request, not_found,
}
use aidigiplanner_backend.Model.Queries.{get_product, get_brief}
use aidigiplanner_backend.Creatives.Brief.{Brief, validate, job_key}
use aidigiplanner_backend.Creatives.Pricing.{CreativeSettings, estimate_brief_cost, total_inr}
use aidigiplanner_backend.Creatives.BrandProfile.{resolve_effective_brand_profile, product_line}

-- `GenerateCreativesRequest`: the brief's own fields, and how to run it.
pub record GenerateCreativesRequest : Type 0 where
  pub brief : Brief
  pub platforms : List SocialPlatform
  pub sub_product_id : Option ℕ
  pub reference_image_storage_key : Option String
  pub publishing_date : Option ℕ
  pub force : Bool
  pub dry_run : Bool

-- What `enqueue_job` does: it raises, as when Redis cannot be reached, or answers with the key of
-- the task, if arq has made one.
pub data ArqAnswer : Type 0 where
  unreachable : ArqAnswer
  answered : Option ℕ → ArqAnswer

-- What the process around the service supplies: the clock, the keys of new rows, arq's answer to
-- `enqueue_job`, and the rounding of a `Numeric(10, 2)` column.
pub record Environment : Type 0 where
  pub now : ℕ
  pub brief_id : ℕ
  pub job_id : ℕ
  pub arq : ArqAnswer
  pub settings : CreativeSettings
  pub normalize : String → String
  pub digest : String → String
  pub to_numeric : ℕ → ℕ

abbrev pub day_us : ℕ
day_us = 86_400_000_000

-- `utcnow().replace(hour=0, minute=0, second=0, microsecond=0)`
abbrev pub day_start : ℕ → ℕ
day_start now = now / day_us * day_us

abbrev pub ideate_prompt_version : String
ideate_prompt_version = "ideate_v1"

-- `func.coalesce(actual_cost_inr, estimated_cost_inr)`
abbrev pub spend : GenerationJob → ℕ
spend j = or_else j.actual_cost_inr j.estimated_cost_inr

abbrev pub counts_for : ℕ → ℕ → GenerationJob → Bool
counts_for company_id start j = j.company_id == company_id && leb start j.created_at

unfoldable pub spent_since : ℕ → ℕ → Database → ℕ
spent_since company_id start d =
    sum (map spend (select (counts_for company_id start) d.generation_jobs))

-- The same sum without one job.
unfoldable pub spent_since_except : ℕ → ℕ → ℕ → Database → ℕ
spent_since_except company_id start job_id d = sum (
    map spend
      (select (λ j. counts_for company_id start j && not (j.id == job_id)) d.generation_jobs))

-- `_get_existing_job_for_key`
unfoldable pub existing_job_for_key : ℕ → String → Database → Option GenerationJob
existing_job_for_key product_id key d =
    elim (first (λ (b : CreativeBrief). b.product_id == product_id && str_eq b.job_key key)
      d.creative_briefs) [
        | none ↦ none
        | some b ↦ first (λ (j : GenerationJob). j.brief_id == b.id) d.generation_jobs
      ]

abbrev pub needs_avatar : Brief → BrandProfile → Bool
needs_avatar b row =
    elim b.reel_style [ none ↦ false | some r ↦ is_avatar r ] && is_none row.avatar_storage_key

abbrev pub brief_row :
    Environment → ℕ → User → GenerateCreativesRequest → Brief → String → CreativeBrief
brief_row env product_id actor payload b key = record {
  id = env.brief_id;
  product_id = product_id;
  product_line = b.product_line;
  topic = b.topic;
  format = b.format;
  carousel_slides = b.carousel_slides;
  reel_duration_s = b.reel_duration_s;
  language = b.language;
  concept_count = b.concept_count;
  quality = b.quality;
  extra_notes = b.extra_notes;
  voiceover = b.voiceover;
  reel_style = b.reel_style;
  platforms = payload.platforms;
  sub_product_id = payload.sub_product_id;
  objective = b.objective;
  offer = b.offer;
  festival_occasion = b.festival_occasion;
  audience_override = b.audience_override;
  tone_override = b.tone_override;
  cta_override = b.cta_override;
  reference_image_storage_key = payload.reference_image_storage_key;
  publishing_date = payload.publishing_date;
  job_key = key;
  created_by = actor.id;
}

-- `Brief(...)` from a stored row, in `render_assets` and in `_brief_from_row` of the worker.
abbrev pub brief_fields : CreativeBrief → Brief
brief_fields r = record {
  product_line = r.product_line;
  topic = r.topic;
  format = r.format;
  carousel_slides = r.carousel_slides;
  reel_duration_s = r.reel_duration_s;
  language = r.language;
  concept_count = r.concept_count;
  quality = r.quality;
  extra_notes = r.extra_notes;
  voiceover = r.voiceover;
  reel_style = r.reel_style;
  objective = r.objective;
  offer = r.offer;
  festival_occasion = r.festival_occasion;
  audience_override = r.audience_override;
  tone_override = r.tone_override;
  cta_override = r.cta_override;
}

abbrev pub brief_from_row : CreativeBrief → Option Brief
brief_from_row r = validate (brief_fields r)

abbrev pub job_row : Environment → ℕ → Product → User → GenerateCreativesRequest → ℕ → GenerationJob
job_row env product_id product actor payload total = record {
  id = env.job_id;
  brief_id = env.brief_id;
  product_id = product_id;
  company_id = product.company_id;
  status = GenerationJobStatus.queued;
  prompt_version = ideate_prompt_version;
  dry_run = payload.dry_run;
  estimated_cost_inr = env.to_numeric total;
  actual_cost_inr = none;
  error_message = none;
  requested_by = actor.id;
  started_at = none;
  finished_at = none;
  arq_job_id = none;
  created_at = env.now;
}

abbrev job_log : String → User → ℕ → ℕ → Option ℕ → Action (Unit {0})
job_log action actor company_id product_id job_id = log (record {
  action = action;
  actor_user_id = some actor.id;
  company_id = some company_id;
  product_id = some product_id;
  resource_type = some "generation_job";
  resource_id = job_id;
})

abbrev pub put_job : GenerationJob → Database → Database
put_job j d = record d { generation_jobs = update (λ r. r.id == j.id) (λ _. j) d.generation_jobs }

-- `enqueue_job` of arq: the task is queued unless arq cannot be reached.
abbrev enqueue_job : ArqAnswer → Task → Action (Option ℕ)
enqueue_job ArqAnswer.unreachable task s = (err crash, s)
enqueue_job (ArqAnswer.answered id) task s = (enqueue task >> pure id) s

-- `if arq_job is not None: job.arq_job_id = arq_job.job_id; commit`
abbrev record_arq_job : GenerationJob → Option ℕ → Action GenerationJob
record_arq_job job none = pure job
record_arq_job job (some id) =
    let j = record job { arq_job_id = some id } in do modify (put_job j); commit; pure j

-- From the cost guardrails on: `spent` is what the other jobs of the day have cost.
abbrev check_caps : CreativeSettings → ℕ → ℕ → Action (Unit {0})
check_caps settings spent total = do
  raise_if (ltb settings.max_cost_per_run_inr total) bad_request
  raise_if (ltb settings.max_cost_per_day_inr (spent + total)) bad_request

unfoldable pub create_job :
    Environment
    → ℕ
    → Product
    → User
    → GenerateCreativesRequest
    → Brief
    → String
    → Action GenerationJob
create_job env product_id product actor payload brief key = do
  items ← or_crash (estimate_brief_cost brief env.settings)
  spent ← query (spent_since product.company_id (day_start env.now))
  check_caps env.settings spent (total_inr items)
  modify (λ d. record d {
    creative_briefs = brief_row env product_id actor payload brief key ∷ d.creative_briefs;
  })
  let job = job_row env product_id product actor payload (total_inr items)
  modify (λ d. record d { generation_jobs = job ∷ d.generation_jobs })
  job_log "creative_job.queued" actor product.company_id product_id none
  commit
  arq_job_id ← enqueue_job env.arq (Task.generate_creatives_job job.id)
  record_arq_job job arq_job_id

-- `if not payload.force`: the job of an earlier identical brief.
abbrev pub reusable_job : Bool → ℕ → String → Database → Option GenerationJob
reusable_job true product_id key d = none
reusable_job false product_id key d = existing_job_for_key product_id key d

abbrev reuse_or : Option GenerationJob → Action GenerationJob → Action GenerationJob
reuse_or none create = create
reuse_or (some job) create = pure job

unfoldable pub request_generation :
    Environment → ℕ → User → GenerateCreativesRequest → Action GenerationJob
request_generation env product_id actor payload = do
  product ← or_raise (← query (get_product product_id)) not_found
  row ← resolve_effective_brand_profile product_id none
  brief ← or_raise (validate payload.brief) bad_request
  or_raise (product_line brief.product_line row) bad_request
  raise_if (needs_avatar brief row) bad_request
  let key = job_key env.normalize env.digest brief ideate_prompt_version
  existing ← query (reusable_job payload.force product_id key)
  reuse_or existing (create_job env product_id product actor payload brief key)

-- `CreativeService.get_job`
unfoldable pub find_job : ℕ → ℕ → Database → Option GenerationJob
find_job product_id job_id d =
    first (λ j. j.id == job_id && j.product_id == product_id) d.generation_jobs

-- The checks of `render_assets`, up to the cost guardrails.
unfoldable pub clear_for_render : Environment → ℕ → ℕ → Action GenerationJob
clear_for_render env product_id job_id = do
  job ← or_raise (← query (find_job product_id job_id)) not_found
  raise_if (not (is_awaiting_render job.status)) bad_request
  row ← or_raise (← query (get_brief job.brief_id)) not_found
  product ← or_raise (← query (get_product product_id)) not_found
  brief ← or_crash (brief_from_row row)
  items ← or_crash (estimate_brief_cost brief env.settings)
  spent ← query (spent_since_except product.company_id (day_start env.now) job.id)
  check_caps env.settings spent (total_inr items)
  pure job

-- What `render_assets` then does: the audit entry, the commit, and the task for the worker.
unfoldable pub queue_render : Environment → ℕ → User → GenerationJob → Action GenerationJob
queue_render env product_id actor job = do
  job_log "creative_job.render_requested" actor job.company_id product_id (some job.id)
  commit
  arq_job_id ← enqueue_job env.arq (Task.render_creative_assets_job job.id)
  record_arq_job job arq_job_id

unfoldable pub render_assets : Environment → ℕ → ℕ → User → Action GenerationJob
render_assets env product_id job_id actor =
    clear_for_render env product_id job_id >>= queue_render env product_id actor
