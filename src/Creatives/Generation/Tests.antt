-- ===== src/Creatives/Generation/Tests.antt =====
-- The theorems on paid requests at the sample database.
use aidigiplanner_backend.Base.{
  ◌+◌, ◌*◌, ◌≤◌, ◌≡◌, ◌≢◌, refl, ◌⊎◌, List, [], ◌∷◌, none, some, false, arith,
}
use aidigiplanner_backend.Model.{CreativeQuality, Database, GenerationJob, GenerationJobStatus}
use aidigiplanner_backend.Model.Session.{
  Session, Error, AppError, open_session, ok, err, app, crash,
}
use aidigiplanner_backend.Model.Queries.{get_product}
use aidigiplanner_backend.Creatives.Brief.{validate, job_key}
use aidigiplanner_backend.Creatives.Brief.Valid.{IsValid}
use aidigiplanner_backend.Creatives.Pricing.{
  CreativeSettings, CostTable, ImageCost, CostLineItem, estimate_brief_cost, total_inr, input_rate,
}
use aidigiplanner_backend.Creatives.Pricing.Total.{
  HasPrices, cost_per_concept, estimate_brief_cost-total,
}
use aidigiplanner_backend.Creatives.Generation.{
  create_job, job_row, existing_job_for_key, Environment, ArqAnswer, GenerateCreativesRequest,
  brief_fields, request_generation, render_assets, day_start, spent_since,
}
use aidigiplanner_backend.Creatives.Generation.Outcome.{Outcome, IsFresh}
use aidigiplanner_backend.Creatives.Generation.Caps.{
  BothOrNeither, request_generation-capped, request_generation_atomic, request_generation_repeated,
  later,
}
use aidigiplanner_backend.Creatives.Generation.Stranded.{stranded_job_blocks_retry}
use aidigiplanner_backend.Creatives.Generation.Render.{RenderOutcome, render_assets-Outcome}
use aidigiplanner_backend.Creatives.BrandProfile.{
  resolve_effective_brand_profile, resolve_product_profile, get_own_brand_profile, product_line,
}
use aidigiplanner_backend.Samples.{database, manager, product, brief_40}

abbrev image_cost : ImageCost
image_cost = record { per_0_5k = none; per_1k = 3_000_000; per_2k = some 9_000_000; per_4k = none }

-- Rates of the default table's size.
abbrev costs : CostTable
costs = record {
  text_fast_input = 25;
  text_fast_output = 210;
  text_quality_input = 105;
  text_quality_output = 840;
  image_draft = image_cost;
  image_standard = image_cost;
  image_hero = image_cost;
  video_veo_per_second_720p = 8_000_000;
  video_veo_per_second_1080p = 10_000_000;
  video_veo_per_second_4k = 25_000_000;
  video_omni_per_second = 8_000_000;
}

abbrev settings : CreativeSettings
settings = record {
  max_cost_per_run_inr = 500_000_000;
  max_cost_per_day_inr = 2_000_000_000;
  models = record {
    text_fast = "fast";
    text_quality = "quality";
    image_draft = "draft";
    image_standard = "standard";
    image_hero = "hero";
    video_omni = "omni";
    video_veo = "veo";
  };
  costs = costs;
}

abbrev env : Environment
env = record {
  now = 100;
  brief_id = 41;
  job_id = 31;
  arq = ArqAnswer.answered (some 5);
  settings = settings;
  normalize = λ s. s;
  digest = λ s. s;
  to_numeric = λ x. x;
}

abbrev payload : GenerateCreativesRequest
payload = record {
  brief = brief_fields brief_40;
  platforms = [];
  sub_product_id = none;
  reference_image_storage_key = none;
  publishing_date = none;
  force = false;
  dry_run = false;
}

brief-IsValid : IsValid (brief_fields brief_40)
brief-IsValid = ground arith

prices : HasPrices costs
prices = record { standard_2k = refl; hero_2k = refl }

estimate_brief_cost-total_example :
    (items : List CostLineItem) × (estimate_brief_cost (brief_fields brief_40) settings
      ≡ some items)
    × (total_inr items
        ≡ 1800 * input_rate costs CreativeQuality.draft
          + 2 * cost_per_concept (brief_fields brief_40) costs)
estimate_brief_cost-total_example =
    estimate_brief_cost-total (brief_fields brief_40) settings brief-IsValid prices

fresh : IsFresh env database
fresh = (λ e. omega arith, tt)

spent_before : spent_since 1 (day_start env.now) database ≤ env.settings.max_cost_per_day_inr + 5000
unfolding spent_since
spent_before = omega arith

request_generation-capped_example :
    spent_since 1
      (day_start env.now)
      (request_generation env 10 manager payload (open_session database)).1.committed
    ≤ env.settings.max_cost_per_day_inr + 5000
request_generation-capped_example =
    request_generation-capped env 10 manager payload 1 database fresh (λ x. omega arith)
      spent_before

-- Redis is down.
abbrev offline : Environment
offline = record env { arq = ArqAnswer.unreachable }

abbrev left_behind : Session
left_behind = (request_generation offline 10 manager payload (open_session database)).1

failed : (request_generation offline 10 manager payload (open_session database)).0 ≡ err crash
unfolding request_generation create_job resolve_effective_brand_profile resolve_product_profile
    get_own_brand_profile product_line validate job_key existing_job_for_key estimate_brief_cost
    spent_since get_product
failed = refl

request_generation_atomic_example :
    (left_behind.queue ≡ [])
    × BothOrNeither offline 10 manager payload database left_behind.committed
    × ((a : AppError) → crash ≡ app a → left_behind ≡ open_session database)
request_generation_atomic_example =
    request_generation_atomic offline 10 manager payload database fresh failed

grown : left_behind.committed.generation_jobs ≢ database.generation_jobs
unfolding request_generation create_job resolve_effective_brand_profile resolve_product_profile
    get_own_brand_profile product_line validate job_key existing_job_for_key estimate_brief_cost
    spent_since get_product
grown e = ground arith

fresh_later : IsFresh (later offline 200 42 32 (ArqAnswer.answered none)) left_behind.committed
unfolding request_generation create_job resolve_effective_brand_profile resolve_product_profile
    get_own_brand_profile product_line validate job_key existing_job_for_key estimate_brief_cost
    spent_since get_product
fresh_later = (λ e. omega arith, (λ e. omega arith, tt))

stranded_job_blocks_retry_example :
    let (r, s) =
      request_generation
        (later offline 200 42 32 (ArqAnswer.answered none))
        10
        manager
        payload
        (open_session left_behind.committed) in
    (j : GenerationJob) × (left_behind.committed.generation_jobs ≡ j ∷ database.generation_jobs)
    × (j.status ≡ GenerationJobStatus.queued)
    × (s ≡ open_session left_behind.committed)
    × (((e : Error) × (r ≡ err e)) ⊎ (r ≡ ok j))
stranded_job_blocks_retry_example =
    stranded_job_blocks_retry offline 10 manager payload database left_behind.committed 200 42 32
      (ArqAnswer.answered none) fresh refl failed refl grown fresh_later

-- The job that the request creates, and the database that it leaves.
abbrev job_31 : GenerationJob
job_31 = record (job_row env 10 product manager payload (1800 * 25 + 2 * 3_139_800)) {
  arq_job_id = some 5;
}

created : (request_generation env 10 manager payload (open_session database)).0 ≡ ok job_31
unfolding request_generation create_job resolve_effective_brand_profile resolve_product_profile
    get_own_brand_profile product_line validate job_key existing_job_for_key estimate_brief_cost
    spent_since get_product
created = refl

abbrev second_database : Database
second_database = (request_generation env 10 manager payload (open_session database)).1.committed

fresh_again : IsFresh (later env 200 42 32 (ArqAnswer.answered none)) second_database
unfolding request_generation create_job resolve_effective_brand_profile resolve_product_profile
    get_own_brand_profile product_line validate job_key existing_job_for_key estimate_brief_cost
    spent_since get_product
fresh_again = (λ e. omega arith, (λ e. omega arith, tt))

request_generation_repeated_example :
    let (r, s) =
      request_generation
        (later env 200 42 32 (ArqAnswer.answered none))
        10
        manager
        payload
        (open_session second_database) in
    ((e : Error) × (r ≡ err e) × (s ≡ open_session second_database))
    ⊎ ((r ≡ ok job_31) × (s ≡ open_session second_database))
request_generation_repeated_example =
    request_generation_repeated env 10 manager payload database second_database job_31 200 42 32
      (ArqAnswer.answered none) fresh refl created refl fresh_again

render_assets-Outcome_example :
    RenderOutcome env 10 30 manager database
      (render_assets env 10 30 manager (open_session database)).0
      (render_assets env 10 30 manager (open_session database)).1
render_assets-Outcome_example = render_assets-Outcome env 10 30 manager database
