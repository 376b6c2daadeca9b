-- ===== src/Creatives/Worker/Rendering.antt =====
-- `_run_asset_rendering` of app/modules/creatives/worker.py: images for the concepts that were accepted,
-- and the clips of reels.
use Prim.Native.String.{compare, ◌++◌}
use text.Mathlib.Text.{is_le}
use aidigiplanner_backend.Base.{
  ℕ, Bool, false, not, ◌&&◌, ◌==◌, leb, String, Option, none, some, List, [], ◌∷◌, ◌++◌ as append,
  map, any, first, select, if◌then◌else◌, str_eq, is_none,
}
use aidigiplanner_backend.Model.{
  Database, GenerationJob, GenerationJobStatus, CreativeConcept, CreativeAsset, CreativeBrief,
  BrandProfile, ReelStyle, is_reel_like, is_avatar,
}
use aidigiplanner_backend.Model.Queries.{get_job, get_brief}
use aidigiplanner_backend.Creatives.Brief.{Brief, video_backend_for}
use aidigiplanner_backend.Creatives.BrandProfile.{resolve_effective_brand_profile}
use aidigiplanner_backend.Creatives.Generation.{brief_from_row}
use aidigiplanner_backend.Creatives.Worker.{
  Ending, done, raised, cancelled, GeneratedConcept, RenderedAsset, Indexed, WorkerEnvironment,
  Step, ◌>>=◌, ◌>>◌, pure, await, query, expect, run_action, write, commit, keep_rendered, put_job,
  worker_log, clip, mark_ended, slides_or_none,
}

-- `_ASSET_EXTENSION_BY_MIME.get(mime_type, "bin")`
abbrev pub asset_extension : String → String
asset_extension mime_type =
    if str_eq mime_type "image/png"
    then "png"
    else if str_eq mime_type "image/jpeg"
    then "jpg"
    else if str_eq mime_type "video/mp4"
    then "mp4"
    else "bin"

unfoldable pub asset_storage_key : (ℕ → String) → GenerationJob → RenderedAsset → String
asset_storage_key show_key job asset =
    show_key job.product_id
    ++ ("/"
        ++ (show_key job.id
            ++ ("/"
                ++ (show_key asset.concept_index
                    ++ ("/" ++ (asset.label ++ ("." ++ asset_extension asset.mime_type)))))))

abbrev pub new_asset :
    WorkerEnvironment → GenerationJob → RenderedAsset → CreativeConcept → CreativeAsset
new_asset env job asset concept = record {
  id = env.asset_key asset.concept_index asset.label;
  concept_id = concept.id;
  kind = asset.kind;
  storage_key = asset_storage_key env.show_key job asset;
  label = asset.label;
  model_id = asset.model_id;
  mime_type = asset.mime_type;
  estimated_cost_inr = asset.estimated_cost_inr;
  generated_at = env.now;
  deleted_at = none;
}

-- `concept_rows[index]`
abbrev pub row_at : ℕ → List CreativeConcept → Option CreativeConcept
row_at index rows = first (λ r. r.concept_index == index) rows

unfoldable pub persist_asset :
    WorkerEnvironment → GenerationJob → List CreativeConcept → RenderedAsset → Step (Unit {0})
persist_asset env job rows asset = do
  await (env.save (asset_storage_key env.show_key job asset) asset.content)
  concept ← expect "KeyError" (row_at asset.concept_index rows)
  write (λ d. record d { creative_assets = new_asset env job asset concept ∷ d.creative_assets })

unfoldable pub persist_assets :
    WorkerEnvironment → GenerationJob → List CreativeConcept → List RenderedAsset → Step (Unit {0})
persist_assets env job rows [] = pure tt
persist_assets env job rows (a ∷ others) =
    persist_asset env job rows a >> persist_assets env job rows others

-- `order_by(CreativeConcept.concept_index)`, on the rows from the oldest to the newest.
abbrev pub insert_row : CreativeConcept → List CreativeConcept → List CreativeConcept
insert_row r [] = r ∷ []
insert_row r (s ∷ rows) =
    let rest = insert_row r rows in
    if leb s.concept_index r.concept_index then s ∷ rest else r ∷ s ∷ rows

abbrev pub sort_rows : List CreativeConcept → List CreativeConcept
sort_rows [] = []
sort_rows (r ∷ rows) = insert_row r (sort_rows rows)

-- `{r.concept_index: r for r in rows}`: of rows with one index the last.
abbrev pub by_index : List CreativeConcept → List CreativeConcept
by_index [] = []
by_index (r ∷ rows) =
    let rest = by_index rows in
    if any (λ s. s.concept_index == r.concept_index) rows then rest else r ∷ rest

unfoldable pub concept_rows : ℕ → Database → List CreativeConcept
concept_rows job_id d =
    by_index
      (sort_rows (select (λ c. c.job_id == job_id && is_none c.deleted_at) d.creative_concepts))

-- The stored angle and scripts are valid, since only the worker writes them.
abbrev pub concept_from_row : CreativeConcept → GeneratedConcept
concept_from_row r = record {
  angle = r.angle;
  hook = r.hook;
  caption = r.caption;
  hashtags = r.hashtags;
  cta = r.cta;
  on_image_text = r.on_image_text;
  image_prompt = r.image_prompt;
  negative_prompt = r.negative_prompt;
  reel = r.reel_script;
  carousel_slides = slides_or_none r.carousel_slides;
  disclaimer_line = r.disclaimer_line;
  compliance_notes = r.compliance_notes;
  rejected = r.compliance_rejected;
  rejection_reason = r.compliance_rejection_reason;
}

-- `indexed_accepted`
unfoldable pub indexed_accepted : List CreativeConcept → Indexed
indexed_accepted rows =
    map (λ r. (r.concept_index, concept_from_row r)) (select (λ r. not r.compliance_rejected) rows)

abbrev pub read_logo : WorkerEnvironment → Option String → Step (Option String)
read_logo env none = pure none
read_logo env (some key) =
    if str_eq key "" then pure none else (do content ← await (env.read key); pure (some content))

unfoldable pub render_accepted :
    WorkerEnvironment
    → GenerationJob
    → Brief
    → BrandProfile
    → Option String
    → List CreativeConcept
    → Indexed
    → Step (Unit {0})
render_accepted env job brief brand logo rows [] = pure tt
render_accepted env job brief brand logo rows (c ∷ cs) = do
  assets ← await (env.render_images job.dry_run (c ∷ cs) brief brand logo)
  keep_rendered assets
  persist_assets env job rows assets

-- The content of the cover of a concept, the last one if there are several.
abbrev pub cover_of : ℕ → List RenderedAsset → Option String
cover_of index [] = none
cover_of index (a ∷ others) =
    let rest = cover_of index others in
    if is_none rest
    then (if a.concept_index == index && str_eq a.label "cover" then some a.content else none)
    else rest

abbrev pub add_cover : ℕ → Option String → List (ℕ × String) → List (ℕ × String)
add_cover index none covers = covers
add_cover index (some content) covers = (index, content) ∷ covers

abbrev pub covers_of : List RenderedAsset → Indexed → List (ℕ × String)
covers_of assets [] = []
covers_of assets ((index, concept) ∷ reels) =
    add_cover index (cover_of index assets) (covers_of assets reels)

abbrev pub is_avatar_reel : Option ReelStyle → Bool
is_avatar_reel none = false
is_avatar_reel (some style) = is_avatar style

unfoldable pub rendered : Step (List RenderedAsset)
rendered w = (done w.rendered_assets, w)

unfoldable pub reference_images :
    WorkerEnvironment → CreativeBrief → BrandProfile → Indexed → Step (List (ℕ × String))
reference_images env row brand reels =
    if is_avatar_reel row.reel_style
    then (do
      key ← expect "AssertionError" brand.avatar_storage_key
      content ← await (env.read key)
      pure (map (λ r. (r.0, content)) reels))
    else (do assets ← rendered; pure (covers_of assets reels))

-- `sorted(clips, key=lambda a: a.label)`
abbrev pub insert_clip : RenderedAsset → List RenderedAsset → List RenderedAsset
insert_clip a [] = a ∷ []
insert_clip a (b ∷ clips) =
    let rest = insert_clip a clips in
    if is_le (compare a.label b.label) then a ∷ b ∷ clips else b ∷ rest

abbrev pub sort_clips : List RenderedAsset → List RenderedAsset
sort_clips [] = []
sort_clips (a ∷ clips) = insert_clip a (sort_clips clips)

unfoldable pub scene_clips : ℕ → List RenderedAsset → List RenderedAsset
scene_clips index clips = sort_clips (select (λ a. a.concept_index == index) clips)

abbrev pub assemble_scenes :
    WorkerEnvironment
    → GenerationJob
    → BrandProfile
    → Option String
    → List CreativeConcept
    → ℕ
    → GeneratedConcept
    → List RenderedAsset
    → Step (Unit {0})
assemble_scenes env job brand logo rows index concept [] = pure tt
assemble_scenes env job brand logo rows index concept (a ∷ others) = do
  reel ← await (env.assemble_reel concept index (map (λ c. c.content) (a ∷ others)) brand logo)
  persist_asset env job rows reel
  assets ← rendered
  keep_rendered (append assets (reel ∷ []))

unfoldable pub assemble_reels :
    WorkerEnvironment
    → GenerationJob
    → BrandProfile
    → Option String
    → List CreativeConcept
    → List RenderedAsset
    → Indexed
    → Step (Unit {0})
assemble_reels env job brand logo rows clips [] = pure tt
assemble_reels env job brand logo rows clips ((index, concept) ∷ reels) =
    assemble_scenes env job brand logo rows index concept (scene_clips index clips)
    >> assemble_reels env job brand logo rows clips reels

-- `reel_concepts`
unfoldable pub reel_concepts : Brief → Indexed → Indexed
reel_concepts brief accepted =
    if is_reel_like brief.format then select (λ r. not (is_none r.1.reel)) accepted else []

unfoldable pub render_reels :
    WorkerEnvironment
    → GenerationJob
    → CreativeBrief
    → Brief
    → BrandProfile
    → Option String
    → List CreativeConcept
    → Indexed
    → Step (Unit {0})
render_reels env job row brief brand logo rows [] = pure tt
render_reels env job row brief brand logo rows (r ∷ reels) = do
  references ← reference_images env row brand (r ∷ reels)
  expect "AssertionError" brief.voiceover
  clips ← await (
      env.render_clips job.dry_run (video_backend_for brief.voiceover) (r ∷ reels) references brief)
  persist_assets env job rows clips
  assemble_reels env job brand logo rows clips (r ∷ reels)
  assets ← rendered
  keep_rendered (append assets clips)

-- The `try` block up to the job's success.
unfoldable pub render_all : WorkerEnvironment → GenerationJob → Step (Unit {0})
render_all env job = do
  row ← expect "creative brief missing" (← query (get_brief job.brief_id))
  brand ← run_action (resolve_effective_brand_profile job.product_id none)
  brief ← expect "invalid brief" (brief_from_row row)
  rows ← query (concept_rows job.id)
  logo ← read_logo env brand.logo_storage_key
  render_accepted env job brief brand logo rows (indexed_accepted rows)
  render_reels env job row brief brand logo rows (reel_concepts brief (indexed_accepted rows))

abbrev pub succeeded_job : WorkerEnvironment → GenerationJob → GenerationJob
succeeded_job env job = record job {
  status = GenerationJobStatus.succeeded;
  finished_at = some env.now;
}

abbrev pub finish_rendering : WorkerEnvironment → GenerationJob → Step (Unit {0})
finish_rendering env job = do
  write (put_job (succeeded_job env job))
  write (worker_log "creative_job.succeeded" (succeeded_job env job))
  commit

-- What a timeout makes of the job.
abbrev pub timed_out_status : List RenderedAsset → GenerationJobStatus
timed_out_status [] = GenerationJobStatus.failed
timed_out_status (a ∷ others) = GenerationJobStatus.partially_failed

-- The `except` branches.
abbrev pub settle_rendering : WorkerEnvironment → ℕ → Ending (Unit {0}) → Step (Unit {0})
settle_rendering env job_id (done u) w = (done u, w)
settle_rendering env job_id (raised text) w =
    mark_ended env job_id GenerationJobStatus.partially_failed (clip 2000 text)
      (some "creative_job.partially_failed") w
settle_rendering env job_id cancelled w =
    (mark_ended env job_id (timed_out_status w.rendered_assets) "Rendering timed out." none
        >> await cancelled)
      w

abbrev pub try_rendering : WorkerEnvironment → ℕ → Step (Unit {0}) → Step (Unit {0})
try_rendering env job_id body w = settle_rendering env job_id (body w).0 (body w).1

abbrev pub running_job : GenerationJob → GenerationJob
running_job job = record job { status = GenerationJobStatus.running }

abbrev pub render_job : WorkerEnvironment → Option GenerationJob → Step (Unit {0})
render_job env none = pure tt
render_job env (some job) = do
  write (put_job (running_job job))
  commit
  keep_rendered []
  try_rendering env job.id
      (render_all env (running_job job) >> finish_rendering env (running_job job))

unfoldable pub run_asset_rendering : WorkerEnvironment → ℕ → Step (Unit {0})
run_asset_rendering env job_id = do job ← query (get_job job_id); render_job env job
