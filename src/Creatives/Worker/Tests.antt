-- ===== src/Creatives/Worker/Tests.antt =====
-- The theorems on the worker at the sample database.
use aidigiplanner_backend.Base.{◌≡◌, refl, false, Option, none, some, [], ◌∷◌}
use aidigiplanner_backend.Model.{GenerationJob, GenerationJobStatus, CreativeAssetKind, Task}
use aidigiplanner_backend.Model.Queries.{get_job}
use aidigiplanner_backend.Creatives.Worker.{
  done, raised, cancelled, GeneratedConcept, RenderedAsset, WorkerEnvironment,
}
use aidigiplanner_backend.Creatives.Worker.Rendering.{run_asset_rendering, running_job}
use aidigiplanner_backend.Creatives.Worker.Ideation.{run_task, fresh_state}
use aidigiplanner_backend.Creatives.Worker.Endings.{RenderOutcome, rendering-RenderOutcome}
use aidigiplanner_backend.Creatives.Worker.Outcome.{
  IdeationOutcome, IsSettled, ideation-IdeationOutcome, run_task-IsSettled,
}
use aidigiplanner_backend.Creatives.Worker.{put_job}
use aidigiplanner_backend.Samples.{database, job_30}

abbrev idea : GeneratedConcept
idea = record {
  angle = "offer";
  hook = "A home";
  caption = "T&C apply";
  hashtags = [];
  cta = "Apply";
  on_image_text = record { headline = "Home"; subhead = ""; kicker = "" };
  image_prompt = "";
  negative_prompt = "";
  reel = none;
  carousel_slides = none;
  disclaimer_line = "T&C apply";
  compliance_notes = [];
  rejected = false;
  rejection_reason = "";
}

abbrev image : RenderedAsset
image = record {
  kind = CreativeAssetKind.image;
  concept_index = 0;
  label = "post";
  model_id = "m";
  mime_type = "image/png";
  content = "png";
  estimated_cost_inr = 0;
}

-- A pipeline that returns one concept and then one image, and a storage that takes so long that arq
-- cancels the task.
abbrev slow_storage : WorkerEnvironment
slow_storage = record {
  now = 9;
  concept_key = λ index. index;
  asset_key = λ index label. index;
  show_key = λ key. "k";
  run_ideation = λ dry_run brief brand. done (idea ∷ []);
  render_images = λ dry_run concepts brief brand logo. done (image ∷ []);
  render_clips = λ dry_run backend concepts references brief. done [];
  assemble_reel = λ concept index clips brand logo. raised "no clip";
  read = λ key. done "";
  save = λ key content. cancelled;
}

found_job : get_job 30 database ≡ some job_30
unfolding get_job
found_job = refl

rendering-RenderOutcome_example :
    RenderOutcome slow_storage 30
      (running_job job_30)
      (put_job (running_job job_30) database)
      (run_asset_rendering slow_storage 30 (fresh_state database)).1.session.committed
rendering-RenderOutcome_example =
    rendering-RenderOutcome slow_storage 30 job_30 (fresh_state database) found_job

ideation-IdeationOutcome_example :
    IdeationOutcome slow_storage 30 job_30 database
      (run_task slow_storage (Task.generate_creatives_job 30) database)
ideation-IdeationOutcome_example =
    ideation-IdeationOutcome slow_storage 30 job_30 database found_job

run_task-IsSettled_example :
    (job : GenerationJob) × (get_job 30
        (run_task slow_storage (Task.generate_creatives_job 30) database)
      ≡ some job)
    × IsSettled job
run_task-IsSettled_example =
    run_task-IsSettled slow_storage (Task.generate_creatives_job 30) job_30 database found_job

abbrev status_of : Option GenerationJob → Option GenerationJobStatus
status_of none = none
status_of (some job) = some job.status
