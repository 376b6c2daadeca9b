-- ===== src/Creatives/Worker/Stored.antt =====
-- The rows that ideation (app/modules/creatives/worker.py) writes, against the concepts they hold.
use mathlib.Core.List.{reverse_aux}
use aidigiplanner_backend.Base.{ℕ, ◌+◌, ◌≡◌, refl, none, some, List, [], ◌∷◌, Option, ◌⊎◌, inl, inr}
use aidigiplanner_backend.Model.{GenerationJob, CreativeConcept, CarouselSlide, ContentStatus}
use aidigiplanner_backend.Creatives.Worker.{GeneratedConcept, WorkerEnvironment, slides_or_none}
use aidigiplanner_backend.Creatives.Worker.Ideation.{add_concepts, new_concept}

-- The row is a draft of the job's, in its place, and has all that the concept says.
pub record IsStored (job_id time index : ℕ) (c : GeneratedConcept) (row : CreativeConcept)
    : Type 0 where
  pub of_job : row.job_id ≡ job_id
  pub place : row.concept_index ≡ index
  pub draft : row.status ≡ ContentStatus.draft
  pub kept : row.deleted_at ≡ none
  pub suggested : row.suggested_posting_time ≡ some time
  pub angle : row.angle ≡ c.angle
  pub hook : row.hook ≡ c.hook
  pub caption : row.caption ≡ c.caption
  pub hashtags : row.hashtags ≡ c.hashtags
  pub cta : row.cta ≡ c.cta
  pub on_image_text : row.on_image_text ≡ c.on_image_text
  pub image_prompt : row.image_prompt ≡ c.image_prompt
  pub negative_prompt : row.negative_prompt ≡ c.negative_prompt
  pub reel : row.reel_script ≡ c.reel
  pub slides :
      (row.carousel_slides ≡ c.carousel_slides)
      ⊎ ((c.carousel_slides ≡ some []) × (row.carousel_slides ≡ none))
  pub disclaimer : row.disclaimer_line ≡ c.disclaimer_line
  pub notes : row.compliance_notes ≡ c.compliance_notes
  pub rejected : row.compliance_rejected ≡ c.rejected
  pub reason : row.compliance_rejection_reason ≡ c.rejection_reason

-- One row for each concept, in order.
abbrev pub AllStored : ℕ → ℕ → ℕ → List GeneratedConcept → List CreativeConcept → Type 0
AllStored job_id time index [] [] = Unit
AllStored job_id time index [] (row ∷ rows) = ⊥
AllStored job_id time index (c ∷ cs) [] = ⊥
AllStored job_id time index (c ∷ cs) (row ∷ rows) =
    IsStored job_id time index c row × AllStored job_id time (index + 1) cs rows

slides_kept :
    (o : Option (List CarouselSlide))
    → (slides_or_none o ≡ o) ⊎ ((o ≡ some []) × (slides_or_none o ≡ none))
slides_kept none = inl refl
slides_kept (some []) = inr (refl, refl)
slides_kept (some (slide ∷ slides)) = inl refl

new_concept-IsStored :
    (env : WorkerEnvironment) (job : GenerationJob) (time index : ℕ) (c : GeneratedConcept)
    → IsStored job.id time index c (new_concept env job time index c)
new_concept-IsStored env job time index c = record {
  of_job = refl;
  place = refl;
  draft = refl;
  kept = refl;
  suggested = refl;
  angle = refl;
  hook = refl;
  caption = refl;
  hashtags = refl;
  cta = refl;
  on_image_text = refl;
  image_prompt = refl;
  negative_prompt = refl;
  reel = refl;
  slides = slides_kept c.carousel_slides;
  disclaimer = refl;
  notes = refl;
  rejected = refl;
  reason = refl;
}

-- The rows that are added, the newest first.
pub add_concepts-AllStored :
    (env : WorkerEnvironment) (job : GenerationJob) (time index : ℕ) (cs : List GeneratedConcept)
    (old : List CreativeConcept)
    → (rows : List CreativeConcept) × AllStored job.id time index cs rows
      × (add_concepts env job time index cs old ≡ reverse_aux rows old)
unfolding add_concepts
add_concepts-AllStored env job time index [] old = ([], tt, refl)
add_concepts-AllStored env job time index (c ∷ cs) old =
    let row = new_concept env job time index c in
    let (rows, all, e) = add_concepts-AllStored env job time (index + 1) cs (row ∷ old) in
    (row ∷ rows, (new_concept-IsStored env job time index c, all), e)
