-- ===== src/Creatives/Worker/Outcome.antt =====
-- What the task of ideation (app/modules/creatives/worker.py) makes of a job and its concepts.
use mathlib.Core.List.{reverse_aux}
use aidigiplanner_backend.Base.{
  ℕ, ◌≡◌, refl, ap, sym, subst, ◌∙◌, String, Option, none, some, List, Bool-cases, inl, inr, ◌⊎◌,
}
use aidigiplanner_backend.Model.{
  Database, GenerationJob, GenerationJobStatus, CreativeConcept, BrandProfile, Task, is_reel_like,
}
use aidigiplanner_backend.Model.Queries.{get_job}
use aidigiplanner_backend.Creatives.Brief.{Brief}
use aidigiplanner_backend.Creatives.Worker.{
  Ending, done, raised, cancelled, GeneratedConcept, WorkerEnvironment, WorkerState, Step, ◌>>=◌,
  pure, await, query, write, commit, put_job, worker_log, clip, mark_ended,
}
use aidigiplanner_backend.Creatives.Worker.Ideation.{
  ideate, run_ideation_task, run_task, fresh_state, add_concepts, save_ideas, try_ideation,
  started_job, awaiting_job,
}
use aidigiplanner_backend.Creatives.Worker.Stored.{AllStored, add_concepts-AllStored}
use aidigiplanner_backend.Creatives.Worker.Quiet.{keeps, ideate-Quiet}
use aidigiplanner_backend.Creatives.Worker.Endings.{
  rendering-RenderOutcome, mark_ended-Marked, get_job-same, get_job-put, get_job-id, then_cancelled,
  ended_job,
}

abbrev OnDone : {A : Type 0} → (A → Type 0) → Ending A → Type 0
OnDone P (done a) = P a
OnDone P (raised text) = Unit
OnDone P cancelled = Unit

-- Whatever the state, a value that the step ends with fits.
data Yields {A : Type 0} (P : A → Type 0) (m : Step A) : Type 0 where
  yields : ((w : WorkerState) → OnDone P (m w).0) → Yields P m

module _ {A B : Type 0} (P : B → Type 0) (f : A → Step B) where
  >>=-Yields : (m : Step A) → ((a : A) → Yields P (f a)) → Yields P (m >>= f)
  unfolding ◌>>=◌
  >>=-Yields m q = yields (λ w. after (m w).0 (m w).1)
    where
      after :
          (r : Ending A) (v : WorkerState) → OnDone P (((λ (u : WorkerState). (r, v)) >>= f) v).0
      after (done a) v = elim (q a) [ yields h ↦ h v ]
      after (raised text) v = tt
      after cancelled v = tt

  await-Yields : (e : Ending A) → ((a : A) → e ≡ done a → Yields P (f a)) → Yields P (await e >>= f)
  unfolding ◌>>=◌ await
  await-Yields (done a) q = yields (λ w. elim (q a refl) [ yields h ↦ h w ])
  await-Yields (raised text) q = yields (λ w. tt)
  await-Yields cancelled q = yields (λ w. tt)

pure-Yields : {A : Type 0} (P : A → Type 0) (a : A) → P a → Yields P (pure a)
unfolding pure
pure-Yields P a h = yields (λ w. h)

-- The concepts come from the pipeline.
abbrev FromPipeline : WorkerEnvironment → GenerationJob → Brief × ℕ × List GeneratedConcept → Type 0
FromPipeline env job (brief, time, concepts) =
    (brand : BrandProfile) × (env.run_ideation job.dry_run brief brand ≡ done concepts)

ideate-Yields :
    (env : WorkerEnvironment) (job : GenerationJob) → Yields (FromPipeline env job) (ideate env job)
unfolding ideate
ideate-Yields env job = >>=-Yields _ _ _ (λ found. >>=-Yields _ _ _ (λ row.
    >>=-Yields _ _ _ (λ brand. >>=-Yields _ _ _ (λ brief.
      await-Yields _ _ _ (λ concepts e. pure-Yields (FromPipeline env job) _ (brand, e))))))

-- How the task leaves the database: `j` is the job as the task has found it.
pub data IdeationOutcome (env : WorkerEnvironment) (id : ℕ) (j : GenerationJob) (d d' : Database)
    : Type 0 where
  failed :
      (job : GenerationJob)
      → get_job id d' ≡ some job
      → job.status ≡ GenerationJobStatus.failed
      → job.finished_at ≡ some env.now
      → d'.creative_concepts ≡ d.creative_concepts
      → IdeationOutcome env id j d d'
  stored :
      (job : GenerationJob) (brief : Brief) (brand : BrandProfile) (time : ℕ)
      (concepts : List GeneratedConcept) (rows : List CreativeConcept)
      → get_job id d' ≡ some job
      → env.run_ideation j.dry_run brief brand ≡ done concepts
      → AllStored j.id time 0 concepts rows
      → d'.creative_concepts ≡ reverse_aux rows d.creative_concepts
      → (job.status ≡ GenerationJobStatus.awaiting_render)
        ⊎ ((job.finished_at ≡ some env.now)
            × ((job.status ≡ GenerationJobStatus.succeeded)
                ⊎ ((job.status ≡ GenerationJobStatus.failed)
                    ⊎ (job.status ≡ GenerationJobStatus.partially_failed))))
      → IdeationOutcome env id j d d'

either : {A B C : Type 0} → A ⊎ (B × C) → A ⊎ B
either (inl a) = inl a
either (inr (b, c)) = inr b

module _ (env : WorkerEnvironment) (id : ℕ) (j : GenerationJob) (d : Database)
    (found : get_job id d ≡ some j) where
  abbrev begun : Database
  begun = put_job (started_job env j) d

  started : get_job id begun ≡ some (started_job env j)
  started = get_job-put id d j (started_job env j) found refl

  marked :
      (text : String) (action : Option String) (v : WorkerState)
      → v.session.committed ≡ begun
      → IdeationOutcome env id j d
          (mark_ended env id GenerationJobStatus.failed text action v).1.session.committed
  marked text action v kept =
      let m =
        mark_ended-Marked env id GenerationJobStatus.failed text action (started_job env j) v
          (ap (get_job id) kept ∙ started) in
      IdeationOutcome.failed (ended_job env GenerationJobStatus.failed text (started_job env j))
        m.job refl refl (m.concepts ∙ ap (λ x. x.creative_concepts) kept)

  -- After the concepts have been stored.
  saved :
      (w : WorkerState) (brief : Brief) (time : ℕ) (concepts : List GeneratedConcept)
      (v : WorkerState)
      → v.session.db.generation_jobs ≡ begun.generation_jobs
      → v.session.db.creative_concepts ≡ begun.creative_concepts
      → FromPipeline env (started_job env j) (brief, time, concepts)
      → IdeationOutcome env id j d
          (try_ideation env id
            (λ u. save_ideas env (started_job env j) (brief, time, concepts) v)
            w).1.session.committed
  unfolding ◌>>=◌ write commit pure
  saved w brief time concepts v jobs rows (brand, e) =
      let job = started_job env j in
      let stored_db : Database = record v.session.db {
        creative_concepts = add_concepts env job time 0 concepts v.session.db.creative_concepts;
      } in
      let there : get_job id stored_db ≡ some job =
        get_job-same id begun stored_db jobs ∙ started in
      let (new, all, put_first) =
        add_concepts-AllStored env job time 0 concepts d.creative_concepts in
      let added = ap (add_concepts env job time 0 concepts) rows ∙ put_first in
      elim (Bool-cases (is_reel_like brief.format)) [
        | inl reel ↦
            let awaiting_db = put_job (awaiting_job job) stored_db in
            let put = get_job-put id stored_db job (awaiting_job job) there refl in
            let logged =
              get_job-same id awaiting_db
                (worker_log "creative_job.awaiting_render" (awaiting_job job) awaiting_db) refl in
            rw reel (
              IdeationOutcome.stored (awaiting_job job) brief brand time concepts new (logged ∙ put)
                e all added (inl refl))
        | inr other ↦
            let next : WorkerState = record v {
              session = record v.session { db = stored_db; committed = stored_db };
            } in
            let o = rendering-RenderOutcome env id job next there in
            rw other (
              IdeationOutcome.stored o.job brief brand time concepts new o.there e all
                (o.concepts ∙ added) (inr (o.finished, either o.status)))
      ]

  -- The end of the `try` block, however ideation ends.
  settled :
      (w : WorkerState) (r : Ending (Brief × ℕ × List GeneratedConcept)) (v : WorkerState)
      → v.session.db.generation_jobs ≡ begun.generation_jobs
      → v.session.db.creative_concepts ≡ begun.creative_concepts
      → v.session.committed ≡ begun
      → OnDone (FromPipeline env (started_job env j)) r
      → IdeationOutcome env id j d
          (try_ideation env id
            ((λ (u : WorkerState). (r, v)) >>= save_ideas env (started_job env j))
            w).1.session.committed
  unfolding ◌>>=◌
  settled w (done (brief, time, concepts)) v jobs rows kept from =
      saved w brief time concepts v jobs rows from
  settled w (raised text) v jobs rows kept from =
      marked (clip 2000 text) (some "creative_job.failed") v kept
  settled w cancelled v jobs rows kept from =
      subst (λ (u : WorkerState). IdeationOutcome env id j d u.session.committed)
        (sym (
          then_cancelled (mark_ended env id GenerationJobStatus.failed "Generation timed out." none)
            v))
        (marked "Generation timed out." none v kept)

yielded :
    {A : Type 0} (P : A → Type 0) (m : Step A) → Yields P m → (w : WorkerState) → OnDone P (m w).0
yielded P m (yields h) w = h w

-- A task of ideation on a job that is there always ends with a commit. Either the job has failed, at the
-- time of the end, and no concept was added; or each concept that the pipeline returned has been added
-- in order, as a draft of the job with all that the concept says, an empty list of slides aside, and
-- they stay whatever becomes of the rendering: the job then awaits it, or it has succeeded, failed
-- or partially failed at the time of the end.
pub ideation-IdeationOutcome :
    (env : WorkerEnvironment) (id : ℕ) (j : GenerationJob) (d : Database)
    → get_job id d ≡ some j
    → IdeationOutcome env id j d (run_task env (Task.generate_creatives_job id) d)
unfolding run_task run_ideation_task ◌>>=◌ query write commit get_job
ideation-IdeationOutcome env id j d found =
    let own = get_job-id id d j found in
    let there : get_job j.id d ≡ some j = ap (λ k. get_job k d) own ∙ found in
    let job = started_job env j in
    let w : WorkerState = record (fresh_state d) {
      session = record (fresh_state d).session { db = put_job job d; committed = put_job job d };
    } in
    let x = ideate env job w in
    let kept = keeps (ideate env job) (ideate-Quiet env job) w in
    rw found (
      subst
        (λ k.
          IdeationOutcome env k j d
            (try_ideation env j.id (ideate env job >>= save_ideas env job) w).1.session.committed)
        own
        (settled env j.id j d there w x.0 x.1 kept.0 kept.1 kept.2
          (yielded (FromPipeline env job) (ideate env job) (ideate-Yields env job) w)))

abbrev pub task_job : Task → ℕ
task_job (Task.generate_creatives_job id) = id
task_job (Task.render_creative_assets_job id) = id

-- The status is not one in which something has still to run.
abbrev pub IsSettled : GenerationJob → Type 0
IsSettled job =
    (job.status ≡ GenerationJobStatus.awaiting_render)
    ⊎ ((job.status ≡ GenerationJobStatus.succeeded)
        ⊎ ((job.status ≡ GenerationJobStatus.failed)
            ⊎ (job.status ≡ GenerationJobStatus.partially_failed)))

ideation-settles :
    (env : WorkerEnvironment) (id : ℕ) (j : GenerationJob) (d d' : Database)
    → IdeationOutcome env id j d d'
    → (job : GenerationJob) × (get_job id d' ≡ some job) × IsSettled job
ideation-settles env id j d d' (IdeationOutcome.failed job there status finished same) =
    (job, there, inr (inr (inl status)))
ideation-settles env id j d d'
      (IdeationOutcome.stored job brief brand time concepts new there e all rows (inl awaiting)) =
    (job, there, inl awaiting)
ideation-settles env id j d d'
      (IdeationOutcome.stored job brief brand time concepts new there e all rows (inr (f, ended))) =
    (job, there, inr ended)

-- However its calls end, with a value, an exception or a timeout, a task on a job that is there leaves
-- the job awaiting rendering, succeeded, failed or partially failed: never running.
pub run_task-IsSettled :
    (env : WorkerEnvironment) (t : Task) (j : GenerationJob) (d : Database)
    → get_job (task_job t) d ≡ some j
    → (job : GenerationJob) × (get_job (task_job t) (run_task env t d) ≡ some job) × IsSettled job
run_task-IsSettled env (Task.generate_creatives_job id) j d found =
    ideation-settles env id j d (run_task env (Task.generate_creatives_job id) d)
      (ideation-IdeationOutcome env id j d found)
run_task-IsSettled env (Task.render_creative_assets_job id) j d found =
    let o = rendering-RenderOutcome env id j (fresh_state d) found in
    unfold run_task in (o.job, o.there, inr (either o.status))
