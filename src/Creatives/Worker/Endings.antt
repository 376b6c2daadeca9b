-- ===== src/Creatives/Worker/Endings.antt =====
-- How the tasks of app/modules/creatives/worker.py leave the job.
use aidigiplanner_backend.Base.{
  ℕ, ◌≡◌, refl, ap, sym, subst, ◌∙◌, ◌==◌, String, Option, none, some, List, [], ◌∷◌, first,
  first-test, first-put, update, arith, inl, inr, ◌⊎◌,
}
use aidigiplanner_backend.Model.{Database, GenerationJob, GenerationJobStatus}
use aidigiplanner_backend.Model.Queries.{get_job}
use aidigiplanner_backend.Creatives.Worker.{
  Ending, done, raised, cancelled, RenderedAsset, WorkerEnvironment, WorkerState, Step, ◌>>=◌, ◌>>◌,
  pure, await, query, write, commit, rollback, keep_rendered, put_job, worker_log, clip, mark_ended,
}
use aidigiplanner_backend.Creatives.Worker.Rendering.{
  render_all, finish_rendering, try_rendering, run_asset_rendering, running_job, succeeded_job,
  timed_out_status,
}
use aidigiplanner_backend.Creatives.Worker.Quiet.{Keeps, keeps, render_all-Quiet}

pub get_job-same :
    (id : ℕ) (d d' : Database)
    → d'.generation_jobs ≡ d.generation_jobs
    → get_job id d' ≡ get_job id d
unfolding get_job
get_job-same id d d' e = rw e refl

pub get_job-put :
    (id : ℕ) (d : Database) (job job' : GenerationJob)
    → get_job id d ≡ some job
    → job'.id ≡ job.id
    → get_job id (put_job job' d) ≡ some job'
unfolding get_job
get_job-put id d job job' found same =
    subst
      (λ k.
        first (λ r. r.id == id) (update (λ r. r.id == k) (λ _. job') d.generation_jobs) ≡ some job')
      (sym same) (first-put (λ (j : GenerationJob). j.id) id job job' d.generation_jobs found same)

pub get_job-id :
    (id : ℕ) (d : Database) (job : GenerationJob) → get_job id d ≡ some job → job.id ≡ id
unfolding get_job
get_job-id id d job found =
    let t = first-test (λ (j : GenerationJob). j.id == id) d.generation_jobs found in ground arith

abbrev pub ended_job :
    WorkerEnvironment → GenerationJobStatus → String → GenerationJob → GenerationJob
ended_job env status text j = record j {
  status = status;
  error_message = some text;
  finished_at = some env.now;
}

-- The rollback and what is written after it.
pub record Marked (env : WorkerEnvironment) (status : GenerationJobStatus) (text : String) (id : ℕ)
    (j : GenerationJob) (d : Database) (x : Ending (Unit {0}) × WorkerState) : Type 0 where
  pub ends : x.0 ≡ done tt
  pub job : get_job id x.1.session.committed ≡ some (ended_job env status text j)
  pub concepts : x.1.session.committed.creative_concepts ≡ d.creative_concepts
  pub assets : x.1.session.committed.creative_assets ≡ d.creative_assets

pub mark_ended-Marked :
    (env : WorkerEnvironment) (id : ℕ) (status : GenerationJobStatus) (text : String)
    (action : Option String) (j : GenerationJob) (w : WorkerState)
    → get_job id w.session.committed ≡ some j
    → Marked env status text id j w.session.committed (mark_ended env id status text action w)
unfolding ◌>>=◌ query write commit rollback pure
mark_ended-Marked env id status text none j w found =
    let put = get_job-put id w.session.committed j (ended_job env status text j) found refl in
    rw found (record { ends = refl; job = put; concepts = refl; assets = refl })
mark_ended-Marked env id status text (some action) j w found =
    let put = get_job-put id w.session.committed j (ended_job env status text j) found refl in
    let logged = put_job (ended_job env status text j) w.session.committed in
    let same =
      get_job-same id logged (worker_log action (ended_job env status text j) logged) refl in
    rw found (record { ends = refl; job = same ∙ put; concepts = refl; assets = refl })

-- How a rendering leaves the database that it found.
pub record RenderOutcome (env : WorkerEnvironment) (id : ℕ) (j : GenerationJob) (d d' : Database)
    : Type 0 where
  pub job : GenerationJob
  pub there : get_job id d' ≡ some job
  pub finished : job.finished_at ≡ some env.now
  pub concepts : d'.creative_concepts ≡ d.creative_concepts
  pub status :
      (job.status ≡ GenerationJobStatus.succeeded)
      ⊎ (((job.status ≡ GenerationJobStatus.failed)
            ⊎ (job.status ≡ GenerationJobStatus.partially_failed))
          × (d'.creative_assets ≡ d.creative_assets))

-- A task that goes on to be cancelled keeps the state.
pub then_cancelled :
    (m : Step (Unit {0})) (v : WorkerState) → ((m >> await {A = Unit {0}} cancelled) v).1 ≡ (m v).1
unfolding ◌>>=◌ await
then_cancelled m v = ends (m v).0 (m v).1
  where
    ends :
        (r : Ending (Unit {0})) (u : WorkerState)
        → (((λ (x : WorkerState). (r, u)) >> await {A = Unit {0}} cancelled) v).1 ≡ u
    ends (done a) u = refl
    ends (raised text) u = refl
    ends cancelled u = refl

timed_out-cases :
    (assets : List RenderedAsset)
    → (timed_out_status assets ≡ GenerationJobStatus.failed)
      ⊎ (timed_out_status assets ≡ GenerationJobStatus.partially_failed)
timed_out-cases [] = inl refl
timed_out-cases (a ∷ others) = inr refl

module _ (env : WorkerEnvironment) (id : ℕ) (j : GenerationJob) (d : Database)
    (found : get_job id d ≡ some j) where
  marked :
      (status : GenerationJobStatus) (text : String) (action : Option String) (v : WorkerState)
      → v.session.committed ≡ d
      → (status ≡ GenerationJobStatus.failed) ⊎ (status ≡ GenerationJobStatus.partially_failed)
      → RenderOutcome env id j d (mark_ended env id status text action v).1.session.committed
  marked status text action v kept failing =
      let m = mark_ended-Marked env id status text action j v (ap (get_job id) kept ∙ found) in
      record {
        job = ended_job env status text j;
        there = m.job;
        finished = refl;
        concepts = m.concepts ∙ ap (λ x. x.creative_concepts) kept;
        status = inr (failing, m.assets ∙ ap (λ x. x.creative_assets) kept);
      }

  finished_rendering :
      (v : WorkerState)
      → v.session.db.generation_jobs ≡ d.generation_jobs
      → v.session.db.creative_concepts ≡ d.creative_concepts
      → RenderOutcome env id j d (finish_rendering env j v).1.session.committed
  unfolding ◌>>=◌ write commit
  finished_rendering v jobs concepts =
      let put =
        get_job-put id v.session.db j (succeeded_job env j)
          (get_job-same id d v.session.db jobs ∙ found) refl in
      let after = put_job (succeeded_job env j) v.session.db in
      record {
        job = succeeded_job env j;
        there =
            get_job-same id after (worker_log "creative_job.succeeded" (succeeded_job env j) after)
              refl
            ∙ put;
        finished = refl;
        concepts = concepts;
        status = inl refl;
      }

  -- The end of the `try` block, however its body ends.
  settled :
      (w : WorkerState) (r : Ending (Unit {0})) (v : WorkerState)
      → w.session.db ≡ d
      → w.session.committed ≡ d
      → Keeps w v
      → RenderOutcome env id j d
          (try_rendering env id
            ((λ (u : WorkerState). (r, v)) >>= (λ (a : Unit {0}). finish_rendering env j))
            w).1.session.committed
  unfolding ◌>>=◌ write commit
  settled w (done u) v db committed kept =
      finished_rendering v (kept.0 ∙ ap (λ x. x.generation_jobs) db)
        (kept.1 ∙ ap (λ x. x.creative_concepts) db)
  settled w (raised text) v db committed kept =
      marked GenerationJobStatus.partially_failed (clip 2000 text)
        (some "creative_job.partially_failed") v (kept.2 ∙ committed) (inr refl)
  settled w cancelled v db committed kept =
      let mark =
        mark_ended env id (timed_out_status v.rendered_assets) "Rendering timed out." none in
      subst (λ (u : WorkerState). RenderOutcome env id j d u.session.committed)
        (sym (then_cancelled mark v))
        (marked (timed_out_status v.rendered_assets) "Rendering timed out." none v
          (kept.2 ∙ committed) (timed_out-cases v.rendered_assets))

-- A rendering of a job that is there always ends with a commit, in which the concepts are as they were
-- and the job has ended at the time of the end: succeeded, or else failed or partially failed, and then
-- none of the assets of this run is stored.
pub rendering-RenderOutcome :
    (env : WorkerEnvironment) (id : ℕ) (j : GenerationJob) (w : WorkerState)
    → get_job id w.session.db ≡ some j
    → RenderOutcome env id
        (running_job j)
        (put_job (running_job j) w.session.db)
        (run_asset_rendering env id w).1.session.committed
unfolding run_asset_rendering ◌>>=◌ query write commit keep_rendered
rendering-RenderOutcome env id j w found =
    let own = get_job-id id w.session.db j found in
    let d = put_job (running_job j) w.session.db in
    let there =
      get_job-put j.id w.session.db j (running_job j) (ap (λ k. get_job k w.session.db) own ∙ found)
        refl in
    let begun : WorkerState = record {
      session = record w.session { db = d; committed = d };
      rendered_assets = [];
    } in
    let body = render_all env (running_job j) begun in
    rw found (
      subst
        (λ k.
          RenderOutcome env k (running_job j) d
            (try_rendering env j.id
              (render_all env (running_job j) >> finish_rendering env (running_job j))
              begun).1.session.committed)
        own
        (settled env j.id (running_job j) d there begun body.0 body.1 refl refl
          (keeps (render_all env (running_job j)) (render_all-Quiet env (running_job j)) begun)))
