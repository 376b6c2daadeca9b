-- ===== src/Creatives/Generation/Stranded.antt =====
-- Jobs that `request_generation` (app/modules/creatives/service.py) has committed although arq could
-- not be reached.
use aidigiplanner_backend.Base.{
  ℕ, false, ◌≡◌, ◌≢◌, refl, inl, inr, some, String, ◌∷◌, ap, ◌∙◌, sym, ◌⊎◌,
}
use aidigiplanner_backend.Model.{Database, User, GenerationJob, GenerationJobStatus}
use aidigiplanner_backend.Model.Session.{Session, Result, Error, ok, err, crash, open_session}
use aidigiplanner_backend.Creatives.Generation.{
  Environment, ArqAnswer, GenerateCreativesRequest, request_generation, existing_job_for_key,
}
use aidigiplanner_backend.Creatives.Generation.Outcome.{
  IsFresh, Outcome, request_generation-Outcome,
}
use aidigiplanner_backend.Creatives.Generation.Caps.{existing-head, repeat-Outcome, HasKey, later}

module _ (env : Environment) (product_id : ℕ) (actor : User)
    (payload : GenerateCreativesRequest) where
  stranded_of :
      {d : Database} {r : Result GenerationJob} {s : Session}
      → Outcome env product_id actor payload d r s
      → r ≡ err crash
      → s.committed.generation_jobs ≢ d.generation_jobs
      → (j : GenerationJob) × (key : String) × HasKey env product_id actor payload key
        × (payload.force ≡ false → existing_job_for_key product_id key s.committed ≡ some j)
        × (s.committed.generation_jobs ≡ j ∷ d.generation_jobs)
        × (j.status ≡ GenerationJobStatus.queued)
  stranded_of (Outcome.refused e er es) h grown =
      absurd (grown (ap (λ (t : Session). t.committed.generation_jobs) es))
  stranded_of (Outcome.reused b j v u er es) h grown = absurd (cc)
  stranded_of (Outcome.created p b row j items k a new_row new_job e er js bs q) h grown =
      absurd (cc)
  stranded_of {d} {r} {s} (Outcome.stranded p b row j items a new_row new_job e er js bs q) h
        grown =
      (
        j,
        _,
        (b, a.valid, refl),
        λ lazy.
            existing-head product_id _ row j s.committed bs js new_row.of_product new_row.job_key
              (new_job.of_brief ∙ sym new_row.key),
        js,
        new_job.status,
      )

-- A request without `force` that has failed with an exception, and yet changed the jobs, has stored one
-- new job, which is queued: the same request at a later time returns that job, or an error, and in
-- either case writes and queues nothing. The new jobs' keys are taken to be unused.
pub stranded_job_blocks_retry :
    (env : Environment) (product_id : ℕ) (actor : User) (payload : GenerateCreativesRequest)
    (d d' : Database) (now brief_id job_id : ℕ) (arq : ArqAnswer)
    → IsFresh env d
    → payload.force ≡ false
    → (request_generation env product_id actor payload (open_session d)).0 ≡ err crash
    → (request_generation env product_id actor payload (open_session d)).1.committed ≡ d'
    → d'.generation_jobs ≢ d.generation_jobs
    → IsFresh (later env now brief_id job_id arq) d'
    → let (r, s) =
        request_generation
          (later env now brief_id job_id arq)
          product_id
          actor
          payload
          (open_session d') in
      (j : GenerationJob) × (d'.generation_jobs ≡ j ∷ d.generation_jobs)
      × (j.status ≡ GenerationJobStatus.queued)
      × (s ≡ open_session d')
      × (((e : Error) × (r ≡ err e)) ⊎ (r ≡ ok j))
stranded_job_blocks_retry env product_id actor payload d d' now brief_id job_id arq fresh lazy h
      after grown fresh' =
    let (j, key, k, found, rows, status) =
      stranded_of env product_id actor payload
        (request_generation-Outcome env product_id actor payload d fresh) h
        (λ e. grown (sym (ap (λ (x : Database). x.generation_jobs) after) ∙ e)) in
    elim (repeat-Outcome (later env now brief_id job_id arq) product_id actor payload j key lazy k
      (rw after at (found lazy))
      (request_generation-Outcome (later env now brief_id job_id arq) product_id actor payload d'
        fresh')) [
          | inl (e, er, same) ↦ (j, rw after at rows, status, same, inl (e, er))
          | inr (er, same) ↦ (j, rw after at rows, status, same, inr er)
        ]
