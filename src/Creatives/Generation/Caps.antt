-- ===== src/Creatives/Generation/Caps.antt =====
-- The guardrails of `request_generation` (app/modules/creatives/service.py): the cap of the day, and
-- the reuse of a job.
use aidigiplanner_backend.Base.{
  ℕ, ◌+◌, ◌≤◌, false, ◌≡◌, refl, inl, inr, String, Option, none, some, List, [], ◌∷◌, arith,
  Bool-cases, ap, ◌∙◌, sym, ◌⊎◌, eq_iff, if◌then◌else◌,
}
use aidigiplanner_backend.Model.{
  Database, User, Product, CreativeBrief, GenerationJob, GenerationJobStatus,
}
use aidigiplanner_backend.Model.Session.{
  Session, Result, Error, AppError, ok, err, app, open_session,
}
use aidigiplanner_backend.Creatives.Generation.{
  Environment, ArqAnswer, GenerateCreativesRequest, day_start, spend, counts_for, spent_since,
  request_generation, existing_job_for_key, reusable_job, ideate_prompt_version,
}
use aidigiplanner_backend.Creatives.Brief.{Brief, validate, job_key}
use aidigiplanner_backend.Creatives.Pricing.{CostLineItem, total_inr}
use aidigiplanner_backend.Creatives.Generation.Outcome.{
  IsFresh, Affordable, IsNewJob, Outcome, request_generation-Outcome,
}

-- A `Numeric(10, 2)` column rounds to the paisa: up by half a paisa at most.
abbrev pub RoundsToPaisa : (ℕ → ℕ) → Type 0
RoundsToPaisa f = (x : ℕ) → f x ≤ x + 5000

spent_since-cons :
    (company_id start : ℕ) (d d' : Database) (j : GenerationJob)
    → d'.generation_jobs ≡ j ∷ d.generation_jobs
    → spent_since company_id start d'
      ≡ (if counts_for company_id start j then spend j else 0) + spent_since company_id start d
unfolding spent_since
spent_since-cons company_id start d d' j e = elim (Bool-cases (counts_for company_id start j)) [
  | inl yes_it ↦ rw (e, yes_it)
  | inr other ↦ rw (e, other) (omega arith)
]

spent_since-same :
    (company_id start : ℕ) (d d' : Database)
    → d' ≡ d
    → spent_since company_id start d' ≡ spent_since company_id start d
spent_since-same company_id start d d' e = rw e

-- The newest brief of the key, and its newest job.
pub existing-head :
    (product_id : ℕ) (key : String) (b : CreativeBrief) (j : GenerationJob) (d : Database)
    {bs : List CreativeBrief} {js : List GenerationJob}
    → d.creative_briefs ≡ b ∷ bs
    → d.generation_jobs ≡ j ∷ js
    → b.product_id ≡ product_id
    → b.job_key ≡ key
    → j.brief_id ≡ b.id
    → existing_job_for_key product_id key d ≡ some j
unfolding existing_job_for_key
existing-head product_id key b j d eb ej same_product same_key of_brief =
    ground (arith, eq_iff b.job_key key)

module _ (env : Environment) (product_id : ℕ) (actor : User)
    (payload : GenerateCreativesRequest) where
  spend_new :
      (p : Product) (items : List CostLineItem) (k : Option ℕ) (j : GenerationJob)
      → IsNewJob env product_id actor payload p items k j
      → spend j ≡ env.to_numeric (total_inr items)
  spend_new p items k j new = rw (new.unpaid) new.estimated

  capped-new :
      (company_id : ℕ) (d d' : Database) (p : Product) (b : Brief) (items : List CostLineItem)
      (k : Option ℕ) (j : GenerationJob)
      → RoundsToPaisa env.to_numeric
      → Affordable env product_id actor payload d p b items
      → IsNewJob env product_id actor payload p items k j
      → d'.generation_jobs ≡ j ∷ d.generation_jobs
      → spent_since company_id (day_start env.now) d ≤ env.settings.max_cost_per_day_inr + 5000
      → spent_since company_id (day_start env.now) d' ≤ env.settings.max_cost_per_day_inr + 5000
  capped-new company_id d d' p b items k j round a new js h =
      let cost = spend_new p items k j new in
      let day = a.day_cap in
      let company = new.of_company in
      let rounded = round (total_inr items) in
      rw (spent_since-cons company_id (day_start env.now) d d' j js) (ground arith)

  capped-Outcome :
      (company_id : ℕ) (d : Database) (r : Result GenerationJob) (s : Session)
      → RoundsToPaisa env.to_numeric
      → Outcome env product_id actor payload d r s
      → spent_since company_id (day_start env.now) d ≤ env.settings.max_cost_per_day_inr + 5000
      → spent_since company_id (day_start env.now) s.committed
        ≤ env.settings.max_cost_per_day_inr + 5000
  capped-Outcome company_id d r s round (Outcome.refused e er es) h =
      rw
        (spent_since-same company_id (day_start env.now) d s.committed
          (ap (λ (t : Session). t.committed) es))
        h
  capped-Outcome company_id d r s round (Outcome.reused b j v u er es) h =
      rw
        (spent_since-same company_id (day_start env.now) d s.committed
          (ap (λ (t : Session). t.committed) es))
        h
  capped-Outcome company_id d r s round
        (Outcome.created p b row j items k a new_row new_job e er js bs q) h =
      capped-new company_id d s.committed p b items k j round a new_job js h
  capped-Outcome company_id d r s round
        (Outcome.stranded p b row j items a new_row new_job e er js bs q) h =
      capped-new company_id d s.committed p b items none j round a new_job js h

  -- However a request ends, what a company has spent today stays within the day's cap, up to the
  -- half paisa by which the last job's cost may be rounded up in its column.
  pub request_generation-capped :
      (company_id : ℕ) (d : Database)
      → IsFresh env d
      → RoundsToPaisa env.to_numeric
      → spent_since company_id (day_start env.now) d ≤ env.settings.max_cost_per_day_inr + 5000
      → spent_since company_id
          (day_start env.now)
          (request_generation env product_id actor payload (open_session d)).1.committed
        ≤ env.settings.max_cost_per_day_inr + 5000
  request_generation-capped company_id d fresh round h =
      capped-Outcome company_id d _ _ round
        (request_generation-Outcome env product_id actor payload d fresh) h

  -- Both rows are new, or neither.
  abbrev pub BothOrNeither : Database → Database → Type 0
  BothOrNeither d d' =
      (d' ≡ d)
      ⊎ ((row : CreativeBrief) × (j : GenerationJob) × (d'.creative_briefs
            ≡ row ∷ d.creative_briefs)
          × (d'.generation_jobs ≡ j ∷ d.generation_jobs)
          × (row.id ≡ env.brief_id)
          × (j.brief_id ≡ env.brief_id)
          × (j.status ≡ GenerationJobStatus.queued)
          × (env.arq ≡ ArqAnswer.unreachable))

  refused-Outcome :
      {d : Database} {r : Result GenerationJob} {s : Session} {e : Error}
      → Outcome env product_id actor payload d r s
      → r ≡ err e
      → (s.queue ≡ [])
        × BothOrNeither d s.committed
        × ((a : AppError) → e ≡ app a → s ≡ open_session d)
  refused-Outcome (Outcome.refused e er es) h =
      (ap (λ (t : Session). t.queue) es, inl (ap (λ (t : Session). t.committed) es), λ a same. es)
  refused-Outcome (Outcome.reused b j v u er es) h = absurd (cc)
  refused-Outcome (Outcome.created p b row j items k a new_row new_job e er js bs q) h = absurd (cc)
  refused-Outcome (Outcome.stranded p b row j items a new_row new_job e er js bs q) h = (
    q,
    inr (row, j, bs, js, new_row.key, new_job.of_brief, new_job.status, e),
    λ x same. absurd (cc),
  )

  -- Where the key of a new job is unused, a request that raises an exception queues no task. If it is
  -- an error of the API, nothing at all has changed. Otherwise the database is as it was, or arq could
  -- not be reached and the new brief and its queued job have both been committed: never one of them
  -- alone.
  pub request_generation_atomic :
      (d : Database) {e : Error}
      → IsFresh env d
      → (request_generation env product_id actor payload (open_session d)).0 ≡ err e
      → let s = (request_generation env product_id actor payload (open_session d)).1 in
        (s.queue ≡ [])
        × BothOrNeither d s.committed
        × ((a : AppError) → e ≡ app a → s ≡ open_session d)
  request_generation_atomic d fresh h =
      refused-Outcome (request_generation-Outcome env product_id actor payload d fresh) h

  -- The key of the request's brief.
  abbrev pub HasKey : String → Type 0
  HasKey key =
      (brief : Brief) × (validate payload.brief ≡ some brief)
      × (key ≡ job_key env.normalize env.digest brief ideate_prompt_version)

  Outcome-reusable :
      {d : Database} {r : Result GenerationJob} {s : Session} (j : GenerationJob) (key : String)
      → payload.force ≡ false
      → HasKey key
      → Outcome env product_id actor payload d r s
      → r ≡ ok j
      → existing_job_for_key product_id key s.committed ≡ some j
  Outcome-reusable j key lazy k (Outcome.refused e er es) h = cc
  Outcome-reusable {d} {r} {s} j key lazy (brief, valid, ek) (Outcome.reused b i v u er es) h =
      let same : brief ≡ b = ground arith in
      let found : reusable_job payload.force product_id key d ≡ some i = cc in
      let here : s.committed ≡ d = ap (λ (t : Session). t.committed) es in rw here (ground arith)
  Outcome-reusable {d} {r} {s} j key lazy (brief, valid, ek)
        (Outcome.created p b row i items k a new_row new_job e er js bs q) h =
      let same : brief ≡ b = let v = a.valid in ground arith in
      let here : existing_job_for_key product_id key s.committed ≡ some i =
        existing-head product_id key row i s.committed bs js new_row.of_product
          (new_row.job_key ∙ (cc)) (new_job.of_brief ∙ sym new_row.key) in
      here ∙ (cc)
  Outcome-reusable j key lazy k (Outcome.stranded p b row i items a new_row new_job e er js bs q)
        h =
      absurd (cc)

  lookup-same :
      (key : String) (d : Database)
      → payload.force ≡ false
      → reusable_job payload.force product_id key d ≡ existing_job_for_key product_id key d
  lookup-same key d lazy = rw lazy

  no_second :
      (j : GenerationJob) (key : String) (d : Database) (p : Product) (b : Brief)
      (items : List CostLineItem)
      → payload.force ≡ false
      → HasKey key
      → existing_job_for_key product_id key d ≡ some j
      → ¬ Affordable env product_id actor payload d p b items
  no_second j key d p b items lazy (brief, valid, ek) found a =
      let v = a.valid in
      let u = a.no_earlier in let same : brief ≡ b = ground arith in cc (lookup-same key d lazy)

  pub repeat-Outcome :
      {d : Database} {r : Result GenerationJob} {s : Session} (j : GenerationJob) (key : String)
      → payload.force ≡ false
      → HasKey key
      → existing_job_for_key product_id key d ≡ some j
      → Outcome env product_id actor payload d r s
      → ((e : Error) × (r ≡ err e) × (s ≡ open_session d)) ⊎ ((r ≡ ok j) × (s ≡ open_session d))
  repeat-Outcome j key lazy k found (Outcome.refused e er es) = inl (e, er, es)
  repeat-Outcome {d} j key lazy (brief, valid, ek) found (Outcome.reused b i v u er es) =
      let same : brief ≡ b = ground arith in
      let old : some i ≡ some j = sym u ∙ (cc (lookup-same key d lazy)) in inr (cc, es)
  repeat-Outcome {d} j key lazy k found
        (Outcome.created p b row i items n a new_row new_job e er js bs q) =
      absurd (no_second j key d p b items lazy k found a)
  repeat-Outcome {d} j key lazy k found
        (Outcome.stranded p b row i items a new_row new_job e er js bs q) =
      absurd (no_second j key d p b items lazy k found a)

  Outcome-HasKey :
      {d : Database} {r : Result GenerationJob} {s : Session} {j : GenerationJob}
      → Outcome env product_id actor payload d r s
      → r ≡ ok j
      → (key : String) × HasKey key
  Outcome-HasKey (Outcome.refused e er es) h = absurd (cc)
  Outcome-HasKey (Outcome.reused b i v u er es) h = (_, (b, v, refl))
  Outcome-HasKey (Outcome.created p b row j items k a new_row new_job e er js bs q) h =
      (_, (b, a.valid, refl))
  Outcome-HasKey (Outcome.stranded p b row j items a new_row new_job e er js bs q) h = absurd (cc)

-- The environment of a later request.
abbrev pub later : Environment → ℕ → ℕ → ℕ → ArqAnswer → Environment
later env now brief_id job_id arq = record env {
  now = now;
  brief_id = brief_id;
  job_id = job_id;
  arq = arq;
}

-- After a request without `force` has returned a job, the same request at a later time creates no
-- second one: it returns that job, or an error, and in either case writes and queues nothing.
pub request_generation_repeated :
    (env : Environment) (product_id : ℕ) (actor : User) (payload : GenerateCreativesRequest)
    (d d' : Database) (j : GenerationJob) (now brief_id job_id : ℕ) (arq : ArqAnswer)
    → IsFresh env d
    → payload.force ≡ false
    → (request_generation env product_id actor payload (open_session d)).0 ≡ ok j
    → (request_generation env product_id actor payload (open_session d)).1.committed ≡ d'
    → IsFresh (later env now brief_id job_id arq) d'
    → let (r, s) =
        request_generation
          (later env now brief_id job_id arq)
          product_id
          actor
          payload
          (open_session d') in
      ((e : Error) × (r ≡ err e) × (s ≡ open_session d')) ⊎ ((r ≡ ok j) × (s ≡ open_session d'))
request_generation_repeated env product_id actor payload d d' j now brief_id job_id arq fresh lazy h
      after fresh' =
    let first_time = request_generation-Outcome env product_id actor payload d fresh in
    let (key, k) = Outcome-HasKey env product_id actor payload first_time h in
    let found = Outcome-reusable env product_id actor payload j key lazy k first_time h in
    repeat-Outcome (later env now brief_id job_id arq) product_id actor payload j key lazy k
      (rw after at found)
      (request_generation-Outcome (later env now brief_id job_id arq) product_id actor payload d'
        fresh')
