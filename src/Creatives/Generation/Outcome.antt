-- ===== src/Creatives/Generation/Outcome.antt =====
-- The ways in which `request_generation` ends: refused, the earlier job, or a new job,
-- whose task arq may fail to take.
use aidigiplanner_backend.Base.{
  ℕ, ◌+◌, ◌≤◌, ◌≡◌, ◌≢◌, refl, inl, inr, ◌==◌, String, none, some, List, [], ◌∷◌, All, update, ltb,
  arith, Bool-cases, Option, Option-cases,
}
use aidigiplanner_backend.Model.{
  Database, User, Product, BrandProfile, CreativeBrief, GenerationJob, GenerationJobStatus, Task,
}
use aidigiplanner_backend.Model.Session.{
  Session, Result, Error, ok, err, app, crash, bad_request, not_found, open_session,
}
use aidigiplanner_backend.Model.Queries.{get_product}
use aidigiplanner_backend.Creatives.Brief.{Brief, validate, job_key}
use aidigiplanner_backend.Creatives.BrandProfile.{
  resolve_effective_brand_profile, resolve_product_profile, product_line,
}
use aidigiplanner_backend.Creatives.BrandProfile.Resolution.{resolve_product-quiet}
use aidigiplanner_backend.Creatives.Pricing.{CostLineItem, estimate_brief_cost, total_inr}
use aidigiplanner_backend.Creatives.Generation.{
  Environment, ArqAnswer, GenerateCreativesRequest, brief_fields, day_start, spent_since,
  create_job, request_generation, reusable_job, brief_row, job_row, needs_avatar,
  ideate_prompt_version,
}

-- No job has the key of the new one.
abbrev pub IsFresh : Environment → Database → Type 0
IsFresh env d = All (λ (j : GenerationJob). j.id ≢ env.job_id) d.generation_jobs

update_fresh :
    (k : ℕ) (f : GenerationJob → GenerationJob) (js : List GenerationJob)
    → All (λ (j : GenerationJob). j.id ≢ k) js
    → update (λ (r : GenerationJob). r.id == k) f js ≡ js
update_fresh k f [] h = refl
update_fresh k f (j ∷ js) h = ground (arith, update_fresh k f js h.1, h.0)

module _ (env : Environment) (product_id : ℕ) (actor : User)
    (payload : GenerateCreativesRequest) where
  abbrev key_of : Brief → String
  key_of b = job_key env.normalize env.digest b ideate_prompt_version

  -- A request for a new job that every guard has let through.
  pub record Affordable (d : Database) (product : Product) (brief : Brief)
      (items : List CostLineItem) : Type 0 where
    pub product_found : get_product product_id d ≡ some product
    pub valid : validate payload.brief ≡ some brief
    pub no_earlier : reusable_job payload.force product_id (key_of brief) d ≡ none
    pub priced : estimate_brief_cost brief env.settings ≡ some items
    pub run_cap : total_inr items ≤ env.settings.max_cost_per_run_inr
    pub day_cap :
        spent_since product.company_id (day_start env.now) d + total_inr items
        ≤ env.settings.max_cost_per_day_inr

  -- The stored brief holds the request's brief and its key, and says whose it is.
  pub record IsNewBrief (brief : Brief) (row : CreativeBrief) : Type 0 where
    pub key : row.id ≡ env.brief_id
    pub holds : brief_fields row ≡ brief
    pub of_product : row.product_id ≡ product_id
    pub job_key : row.job_key ≡ key_of brief
    pub author : row.created_by ≡ actor.id
    pub sub_product : row.sub_product_id ≡ payload.sub_product_id
    pub platforms : row.platforms ≡ payload.platforms

  -- The stored job belongs to the new brief, waits to be run, and costs what was estimated.
  pub record IsNewJob (product : Product) (items : List CostLineItem) (arq_job_id : Option ℕ)
      (j : GenerationJob) : Type 0 where
    pub key : j.id ≡ env.job_id
    pub of_brief : j.brief_id ≡ env.brief_id
    pub of_product : j.product_id ≡ product_id
    pub of_company : j.company_id ≡ product.company_id
    pub status : j.status ≡ GenerationJobStatus.queued
    pub dry_run : j.dry_run ≡ payload.dry_run
    pub estimated : j.estimated_cost_inr ≡ env.to_numeric (total_inr items)
    pub unpaid : j.actual_cost_inr ≡ none
    pub author : j.requested_by ≡ actor.id
    pub created : j.created_at ≡ env.now
    pub queued_as : j.arq_job_id ≡ arq_job_id

  pub data Outcome (d : Database) (r : Result GenerationJob) (s : Session) : Type 0 where
    refused : (e : Error) → r ≡ err e → s ≡ open_session d → Outcome d r s
    reused :
        (brief : Brief) (j : GenerationJob)
        → validate payload.brief ≡ some brief
        → reusable_job payload.force product_id (key_of brief) d ≡ some j
        → r ≡ ok j
        → s ≡ open_session d
        → Outcome d r s
    created :
        (product : Product) (brief : Brief) (row : CreativeBrief) (j : GenerationJob)
        (items : List CostLineItem) (arq_job_id : Option ℕ)
        → Affordable d product brief items
        → IsNewBrief brief row
        → IsNewJob product items arq_job_id j
        → env.arq ≡ ArqAnswer.answered arq_job_id
        → r ≡ ok j
        → s.committed.generation_jobs ≡ j ∷ d.generation_jobs
        → s.committed.creative_briefs ≡ row ∷ d.creative_briefs
        → s.queue ≡ Task.generate_creatives_job env.job_id ∷ []
        → Outcome d r s
    stranded :
        (product : Product) (brief : Brief) (row : CreativeBrief) (j : GenerationJob)
        (items : List CostLineItem)
        → Affordable d product brief items
        → IsNewBrief brief row
        → IsNewJob product items none j
        → env.arq ≡ ArqAnswer.unreachable
        → r ≡ err crash
        → s.committed.generation_jobs ≡ j ∷ d.generation_jobs
        → s.committed.creative_briefs ≡ row ∷ d.creative_briefs
        → s.queue ≡ []
        → Outcome d r s

  module _ (d : Database) (fresh : IsFresh env d) (product : Product) (brief : Brief) where
    abbrev created_session : Result GenerationJob × Session
    created_session =
        create_job env product_id product actor payload brief (key_of brief) (open_session d)

    abbrev new_job : List CostLineItem → Option ℕ → GenerationJob
    new_job items id = record (job_row env product_id product actor payload (total_inr items)) {
      arq_job_id = id;
    }

    module _ (items : List CostLineItem) (affordable : Affordable d product brief items) where
      abbrev row : CreativeBrief
      row = brief_row env product_id actor payload brief (key_of brief)

      new_brief : IsNewBrief brief row
      new_brief = record {
        key = refl;
        holds = refl;
        of_product = refl;
        job_key = refl;
        author = refl;
        sub_product = refl;
        platforms = refl;
      }

      new_job-IsNewJob : (id : Option ℕ) → IsNewJob product items id (new_job items id)
      new_job-IsNewJob id = record {
        key = refl;
        of_brief = refl;
        of_product = refl;
        of_company = refl;
        status = refl;
        dry_run = refl;
        estimated = refl;
        unpaid = refl;
        author = refl;
        created = refl;
        queued_as = refl;
      }

      put_back :
          (id : ℕ)
          → update
              (λ (r : GenerationJob). r.id == env.job_id)
              (λ _. new_job items (some id))
              (new_job items none ∷ d.generation_jobs)
            ≡ new_job items (some id) ∷ d.generation_jobs
      put_back id =
          ground
            (arith, update_fresh env.job_id (λ _. new_job items (some id)) d.generation_jobs fresh)

      stored-Outcome :
          (answer : ArqAnswer) → env.arq ≡ answer → Outcome d created_session.0 created_session.1
      unfolding create_job
      stored-Outcome ArqAnswer.unreachable e =
          let c = affordable in
          Outcome.stranded product brief row (new_job items none) items affordable new_brief
            (new_job-IsNewJob none) e (ground arith) (ground arith) (ground arith) (ground arith)
      stored-Outcome (ArqAnswer.answered none) e =
          let c = affordable in
          Outcome.created product brief row (new_job items none) items none affordable new_brief
            (new_job-IsNewJob none) e (ground arith) (ground arith) (ground arith) (ground arith)
      stored-Outcome (ArqAnswer.answered (some id)) e =
          let c = affordable in
          Outcome.created product brief row (new_job items (some id)) items (some id) affordable
            new_brief (new_job-IsNewJob (some id)) e (ground arith) (ground (arith, put_back id))
            (ground arith) (ground arith)

    create_job-Outcome :
        get_product product_id d ≡ some product
        → validate payload.brief ≡ some brief
        → reusable_job payload.force product_id (key_of brief) d ≡ none
        → Outcome d created_session.0 created_session.1
    unfolding create_job
    create_job-Outcome there valid first_time =
        elim (Option-cases (estimate_brief_cost brief env.settings)) [
          | inl unpriced ↦ Outcome.refused crash (ground arith) (ground arith)
          | inr (items, e) ↦
              elim (Bool-cases (ltb env.settings.max_cost_per_run_inr (total_inr items))) [
                | inl dear ↦ Outcome.refused (app bad_request) (ground arith) (ground arith)
                | inr fits ↦
                    elim (Bool-cases (
                      ltb env.settings.max_cost_per_day_inr
                        (spent_since product.company_id (day_start env.now) d + total_inr items))) [
                          | inl over ↦
                              Outcome.refused (app bad_request) (ground arith) (ground arith)
                          | inr under ↦
                              stored-Outcome items
                                (record {
                                  product_found = there;
                                  valid = valid;
                                  no_earlier = first_time;
                                  priced = e;
                                  run_cap = ground arith;
                                  day_cap = ground arith;
                                })
                                env.arq refl
                        ]
              ]
        ]

  module _ (d : Database) (fresh : IsFresh env d) (p : Product)
      (there : get_product product_id d ≡ some p) (b : BrandProfile)
      (found : resolve_product_profile product_id (open_session d) ≡ (ok b, open_session d))
      (brief : Brief) (valid : validate payload.brief ≡ some brief) where
    abbrev Ends : Type 0
    Ends =
        Outcome d (request_generation env product_id actor payload (open_session d)).0
          (request_generation env product_id actor payload (open_session d)).1

    creates :
        reusable_job payload.force product_id (key_of brief) d ≡ none
        → request_generation env product_id actor payload (open_session d)
          ≡ created_session d fresh p brief
        → Ends
    creates new same = rw same (create_job-Outcome d fresh p brief there valid new)

    after_brief : Ends
    unfolding request_generation resolve_effective_brand_profile
    after_brief = elim (Option-cases (product_line brief.product_line b)) [
      | inl unknown ↦ Outcome.refused (app bad_request) (ground arith) (ground arith)
      | inr (line, known) ↦ elim (Bool-cases (needs_avatar brief b)) [
        | inl bare ↦ Outcome.refused (app bad_request) (ground arith) (ground arith)
        | inr ready ↦ elim (Option-cases (reusable_job payload.force product_id (key_of brief) d)) [
          | inr (j, old) ↦ Outcome.reused brief j valid old (ground arith) (ground arith)
          | inl new ↦ creates new (ground arith)
        ]
      ]
    ]

  pub request_generation-Outcome :
      (d : Database)
      → IsFresh env d
      → Outcome d
          (request_generation env product_id actor payload (open_session d)).0
          (request_generation env product_id actor payload (open_session d)).1
  unfolding request_generation resolve_effective_brand_profile
  request_generation-Outcome d fresh = elim (Option-cases (get_product product_id d)) [
    | inl gone ↦ Outcome.refused (app not_found) (ground arith) (ground arith)
    | inr (p, there) ↦ elim (resolve_product-quiet product_id (open_session d)) [
      | inl (e, unset) ↦ Outcome.refused (app e) (ground arith) (ground arith)
      | inr (b, found) ↦ elim (Option-cases (validate payload.brief)) [
        | inl invalid ↦ Outcome.refused (app bad_request) (ground arith) (ground arith)
        | inr (brief, valid) ↦ after_brief d fresh p there b found brief valid
      ]
    ]
  ]
