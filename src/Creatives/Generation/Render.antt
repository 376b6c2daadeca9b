-- ===== src/Creatives/Generation/Render.antt =====
-- The ways in which `render_assets` of app/modules/creatives/service.py ends.
use aidigiplanner_backend.Base.{
  ℕ, ◌+◌, ◌≤◌, true, ◌≡◌, refl, ◌==◌, Option, none, some, List, [], ◌∷◌, update, ltb, arith,
  Bool-cases, Option-cases, inl, inr, ◌⊎◌,
}
use aidigiplanner_backend.Model.{
  Database, User, Product, CreativeBrief, GenerationJob, Task, is_awaiting_render,
}
use aidigiplanner_backend.Model.Session.{
  Session, Result, Error, ok, err, app, crash, bad_request, not_found, open_session, >>=-ok,
  >>=-err,
}
use aidigiplanner_backend.Model.Queries.{get_product, get_brief}
use aidigiplanner_backend.Creatives.Brief.{Brief}
use aidigiplanner_backend.Creatives.Pricing.{CostLineItem, estimate_brief_cost, total_inr}
use aidigiplanner_backend.Creatives.Generation.{
  Environment, ArqAnswer, day_start, spent_since_except, find_job, brief_from_row, render_assets,
  clear_for_render, queue_render,
}

-- What the guards of `render_assets` have let through.
pub record Cleared (env : Environment) (product_id job_id : ℕ) (d : Database) (job : GenerationJob)
    : Type 0 where
  pub row : CreativeBrief
  pub product : Product
  pub brief : Brief
  pub items : List CostLineItem
  pub found : find_job product_id job_id d ≡ some job
  pub awaiting : is_awaiting_render job.status ≡ true
  pub row_found : get_brief job.brief_id d ≡ some row
  pub product_found : get_product product_id d ≡ some product
  pub valid : brief_from_row row ≡ some brief
  pub priced : estimate_brief_cost brief env.settings ≡ some items
  pub run_cap : total_inr items ≤ env.settings.max_cost_per_run_inr
  pub day_cap :
      spent_since_except product.company_id (day_start env.now) job.id d + total_inr items
      ≤ env.settings.max_cost_per_day_inr

-- The job with arq's id, if arq took the task.
abbrev pub queued_job : Option ℕ → GenerationJob → GenerationJob
queued_job arq_job_id job = elim arq_job_id [
  | none ↦ job
  | some k ↦ record job { arq_job_id = some k }
]

module _ (env : Environment) (product_id job_id : ℕ) (actor : User) (d : Database) where
  pub data RenderOutcome (r : Result GenerationJob) (s : Session) : Type 0 where
    refused : (e : Error) → r ≡ err e → s ≡ open_session d → RenderOutcome r s
    queued :
        (job : GenerationJob) (arq_job_id : Option ℕ)
        → Cleared env product_id job_id d job
        → env.arq ≡ ArqAnswer.answered arq_job_id
        → r ≡ ok (queued_job arq_job_id job)
        → s.queue ≡ Task.render_creative_assets_job job.id ∷ []
        → s.committed.generation_jobs ≡ (elim arq_job_id [
          | none ↦ d.generation_jobs
          | some k ↦
              update
                (λ (x : GenerationJob). x.id == job.id)
                (λ _. record job { arq_job_id = some k })
                d.generation_jobs
        ])
        → s.committed.creative_briefs ≡ d.creative_briefs
        → s.committed.products ≡ d.products
        → RenderOutcome r s
    unqueued :
        (job : GenerationJob)
        → Cleared env product_id job_id d job
        → env.arq ≡ ArqAnswer.unreachable
        → r ≡ err crash
        → s.queue ≡ []
        → s.committed.generation_jobs ≡ d.generation_jobs
        → s.committed.creative_briefs ≡ d.creative_briefs
        → s.committed.products ≡ d.products
        → RenderOutcome r s

  abbrev rendered : Result GenerationJob × Session
  rendered = render_assets env product_id job_id actor (open_session d)

  pub clear_of_Cleared :
      (job : GenerationJob)
      → Cleared env product_id job_id d job
      → clear_for_render env product_id job_id (open_session d) ≡ (ok job, open_session d)
  unfolding clear_for_render
  clear_of_Cleared job c = ground arith

  module _ (job : GenerationJob) (c : Cleared env product_id job_id d job) where
    Queued : Type 0
    Queued =
        RenderOutcome (queue_render env product_id actor job (open_session d)).0
          (queue_render env product_id actor job (open_session d)).1

    queued_at : (o : ArqAnswer) → env.arq ≡ o → Queued
    unfolding queue_render Queued
    queued_at ArqAnswer.unreachable e =
        RenderOutcome.unqueued job c e (rw e) (rw e) (rw e) (rw e) (rw e)
    queued_at (ArqAnswer.answered none) e =
        RenderOutcome.queued job none c e (rw e) (rw e) (rw e) (rw e) (rw e)
    queued_at (ArqAnswer.answered (some k)) e =
        RenderOutcome.queued job (some k) c e (rw e) (rw e) (rw e) (rw e) (rw e)

    cleared-RenderOutcome : RenderOutcome rendered.0 rendered.1
    unfolding render_assets Queued
    cleared-RenderOutcome =
        let queued : Queued = queued_at env.arq refl in
        let same : rendered ≡ queue_render env product_id actor job (open_session d) =
          >>=-ok (clear_for_render env product_id job_id) (queue_render env product_id actor)
            (open_session d) job (open_session d) (clear_of_Cleared job c) in
        rw same queued

  -- The checks pass, or they end in an error and leave the session as it was.
  clear-cases :
      ((job : GenerationJob) × Cleared env product_id job_id d job)
      ⊎ ((e : Error) × (clear_for_render env product_id job_id (open_session d)
            ≡ (err e, open_session d)))
  unfolding clear_for_render
  clear-cases = elim (Option-cases (find_job product_id job_id d)) [
    | inl missing ↦ inr (app not_found, ground arith)
    | inr (job, found) ↦ elim (Bool-cases (is_awaiting_render job.status)) [
      | inr other ↦ inr (app bad_request, ground arith)
      | inl awaiting ↦ elim (Option-cases (get_brief job.brief_id d)) [
        | inl no_row ↦ inr (app not_found, ground arith)
        | inr (row, row_found) ↦ elim (Option-cases (get_product product_id d)) [
          | inl gone ↦ inr (app not_found, ground arith)
          | inr (product, product_found) ↦ elim (Option-cases (brief_from_row row)) [
            | inl invalid ↦ inr (crash, ground arith)
            | inr (brief, valid) ↦ elim (Option-cases (estimate_brief_cost brief env.settings)) [
              | inl unpriced ↦ inr (crash, ground arith)
              | inr (items, priced) ↦
                  elim (Bool-cases (ltb env.settings.max_cost_per_run_inr (total_inr items))) [
                    | inl dear ↦ inr (app bad_request, ground arith)
                    | inr fits ↦
                        elim (Bool-cases (
                          ltb env.settings.max_cost_per_day_inr (
                            spent_since_except product.company_id (day_start env.now) job.id d
                            + total_inr items))) [
                              | inl over ↦ inr (app bad_request, ground arith)
                              | inr under ↦ inl (
                                job,
                                record {
                                  row = row;
                                  product = product;
                                  brief = brief;
                                  items = items;
                                  found = found;
                                  awaiting = awaiting;
                                  row_found = row_found;
                                  product_found = product_found;
                                  valid = valid;
                                  priced = priced;
                                  run_cap = ground arith;
                                  day_cap = ground arith;
                                },
                              )
                            ]
                  ]
            ]
          ]
        ]
      ]
    ]
  ]

  -- `render_assets` queues the rendering of a job only if the job is awaiting it, its brief is still
  -- valid, and its estimate fits the cap of a run and, beside what the company's other jobs of the
  -- day have cost, the cap of the day. Where arq then cannot be reached it raises an exception, with no
  -- task queued and jobs, briefs and products as they were. Otherwise it raises an error and changes
  -- nothing.
  pub render_assets-Outcome :
      RenderOutcome
        (render_assets env product_id job_id actor (open_session d)).0
        (render_assets env product_id job_id actor (open_session d)).1
  unfolding render_assets
  render_assets-Outcome = elim clear-cases [
    | inl (job, c) ↦ cleared-RenderOutcome job c
    | inr (e, failed) ↦
        let same : rendered ≡ (err e, open_session d) =
          >>=-err (clear_for_render env product_id job_id) (queue_render env product_id actor)
            (open_session d) e (open_session d) failed in
        RenderOutcome.refused e (rw same) (rw same)
  ]
