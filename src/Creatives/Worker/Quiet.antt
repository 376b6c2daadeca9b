-- ===== src/Creatives/Worker/Quiet.antt =====
-- Steps of app/modules/creatives/worker.py that leave jobs, concepts and what is committed as they are.
use aidigiplanner_backend.Base.{
  ℕ, ◌≡◌, refl, ap, ◌∙◌, String, Option, none, some, List, [], ◌∷◌, str_eq, Bool-cases,
  Option-cases, inl, inr,
}
use aidigiplanner_backend.Model.{
  Database, Product, BrandAnalysisScope, GenerationJob, CreativeConcept, CreativeAsset,
  BrandProfile, CreativeBrief,
}
use aidigiplanner_backend.Model.Session.{
  Session, Result, ok, err, AppError, or_raise, live, bad_request,
}
use aidigiplanner_backend.Model.Queries.{get_product}
use aidigiplanner_backend.Creatives.Brief.{Brief}
use aidigiplanner_backend.Creatives.BrandProfile.{
  resolve_effective_brand_profile, resolve_product_profile, product_profile, get_own_brand_profile,
}
use aidigiplanner_backend.Creatives.Worker.{
  Ending, done, raised, cancelled, GeneratedConcept, RenderedAsset, Indexed, WorkerEnvironment,
  WorkerState, Step, ◌>>=◌, pure, await, query, expect, run_action, write, keep_rendered,
}
use aidigiplanner_backend.Creatives.Worker.Rendering.{
  persist_asset, persist_assets, read_logo, render_accepted, reference_images, rendered,
  assemble_scenes, assemble_reels, render_reels, render_all, is_avatar_reel, scene_clips,
}
use aidigiplanner_backend.Creatives.Worker.Ideation.{ideate}

abbrev pub Keeps : WorkerState → WorkerState → Type 0
Keeps w v =
    (v.session.db.generation_jobs ≡ w.session.db.generation_jobs)
    × (v.session.db.creative_concepts ≡ w.session.db.creative_concepts)
    × (v.session.committed ≡ w.session.committed)

pub data Quiet {A : Type 0} (m : Step A) : Type 0 where
  quiet : ((w : WorkerState) → Keeps w (m w).1) → Quiet m

pub keeps : {A : Type 0} (m : Step A) → Quiet m → (w : WorkerState) → Keeps w (m w).1
keeps m (quiet h) w = h w

Keeps-trans : (u v w : WorkerState) → Keeps u v → Keeps v w → Keeps u w
Keeps-trans u v w (a, b, c) (a', b', c') = (a' ∙ a, b' ∙ b, c' ∙ c)

module _ {A B : Type 0} (f : A → Step B) where
  -- What follows the first step.
  after :
      (w : WorkerState) (r : Ending A) (v : WorkerState)
      → ((a : A) → Quiet (f a))
      → Keeps w v
      → Keeps w (((λ (u : WorkerState). (r, v)) >>= f) w).1
  unfolding ◌>>=◌
  after w (done a) v q kept = Keeps-trans w v (f a v).1 kept (keeps (f a) (q a) v)
  after w (raised text) v q kept = kept
  after w cancelled v q kept = kept

  >>=-Quiet : (m : Step A) → Quiet m → ((a : A) → Quiet (f a)) → Quiet (m >>= f)
  unfolding ◌>>=◌
  >>=-Quiet m (quiet p) q = quiet (λ w. after w (m w).0 (m w).1 q (p w))

module _ {A : Type 0} where
  pure-Quiet : (a : A) → Quiet (pure a)
  unfolding pure
  pure-Quiet a = quiet (λ w. (refl, refl, refl))

  await-Quiet : (e : Ending A) → Quiet (await e)
  unfolding await
  await-Quiet e = quiet (λ w. (refl, refl, refl))

  query-Quiet : (f : Database → A) → Quiet (query f)
  unfolding query
  query-Quiet f = quiet (λ w. (refl, refl, refl))

  expect-Quiet : (text : String) (o : Option A) → Quiet (expect text o)
  unfolding expect
  expect-Quiet text none = await-Quiet (raised text)
  expect-Quiet text (some a) = pure-Quiet a

rendered-Quiet : Quiet rendered
unfolding rendered
rendered-Quiet = quiet (λ w. (refl, refl, refl))

keep_rendered-Quiet : (assets : List RenderedAsset) → Quiet (keep_rendered assets)
unfolding keep_rendered
keep_rendered-Quiet assets = quiet (λ w. (refl, refl, refl))

asset-Quiet :
    (a : CreativeAsset) → Quiet (write (λ d. record d { creative_assets = a ∷ d.creative_assets }))
unfolding write
asset-Quiet a = quiet (λ w. (refl, refl, refl))

same_session :
    {A : Type 0} (w : WorkerState) (x : Result A × Session)
    → x.1 ≡ w.session
    → Keeps w (run_action (λ (s : Session). x) w).1
unfolding run_action
same_session w (ok a, s) e =
    (ap (λ t. t.db.generation_jobs) e, ap (λ t. t.db.creative_concepts) e, ap (λ t. t.committed) e)
same_session w (err error, s) e =
    (ap (λ t. t.db.generation_jobs) e, ap (λ t. t.db.creative_concepts) e, ap (λ t. t.committed) e)

or_raise-same : {A : Type 0} (o : Option A) (e : AppError) (s : Session) → (or_raise o e s).1 ≡ s
or_raise-same none e s = refl
or_raise-same (some a) e s = refl

resolve-same : (product_id : ℕ) (s : Session) → (resolve_product_profile product_id s).1 ≡ s
unfolding resolve_product_profile
resolve-same product_id s =
    elim (Option-cases (live (λ (p : Product). p.deleted_at) (get_product product_id s.db))) [
      | inl missing ↦ rw missing refl
      | inr (p, found) ↦
          let company = get_own_brand_profile BrandAnalysisScope.company p.company_id s.db in
          rw found (
            or_raise-same (elim (product_profile p s.db) [ none ↦ company | some b ↦ some b ])
              bad_request s)
    ]

brand-Quiet :
    (product_id : ℕ) → Quiet (run_action (resolve_effective_brand_profile product_id none))
unfolding run_action resolve_effective_brand_profile
brand-Quiet product_id = quiet (λ w.
    same_session w (resolve_product_profile product_id w.session)
      (resolve-same product_id w.session))

ruleset quiet_steps = (
  pure-Quiet, await-Quiet, query-Quiet, expect-Quiet, rendered-Quiet, keep_rendered-Quiet,
  asset-Quiet, brand-Quiet, >>=-Quiet,
)

persist_asset-Quiet :
    (env : WorkerEnvironment) (job : GenerationJob) (rows : List CreativeConcept)
    (asset : RenderedAsset)
    → Quiet (persist_asset env job rows asset)
unfolding persist_asset
persist_asset-Quiet env job rows asset = search quiet_steps

persist_assets-Quiet :
    (env : WorkerEnvironment) (job : GenerationJob) (rows : List CreativeConcept)
    (assets : List RenderedAsset)
    → Quiet (persist_assets env job rows assets)
unfolding persist_assets
persist_assets-Quiet env job rows [] = pure-Quiet tt
persist_assets-Quiet env job rows (a ∷ others) =
    >>=-Quiet _ _ (persist_asset-Quiet env job rows a)
      (λ u. persist_assets-Quiet env job rows others)

ruleset asset_steps = (quiet_steps, persist_asset-Quiet, persist_assets-Quiet)

read_logo-Quiet : (env : WorkerEnvironment) (key : Option String) → Quiet (read_logo env key)
read_logo-Quiet env none = pure-Quiet none
read_logo-Quiet env (some key) = elim (Bool-cases (str_eq key "")) [
  | inl blank ↦ rw blank (pure-Quiet none)
  | inr named ↦ rw named (search quiet_steps)
]

render_accepted-Quiet :
    (env : WorkerEnvironment) (job : GenerationJob) (brief : Brief) (brand : BrandProfile)
    (logo : Option String) (rows : List CreativeConcept) (accepted : Indexed)
    → Quiet (render_accepted env job brief brand logo rows accepted)
unfolding render_accepted
render_accepted-Quiet env job brief brand logo rows [] = pure-Quiet tt
render_accepted-Quiet env job brief brand logo rows (c ∷ cs) = search asset_steps

reference_images-Quiet :
    (env : WorkerEnvironment) (row : CreativeBrief) (brand : BrandProfile) (reels : Indexed)
    → Quiet (reference_images env row brand reels)
unfolding reference_images
reference_images-Quiet env row brand reels = elim (Bool-cases (is_avatar_reel row.reel_style)) [
  | inl avatar ↦ rw avatar (search quiet_steps)
  | inr story ↦ rw story (search quiet_steps)
]

assemble_scenes-Quiet :
    (env : WorkerEnvironment) (job : GenerationJob) (brand : BrandProfile) (logo : Option String)
    (rows : List CreativeConcept) (index : ℕ) (concept : GeneratedConcept)
    (clips : List RenderedAsset)
    → Quiet (assemble_scenes env job brand logo rows index concept clips)
assemble_scenes-Quiet env job brand logo rows index concept [] = pure-Quiet tt
assemble_scenes-Quiet env job brand logo rows index concept (a ∷ others) = search asset_steps

assemble_reels-Quiet :
    (env : WorkerEnvironment) (job : GenerationJob) (brand : BrandProfile) (logo : Option String)
    (rows : List CreativeConcept) (clips : List RenderedAsset) (reels : Indexed)
    → Quiet (assemble_reels env job brand logo rows clips reels)
unfolding assemble_reels
assemble_reels-Quiet env job brand logo rows clips [] = pure-Quiet tt
assemble_reels-Quiet env job brand logo rows clips ((index, concept) ∷ reels) =
    >>=-Quiet _ _
      (assemble_scenes-Quiet env job brand logo rows index concept (scene_clips index clips))
      (λ u. assemble_reels-Quiet env job brand logo rows clips reels)

ruleset reel_steps = (asset_steps, reference_images-Quiet, assemble_reels-Quiet)

render_reels-Quiet :
    (env : WorkerEnvironment) (job : GenerationJob) (row : CreativeBrief) (brief : Brief)
    (brand : BrandProfile) (logo : Option String) (rows : List CreativeConcept) (reels : Indexed)
    → Quiet (render_reels env job row brief brand logo rows reels)
unfolding render_reels
render_reels-Quiet env job row brief brand logo rows [] = pure-Quiet tt
render_reels-Quiet env job row brief brand logo rows (r ∷ reels) = search reel_steps depth 12

ruleset render_steps = (asset_steps, read_logo-Quiet, render_accepted-Quiet, render_reels-Quiet)

pub render_all-Quiet : (env : WorkerEnvironment) (job : GenerationJob) → Quiet (render_all env job)
unfolding render_all
render_all-Quiet env job = search render_steps depth 12

pub ideate-Quiet : (env : WorkerEnvironment) (job : GenerationJob) → Quiet (ideate env job)
unfolding ideate
ideate-Quiet env job = search quiet_steps depth 12
