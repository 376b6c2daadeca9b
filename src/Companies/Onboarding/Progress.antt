-- ===== src/Companies/Onboarding/Progress.antt =====
-- The progress of companies under `advance_onboarding_step` (app/modules/companies/onboarding.py).
use aidigiplanner_backend.Base.{
  ℕ, ◌≤◌, ◌≡◌, refl, true, false, ◌==◌, ltb, Option, none, some, List, [], ◌∷◌, is_none, first,
  update, arith, Bool-cases, Option-cases, inl, inr, first-test,
}
use aidigiplanner_backend.Model.{Database, Company, CompanyOnboardingStep}
use aidigiplanner_backend.Model.Queries.{get_company}
use aidigiplanner_backend.Companies.Onboarding.{step_index, put_company, advance_onboarding_step}

-- How far a company of a given key is, `none` where there is none.
abbrev pub progress : ℕ → Database → Option ℕ
progress id d = elim (get_company id d) [
  | none ↦ none
  | some c ↦ some (step_index c.onboarding_step)
]

-- No further back, and there if it was there.
pub data Forward : Option ℕ → Option ℕ → Type 0 where
  absent : Forward none none
  forward : (a b : ℕ) → a ≤ b → Forward (some a) (some b)

pub Forward-refl : (o : Option ℕ) → Forward o o
Forward-refl none = Forward.absent
Forward-refl (some a) = Forward.forward a a (ground arith)

pub Forward-trans : {a b c : Option ℕ} → Forward a b → Forward b c → Forward a c
Forward-trans Forward.absent Forward.absent = Forward.absent
Forward-trans (Forward.forward a b p) (Forward.forward _ c q) = Forward.forward a c (ground arith)

module _ (new : Company) (id : ℕ) where
  pub first-put_other :
      (rows : List Company)
      → (new.id == id) ≡ false
      → first (λ c. c.id == id) (update (λ c. c.id == new.id) (λ _. new) rows)
        ≡ first (λ c. c.id == id) rows
  first-put_other [] other = refl
  first-put_other (c ∷ cs) other =
      let rest = first-put_other cs other in
      elim (Bool-cases (c.id == new.id)) [
        | inl hit ↦ let away : (c.id == id) ≡ false = ground arith in ground arith
        | inr miss ↦ elim (Bool-cases (c.id == id)) [
          | inl here ↦ ground arith
          | inr there ↦ ground arith
        ]
      ]

  pub first-put_same :
      (rows : List Company) (old : Company)
      → (new.id == id) ≡ true
      → first (λ c. c.id == id) rows ≡ some old
      → first (λ c. c.id == id) (update (λ c. c.id == new.id) (λ _. new) rows) ≡ some new
  first-put_same [] old same h = cc
  first-put_same (c ∷ cs) old same h = elim (Bool-cases (c.id == id)) [
    | inl here ↦ let hit : (c.id == new.id) ≡ true = ground arith in ground arith
    | inr there ↦
        let miss : (c.id == new.id) ≡ false = ground arith in
        let rest = first-put_same cs old same (rw there at h) in ground arith
  ]

-- What advancing one company does to the progress of any.
module _ (company_id : ℕ) (step : CompanyOnboardingStep) (d : Database) where
  abbrev after : Database
  after = advance_onboarding_step company_id step d

  -- Nothing is written.
  still : after ≡ d → (id : ℕ) → Forward (progress id d) (progress id after)
  still e id = rw e (Forward-refl (progress id d))

  moved :
      (c : Company)
      → get_company company_id d ≡ some c
      → step_index c.onboarding_step ≤ step_index step
      → (id : ℕ)
      → Forward (progress id d) (progress id (put_company (record c { onboarding_step = step }) d))
  unfolding get_company
  moved c found le id =
      let new : Company = record c { onboarding_step = step } in
      let own : (c.id == company_id) ≡ true =
        first-test (λ x. x.id == company_id) d.companies found in
      elim (Bool-cases (c.id == id)) [
        | inr other ↦
            let same = first-put_other new id d.companies other in
            let equal : progress id (put_company new d) ≡ progress id d = ground arith in
            rw equal (Forward-refl (progress id d))
        | inl here ↦
            let key : id ≡ company_id = ground arith in
            let before : first (λ x. x.id == id) d.companies ≡ some c = rw key found in
            let written = first-put_same new id d.companies c here before in
            let was : progress id d ≡ some (step_index c.onboarding_step) = ground arith in
            let is : progress id (put_company new d) ≡ some (step_index step) = ground arith in
            rw (was, is) (Forward.forward _ _ le)
      ]

  pub advance-Forward : (id : ℕ) → Forward (progress id d) (progress id after)
  unfolding advance_onboarding_step
  advance-Forward id = elim (Option-cases (get_company company_id d)) [
    | inl missing ↦ still (ground arith) id
    | inr (c, found) ↦ elim (Bool-cases (is_none c.deleted_at)) [
      | inr deleted ↦ still (ground arith) id
      | inl kept ↦ elim (Bool-cases (ltb (step_index c.onboarding_step) (step_index step))) [
        | inr past ↦ still (ground arith) id
        | inl behind ↦
            let forth = moved c found (ground arith) id in
            let same : after ≡ put_company (record c { onboarding_step = step }) d = ground arith in
            rw same forth
      ]
    ]
  ]

-- Advances, one after another.
unfoldable pub advance_each : List (ℕ × CompanyOnboardingStep) → Database → Database
advance_each [] d = d
advance_each (m ∷ ms) d = advance_each ms (advance_onboarding_step m.0 m.1 d)

-- Over any sequence of advances of companies, each to a step of its own, no company moves back.
pub advance_each-Forward :
    (moves : List (ℕ × CompanyOnboardingStep)) (d : Database) (id : ℕ)
    → Forward (progress id d) (progress id (advance_each moves d))
unfolding advance_each
advance_each-Forward [] d id = Forward-refl (progress id d)
advance_each-Forward (m ∷ ms) d id =
    Forward-trans (advance-Forward m.0 m.1 d id)
      (advance_each-Forward ms (advance_onboarding_step m.0 m.1 d) id)

-- Advancing a company that is not deleted brings it at least to that step.
pub advance-reaches :
    (company_id : ℕ) (step : CompanyOnboardingStep) (d : Database) (c : Company)
    → get_company company_id d ≡ some c
    → c.deleted_at ≡ none
    → (n : ℕ) × (progress company_id (advance_onboarding_step company_id step d) ≡ some n)
      × (step_index step ≤ n)
      × (step_index c.onboarding_step ≤ n)
unfolding advance_onboarding_step get_company
advance-reaches company_id step d c found kept =
    elim (Bool-cases (ltb (step_index c.onboarding_step) (step_index step))) [
      | inr past ↦ (step_index c.onboarding_step, ground arith, ground arith, ground arith)
      | inl behind ↦
          let own : (c.id == company_id) ≡ true =
            first-test (λ x. x.id == company_id) d.companies found in
          let written =
            first-put_same (record c { onboarding_step = step }) company_id d.companies c own
              found in
          (step_index step, ground arith, ground arith, ground arith)
    ]
