-- ===== src/Creatives/Compliance/Disclaimer.antt =====
-- Captions and verdicts under app/modules/creatives/compliance.py and pipeline/ideate.py.
use aidigiplanner_backend.Base.{
  ◌≡◌, refl, ap, subst, ◌∙◌, true, String, Option, none, some, List, [], ◌∷◌, ◌++◌ as append, All,
  All-map_imp, str_eq, arith, inl, inr, ◌⊎◌, Bool-cases,
}
use aidigiplanner_backend.Model.{BrandProfile}
use aidigiplanner_backend.Creatives.Brief.{Brief}
use aidigiplanner_backend.Creatives.Worker.{done, GeneratedConcept}
use aidigiplanner_backend.Creatives.Compliance.{
  LlmEnvironment, Review, contains, run_keyword_checks, check_partner_names,
  check_mandatory_disclaimer, check_banned_claims, or_review, check_concept, apply_brief_overrides,
  override_tone, override_audience, set_disclaimers, run_ideation,
}
use aidigiplanner_backend.Creatives.Compliance.Checked.{
  ends-done, done-injective, HasPassed, IsVetted, run_compliance_gate-IsVetted,
}

append-empty : (xs ys : List String) → append xs ys ≡ [] → (xs ≡ []) × (ys ≡ [])
append-empty [] ys e = (refl, e)
append-empty (x ∷ xs) ys e = cc

module _ (env : LlmEnvironment) (brief : Brief) (brand : BrandProfile) where
  review-empty :
      (review : Review) (c : GeneratedConcept) (violations : List String)
      → or_review env review c brand violations ≡ done []
      → violations ≡ []
  review-empty review c [] e = refl
  review-empty review c (v ∷ violations) e = cc

  disclaimer-there :
      (c : GeneratedConcept)
      → check_mandatory_disclaimer env c brand ≡ []
      → contains c.caption brand.mandatory_disclaimer ≡ true
  unfolding check_mandatory_disclaimer
  disclaimer-there c e = elim (Bool-cases (contains c.caption brand.mandatory_disclaimer)) [
    | inl there ↦ there
    | inr missing ↦ ground arith
  ]

  passed-disclaimer :
      (review : Review) (c : GeneratedConcept)
      → HasPassed env brief brand review c
      → contains c.caption brand.mandatory_disclaimer ≡ true
  unfolding check_concept run_keyword_checks
  passed-disclaimer review c h =
      let (violations, checked, e) =
        ends-done (run_keyword_checks env c brief brand) (or_review env review c brand) [] h in
      let empty = review-empty review c violations e in
      let (partners, named, e₁) =
        ends-done (check_partner_names env c brief brand) _ violations checked in
      let all = done-injective _ violations e₁ ∙ empty in
      let (no_claims, rest) = append-empty (check_banned_claims env c brand) _ all in
      disclaimer-there c (append-empty (check_mandatory_disclaimer env c brand) _ rest).0

  -- Rejected, or with the brand's disclaimer in the caption.
  abbrev pub IsLabelled : GeneratedConcept → Type 0
  IsLabelled c = (c.rejected ≡ true) ⊎ (contains c.caption brand.mandatory_disclaimer ≡ true)

  IsVetted-IsLabelled : (c : GeneratedConcept) → IsVetted env brief brand c → IsLabelled c
  IsVetted-IsLabelled c (IsVetted.rejected h) = inl h
  IsVetted-IsLabelled c (IsVetted.passed_first index h) =
      inr (passed-disclaimer (Review.first_review index) c h)
  IsVetted-IsLabelled c (IsVetted.passed_retry index candidate h e) =
      inr (rw (ap (λ x. x.caption) e) (passed-disclaimer (Review.second_review index) candidate h))

tone-disclaimer :
    (env : LlmEnvironment) (tone : Option (List String)) (brand : BrandProfile)
    → (override_tone env tone brand).mandatory_disclaimer ≡ brand.mandatory_disclaimer
tone-disclaimer env none brand = refl
tone-disclaimer env (some []) brand = refl
tone-disclaimer env (some (t ∷ tone)) brand = refl

audience-disclaimer :
    (env : LlmEnvironment) (audience : Option String) (brand : BrandProfile)
    → (override_audience env audience brand).mandatory_disclaimer ≡ brand.mandatory_disclaimer
audience-disclaimer env none brand = refl
audience-disclaimer env (some audience) brand = elim (Bool-cases (str_eq audience "")) [
  | inl blank ↦ rw blank refl
  | inr given ↦ rw given refl
]

override-disclaimer :
    (env : LlmEnvironment) (brief : Brief) (brand : BrandProfile)
    → (apply_brief_overrides env brief brand).1.mandatory_disclaimer ≡ brand.mandatory_disclaimer
unfolding apply_brief_overrides
override-disclaimer env brief brand =
    audience-disclaimer env brief.audience_override (override_tone env brief.tone_override brand)
    ∙ tone-disclaimer env brief.tone_override brand

-- Whatever the language model answers, every concept that ideation returns is rejected, or has the
-- brand's mandatory disclaimer in its caption.
pub run_ideation-IsLabelled :
    (env : LlmEnvironment) (brief : Brief) (brand : BrandProfile) (cs : List GeneratedConcept)
    → run_ideation env brief brand ≡ done cs
    → All (IsLabelled env brief brand) cs
unfolding run_ideation
run_ideation-IsLabelled env brief brand cs e =
    let b = (apply_brief_overrides env brief brand).0 in
    let p = (apply_brief_overrides env brief brand).1 in
    let (concepts, answered, e₁) =
      ends-done (env.generate_concepts b p b.concept_count none) _ cs e in
    let vetted =
      run_compliance_gate-IsVetted env b p (set_disclaimers env p.mandatory_disclaimer concepts) cs
        e₁ in
    subst (λ line. All (λ c. (c.rejected ≡ true) ⊎ (contains c.caption line ≡ true)) cs)
      (override-disclaimer env brief brand)
      (All-map_imp (IsVetted env b p) (IsLabelled env b p) (IsVetted-IsLabelled env b p) cs
        vetted.0)
