-- ===== src/Creatives/Compliance/Checked.antt =====
-- What the gate of app/modules/creatives/compliance.py lets through.
use aidigiplanner_backend.Base.{
  ℕ, suc, ◌≡◌, refl, ap, subst, ◌∙◌, true, false, String, Option, none, some, List, [], ◌∷◌, length,
  All,
}
use aidigiplanner_backend.Model.{BrandProfile}
use aidigiplanner_backend.Creatives.Brief.{Brief}
use aidigiplanner_backend.Creatives.Worker.{Ending, done, raised, cancelled, GeneratedConcept}
use aidigiplanner_backend.Creatives.Compliance.{
  LlmEnvironment, Review, ◌>>=◌, check_concept, check_all, retry_slot, retry_all, retry_failing,
  concepts_of, head, tail, accept_candidate, feedback, run_compliance_gate,
}

-- The step before has ended with a value.
pub ends-done :
    {A B : Type 0} (m : Ending A) (f : A → Ending B) (b : B)
    → (m >>= f) ≡ done b
    → (a : A) × (m ≡ done a) × (f a ≡ done b)
ends-done (done a) f b e = (a, refl, e)
ends-done (raised text) f b e = cc
ends-done cancelled f b e = cc

pub done-injective : {A : Type 0} (a b : A) → done a ≡ done b → a ≡ b
done-injective a b e = cc

module _ (env : LlmEnvironment) (brief : Brief) (brand : BrandProfile) where
  -- The checks of a review have found nothing in the concept.
  abbrev pub HasPassed : Review → GeneratedConcept → Type 0
  HasPassed review c = check_concept env review brief brand c ≡ done []

  -- Rejected, or checked as it is.
  pub data IsVetted (c : GeneratedConcept) : Type 0 where
    rejected : c.rejected ≡ true → IsVetted c
    passed_first : (index : ℕ) → HasPassed (Review.first_review index) c → IsVetted c
    passed_retry :
        (index : ℕ) (candidate : GeneratedConcept)
        → HasPassed (Review.second_review index) candidate
        → c ≡ record candidate { rejected = false; rejection_reason = "" }
        → IsVetted c

  -- The violations that are noted are those that the first review found.
  abbrev Noted : ℕ → List (GeneratedConcept × List String) → Type 0
  Noted index [] = Unit
  Noted index ((c, violations) ∷ slots) =
      (check_concept env (Review.first_review index) brief brand c ≡ done violations)
      × Noted (suc index) slots

  check_all-Noted :
      (index : ℕ) (cs : List GeneratedConcept) (slots : List (GeneratedConcept × List String))
      → check_all env brief brand index cs ≡ done slots
      → Noted index slots × (concepts_of env slots ≡ cs)
  unfolding check_all
  check_all-Noted index [] slots e = rw (← done-injective [] slots e) (tt, refl)
  check_all-Noted index (c ∷ cs) slots e =
      let (violations, found, e₁) =
        ends-done (check_concept env (Review.first_review index) brief brand c) _ slots e in
      let (rest, later, e₂) = ends-done (check_all env brief brand (suc index) cs) _ slots e₁ in
      let (noted, same) = check_all-Noted (suc index) cs rest later in
      rw (← done-injective ((c, violations) ∷ rest) slots e₂) ((found, noted), ap (λ l. c ∷ l) same)

  accept-IsVetted :
      (index : ℕ) (c candidate : GeneratedConcept) (violations : List String)
      → check_concept env (Review.second_review index) brief brand candidate ≡ done violations
      → IsVetted (accept_candidate env c candidate violations)
  accept-IsVetted index c candidate [] e = IsVetted.passed_retry index candidate e refl
  accept-IsVetted index c candidate (v ∷ violations) e = IsVetted.rejected refl

  retry_slot-IsVetted :
      (index : ℕ) (c : GeneratedConcept) (violations : List String)
      (candidate : Option GeneratedConcept) (kept : GeneratedConcept)
      → check_concept env (Review.first_review index) brief brand c ≡ done violations
      → retry_slot env brief brand index c violations candidate ≡ done kept
      → IsVetted kept
  retry_slot-IsVetted index c [] candidate kept found e =
      rw (← done-injective c kept e) (IsVetted.passed_first index found)
  retry_slot-IsVetted index c (v ∷ violations) none kept found e =
      rw (← done-injective _ kept e) (IsVetted.rejected refl)
  retry_slot-IsVetted index c (v ∷ violations) (some candidate) kept found e =
      let (again, checked, e₁) =
        ends-done (check_concept env (Review.second_review index) brief brand candidate) _ kept e in
      subst IsVetted (done-injective (accept_candidate env c candidate again) kept e₁)
        (accept-IsVetted index c candidate again checked)

  retry_all-IsVetted :
      (index : ℕ) (slots : List (GeneratedConcept × List String))
      (revised cs : List GeneratedConcept)
      → Noted index slots
      → retry_all env brief brand index slots revised ≡ done cs
      → All IsVetted cs × (length cs ≡ length (concepts_of env slots))
  unfolding retry_all
  retry_all-IsVetted index [] revised cs noted e = rw (← done-injective [] cs e) (tt, refl)
  retry_all-IsVetted index ((c, violations) ∷ slots) revised cs noted e =
      let (kept, here, e₁) =
        ends-done (retry_slot env brief brand index c violations (head env revised)) _ cs e in
      let (rest, later, e₂) =
        ends-done (retry_all env brief brand (suc index) slots (tail env revised)) _ cs e₁ in
      let (vetted, same) =
        retry_all-IsVetted (suc index) slots (tail env revised) rest noted.1 later in
      let first_kept =
        retry_slot-IsVetted index c violations (head env revised) kept noted.0 here in
      rw (← done-injective (kept ∷ rest) cs e₂) ((first_kept, vetted), ap suc same)

  passed_of_feedback :
      (index : ℕ) (slots : List (GeneratedConcept × List String))
      → Noted index slots
      → feedback env index slots ≡ []
      → All IsVetted (concepts_of env slots)
  passed_of_feedback index [] noted e = tt
  passed_of_feedback index ((c, []) ∷ slots) noted e =
      (IsVetted.passed_first index noted.0, passed_of_feedback (suc index) slots noted.1 e)
  passed_of_feedback index ((c, v ∷ violations) ∷ slots) noted e = cc

  retry_failing-IsVetted :
      (slots : List (GeneratedConcept × List String)) (failing : List (ℕ × String))
      (cs : List GeneratedConcept)
      → Noted 0 slots
      → feedback env 0 slots ≡ failing
      → retry_failing env brief brand slots failing ≡ done cs
      → All IsVetted cs × (length cs ≡ length (concepts_of env slots))
  retry_failing-IsVetted slots [] cs noted same e =
      rw (← done-injective (concepts_of env slots) cs e)
        (passed_of_feedback 0 slots noted same, refl)
  retry_failing-IsVetted slots (f ∷ failing) cs noted same e =
      let (revised, answered, e₁) =
        ends-done (env.generate_concepts brief brand _ (some (f ∷ failing))) _ cs e in
      retry_all-IsVetted 0 slots revised cs noted e₁

  -- The gate returns as many concepts as it is given, and each of them is rejected, or has no violation
  -- in the review of its slot, or is, apart from its mark, the candidate of the retry that has none.
  pub run_compliance_gate-IsVetted :
      (concepts cs : List GeneratedConcept)
      → run_compliance_gate env concepts brief brand ≡ done cs
      → All IsVetted cs × (length cs ≡ length concepts)
  unfolding run_compliance_gate
  run_compliance_gate-IsVetted concepts cs e =
      let (slots, checked, e₁) = ends-done (check_all env brief brand 0 concepts) _ cs e in
      let (noted, same) = check_all-Noted 0 concepts slots checked in
      let (vetted, kept) = retry_failing-IsVetted slots (feedback env 0 slots) cs noted refl e₁ in
      (vetted, kept ∙ ap length same)
