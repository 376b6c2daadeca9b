-- ===== src/Creatives/Compliance/Tests.antt =====
-- The theorems on the compliance gate at small inputs.
use aidigiplanner_backend.Base.{
  ℕ, ◌≡◌, refl, true, false, String, Option, none, some, List, [], ◌∷◌, length, All,
}
use aidigiplanner_backend.Creatives.Brief.{Brief}
use aidigiplanner_backend.Creatives.BrandProfile.{product_line}
use aidigiplanner_backend.Creatives.Generation.{brief_fields}
use aidigiplanner_backend.Creatives.Worker.{Ending, done, GeneratedConcept}
use aidigiplanner_backend.Creatives.Compliance.{
  LlmEnvironment, concept_text_blob, check_banned_claims, check_mandatory_disclaimer,
  check_partner_names, check_premium_amount_qualifier, run_keyword_checks, parse_reviewer_verdict,
  run_llm_review, check_concept, check_all, retry_all, run_compliance_gate, apply_brief_overrides,
  run_ideation,
}
use aidigiplanner_backend.Creatives.Compliance.Checked.{IsVetted, run_compliance_gate-IsVetted}
use aidigiplanner_backend.Creatives.Compliance.Disclaimer.{IsLabelled, run_ideation-IsLabelled}
use aidigiplanner_backend.Samples.{brand, brief_40}

abbrev same_text : String → String
same_text s = s

abbrev concept : String → GeneratedConcept
concept caption = record {
  angle = "offer";
  hook = "A home";
  caption = caption;
  hashtags = [];
  cta = "Apply";
  on_image_text = record { headline = "Home"; subhead = ""; kicker = "" };
  image_prompt = "";
  negative_prompt = "";
  reel = none;
  carousel_slides = none;
  disclaimer_line = "";
  compliance_notes = [];
  rejected = false;
  rejection_reason = "";
}

abbrev answers : Option (List (ℕ × String)) → Ending (List GeneratedConcept)
answers none = done (concept "T&C apply" ∷ concept "no terms" ∷ [])
answers (some feedback) = done (concept "T&C apply" ∷ [])

-- A model that forgets the disclaimer in one caption of two, and then answers with one concept only; its
-- reviewer passes or, by the last word, fails without a reason.
abbrev model : String → LlmEnvironment
model verdict = record {
  lower = same_text;
  upper = same_text;
  strip = same_text;
  first_line = same_text;
  shown = same_text;
  names_unqualified_amount = λ text. false;
  generate_concepts = λ brief brand count feedback. answers feedback;
  review_text = λ review brand concept. done verdict;
}

abbrev brief : Brief
brief = brief_fields brief_40

abbrev outcome : Ending (List GeneratedConcept)
outcome = run_ideation (model "PASS") brief brand

abbrev labelled : GeneratedConcept
labelled = record (concept "T&C apply") { disclaimer_line = "T&C apply" }

abbrev refused : GeneratedConcept
refused = record (concept "no terms") {
  disclaimer_line = "T&C apply";
  rejected = true;
  rejection_reason = "mandatory disclaimer missing from caption (retry returned too few concepts)";
}

one_refused : run_ideation (model "PASS") brief brand ≡ done (labelled ∷ refused ∷ [])
unfolding run_ideation apply_brief_overrides run_compliance_gate check_all check_concept
    run_keyword_checks check_banned_claims check_mandatory_disclaimer check_partner_names
    check_premium_amount_qualifier concept_text_blob run_llm_review parse_reviewer_verdict retry_all
    product_line
one_refused = refl

run_ideation-IsLabelled_example :
    All (IsLabelled (model "PASS") brief brand) (labelled ∷ refused ∷ [])
run_ideation-IsLabelled_example =
    run_ideation-IsLabelled (model "PASS") brief brand (labelled ∷ refused ∷ []) one_refused

gate_passes : run_compliance_gate (model "PASS") (labelled ∷ []) brief brand ≡ done (labelled ∷ [])
unfolding run_compliance_gate check_all check_concept run_keyword_checks check_banned_claims
    check_mandatory_disclaimer check_partner_names check_premium_amount_qualifier concept_text_blob
    run_llm_review parse_reviewer_verdict retry_all product_line
gate_passes = refl

run_compliance_gate-IsVetted_example :
    All (IsVetted (model "PASS") brief brand) (labelled ∷ [])
    × (length (labelled ∷ []) ≡ length (labelled ∷ []))
run_compliance_gate-IsVetted_example =
    run_compliance_gate-IsVetted (model "PASS") brief brand (labelled ∷ []) (labelled ∷ [])
      gate_passes
