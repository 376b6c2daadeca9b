-- ===== src/Creatives/Compliance.antt =====
-- app/modules/creatives/compliance.py and app/modules/creatives/pipeline/ideate.py: from a brief to
-- concepts that have been checked.
pub mod Checked
pub mod Disclaimer
mod Tests
use Prim.Native.String.{◌++◌}
use text.Mathlib.Text.{starts_with, find?}
use aidigiplanner_backend.Base.{
  ℕ, suc, Bool, true, false, not, ◌&&◌, ◌||◌, ◌==◌, String, Option, none, some, List, [], ◌∷◌,
  ◌++◌ as append, any, if◌then◌else◌, is_none, is_some, str_eq,
}
use aidigiplanner_backend.Model.{BrandProfile, ProductLineProfile, OnImageText}
use aidigiplanner_backend.Creatives.Brief.{Brief}
use aidigiplanner_backend.Creatives.BrandProfile.{product_line}
use aidigiplanner_backend.Creatives.Worker.{Ending, done, raised, cancelled, GeneratedConcept, clip}

-- A review by the language model: of a slot of the first answer, or of the retry.
pub data Review : Type 0 where
  first_review second_review : ℕ → Review

-- Python's functions on texts, the pattern of amounts without a "starting from" nearby, and the calls of
-- the language model with their prompts; the model may answer each call differently.
pub record LlmEnvironment : Type 0 where
  pub lower : String → String
  pub upper : String → String
  pub strip : String → String
  pub first_line : String → String
  pub shown : String → String
  pub names_unqualified_amount : String → Bool
  pub generate_concepts :
      Brief → BrandProfile → ℕ → Option (List (ℕ × String)) → Ending (List GeneratedConcept)
  pub review_text : Review → BrandProfile → GeneratedConcept → Ending String

infixl 5 ◌>>=◌
abbrev pub ◌>>=◌ : {A B : Type 0} → Ending A → (A → Ending B) → Ending B
done a >>= f = f a
raised text >>= f = raised text
cancelled >>= f = cancelled

-- `"; ".join(texts)`, with any separator.
abbrev pub join : String → List String → String
join separator [] = ""
join separator (t ∷ []) = t
join separator (t ∷ u ∷ texts) = t ++ (separator ++ join separator (u ∷ texts))

abbrev pub contains : String → String → Bool
contains text part = is_some (find? text part)

unfoldable pub concept_text_blob : GeneratedConcept → String
concept_text_blob c = join " " (
    c.hook ∷ c.caption ∷ c.cta ∷ c.on_image_text.headline ∷ c.on_image_text.subhead
    ∷ c.on_image_text.kicker ∷ [])

module _ (env : LlmEnvironment) where
  abbrev pub banned : String → List String → List String
  banned blob [] = []
  banned blob (claim ∷ claims) =
      let rest = banned blob claims in
      if not (starts_with (env.lower claim) "any ") && contains blob (env.lower claim)
      then ("banned claim present: " ++ env.shown claim) ∷ rest
      else rest

  unfoldable pub check_banned_claims : GeneratedConcept → BrandProfile → List String
  check_banned_claims c brand = banned (env.lower (concept_text_blob c)) brand.banned_claims

  unfoldable pub check_mandatory_disclaimer : GeneratedConcept → BrandProfile → List String
  check_mandatory_disclaimer c brand =
      if contains c.caption brand.mandatory_disclaimer
      then []
      else "mandatory disclaimer missing from caption" ∷ []

  abbrev pub partners_named : String → String → List String → List String
  partners_named blob notes [] = []
  partners_named blob notes (partner ∷ partners) =
      let rest = partners_named blob notes partners in
      if contains blob (env.lower partner) && not (contains notes (env.lower partner))
      then ("partner name " ++ (env.shown partner ++ " used but not supplied in the brief")) ∷ rest
      else rest

  -- `brand.product_line` raises a `KeyError`.
  unfoldable pub check_partner_names :
      GeneratedConcept → Brief → BrandProfile → Ending (List String)
  check_partner_names c brief brand = elim (product_line brief.product_line brand) [
    | none ↦ raised "KeyError"
    | some line ↦ done (
        partners_named (env.lower (concept_text_blob c)) (env.lower brief.extra_notes)
          line.partners)
  ]

  unfoldable pub check_premium_amount_qualifier : GeneratedConcept → List String
  check_premium_amount_qualifier c =
      if env.names_unqualified_amount (concept_text_blob c)
      then "premium amount mentioned without a 'starting from' qualifier nearby" ∷ []
      else []

  unfoldable pub run_keyword_checks : GeneratedConcept → Brief → BrandProfile → Ending (List String)
  run_keyword_checks c brief brand = check_partner_names c brief brand >>= λ partners. done (
      append (check_banned_claims c brand) (
        append (check_mandatory_disclaimer c brand)
          (append partners (check_premium_amount_qualifier c))))

  -- `line.split(":", 1)[1]`, if there is a colon.
  abbrev pub after_colon : String → Option String
  after_colon String.[] = none
  after_colon (String.◌∷◌ c text) =
      let rest = after_colon text in if str_eq (String.◌∷◌ c String.[]) ":" then some text else rest

  abbrev pub failure_text : Option String → String
  failure_text none = "flagged by compliance reviewer"
  failure_text (some reason) = env.strip reason

  -- `none` where the reviewer has passed the concept.
  unfoldable pub parse_reviewer_verdict : String → Option String
  parse_reviewer_verdict text =
      let stripped = env.strip text in
      let line = env.strip (env.first_line stripped) in
      if str_eq stripped ""
      then some "empty compliance reviewer response"
      else if starts_with (env.upper line) "PASS"
      then none
      else if starts_with (env.upper line) "FAIL"
      then some (failure_text (after_colon line))
      else some ("unparseable compliance reviewer response: " ++ env.shown (clip 200 line))

  -- `[verdict] if verdict else []`
  abbrev pub verdict_violations : Option String → List String
  verdict_violations none = []
  verdict_violations (some verdict) = if str_eq verdict "" then [] else verdict ∷ []

  unfoldable pub run_llm_review : Review → GeneratedConcept → BrandProfile → Ending (List String)
  run_llm_review review c brand = env.review_text review brand c >>= λ text.
      done (verdict_violations (parse_reviewer_verdict text))

  abbrev pub or_review :
      Review → GeneratedConcept → BrandProfile → List String → Ending (List String)
  or_review review c brand [] = run_llm_review review c brand
  or_review review c brand (v ∷ violations) = done (v ∷ violations)

  unfoldable pub check_concept :
      Review → Brief → BrandProfile → GeneratedConcept → Ending (List String)
  check_concept review brief brand c = run_keyword_checks c brief brand >>= or_review review c brand

  -- The concepts from an index on, each with its violations.
  unfoldable pub check_all :
      Brief
      → BrandProfile
      → ℕ
      → List GeneratedConcept
      → Ending (List (GeneratedConcept × List String))
  check_all brief brand index [] = done []
  check_all brief brand index (c ∷ cs) =
      check_concept (Review.first_review index) brief brand c >>= λ violations.
      check_all brief brand (suc index) cs >>= λ rest. done ((c, violations) ∷ rest)

  abbrev pub add_feedback : ℕ → List String → List (ℕ × String) → List (ℕ × String)
  add_feedback index [] rest = rest
  add_feedback index (v ∷ violations) rest = (index, join "; " (v ∷ violations)) ∷ rest

  -- `{i: "; ".join(v) for i, v in failing.items()}`
  abbrev pub feedback : ℕ → List (GeneratedConcept × List String) → List (ℕ × String)
  feedback index [] = []
  feedback index ((c, violations) ∷ slots) =
      add_feedback index violations (feedback (suc index) slots)

  abbrev pub reject : String → GeneratedConcept → GeneratedConcept
  reject reason c = record c { rejected = true; rejection_reason = reason }

  -- A candidate of the retry takes the place of a concept, if it has no violations.
  abbrev pub accept_candidate : GeneratedConcept → GeneratedConcept → List String → GeneratedConcept
  accept_candidate c candidate [] = record candidate { rejected = false; rejection_reason = "" }
  accept_candidate c candidate (v ∷ violations) = reject (join "; " (v ∷ violations)) c

  abbrev pub retry_slot :
      Brief
      → BrandProfile
      → ℕ
      → GeneratedConcept
      → List String
      → Option GeneratedConcept
      → Ending GeneratedConcept
  retry_slot brief brand index c [] candidate = done c
  retry_slot brief brand index c (v ∷ violations) none =
      done (reject (join "; " (v ∷ violations) ++ " (retry returned too few concepts)") c)
  retry_slot brief brand index c (v ∷ violations) (some candidate) =
      check_concept (Review.second_review index) brief brand candidate >>= λ found.
      done (accept_candidate c candidate found)

  abbrev pub head : List GeneratedConcept → Option GeneratedConcept
  head [] = none
  head (c ∷ cs) = some c

  abbrev pub tail : List GeneratedConcept → List GeneratedConcept
  tail [] = []
  tail (c ∷ cs) = cs

  -- The loop over the failing slots, from an index on, with what is left of the answer to the retry.
  unfoldable pub retry_all :
      Brief
      → BrandProfile
      → ℕ
      → List (GeneratedConcept × List String)
      → List GeneratedConcept
      → Ending (List GeneratedConcept)
  retry_all brief brand index [] revised = done []
  retry_all brief brand index ((c, violations) ∷ slots) revised =
      retry_slot brief brand index c violations (head revised) >>= λ kept.
      retry_all brief brand (suc index) slots (tail revised) >>= λ rest. done (kept ∷ rest)

  abbrev pub concepts_of : List (GeneratedConcept × List String) → List GeneratedConcept
  concepts_of [] = []
  concepts_of ((c, violations) ∷ slots) = c ∷ concepts_of slots

  abbrev pub count_slots : List (GeneratedConcept × List String) → ℕ
  count_slots [] = 0
  count_slots (s ∷ slots) = suc (count_slots slots)

  -- One retry, if a concept fails.
  abbrev pub retry_failing :
      Brief
      → BrandProfile
      → List (GeneratedConcept × List String)
      → List (ℕ × String)
      → Ending (List GeneratedConcept)
  retry_failing brief brand slots [] = done (concepts_of slots)
  retry_failing brief brand slots (f ∷ failing) =
      env.generate_concepts brief brand (count_slots slots) (some (f ∷ failing)) >>= λ revised.
      retry_all brief brand 0 slots revised

  -- The list `concepts` as the gate leaves it.
  unfoldable pub run_compliance_gate :
      List GeneratedConcept → Brief → BrandProfile → Ending (List GeneratedConcept)
  run_compliance_gate concepts brief brand = check_all brief brand 0 concepts >>= λ slots.
      retry_failing brief brand slots (feedback 0 slots)

  abbrev pub override_tone : Option (List String) → BrandProfile → BrandProfile
  override_tone none brand = brand
  override_tone (some []) brand = brand
  override_tone (some (t ∷ tone)) brand = record brand { tone = t ∷ tone }

  abbrev pub override_audience : Option String → BrandProfile → BrandProfile
  override_audience none brand = brand
  override_audience (some audience) brand =
      if str_eq audience "" then brand else record brand { audience_primary = audience }

  -- A labelled line, unless the text is empty.
  abbrev pub add_bit : String → String → List String → List String
  add_bit label text rest = if str_eq text "" then rest else (label ++ text) ∷ rest

  abbrev pub or_empty : Option String → String
  or_empty none = ""
  or_empty (some text) = text

  abbrev pub extra_bits : Brief → List String
  extra_bits brief = add_bit "Objective: " brief.objective (
      add_bit "Offer: " brief.offer (
        add_bit "Festival/occasion: " brief.festival_occasion
          (add_bit "CTA: " (or_empty brief.cta_override) [])))

  abbrev pub with_notes : List String → Brief → Brief
  with_notes [] brief = brief
  with_notes (b ∷ bits) brief = record brief {
    extra_notes = env.strip (brief.extra_notes ++ ("\n" ++ join "\n" (b ∷ bits)));
  }

  unfoldable pub apply_brief_overrides : Brief → BrandProfile → Brief × BrandProfile
  apply_brief_overrides brief brand = (
    with_notes (extra_bits brief) brief,
    override_audience brief.audience_override (override_tone brief.tone_override brand),
  )

  abbrev pub set_disclaimers : String → List GeneratedConcept → List GeneratedConcept
  set_disclaimers line [] = []
  set_disclaimers line (c ∷ cs) = record c { disclaimer_line = line } ∷ set_disclaimers line cs

  abbrev pub ideate_for : Brief × BrandProfile → Ending (List GeneratedConcept)
  ideate_for (brief, brand) =
      env.generate_concepts brief brand brief.concept_count none >>= λ concepts.
      run_compliance_gate (set_disclaimers brand.mandatory_disclaimer concepts) brief brand

  unfoldable pub run_ideation : Brief → BrandProfile → Ending (List GeneratedConcept)
  run_ideation brief brand = ideate_for (apply_brief_overrides brief brand)
