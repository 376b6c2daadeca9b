-- ===== src/Creatives/Pricing/Total.antt =====
-- The estimate as a number: when there is one, and its closed form.
use aidigiplanner_backend.Base.{
  ℕ, ◌+◌, ◌*◌, ◌≡◌, refl, true, some, List, ◌∷◌, arith, if◌then◌else◌, or_else, is_some, Bool-cases,
  inl, inr,
}
use aidigiplanner_backend.Model.{CreativeQuality, is_carousel, is_reel_like}
use aidigiplanner_backend.Creatives.Brief.{Brief, video_backend_for, VideoBackend}
use aidigiplanner_backend.Creatives.Brief.Valid.{IsValid}
use aidigiplanner_backend.Creatives.Pricing.{
  CreativeSettings, CostTable, CostLineItem, estimate_brief_cost, total_inr, input_rate,
  output_rate, image_resolution, VideoResolution, video_resolution, image_item,
  estimate_image_call_inr, estimate_video_call_inr, images_per_concept, ideation_item, review_item,
  video_items,
}

-- The prices that the estimate looks up.
pub record HasPrices (t : CostTable) : Type 0 where
  pub standard_2k : is_some t.image_standard.per_2k ≡ true
  pub hero_2k : is_some t.image_hero.per_2k ≡ true

-- What one image costs at the resolution of the brief's quality.
abbrev pub image_price : CostTable → CreativeQuality → ℕ
image_price t CreativeQuality.draft = t.image_draft.per_1k
image_price t CreativeQuality.standard = or_else t.image_standard.per_2k 0
image_price t CreativeQuality.hero = or_else t.image_hero.per_2k 0

-- What each concept of a brief adds to the estimate.
abbrev pub cost_per_concept : Brief → CostTable → ℕ
cost_per_concept b t =
    550 * output_rate t b.quality
    + (300 * t.text_fast_input + 80 * t.text_fast_output)
    + image_price t b.quality * (if is_carousel b.format then or_else b.carousel_slides 0 else 1)
    + (if is_reel_like b.format
        then estimate_video_call_inr t (video_backend_for b.voiceover) (or_else b.reel_duration_s 0)
            (video_resolution b.quality)
        else 0)

-- How many images a concept of a brief has.
abbrev images : Brief → ℕ
images b = if is_carousel b.format then or_else b.carousel_slides 0 else 1

images_per_concept-eq : (b : Brief) → IsValid b → images_per_concept b ≡ some (images b)
images_per_concept-eq b v = ground arith

image_price-eq :
    (t : CostTable) (q : CreativeQuality)
    → HasPrices t
    → estimate_image_call_inr t q (image_resolution q) ≡ some (image_price t q)
image_price-eq t CreativeQuality.draft p = refl
image_price-eq t CreativeQuality.standard p = ground arith
image_price-eq t CreativeQuality.hero p = ground arith

total-video_items :
    (b : Brief) (s : CreativeSettings)
    → total_inr (video_items b s)
      ≡ b.concept_count
        * (if is_reel_like b.format
            then estimate_video_call_inr s.costs
                (video_backend_for b.voiceover)
                (or_else b.reel_duration_s 0)
                (video_resolution b.quality)
            else 0)
total-video_items b s = elim (Bool-cases (is_reel_like b.format)) [
  | inr other ↦ rw other (omega arith)
  | inl reel ↦ rw reel (per_second (video_backend_for b.voiceover) (video_resolution b.quality))
]
  where
    per_second :
        (v : VideoBackend) (r : VideoResolution)
        → estimate_video_call_inr s.costs v 1 r * (or_else b.reel_duration_s 0 * b.concept_count)
            + 0
          ≡ b.concept_count * estimate_video_call_inr s.costs v (or_else b.reel_duration_s 0) r
    per_second VideoBackend.omni r = omega arith
    per_second VideoBackend.veo VideoResolution.p720 = omega arith
    per_second VideoBackend.veo VideoResolution.p1080 = omega arith
    per_second VideoBackend.veo VideoResolution.k4 = omega arith

-- A valid brief has an estimate at a table with the two prices, and its total is the ideation
-- prompt plus the same amount for every concept: its own ideation, its review, its images and, for
-- a reel or video, its seconds.
pub estimate_brief_cost-total :
    (b : Brief) (s : CreativeSettings)
    → IsValid b
    → HasPrices s.costs
    → (items : List CostLineItem) × (estimate_brief_cost b s ≡ some items)
      × (total_inr items
          ≡ 1800 * input_rate s.costs b.quality + b.concept_count * cost_per_concept b s.costs)
unfolding estimate_brief_cost
estimate_brief_cost-total b s v p = (
  ideation_item b s
      ∷ review_item b s
      ∷ image_item b s (images b) (image_price s.costs b.quality)
      ∷ video_items b s,
  ground (arith, images_per_concept-eq b v, image_price-eq s.costs b.quality p),
  omega (arith, total-video_items b s),
)
