-- ===== src/Creatives/Pricing.antt =====
-- The model registry, the cost table and the pre-flight estimate (app/modules/creatives/pricing.py).
-- Money is counted in millionths of a rupee, in which every rate of the default table is a whole
-- number; a rate per million tokens in rupees is one per token in these units. The source computes
-- in floating point, whose rounding is left out. A label's text is left out of a line item.
pub mod Total
use aidigiplanner_backend.Base.{
  ℕ, ◌+◌, ◌*◌, String, Option, none, some, List, [], ◌∷◌, ◌++◌, map, sum, or_else,
}
use aidigiplanner_backend.Model.{CreativeQuality, is_carousel, is_reel_like}
use aidigiplanner_backend.Base.{Bool, if◌then◌else◌}
use aidigiplanner_backend.Creatives.Brief.{Brief, VideoBackend, video_backend_for}

pub record ModelRegistry : Type 0 where
  pub text_fast : String
  pub text_quality : String
  pub image_draft : String
  pub image_standard : String
  pub image_hero : String
  pub video_omni : String
  pub video_veo : String

pub record ImageCost : Type 0 where
  pub per_0_5k : Option ℕ
  pub per_1k : ℕ
  pub per_2k : Option ℕ
  pub per_4k : Option ℕ

pub record CostTable : Type 0 where
  pub text_fast_input : ℕ
  pub text_fast_output : ℕ
  pub text_quality_input : ℕ
  pub text_quality_output : ℕ
  pub image_draft : ImageCost
  pub image_standard : ImageCost
  pub image_hero : ImageCost
  pub video_veo_per_second_720p : ℕ
  pub video_veo_per_second_1080p : ℕ
  pub video_veo_per_second_4k : ℕ
  pub video_omni_per_second : ℕ

pub record CreativeSettings : Type 0 where
  pub max_cost_per_run_inr : ℕ
  pub max_cost_per_day_inr : ℕ
  pub models : ModelRegistry
  pub costs : CostTable

pub data ImageResolution : Type 0 where
  half_k one_k two_k four_k : ImageResolution

pub data VideoResolution : Type 0 where
  p720 p1080 k4 : VideoResolution

abbrev pub image_model_for : ModelRegistry → CreativeQuality → String
image_model_for m CreativeQuality.draft = m.image_draft
image_model_for m CreativeQuality.standard = m.image_standard
image_model_for m CreativeQuality.hero = m.image_hero

abbrev pub text_model_for : ModelRegistry → CreativeQuality → String
text_model_for m CreativeQuality.draft = m.text_fast
text_model_for m _ = m.text_quality

abbrev pub input_rate : CostTable → CreativeQuality → ℕ
input_rate t CreativeQuality.draft = t.text_fast_input
input_rate t _ = t.text_quality_input

abbrev pub output_rate : CostTable → CreativeQuality → ℕ
output_rate t CreativeQuality.draft = t.text_fast_output
output_rate t _ = t.text_quality_output

abbrev pub estimate_text_call_inr : CostTable → CreativeQuality → ℕ → ℕ → ℕ
estimate_text_call_inr t quality input_tokens output_tokens =
    input_tokens * input_rate t quality + output_tokens * output_rate t quality

abbrev pub image_cost_for : CostTable → CreativeQuality → ImageCost
image_cost_for t CreativeQuality.draft = t.image_draft
image_cost_for t CreativeQuality.standard = t.image_standard
image_cost_for t CreativeQuality.hero = t.image_hero

-- `none` is the `ValueError` of a resolution with no price.
abbrev pub per_resolution : ImageCost → ImageResolution → Option ℕ
per_resolution c ImageResolution.half_k = c.per_0_5k
per_resolution c ImageResolution.one_k = some c.per_1k
per_resolution c ImageResolution.two_k = c.per_2k
per_resolution c ImageResolution.four_k = c.per_4k

abbrev pub estimate_image_call_inr : CostTable → CreativeQuality → ImageResolution → Option ℕ
estimate_image_call_inr t quality = per_resolution (image_cost_for t quality)

-- The backends and resolutions are closed types here, so no lookup fails.
abbrev pub estimate_video_call_inr : CostTable → VideoBackend → ℕ → VideoResolution → ℕ
estimate_video_call_inr t VideoBackend.omni duration_s r = duration_s * t.video_omni_per_second
estimate_video_call_inr t VideoBackend.veo duration_s VideoResolution.p720 =
    duration_s * t.video_veo_per_second_720p
estimate_video_call_inr t VideoBackend.veo duration_s VideoResolution.p1080 =
    duration_s * t.video_veo_per_second_1080p
estimate_video_call_inr t VideoBackend.veo duration_s VideoResolution.k4 =
    duration_s * t.video_veo_per_second_4k

-- `IMAGE_RESOLUTION_BY_QUALITY`
abbrev pub image_resolution : CreativeQuality → ImageResolution
image_resolution CreativeQuality.draft = ImageResolution.one_k
image_resolution CreativeQuality.standard = ImageResolution.two_k
image_resolution CreativeQuality.hero = ImageResolution.two_k

-- `VIDEO_RESOLUTION_BY_QUALITY`
abbrev pub video_resolution : CreativeQuality → VideoResolution
video_resolution CreativeQuality.draft = VideoResolution.p720
video_resolution CreativeQuality.standard = VideoResolution.p720
video_resolution CreativeQuality.hero = VideoResolution.p1080

pub data QuantityUnit : Type 0 where
  call concept image second : QuantityUnit

pub record CostLineItem : Type 0 where
  pub model_id : String
  pub quantity : ℕ
  pub unit : QuantityUnit
  pub unit_cost_inr : ℕ
  pub subtotal_inr : ℕ

-- `CostEstimate.total_inr`
abbrev pub total_inr : List CostLineItem → ℕ
total_inr items = sum (map (λ (i : CostLineItem). i.subtotal_inr) items)

abbrev pub ideation_item : Brief → CreativeSettings → CostLineItem
ideation_item b s =
    let cost = estimate_text_call_inr s.costs b.quality 1800 (550 * b.concept_count) in
    record {
      model_id = text_model_for s.models b.quality;
      quantity = 1;
      unit = QuantityUnit.call;
      unit_cost_inr = cost;
      subtotal_inr = cost;
    }

abbrev pub review_item : Brief → CreativeSettings → CostLineItem
review_item b s =
    let each = estimate_text_call_inr s.costs CreativeQuality.draft 300 80 in
    record {
      model_id = s.models.text_fast;
      quantity = b.concept_count;
      unit = QuantityUnit.concept;
      unit_cost_inr = each;
      subtotal_inr = each * b.concept_count;
    }

-- `images_per_concept`: `none` is the failed assertion of a carousel without slides.
abbrev pub images_per_concept : Brief → Option ℕ
images_per_concept b = if is_carousel b.format then b.carousel_slides else some 1

abbrev pub image_item : Brief → CreativeSettings → ℕ → ℕ → CostLineItem
image_item b s images cost = record {
  model_id = image_model_for s.models b.quality;
  quantity = images * b.concept_count;
  unit = QuantityUnit.image;
  unit_cost_inr = cost;
  subtotal_inr = cost * (images * b.concept_count);
}

abbrev pub video_model : ModelRegistry → VideoBackend → String
video_model m VideoBackend.veo = m.video_veo
video_model m VideoBackend.omni = m.video_omni

abbrev pub video_item : Brief → CreativeSettings → CostLineItem
video_item b s =
    let backend = video_backend_for b.voiceover in
    let per_second = estimate_video_call_inr s.costs backend 1 (video_resolution b.quality) in
    let total_seconds = or_else b.reel_duration_s 0 * b.concept_count in
    record {
      model_id = video_model s.models backend;
      quantity = total_seconds;
      unit = QuantityUnit.second;
      unit_cost_inr = per_second;
      subtotal_inr = per_second * total_seconds;
    }

abbrev pub video_items : Brief → CreativeSettings → List CostLineItem
video_items b s = if is_reel_like b.format then video_item b s ∷ [] else []

-- `estimate_brief_cost`: `none` is an exception of one of its parts.
unfoldable pub estimate_brief_cost : Brief → CreativeSettings → Option (List CostLineItem)
estimate_brief_cost b s = elim (images_per_concept b) [
  | none ↦ none
  | some images ↦ elim (estimate_image_call_inr s.costs b.quality (image_resolution b.quality)) [
    | none ↦ none
    | some cost ↦
        some (ideation_item b s ∷ review_item b s ∷ image_item b s images cost ∷ video_items b s)
  ]
]
