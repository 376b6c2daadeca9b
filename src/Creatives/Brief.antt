-- ===== src/Creatives/Brief.antt =====
-- `Brief` and its validators (app/modules/creatives/domain.py): what is known before any paid call.
pub mod Valid
use Prim.Native.String.{count as str_len, ◌++◌ as str_append}
use aidigiplanner_backend.Base.{
  ℕ, Bool, true, false, not, ◌&&◌, ◌||◌, String, Option, none, some, List, [], ◌∷◌, leb,
  if◌then◌else◌, is_none, is_some, or_else,
}
use aidigiplanner_backend.Model.{
  CreativeFormat, CreativeLanguage, CreativeQuality, VoiceoverMode, ReelStyle, is_carousel,
  is_reel_like,
}

pub record Brief : Type 0 where
  pub product_line : String
  pub topic : String
  pub format : CreativeFormat
  pub carousel_slides : Option ℕ
  pub reel_duration_s : Option ℕ
  pub language : CreativeLanguage
  pub concept_count : ℕ
  pub quality : CreativeQuality
  pub extra_notes : String
  pub voiceover : Option VoiceoverMode
  pub reel_style : Option ReelStyle
  pub objective : String
  pub offer : String
  pub festival_occasion : String
  pub audience_override : Option String
  pub tone_override : Option (List String)
  pub cta_override : Option String

abbrev pub reel_duration_min_s : ℕ
reel_duration_min_s = 4

abbrev pub reel_duration_default_s : ℕ
reel_duration_default_s = 8

abbrev pub reel_duration_max_s : ℕ
reel_duration_max_s = 30

-- `CAROUSEL_SLIDE_RANGE`
abbrev pub carousel_slides_min : ℕ
carousel_slides_min = 3

abbrev pub carousel_slides_max : ℕ
carousel_slides_max = 8

abbrev pub in_range : ℕ → ℕ → ℕ → Bool
in_range lo hi n = leb lo n && leb n hi

-- A bound on an optional field binds only a value.
abbrev pub in_range? : ℕ → ℕ → Option ℕ → Bool
in_range? lo hi none = true
in_range? lo hi (some n) = in_range lo hi n

-- The `Field` constraints.
abbrev pub fields_fit : Brief → Bool
fields_fit b =
    in_range 1 100 (str_len b.product_line)
    && in_range 3 300 (str_len b.topic)
    && in_range? carousel_slides_min carousel_slides_max b.carousel_slides
    && in_range 1 6 b.concept_count

-- The first half of `_check_format_specific_fields`: the number of slides.
abbrev pub check_carousel : Brief → Option Brief
check_carousel b =
    if is_carousel b.format
    then some (record b { carousel_slides = some (or_else b.carousel_slides carousel_slides_min) })
    else (if is_some b.carousel_slides then none else some b)

-- The second half: what belongs to a reel or a video.
abbrev pub check_reel : Brief → Option Brief
check_reel b =
    if is_reel_like b.format
    then (if in_range? reel_duration_min_s reel_duration_max_s b.reel_duration_s
        then some (record b {
          reel_duration_s = some (or_else b.reel_duration_s reel_duration_default_s);
          voiceover = some (or_else b.voiceover VoiceoverMode.silent_text);
          reel_style = some (or_else b.reel_style ReelStyle.story);
        })
        else none)
    else (if is_some b.reel_duration_s || is_some b.voiceover || is_some b.reel_style
        then none
        else some b)

-- `Brief(...)` from the fields as given: `none` is a `ValidationError`.
unfoldable pub validate : Brief → Option Brief
validate b =
    if fields_fit b then elim (check_carousel b) [ none ↦ none | some c ↦ check_reel c ] else none

-- `ASPECT_RATIO_BY_FORMAT`
unfoldable pub aspect_ratio : CreativeFormat → String
aspect_ratio CreativeFormat.post = "4:5"
aspect_ratio CreativeFormat.carousel = "4:5"
aspect_ratio CreativeFormat.reel = "9:16"
aspect_ratio CreativeFormat.story = "9:16"
aspect_ratio CreativeFormat.video = "9:16"

abbrev pub format_value : CreativeFormat → String
format_value CreativeFormat.post = "post"
format_value CreativeFormat.carousel = "carousel"
format_value CreativeFormat.reel = "reel"
format_value CreativeFormat.story = "story"
format_value CreativeFormat.video = "video"

-- `self.reel_style.value if self.reel_style else ""`
abbrev pub reel_style_value : Option ReelStyle → String
reel_style_value none = ""
reel_style_value (some ReelStyle.story) = "story"
reel_style_value (some ReelStyle.avatar) = "avatar"

abbrev bar : String → String → String
bar s t = str_append s (str_append "|" t)

-- `normalize` is `topic.strip().lower()`, and `digest` the first 16 hex digits of a text's SHA-256:
-- both are Python's library.
unfoldable pub job_key : (String → String) → (String → String) → Brief → String → String
job_key normalize digest b prompt_version = digest (
    bar b.product_line (
      bar (normalize b.topic)
        (bar (format_value b.format) (bar (reel_style_value b.reel_style) prompt_version))))

pub data VideoBackend : Type 0 where
  veo omni : VideoBackend

-- `video_backend_for`
abbrev pub video_backend_for : Option VoiceoverMode → VideoBackend
video_backend_for (some VoiceoverMode.native_audio) = VideoBackend.veo
video_backend_for _ = VideoBackend.omni
