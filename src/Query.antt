-- ===== src/Query.antt =====
-- `gst_aja_video_src_query`, `gst_aja_audio_src_query` and the `get_caps` of both sources
-- (gst-plugin/aja/gstajavideosrc.cpp, gst-plugin/aja/gstajaaudiosrc.cpp). The two queries are one
-- text. `gst_util_uint64_scale_ceil`, the caps of a `GstAudioInfo` and the intersection of caps are
-- parameters, and what the parent answers to another query.
pub mod Bounds
use ntv2_gst.Prelude.{ℕ, ◌*◌, ◌%◌, ◌^◌, Bool, true, false, Option, none, some}
use ntv2_gst.Mode.Defs.{Mode}
use ntv2_gst.Mode.Caps.{Caps, get_caps_raw}
use ntv2_gst.Audio.Defs.{second}
use ntv2_gst.VideoSource.Defs.{AjaVideoSrc}
use ntv2_gst.Elements.{Shared}

-- What `gst_query_set_latency` is told.
pub record Latency : Type 0 where
  pub live : Bool
  pub min : ℕ
  pub max : ℕ

pub data QueryType : Type 0 where
  query_latency query_other : QueryType

abbrev pub latency_of : (ℕ → ℕ → ℕ → ℕ) → ℕ → Mode → Latency
latency_of scale_ceil queue_size mode =
    let min = scale_ceil second mode.fps_d mode.fps_n in
    record { live = true; min = min; max = queue_size * min % 2 ^ 64 }

abbrev pub latency_if : (ℕ → ℕ → ℕ → ℕ) → ℕ → Option Mode → Bool × Option Latency
latency_if scale_ceil queue_size none = (false, none)
latency_if scale_ceil queue_size (some mode) = (true, some (latency_of scale_ceil queue_size mode))

abbrev pub latency_on : (ℕ → ℕ → ℕ → ℕ) → ℕ → Option Shared → Bool × Option Latency
latency_on scale_ceil queue_size none = (false, none)
latency_on scale_ceil queue_size (some input) = latency_if scale_ceil queue_size input.mode

-- The answer of the call, and the latency if it is set.
unfoldable pub query :
    (ℕ → ℕ → ℕ → ℕ) → Bool → ℕ → Option Shared → QueryType → Bool × Option Latency
query scale_ceil parent queue_size input query_latency = latency_on scale_ceil queue_size input
query scale_ceil parent queue_size input query_other = (parent, none)

-- Caps that pass a filter, if there is one; the filter's order comes first.
abbrev pub filtered : {C : Type 0} → (C → C → C) → Option C → C → C
filtered intersect_first none caps = caps
filtered intersect_first (some filter) caps = intersect_first filter caps

-- None where the mode is none of the table.
unfoldable pub video_get_caps : (Caps → Caps → Caps) → AjaVideoSrc → Option Caps → Option Caps
video_get_caps intersect_first src filter =
    elim (get_caps_raw src.mode_enum src.settings.use_nvmm) [
      | none ↦ none
      | some caps ↦ some (filtered intersect_first filter caps)
    ]

-- For the caps of interleaved 32-bit samples of a rate and a number of channels.
unfoldable pub audio_get_caps : {C : Type 0} → (ℕ → ℕ → C) → (C → C → C) → ℕ → Option C → C
audio_get_caps caps_of intersect_first channels filter =
    filtered intersect_first filter (caps_of 48_000 channels)
