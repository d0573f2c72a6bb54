-- ===== src/Capture/Lifecycle.antt =====
-- `Open`, `Close`, `Quit`, `StopACThread`, `FreeHostBuffers` and `Run` of gst-plugin/aja/gstntv2.cpp, with
-- `SetupAutoCirculate`, `SetupHostBuffers` and `StartACThread`. The sizes of the buffers in the pools, and the
-- transfer structure that is cleared, are left
-- out. What is done
-- to the device and the system is a list of effects; the wait for the thread to end, in StopACThread, is
-- one of them.
pub mod Quitting
pub mod Threads
use ntv2_gst.Prelude.{
  ℕ, zero, suc, ◌+◌, ◌*◌, Bool, true, false, not, ◌&&◌, ◌==◌, if◌then◌else◌, List, [], ◌∷◌, ◌++◌,
  replicate,
}
use ntv2_gst.Video.Format.{VideoFormat}
use ntv2_gst.Capture.Defs.{Av, Status, success, open_failed}

pub data Effect : Type 0 where
  find_device set_every_frame_services set_multi_format : Effect
  sleep timeout_error join_thread : Effect
  free_video_pool free_audio_pool start_thread new_audio_pool lock_dma_buffers : Effect
  new_video_pool : Bool → Effect  -- of NVMM memory or not
  auto_circulate_stop : ℕ → Effect
  auto_circulate_init : ℕ → ℕ → ℕ × ℕ → Effect  -- channel, audio system, first and last frame
  disable : ℕ → Effect  -- SetMode (channel, NTV2_MODE_DISPLAY, false)

-- `found` is what `GetFirstDeviceFromArgument` answers.
unfoldable pub open_device : Bool → Av → (Av × Status) × List Effect
open_device found av =
    if av.is_open
    then ((av, success), [])
    else if found
    then (
      (record av { is_open = true }, success),
      find_device ∷ set_every_frame_services ∷ set_multi_format ∷ [],
    )
    else ((av, open_failed), find_device ∷ [])

abbrev pub close_device : Av → Av × Status
close_device av = (record av { is_open = false }, success)

-- The loop of `Quit`: `left` polls from the one numbered `i` on, by whether both outputs have reported at
-- each; it gives the value of `i` behind the loop.
unfoldable pub wait_last_frame : (ℕ → Bool) → ℕ → ℕ → ℕ
wait_last_frame reported zero i = i
wait_last_frame reported (suc left) i =
    let rest = wait_last_frame reported left (i + 1) in if reported i then i else rest

abbrev pub timeout : ℕ
timeout = 300

abbrev pub stop_ac_thread : Av → Av × List Effect
stop_ac_thread av =
    if av.ac_thread then (record av { ac_thread = false }, join_thread ∷ []) else (av, [])

abbrev pub free_host_buffers : Av → Av × List Effect
free_host_buffers av = (
  record av { video_pool = false; audio_pool = false },
  (if av.video_pool then free_video_pool ∷ [] else [])
      ++ (if av.audio_pool then free_audio_pool ∷ [] else []),
)

abbrev pub stop_capture : Av → List Effect
stop_capture av =
    disable av.input_channel
    ∷ (if av.quad
        then disable (av.input_channel + 1)
          ∷ disable (av.input_channel + 2)
          ∷ disable (av.input_channel + 3)
          ∷ []
        else [])

-- The first part of `Quit`: the wait for the last frame.
abbrev pub ask_last_frame : (ℕ → Bool) → Av → Av × List Effect
ask_last_frame reported av =
    let i = wait_last_frame reported timeout 0 in
    if not av.last_frame && not av.global_quit
    then (
      record av { last_frame = true },
      replicate i sleep ++ (if i == timeout then timeout_error ∷ [] else []),
    )
    else (av, [])

unfoldable pub quit : (ℕ → Bool) → Av → Av × List Effect
quit reported av =
    let asked = ask_last_frame reported av in
    let told : Av = record (asked.0) { global_quit = true; started = false } in
    let stopped = stop_ac_thread told in
    let freed = free_host_buffers stopped.0 in
    (freed.0, asked.1 ++ (stopped.1 ++ (freed.1 ++ stop_capture freed.0)))

-- The frames on the device for a channel. `is_large` is the test for the 12G, quad and quad-quad formats of
-- the SDK.
abbrev pub frame_range : Bool → ℕ → ℕ × ℕ
frame_range is_large channel =
    if is_large then (channel * 15, channel * 15 + 14) else (channel * 7, channel * 7 + 6)

abbrev pub setup_auto_circulate : (VideoFormat → Bool) → Av → List Effect
setup_auto_circulate is_large av =
    auto_circulate_stop av.input_channel
    ∷ auto_circulate_init av.input_channel av.audio_system
        (frame_range (is_large av.video_format) av.input_channel)
    ∷ []

abbrev pub setup_host_buffers : Bool → Av → Av × List Effect
setup_host_buffers nvmm_enabled av = (
  record av { video_pool = true; audio_pool = true },
  lock_dma_buffers ∷ new_video_pool (nvmm_enabled && av.use_nvmm) ∷ new_audio_pool ∷ [],
)

abbrev pub start_ac_thread : Av → Av × List Effect
start_ac_thread av = (record av { ac_thread = true }, start_thread ∷ [])

-- `Run` always succeeds.
unfoldable pub run : Bool → (VideoFormat → Bool) → Av → Av × List Effect
run nvmm_enabled is_large av =
    let fresh : Av = record av {
      last_frame = false;
      last_frame_input = false;
      last_frame_video_out = false;
      last_frame_audio_out = false;
      global_quit = false;
    } in
    let buffers = setup_host_buffers nvmm_enabled fresh in
    let thread = start_ac_thread buffers.0 in
    (
      record (thread.0) { started = true },
      setup_auto_circulate is_large fresh ++ (buffers.1 ++ thread.1),
    )
