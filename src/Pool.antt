-- ===== src/Pool.antt =====
-- `GstAjaBufferPool` and `GstAjaNvmmBufferPool` of gst-plugin/aja/gstaja.cpp, and the calls of
-- gst-plugin/aja/gstntv2.cpp that take buffers from them. What `GstBufferPool` does in the functions that the
-- pools call of their parent, and `gst_buffer_resize`, are parameters. The memory of the device that the NVMM pool
-- makes known to CUDA is left out.
pub mod Recycle
pub mod Typed
use ntv2_gst.Prelude.{ℕ, Bool, true, false, not, ◌&&◌, ◌==◌, if◌then◌else◌, Option, none, some, ltb}

-- `AjaVideoBuff` and `AjaAudioBuff` as a pool makes them; a buffer is known by its address.
pub record VideoQdata : Type 0 where
  pub buffer : ℕ
  pub video_buffer : Option ℕ
  pub video_buffer_size : ℕ
  pub video_data_size : ℕ
  pub is_nvmm : Bool

pub record AudioQdata : Type 0 where
  pub buffer : ℕ
  pub audio_buffer : Option ℕ
  pub audio_buffer_size : ℕ
  pub audio_data_size : ℕ

-- What the pools read and write of a `GstBuffer`: its sizes as `gst_buffer_get_sizes` tells them, the number of
-- its memories, the flag GST_BUFFER_FLAG_TAG_MEMORY, and the data under the two quarks.
pub record Buffer : Type 0 where
  pub address : ℕ
  pub size : ℕ
  pub offset : ℕ
  pub maxsize : ℕ
  pub n_memory : ℕ
  pub tag_memory : Bool
  pub video_qdata : Option VideoQdata
  pub audio_qdata : Option AudioQdata

pub record BufferPool : Type 0 where
  pub is_video : Bool
  pub size : ℕ

-- The entries of a configuration that are read.
pub record Config : Type 0 where
  pub is_video : Option Bool
  pub size : Option ℕ

-- A GstFlowReturn but GST_FLOW_OK is a number.
pub data Allocated : Type 0 where
  flow_ok : Buffer → Allocated
  flow_failed : ℕ → Allocated

-- Of GStreamer: `resize back n` is `gst_buffer_resize` by -back to the size n, `reset` the parent's
-- `reset_buffer`, and `keeps` whether the parent's `release_buffer` puts the buffer back into the pool.
pub record Gst : Type 0 where
  pub resize : ℕ → ℕ → Buffer → Buffer
  pub reset : Buffer → Buffer
  pub keeps : Buffer → Bool

abbrev read_size : Option ℕ → BufferPool → BufferPool × Bool
read_size none pool = (pool, false)
read_size (some n) pool = (record pool { size = n }, true)

abbrev read_is_video : Option Bool → Option ℕ → BufferPool → BufferPool × Bool
read_is_video none n pool = (pool, false)
read_is_video (some v) n pool = read_size n (record pool { is_video = v })

-- For whether the parent takes the configuration.
unfoldable pub set_config : Bool → Config → BufferPool → BufferPool × Bool
set_config parent_takes config pool =
    if parent_takes then read_is_video config.is_video config.size pool else (pool, false)

abbrev pub new_audio_buff : ℕ → AudioQdata
new_audio_buff address = record {
  buffer = address;
  audio_buffer = none;
  audio_buffer_size = 0;
  audio_data_size = 0;
}

abbrev pub new_video_buff : Bool → ℕ → VideoQdata
new_video_buff nvmm address = record {
  buffer = address;
  video_buffer = none;
  video_buffer_size = 0;
  video_data_size = 0;
  is_nvmm = nvmm;
}

-- For what the parent's `alloc_buffer` answers.
unfoldable pub alloc_buffer : BufferPool → Allocated → Allocated
alloc_buffer pool (flow_failed ret) = flow_failed ret
alloc_buffer pool (flow_ok b) = flow_ok (
    if not pool.is_video
    then record b { audio_qdata = some (new_audio_buff b.address) }
    else record b { video_qdata = some (new_video_buff false b.address) })

abbrev pub nvmm_alloc_buffer : Allocated → Allocated
nvmm_alloc_buffer (flow_failed ret) = flow_failed ret
nvmm_alloc_buffer (flow_ok b) =
    flow_ok (record b { video_qdata = some (new_video_buff true b.address) })

-- Whether a buffer that was made smaller is made as large again, which only larger memory allows.
abbrev pub grows : BufferPool → Buffer → Bool
grows pool b = not (b.size == pool.size) && ltb pool.size b.maxsize

unfoldable pub full_size : Gst → BufferPool → Buffer → Buffer
full_size g pool b = if grows pool b then g.resize b.offset pool.size b else b

unfoldable pub reset_buffer : Gst → BufferPool → Buffer → Buffer
reset_buffer g pool b =
    let size = if grows pool b then pool.size else b.size in
    let b' = full_size g pool b in
    g.reset (if size == pool.size && b'.n_memory == 1 then record b' { tag_memory = false } else b')

abbrev pub has_video : Buffer → Bool
has_video b = elim b.video_qdata [ none ↦ false | some _ ↦ true ]

abbrev pub has_audio : Buffer → Bool
has_audio b = elim b.audio_qdata [ none ↦ false | some _ ↦ true ]

-- The buffer that is handed to the parent, and whether the parent puts it back.
unfoldable pub release_buffer : Gst → Buffer → Buffer × Bool
release_buffer g b =
    let b' = if not (has_audio b) && not (has_video b) then record b { tag_memory = true } else b in
    (b', g.keeps b')

abbrev pub nvmm_release_buffer : Gst → Buffer → Buffer × Bool
nvmm_release_buffer g b =
    let b' = if not (has_video b) then record b { tag_memory = true } else b in (b', g.keeps b')

-- `AcquireVideoBuffer` and `AcquireAudioBuffer`, for what `gst_buffer_pool_acquire_buffer` answers; none is NULL.
unfoldable pub acquire_video_buffer : Allocated → Option VideoQdata
acquire_video_buffer (flow_failed ret) = none
acquire_video_buffer (flow_ok b) = b.video_qdata

unfoldable pub acquire_audio_buffer : Allocated → Option AudioQdata
acquire_audio_buffer (flow_failed ret) = none
acquire_audio_buffer (flow_ok b) = b.audio_qdata
