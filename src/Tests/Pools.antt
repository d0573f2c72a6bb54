-- ===== src/Tests/Pools.antt =====
-- Runs for the buffer pools.
use ntv2_gst.Prelude.{
  ap, if◌then◌else◌, ◌-◌, ◌≡◌, refl, true, false, not, none, some, List, [], ◌∷◌,
}
use ntv2_gst.Pool.{Buffer, BufferPool, Gst, full_size, reset_buffer, release_buffer}
use ntv2_gst.Pool.Recycle.{IsGst, IsRecycled, release_buffer-IsRecycled}
use ntv2_gst.Pool.Typed.{Event, acquires, gives_back, All, HasData, life, life-HasData}

abbrev test_pool : BufferPool
test_pool = record { is_video = true; size = 1000 }

abbrev test_gst : Gst
test_gst = record {
  resize = λ back n b. record b { size = n; offset = b.offset - back; tag_memory = true };
  reset = λ b. record b { size = if b.tag_memory then b.size else 1000 };
  keeps = λ b. not b.tag_memory;
}

test_gst-IsGst : IsGst test_gst test_pool
test_gst-IsGst = record {
  resize_size = λ b n one fits. (refl, one);
  resize_qdata = λ b back n. (refl, refl);
  reset_size = λ b h e. ap (λ t. if t then b.size else 1000) h;
  reset_tag = λ b. refl;
  reset_qdata = λ b. (refl, refl);
  keeps_untagged = λ b. refl;
}

abbrev test_buffer : Buffer
test_buffer = record {
  address = 7;
  size = 1000;
  offset = 0;
  maxsize = 1000;
  n_memory = 1;
  tag_memory = false;
  video_qdata = none;
  audio_qdata = none;
}

-- A buffer with data that the capture loop has made smaller.
abbrev small_buffer : Buffer
small_buffer = record test_buffer {
  size = 800;
  tag_memory = true;
  video_qdata = some (record {
    buffer = 7;
    video_buffer = none;
    video_buffer_size = 1000;
    video_data_size = 800;
    is_nvmm = false;
  });
}

release_buffer-IsRecycled_example :
    IsRecycled test_pool small_buffer
      (release_buffer test_gst (reset_buffer test_gst test_pool small_buffer))
release_buffer-IsRecycled_example =
    release_buffer-IsRecycled test_gst test_pool test_gst-IsGst small_buffer refl refl

-- With memory that is no larger than the buffers of the pool, it is not kept.
small_buffer-freed :
    (release_buffer test_gst (reset_buffer test_gst test_pool small_buffer)).1 ≡ false
unfolding release_buffer reset_buffer full_size
small_buffer-freed = refl

-- With larger memory it is.
large_memory-kept :
    (release_buffer test_gst
      (reset_buffer test_gst test_pool (record small_buffer { maxsize = 1001 }))).1
    ≡ true
unfolding release_buffer reset_buffer full_size
large_memory-kept = refl

abbrev test_events : List Event
test_events = acquires test_buffer ∷ gives_back small_buffer ∷ acquires test_buffer ∷ []

life-HasData_example : All (HasData test_pool) (life test_gst test_pool ([], []) test_events).1
life-HasData_example =
    life-HasData test_gst test_pool test_gst-IsGst test_events
      ((refl, refl), ((λ _. refl, λ h. absurd (cc)), ((refl, refl), tt)))
