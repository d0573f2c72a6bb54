-- ===== src/Audio/Receive.antt =====
-- `gst_aja_audio_src_got_packet` of
-- gst-plugin/aja/gstajaaudiosrc.cpp. Each call runs between two lock operations, and is one step here.
pub mod Oldest
use ntv2_gst.Prelude.{
  ℕ, zero, suc, ◌+◌, ◌-◌, ◌*◌, ◌%◌, ◌^◌, Bool, true, false, not, ◌&&◌, ◌||◌, ◌==◌, ltb, leb,
  if◌then◌else◌, Option, none, some, List, [], ◌∷◌, ◌++◌, length,
}
use ntv2_gst.Capture.Worker.{AudioBuff, u32, u64}
use ntv2_gst.Audio.Defs.{Packet, VideoSrc, Input, AudioSrc, ClockMath, clock_time_none, second}

-- What a step leaves: the element, the input, and the buffers that it has given back.
pub record Received : Type 0 where
  pub src : AudioSrc
  pub input : Input
  pub released : List AudioBuff

-- The loop over the oldest packets, with its variables.
pub record Dropping : Type 0 where
  pub queue : List Packet
  pub skipped_frames : ℕ
  pub skip_from : ℕ
  pub skip_to : ℕ
  pub released : List AudioBuff

abbrev pub drop_one : ℕ → Packet → Dropping → Dropping
drop_one skipped_last f d = record d {
  skipped_frames = u32 (d.skipped_frames + 1);
  skip_from = if d.skipped_frames == 0 && skipped_last == 0 then f.capture_time else d.skip_from;
  skip_to = f.capture_time;
  released = d.released ++ f.audio_buff ∷ [];
}

-- `while (length (current_packets) >= queue_size)`. A queue size is at least 1, so that the loop ends
-- with the queue at the latest.
unfoldable pub drop_old : ℕ → ℕ → List Packet → Dropping → Dropping
drop_old queue_size skipped_last [] d = record d { queue = [] }
drop_old queue_size skipped_last (f ∷ fs) d =
    let rest = drop_old queue_size skipped_last fs (drop_one skipped_last f d) in
    if leb queue_size (length (f ∷ fs)) then rest else record d { queue = f ∷ fs }

-- The variables before the loop.
abbrev pub fresh : AudioSrc → Dropping
fresh src = record {
  queue = [];
  skipped_frames = 0;
  skip_from = src.skip_from_timestamp;
  skip_to = src.skip_to_timestamp;
  released = [];
}

-- Under the lock, not flushing: drop what is too old, account for it, and queue the new packet.
unfoldable pub enqueue : AudioSrc → Packet → AudioSrc × List AudioBuff
enqueue src f =
    let d = drop_old src.queue_size src.skipped_last src.current_packets (fresh src) in
    let skipped_before = d.skipped_frames == 0 && ltb 0 src.skipped_last in
    let b = f.audio_buff in
    (
      record src {
        current_packets =
            d.queue
            ++ (if skipped_before
                then record f { audio_buff = record b { dropped_changed = true } }
                else f)
              ∷ [];
        skipped_overall =
            if skipped_before
            then u64 (src.skipped_overall + src.skipped_last)
            else src.skipped_overall;
        skipped_last = u32 ((if skipped_before then 0 else src.skipped_last) + d.skipped_frames);
        skip_from_timestamp = d.skip_from;
        skip_to_timestamp = d.skip_to;
      },
      d.released,
    )

-- The rest of the call, for a packet with its times.
unfoldable pub receive : AudioSrc → Input → AudioBuff → ℕ → ℕ → Received
receive src input b timestamp stream_time =
    let src' = record src { had_signal = true } in
    let q = enqueue src' (record {
      audio_buff = b;
      capture_time = timestamp;
      stream_time = stream_time;
      first_buffer = not src.had_signal;
    }) in
    if src.flushing
    then record { src = src'; input = input; released = b ∷ [] }
    else record { src = q.0; input = input; released = q.1 }

module _ (m : ClockMath) where
  -- The time of a frame in the stream, from the video source's last discontinuity.
  unfoldable pub stream_time_of : Input → VideoSrc → AudioBuff → ℕ
  stream_time_of input v b = u64 (
      v.discont_time
      + m.scale (u64 (b.frame_number + 2 ^ 64 - v.discont_frame_number)) (input.fps_d * second)
          input.fps_n)

  -- Whether the frame lies in the time to skip after the start.
  unfoldable pub skips : VideoSrc → ℕ → Bool
  skips v stream_time =
      ltb 0 v.skip_first_time && ltb (u64 (stream_time + 2 ^ 64 - v.first_time)) v.skip_first_time

  -- With a video source, which the call refers to from here on. Where the code asserts that `first_time` is set,
  -- the model goes on.
  abbrev pub receive_synced : AudioSrc → Input → VideoSrc → AudioBuff → Received
  receive_synced src input v b =
      let held : VideoSrc = record v { refs = v.refs + 1 } in
      let stream_time = stream_time_of input v b in
      if skips v stream_time
      then record {
        src = record src { had_signal = true };
        input = record input { videosrc = some held };
        released = b ∷ [];
      }
      else receive src (record input { videosrc = some (record held { refs = held.refs - 1 }) }) b
          (if v.output_stream_time
            then stream_time
            else m.adjust stream_time v.current_time_mapping)
          stream_time

  abbrev pub receive_with : AudioSrc → Input → Option VideoSrc → AudioBuff → Received
  receive_with src input none b = receive src input b clock_time_none clock_time_none
  receive_with src input (some v) b = receive_synced src input v b

  unfoldable pub got_packet : AudioSrc → Input → Option AudioBuff → Received
  got_packet src input none = record {
    src = record src { had_signal = false };
    input = input;
    released = [];
  }
  got_packet src input (some b) =
      if b.have_signal
      then receive_with src input input.videosrc b
      else record { src = record src { had_signal = false }; input = input; released = b ∷ [] }
