-- ===== src/Capture/Worker/Drops.antt =====
-- The dropped frames that the capture loop reports, against the driver's true count.
use ntv2_gst.Prelude.{ℕ, ◌+◌, ◌-◌, ◌/◌, ◌^◌, ◌≤◌, ◌<◌, ◌≡◌, true, ◌==◌, if◌then◌else◌, arith}
use ntv2_gst.Capture.Worker.{Worker, count_drops, u32}

-- The driver counts in 32 bits. When the worker has seen its true count at `d` and now sees it at `d'`,
-- which is not less and less than 2 ^ 32 more, the worker's sum grows by the difference, if that fits 64
-- bits, except that it loses one frame when the counter wraps; the worker flags a drop exactly if there
-- was one or one was flagged before.
pub count_drops_lem :
    (w : Worker) (d d' : ℕ)
    → w.last_dropped_frames ≡ u32 d
    → d ≤ d'
    → d' - d < 2 ^ 32
    → w.dropped_frames + (d' - d) < 2 ^ 64
    → ((count_drops (u32 d') w).dropped_frames + (d' / 2 ^ 32 - d / 2 ^ 32)
        ≡ w.dropped_frames + (d' - d))
      × ((count_drops (u32 d') w).last_dropped_frames ≡ u32 d')
      × ((count_drops (u32 d') w).dropped_frames_now
          ≡ (if d == d' then w.dropped_frames_now else true))
unfolding count_drops
count_drops_lem w d d' last le step fits = ground arith
