-- ===== src/Capture/Worker/Handshake.antt =====
-- How the capture loop ends: the last-frame handshake with `Quit`.
use ntv2_gst.Prelude.{◌≡◌, refl, true, false, if◌then◌else◌, arith, List, ◌∷◌, if_rule}
use ntv2_gst.Capture.Defs.{Av}
use ntv2_gst.Capture.Worker.{
  Worker, Tick, Action, Round, round, deliver, idle, frame_waits, continues, breaks, Interference,
  interfere, nothing, begin_quit, work,
}
use ntv2_gst.Capture.Worker.History.{work_inv, after_round_rule}

-- Once the last frame is asked for, the very next round reports it on both outputs, with a frame or
-- without; the loop goes on only after a frame.
round-last_frame :
    (av : Av) (w : Worker) (t : Tick)
    → av.last_frame ≡ true
    → ((round av w t).av.last_frame_video_out ≡ true)
      × ((round av w t).av.last_frame_audio_out ≡ true)
      × ((round av w t).control ≡ (if frame_waits t then continues else breaks))
unfolding round deliver idle
round-last_frame av w t h = ground arith

-- While no last frame is asked for, a round raises none of the three flags and does not end the loop.
pub round-running :
    (av : Av) (w : Worker) (t : Tick)
    → av.last_frame ≡ false
    → ((round av w t).av ≡ av) × ((round av w t).control ≡ continues)
unfolding round deliver idle
round-running av w t h = ground arith

-- Both outputs have reported their last frame.
abbrev pub Reported : Av → Type 0
Reported av = (av.last_frame_video_out ≡ true) × (av.last_frame_audio_out ≡ true)

round-Reported : (av : Av) (w : Worker) (t : Tick) → Reported av → Reported (round av w t).av
unfolding round deliver idle
round-Reported av w t h = ground arith

interfere-Reported : (i : Interference) (av : Av) → Reported av → Reported (interfere i av)
interfere-Reported nothing av h = h
interfere-Reported _ av h = h

-- Whatever other threads do from then on, a loop that has not been told to stop, is asked for its last
-- frame and makes one more round ends with the last frame reported on both outputs.
pub work-begin_quit :
    (av : Av) (w : Worker) (t : Tick) (hist : List (Interference × Tick))
    → av.global_quit ≡ false
    → Reported (work av w ((begin_quit, t) ∷ hist)).1
unfolding work
work-begin_quit av w t hist runs =
    let asked : Av = record av { last_frame = true } in
    let r : Round = round asked w t in
    let now = round-last_frame asked w t refl in
    let reported : Reported r.av = (now.0, now.1) in
    if_rule (λ (x : List Action × Av). Reported x.1) av.global_quit _ _ (λ quits. absurd (cc))
      (λ _.
        after_round_rule Reported r.control _ _ reported
          (work_inv Reported interfere-Reported round-Reported r.av r.worker hist reported))
