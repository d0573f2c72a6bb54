-- ===== src/Capture/Worker/History.antt =====
-- The invariant rule of the capture loop.
use ntv2_gst.Prelude.{List, [], ◌∷◌, if_rule}
use ntv2_gst.Capture.Defs.{Av}
use ntv2_gst.Capture.Worker.{
  Worker, Tick, Action, Round, round, Control, continues, breaks, Interference, interfere, work,
  after_round,
}

pub after_round_rule :
    (P : Av → Type 0) (c : Control) (here rest : List Action × Av)
    → P here.1
    → P rest.1
    → P (after_round c here rest).1
after_round_rule P continues here rest h k = k
after_round_rule P breaks here rest h k = h

-- What each interference and each round keeps holds at the end of the loop.
pub work_inv :
    (P : Av → Type 0)
    → ((i : Interference) (av : Av) → P av → P (interfere i av))
    → ((av : Av) (w : Worker) (t : Tick) → P av → P (round av w t).av)
    → (av : Av) (w : Worker) (hist : List (Interference × Tick)) → P av
    → P (work av w hist).1
unfolding work
work_inv P outer inner av w [] h = h
work_inv P outer inner av w ((i, t) ∷ rest) h =
    let av' : Av = interfere i av in
    let r : Round = round av' w t in
    let kept : P r.av = inner av' w t (outer i av h) in
    if_rule (λ (x : List Action × Av). P x.1) av'.global_quit _ _ (λ _. outer i av h)
      (λ _. after_round_rule P r.control _ _ kept (work_inv P outer inner r.av r.worker rest kept))
