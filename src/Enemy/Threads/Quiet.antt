-- ===== src/Enemy/Threads/Quiet.antt =====
-- Who is at work when: outside its place in the controller's round no helper of P2 works.
use pacman_posix.Prelude.{
  ℕ, ◌<◌, ◌≤◌, ◌≡◌, sym, List, ltb, ◌==◌, update, if◌then◌else◌, arith, Bool-cases, inl, inr,
}
use pacman_posix.Common.{ghost_count}
use pacman_posix.Enemy.{EnemyInstruction, EnemyContext}
use pacman_posix.Enemy.Helpers.{GhostPlace, Helper}
use pacman_posix.Enemy.Threads.{
  ControllerPlace, posting_turns, awaiting_ghosts, awaiting_tracker, awaiting_collision,
  EnemyProcess, start_process, ControllerStep, Step,
}
use pacman_posix.Enemy.Threads.Loads.{
  one_if, ghost_wakes, ghost_works, tracker_wakes, tracker_works, detector_wakes, detector_works,
  is_closed, load, GhostStep-IsLess, TrackerStep-IsLess, DetectorStep-IsLess,
}

-- The requests to ghost `j` that the controller waits for.
abbrev pub allowed_ghost : ControllerPlace → ℕ → ℕ
allowed_ghost (posting_turns k) j = if ltb j k then 1 else 0
allowed_ghost (awaiting_ghosts k) j = if ltb j k then 0 else 1
allowed_ghost _ j = 0

abbrev pub allowed_tracker : ControllerPlace → ℕ
allowed_tracker awaiting_tracker = 1
allowed_tracker _ = 0

abbrev pub allowed_detector : ControllerPlace → ℕ
allowed_detector awaiting_collision = 1
allowed_detector _ = 0

abbrev pub ghost_load : ControllerPlace → Helper GhostPlace → ℕ
ghost_load c h = load ghost_wakes ghost_works (is_closed c) h

abbrev pub GhostsFit : ControllerPlace → (ℕ → Helper GhostPlace) → Type 0
GhostsFit c ghosts = (j : ℕ) → j < ghost_count → ghost_load c (ghosts j) ≤ allowed_ghost c j

abbrev pub TrackerFits : EnemyProcess → Type 0
TrackerFits s =
    load tracker_wakes tracker_works (is_closed s.controller_at) s.tracker
    ≤ allowed_tracker s.controller_at

abbrev pub DetectorFits : EnemyProcess → Type 0
DetectorFits s =
    load detector_wakes detector_works (is_closed s.controller_at) s.detector
    ≤ allowed_detector s.controller_at

abbrev pub StopFits : EnemyProcess → Type 0
StopFits s = one_if (is_closed s.controller_at) ≤ one_if s.should_stop

-- Nobody works, or is about to, but whom the controller waits for.
pub record IsQuiet (s : EnemyProcess) : Type 0 where
  pub ghosts_fit : GhostsFit s.controller_at s.ghosts
  pub tracker_fits : TrackerFits s
  pub detector_fits : DetectorFits s
  pub stop_fits : StopFits s

ControllerStep-GhostsFit :
    {s t : EnemyProcess}
    → ControllerStep s t
    → GhostsFit s.controller_at s.ghosts
    → GhostsFit t.controller_at t.ghosts
ControllerStep-GhostsFit (ControllerStep.takes_turn s n e p) h j few =
    let l = h j few in ground arith
ControllerStep-GhostsFit (ControllerStep.checks s e) h j few = let l = h j few in ground arith
ControllerStep-GhostsFit (ControllerStep.cannot_check s e) h j few = let l = h j few in ground arith
ControllerStep-GhostsFit (ControllerStep.posts_turn s k e) h j few = let l = h j few in ground arith
ControllerStep-GhostsFit (ControllerStep.hears_ghost s k n e d) h j few =
    let l = h j few in ground arith
ControllerStep-GhostsFit (ControllerStep.posts_tracker s e) h j few =
    let l = h j few in ground arith
ControllerStep-GhostsFit (ControllerStep.hears_tracker s n e d) h j few =
    let l = h j few in ground arith
ControllerStep-GhostsFit (ControllerStep.posts_collision s e) h j few =
    let l = h j few in ground arith
ControllerStep-GhostsFit (ControllerStep.hears_collision s n e d) h j few =
    let l = h j few in ground arith
ControllerStep-GhostsFit (ControllerStep.posts_done s e) h j few = let l = h j few in ground arith
ControllerStep-GhostsFit (ControllerStep.stops s e) h j few = let l = h j few in ground arith
ControllerStep-GhostsFit (ControllerStep.closes_ghost s k e) h j few =
    let l = h j few in ground arith
ControllerStep-GhostsFit (ControllerStep.closes_tracker s e) h j few =
    let l = h j few in ground arith
ControllerStep-GhostsFit (ControllerStep.closes_collision s e) h j few =
    let l = h j few in ground arith

ControllerStep-TrackerFits :
    {s t : EnemyProcess} → ControllerStep s t → TrackerFits s → TrackerFits t
ControllerStep-TrackerFits (ControllerStep.takes_turn s n e p) h = ground arith
ControllerStep-TrackerFits (ControllerStep.checks s e) h = ground arith
ControllerStep-TrackerFits (ControllerStep.cannot_check s e) h = ground arith
ControllerStep-TrackerFits (ControllerStep.posts_turn s k e) h = ground arith
ControllerStep-TrackerFits (ControllerStep.hears_ghost s k n e d) h = ground arith
ControllerStep-TrackerFits (ControllerStep.posts_tracker s e) h = ground arith
ControllerStep-TrackerFits (ControllerStep.hears_tracker s n e d) h = ground arith
ControllerStep-TrackerFits (ControllerStep.posts_collision s e) h = ground arith
ControllerStep-TrackerFits (ControllerStep.hears_collision s n e d) h = ground arith
ControllerStep-TrackerFits (ControllerStep.posts_done s e) h = ground arith
ControllerStep-TrackerFits (ControllerStep.stops s e) h = ground arith
ControllerStep-TrackerFits (ControllerStep.closes_ghost s k e) h = ground arith
ControllerStep-TrackerFits (ControllerStep.closes_tracker s e) h = ground arith
ControllerStep-TrackerFits (ControllerStep.closes_collision s e) h = ground arith

ControllerStep-DetectorFits :
    {s t : EnemyProcess} → ControllerStep s t → DetectorFits s → DetectorFits t
ControllerStep-DetectorFits (ControllerStep.takes_turn s n e p) h = ground arith
ControllerStep-DetectorFits (ControllerStep.checks s e) h = ground arith
ControllerStep-DetectorFits (ControllerStep.cannot_check s e) h = ground arith
ControllerStep-DetectorFits (ControllerStep.posts_turn s k e) h = ground arith
ControllerStep-DetectorFits (ControllerStep.hears_ghost s k n e d) h = ground arith
ControllerStep-DetectorFits (ControllerStep.posts_tracker s e) h = ground arith
ControllerStep-DetectorFits (ControllerStep.hears_tracker s n e d) h = ground arith
ControllerStep-DetectorFits (ControllerStep.posts_collision s e) h = ground arith
ControllerStep-DetectorFits (ControllerStep.hears_collision s n e d) h = ground arith
ControllerStep-DetectorFits (ControllerStep.posts_done s e) h = ground arith
ControllerStep-DetectorFits (ControllerStep.stops s e) h = ground arith
ControllerStep-DetectorFits (ControllerStep.closes_ghost s k e) h = ground arith
ControllerStep-DetectorFits (ControllerStep.closes_tracker s e) h = ground arith
ControllerStep-DetectorFits (ControllerStep.closes_collision s e) h = ground arith

ControllerStep-StopFits : {s t : EnemyProcess} → ControllerStep s t → StopFits s → StopFits t
ControllerStep-StopFits (ControllerStep.takes_turn s n e p) h = ground arith
ControllerStep-StopFits (ControllerStep.checks s e) h = ground arith
ControllerStep-StopFits (ControllerStep.cannot_check s e) h = ground arith
ControllerStep-StopFits (ControllerStep.posts_turn s k e) h = ground arith
ControllerStep-StopFits (ControllerStep.hears_ghost s k n e d) h = ground arith
ControllerStep-StopFits (ControllerStep.posts_tracker s e) h = ground arith
ControllerStep-StopFits (ControllerStep.hears_tracker s n e d) h = ground arith
ControllerStep-StopFits (ControllerStep.posts_collision s e) h = ground arith
ControllerStep-StopFits (ControllerStep.hears_collision s n e d) h = ground arith
ControllerStep-StopFits (ControllerStep.posts_done s e) h = ground arith
ControllerStep-StopFits (ControllerStep.stops s e) h = ground arith
ControllerStep-StopFits (ControllerStep.closes_ghost s k e) h = ground arith
ControllerStep-StopFits (ControllerStep.closes_tracker s e) h = ground arith
ControllerStep-StopFits (ControllerStep.closes_collision s e) h = ground arith

update-GhostsFit :
    (c : ControllerPlace) (ghosts : ℕ → Helper GhostPlace) (k : ℕ) (g : Helper GhostPlace)
    → ghost_load c g ≤ ghost_load c (ghosts k)
    → GhostsFit c ghosts
    → GhostsFit c (update ghosts k g)
update-GhostsFit c ghosts k g less h j few = elim (Bool-cases (k == j)) [
  | inl e ↦
      let same : k ≡ j = ground arith in let l = h k (rw same few) in rw (e, sym same) (omega arith)
  | inr e ↦ rw e (h j few)
]

pub Step-IsQuiet : {s t : EnemyProcess} → Step s t → IsQuiet s → IsQuiet t
Step-IsQuiet (Step.controller c) h = record {
  ghosts_fit = ControllerStep-GhostsFit c h.ghosts_fit;
  tracker_fits = ControllerStep-TrackerFits c h.tracker_fits;
  detector_fits = ControllerStep-DetectorFits c h.detector_fits;
  stop_fits = ControllerStep-StopFits c h.stop_fits;
}
Step-IsQuiet (Step.ghost s g is v few step) h =
    let l = GhostStep-IsLess (is_closed s.controller_at) step h.stop_fits in
    record {
      ghosts_fit = update-GhostsFit s.controller_at s.ghosts g v.helper l.0 h.ghosts_fit;
      tracker_fits = h.tracker_fits;
      detector_fits = h.detector_fits;
      stop_fits = omega (arith, l.1, h.stop_fits);
    }
Step-IsQuiet (Step.tracker s v step) h =
    let l = TrackerStep-IsLess (is_closed s.controller_at) step h.stop_fits in
    record {
      ghosts_fit = h.ghosts_fit;
      tracker_fits = omega (arith, l.0, h.tracker_fits);
      detector_fits = h.detector_fits;
      stop_fits = omega (arith, l.1, h.stop_fits);
    }
Step-IsQuiet (Step.detector s v step) h =
    let l = DetectorStep-IsLess (is_closed s.controller_at) step h.stop_fits in
    record {
      ghosts_fit = h.ghosts_fit;
      tracker_fits = h.tracker_fits;
      detector_fits = omega (arith, l.0, h.detector_fits);
      stop_fits = omega (arith, l.1, h.stop_fits);
    }
Step-IsQuiet (Step.turn_given s) h = record {
  ghosts_fit = h.ghosts_fit;
  tracker_fits = h.tracker_fits;
  detector_fits = h.detector_fits;
  stop_fits = h.stop_fits;
}
Step-IsQuiet (Step.turn_confirmed s n e) h = record {
  ghosts_fit = h.ghosts_fit;
  tracker_fits = h.tracker_fits;
  detector_fits = h.detector_fits;
  stop_fits = h.stop_fits;
}
Step-IsQuiet (Step.others_write s shared) h = record {
  ghosts_fit = h.ghosts_fit;
  tracker_fits = h.tracker_fits;
  detector_fits = h.detector_fits;
  stop_fits = h.stop_fits;
}

pub start-IsQuiet :
    (context : EnemyContext) (files : ℕ → List EnemyInstruction)
    → IsQuiet (start_process context files)
unfolding start_process
start-IsQuiet context files = record {
  ghosts_fit = λ j few. omega arith;
  tracker_fits = omega arith;
  detector_fits = omega arith;
  stop_fits = omega arith;
}
