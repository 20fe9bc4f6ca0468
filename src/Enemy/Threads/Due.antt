-- ===== src/Enemy/Threads/Due.antt =====
-- What the controller waits for is under way, unless the helper has given up.
use pacman_posix.Prelude.{
  ℕ, ◌+◌, ◌<◌, ◌≤◌, ◌≡◌, refl, sym, Bool, true, false, List, ltb, ◌==◌, update, Bool-cases, inl,
  inr, arith,
}
use pacman_posix.Common.{ghost_count}
use pacman_posix.Enemy.{EnemyInstruction, EnemyContext}
use pacman_posix.Enemy.Helpers.{
  GhostPlace, failing, ghost_ended, TrackerPlace, track_failing, tracker_ended, DetectorPlace,
  detect_failing, detector_ended, Helper, View, GhostStep, TrackerStep, DetectorStep,
}
use pacman_posix.Enemy.Threads.{
  ControllerPlace, awaiting_ghosts, EnemyProcess, start_process, ControllerStep, Step, Reaches,
}
use pacman_posix.Enemy.Threads.Loads.{
  ghost_wakes, ghost_works, tracker_wakes, tracker_works, detector_wakes, detector_works, load,
}
use pacman_posix.Enemy.Threads.Quiet.{allowed_ghost, allowed_tracker, allowed_detector}

-- 1 for a thread that has given up.
abbrev pub ghost_gone : GhostPlace → ℕ
ghost_gone failing = 1
ghost_gone ghost_ended = 1
ghost_gone _ = 0

abbrev pub tracker_gone : TrackerPlace → ℕ
tracker_gone track_failing = 1
tracker_gone tracker_ended = 1
tracker_gone _ = 0

abbrev pub detector_gone : DetectorPlace → ℕ
detector_gone detect_failing = 1
detector_gone detector_ended = 1
detector_gone _ = 0

abbrev pub ghost_due : Helper GhostPlace → ℕ
ghost_due h = load ghost_wakes ghost_works false h + ghost_gone h.place

abbrev pub tracker_due : Helper TrackerPlace → ℕ
tracker_due h = load tracker_wakes tracker_works false h + tracker_gone h.place

abbrev pub detector_due : Helper DetectorPlace → ℕ
detector_due h = load detector_wakes detector_works false h + detector_gone h.place

GhostStep-due :
    {g : ℕ} {is js : List EnemyInstruction} {v w : View GhostPlace}
    → GhostStep g is js v w
    → ghost_due v.helper ≤ ghost_due w.helper
GhostStep-due (GhostStep.loads is v e) = ground arith
GhostStep-due (GhostStep.cannot_load is js v e) = ground arith
GhostStep-due (GhostStep.asks_stop is v e) = ground arith
GhostStep-due (GhostStep.takes_turn is v n e r) = ground arith
GhostStep-due (GhostStep.checks is v e) = ground arith
GhostStep-due (GhostStep.cannot_check is v e) = ground arith
GhostStep-due (GhostStep.pops i is v e) = ground arith
GhostStep-due (GhostStep.pops_none v e) = ground arith
GhostStep-due (GhostStep.processes i is v e) = ground arith
GhostStep-due (GhostStep.reports is v e) = ground arith
GhostStep-due (GhostStep.fails is v e) = ground arith
GhostStep-due (GhostStep.gives_up is v e) = ground arith

TrackerStep-due :
    {v w : View TrackerPlace} → TrackerStep v w → tracker_due v.helper ≤ tracker_due w.helper
TrackerStep-due (TrackerStep.takes_turn v n e r) = ground arith
TrackerStep-due (TrackerStep.checks v e) = ground arith
TrackerStep-due (TrackerStep.cannot_check v e) = ground arith
TrackerStep-due (TrackerStep.reads v e) = ground arith
TrackerStep-due (TrackerStep.writes v x y e) = ground arith
TrackerStep-due (TrackerStep.reports v e) = ground arith
TrackerStep-due (TrackerStep.fails v e) = ground arith
TrackerStep-due (TrackerStep.gives_up v e) = ground arith

DetectorStep-due :
    {v w : View DetectorPlace} → DetectorStep v w → detector_due v.helper ≤ detector_due w.helper
DetectorStep-due (DetectorStep.takes_turn v n e r) = ground arith
DetectorStep-due (DetectorStep.checks v e) = ground arith
DetectorStep-due (DetectorStep.cannot_check v e) = ground arith
DetectorStep-due (DetectorStep.reads_pacman v e) = ground arith
DetectorStep-due (DetectorStep.reads_ghosts v p e) = ground arith
DetectorStep-due (DetectorStep.reads_tick v p g e) = ground arith
DetectorStep-due (DetectorStep.publishes v i t e) = ground arith
DetectorStep-due (DetectorStep.reports v e) = ground arith
DetectorStep-due (DetectorStep.fails v e) = ground arith
DetectorStep-due (DetectorStep.gives_up v e) = ground arith

abbrev pub is_ghost_awaited : ControllerPlace → Bool
is_ghost_awaited (awaiting_ghosts k) = ltb k ghost_count
is_ghost_awaited _ = true

abbrev GhostsDue : ControllerPlace → (ℕ → Helper GhostPlace) → Type 0
GhostsDue c ghosts = (j : ℕ) → j < ghost_count → allowed_ghost c j ≤ ghost_due (ghosts j)

pub record IsDue (s : EnemyProcess) : Type 0 where
  pub ghosts_due : GhostsDue s.controller_at s.ghosts
  pub tracker_is_due : allowed_tracker s.controller_at ≤ tracker_due s.tracker
  pub detector_is_due : allowed_detector s.controller_at ≤ detector_due s.detector
  pub in_range : is_ghost_awaited s.controller_at ≡ true

ControllerStep-IsDue : {s t : EnemyProcess} → ControllerStep s t → IsDue s → IsDue t
ControllerStep-IsDue (ControllerStep.takes_turn s n e p) h = record {
  ghosts_due = λ j few. let l = h.ghosts_due j few in ground arith;
  tracker_is_due = ground arith;
  detector_is_due = ground arith;
  in_range = ground arith;
}
ControllerStep-IsDue (ControllerStep.checks s e) h = record {
  ghosts_due = λ j few. let l = h.ghosts_due j few in ground arith;
  tracker_is_due = ground arith;
  detector_is_due = ground arith;
  in_range = ground arith;
}
ControllerStep-IsDue (ControllerStep.cannot_check s e) h = record {
  ghosts_due = λ j few. let l = h.ghosts_due j few in ground arith;
  tracker_is_due = ground arith;
  detector_is_due = ground arith;
  in_range = ground arith;
}
ControllerStep-IsDue (ControllerStep.posts_turn s k e) h = record {
  ghosts_due = λ j few. let l = h.ghosts_due j few in ground arith;
  tracker_is_due = ground arith;
  detector_is_due = ground arith;
  in_range = ground arith;
}
ControllerStep-IsDue (ControllerStep.hears_ghost s k n e d) h = record {
  ghosts_due = λ j few. let l = h.ghosts_due j few in ground arith;
  tracker_is_due = ground arith;
  detector_is_due = ground arith;
  in_range = ground arith;
}
ControllerStep-IsDue (ControllerStep.posts_tracker s e) h = record {
  ghosts_due = λ j few. let l = h.ghosts_due j few in ground arith;
  tracker_is_due = ground arith;
  detector_is_due = ground arith;
  in_range = ground arith;
}
ControllerStep-IsDue (ControllerStep.hears_tracker s n e d) h = record {
  ghosts_due = λ j few. let l = h.ghosts_due j few in ground arith;
  tracker_is_due = ground arith;
  detector_is_due = ground arith;
  in_range = ground arith;
}
ControllerStep-IsDue (ControllerStep.posts_collision s e) h = record {
  ghosts_due = λ j few. let l = h.ghosts_due j few in ground arith;
  tracker_is_due = ground arith;
  detector_is_due = ground arith;
  in_range = ground arith;
}
ControllerStep-IsDue (ControllerStep.hears_collision s n e d) h = record {
  ghosts_due = λ j few. let l = h.ghosts_due j few in ground arith;
  tracker_is_due = ground arith;
  detector_is_due = ground arith;
  in_range = ground arith;
}
ControllerStep-IsDue (ControllerStep.posts_done s e) h = record {
  ghosts_due = λ j few. let l = h.ghosts_due j few in ground arith;
  tracker_is_due = ground arith;
  detector_is_due = ground arith;
  in_range = ground arith;
}
ControllerStep-IsDue (ControllerStep.stops s e) h = record {
  ghosts_due = λ j few. let l = h.ghosts_due j few in ground arith;
  tracker_is_due = ground arith;
  detector_is_due = ground arith;
  in_range = ground arith;
}
ControllerStep-IsDue (ControllerStep.closes_ghost s k e) h = record {
  ghosts_due = λ j few. let l = h.ghosts_due j few in ground arith;
  tracker_is_due = ground arith;
  detector_is_due = ground arith;
  in_range = ground arith;
}
ControllerStep-IsDue (ControllerStep.closes_tracker s e) h = record {
  ghosts_due = λ j few. let l = h.ghosts_due j few in ground arith;
  tracker_is_due = ground arith;
  detector_is_due = ground arith;
  in_range = ground arith;
}
ControllerStep-IsDue (ControllerStep.closes_collision s e) h = record {
  ghosts_due = λ j few. let l = h.ghosts_due j few in ground arith;
  tracker_is_due = ground arith;
  detector_is_due = ground arith;
  in_range = ground arith;
}

update-GhostsDue :
    (c : ControllerPlace) (ghosts : ℕ → Helper GhostPlace) (k : ℕ) (g : Helper GhostPlace)
    → ghost_due (ghosts k) ≤ ghost_due g
    → GhostsDue c ghosts
    → GhostsDue c (update ghosts k g)
update-GhostsDue c ghosts k g more h j few = elim (Bool-cases (k == j)) [
  | inl e ↦
      let same : k ≡ j = ground arith in let l = h k (rw same few) in rw (e, sym same) (omega arith)
  | inr e ↦ rw e (h j few)
]

Step-IsDue : {s t : EnemyProcess} → Step s t → IsDue s → IsDue t
Step-IsDue (Step.controller c) h = ControllerStep-IsDue c h
Step-IsDue (Step.ghost s g is v few step) h = record {
  ghosts_due =
      update-GhostsDue s.controller_at s.ghosts g v.helper (GhostStep-due step) h.ghosts_due;
  tracker_is_due = h.tracker_is_due;
  detector_is_due = h.detector_is_due;
  in_range = h.in_range;
}
Step-IsDue (Step.tracker s v step) h = record {
  ghosts_due = h.ghosts_due;
  tracker_is_due = omega (arith, TrackerStep-due step, h.tracker_is_due);
  detector_is_due = h.detector_is_due;
  in_range = h.in_range;
}
Step-IsDue (Step.detector s v step) h = record {
  ghosts_due = h.ghosts_due;
  tracker_is_due = h.tracker_is_due;
  detector_is_due = omega (arith, DetectorStep-due step, h.detector_is_due);
  in_range = h.in_range;
}
Step-IsDue (Step.turn_given s) h = record {
  ghosts_due = h.ghosts_due;
  tracker_is_due = h.tracker_is_due;
  detector_is_due = h.detector_is_due;
  in_range = h.in_range;
}
Step-IsDue (Step.turn_confirmed s n e) h = record {
  ghosts_due = h.ghosts_due;
  tracker_is_due = h.tracker_is_due;
  detector_is_due = h.detector_is_due;
  in_range = h.in_range;
}
Step-IsDue (Step.others_write s shared) h = record {
  ghosts_due = h.ghosts_due;
  tracker_is_due = h.tracker_is_due;
  detector_is_due = h.detector_is_due;
  in_range = h.in_range;
}

pub reached-IsDue : {s t : EnemyProcess} → Reaches s t → IsDue s → IsDue t
reached-IsDue (Reaches.here s) h = h
reached-IsDue (Reaches.then before step) h = Step-IsDue step (reached-IsDue before h)

pub start-IsDue :
    (context : EnemyContext) (files : ℕ → List EnemyInstruction)
    → IsDue (start_process context files)
unfolding start_process
start-IsDue context files = record {
  ghosts_due = λ j few. omega arith;
  tracker_is_due = omega arith;
  detector_is_due = omega arith;
  in_range = refl;
}
