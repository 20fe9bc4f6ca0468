-- ===== src/Enemy/Threads/Loads.antt =====
-- The requests of the controller that a helper of P2 has not answered: no step of a helper adds one.
use pacman_posix.Prelude.{ℕ, ◌+◌, ◌≤◌, Bool, true, false, List, if◌then◌else◌, arith}
use pacman_posix.Enemy.{EnemyInstruction}
use pacman_posix.Enemy.Helpers.{
  GhostPlace, checking_stop, popping, processing, reporting, TrackerPlace, checking_track,
  reading_shared, writing, track_reporting, DetectorPlace, checking_detect, reading_pacman,
  reading_ghosts, reading_tick, publishing, detect_reporting, Helper, View, GhostStep, TrackerStep,
  DetectorStep,
}
use pacman_posix.Enemy.Threads.{
  ControllerPlace, closing, closing_tracker, closing_collision, controller_ended,
}

abbrev pub one_if : Bool → ℕ
one_if true = 1
one_if false = 0

abbrev pub ghost_wakes : GhostPlace → ℕ
ghost_wakes checking_stop = 1
ghost_wakes _ = 0

-- 1 for a thread that has begun with its part of a turn.
abbrev pub ghost_works : GhostPlace → ℕ
ghost_works popping = 1
ghost_works (processing i) = 1
ghost_works reporting = 1
ghost_works _ = 0

abbrev pub tracker_wakes : TrackerPlace → ℕ
tracker_wakes checking_track = 1
tracker_wakes _ = 0

abbrev pub tracker_works : TrackerPlace → ℕ
tracker_works reading_shared = 1
tracker_works (writing x y) = 1
tracker_works track_reporting = 1
tracker_works _ = 0

abbrev pub detector_wakes : DetectorPlace → ℕ
detector_wakes checking_detect = 1
detector_wakes _ = 0

abbrev pub detector_works : DetectorPlace → ℕ
detector_works reading_pacman = 1
detector_works (reading_ghosts p) = 1
detector_works (reading_tick p g) = 1
detector_works (publishing i t) = 1
detector_works detect_reporting = 1
detector_works _ = 0

-- Whether the controller has asked the helpers to stop.
abbrev pub is_closed : ControllerPlace → Bool
is_closed (closing k) = true
is_closed closing_tracker = true
is_closed closing_collision = true
is_closed controller_ended = true
is_closed _ = false

-- The requests that a helper has not answered; once `is_closed`, those that it works on.
abbrev pub load : {P : Type 0} → (P → ℕ) → (P → ℕ) → Bool → Helper P → ℕ
load wakes works closed h =
    (if closed then 0 else h.requested + wakes h.place) + works h.place + h.done

abbrev pub IsLess : {P : Type 0} → (P → ℕ) → (P → ℕ) → Bool → View P → View P → Type 0
IsLess wakes works closed v w =
    (load wakes works closed w.helper ≤ load wakes works closed v.helper)
    × (one_if v.should_stop ≤ one_if w.should_stop)

pub GhostStep-IsLess :
    {g : ℕ} {is js : List EnemyInstruction} {v w : View GhostPlace} (closed : Bool)
    → GhostStep g is js v w
    → one_if closed ≤ one_if v.should_stop
    → IsLess ghost_wakes ghost_works closed v w
GhostStep-IsLess closed (GhostStep.loads is v e) h = (ground arith, ground arith)
GhostStep-IsLess closed (GhostStep.cannot_load is js v e) h = (ground arith, ground arith)
GhostStep-IsLess closed (GhostStep.asks_stop is v e) h = (ground arith, ground arith)
GhostStep-IsLess closed (GhostStep.takes_turn is v n e r) h = (ground arith, ground arith)
GhostStep-IsLess closed (GhostStep.checks is v e) h = (ground arith, ground arith)
GhostStep-IsLess closed (GhostStep.cannot_check is v e) h = (ground arith, ground arith)
GhostStep-IsLess closed (GhostStep.pops i is v e) h = (ground arith, ground arith)
GhostStep-IsLess closed (GhostStep.pops_none v e) h = (ground arith, ground arith)
GhostStep-IsLess closed (GhostStep.processes i is v e) h = (ground arith, ground arith)
GhostStep-IsLess closed (GhostStep.reports is v e) h = (ground arith, ground arith)
GhostStep-IsLess closed (GhostStep.fails is v e) h = (ground arith, ground arith)
GhostStep-IsLess closed (GhostStep.gives_up is v e) h = (ground arith, ground arith)

pub TrackerStep-IsLess :
    {v w : View TrackerPlace} (closed : Bool)
    → TrackerStep v w
    → one_if closed ≤ one_if v.should_stop
    → IsLess tracker_wakes tracker_works closed v w
TrackerStep-IsLess closed (TrackerStep.takes_turn v n e r) h = (ground arith, ground arith)
TrackerStep-IsLess closed (TrackerStep.checks v e) h = (ground arith, ground arith)
TrackerStep-IsLess closed (TrackerStep.cannot_check v e) h = (ground arith, ground arith)
TrackerStep-IsLess closed (TrackerStep.reads v e) h = (ground arith, ground arith)
TrackerStep-IsLess closed (TrackerStep.writes v x y e) h = (ground arith, ground arith)
TrackerStep-IsLess closed (TrackerStep.reports v e) h = (ground arith, ground arith)
TrackerStep-IsLess closed (TrackerStep.fails v e) h = (ground arith, ground arith)
TrackerStep-IsLess closed (TrackerStep.gives_up v e) h = (ground arith, ground arith)

pub DetectorStep-IsLess :
    {v w : View DetectorPlace} (closed : Bool)
    → DetectorStep v w
    → one_if closed ≤ one_if v.should_stop
    → IsLess detector_wakes detector_works closed v w
DetectorStep-IsLess closed (DetectorStep.takes_turn v n e r) h = (ground arith, ground arith)
DetectorStep-IsLess closed (DetectorStep.checks v e) h = (ground arith, ground arith)
DetectorStep-IsLess closed (DetectorStep.cannot_check v e) h = (ground arith, ground arith)
DetectorStep-IsLess closed (DetectorStep.reads_pacman v e) h = (ground arith, ground arith)
DetectorStep-IsLess closed (DetectorStep.reads_ghosts v p e) h = (ground arith, ground arith)
DetectorStep-IsLess closed (DetectorStep.reads_tick v p g e) h = (ground arith, ground arith)
DetectorStep-IsLess closed (DetectorStep.publishes v i t e) h = (ground arith, ground arith)
DetectorStep-IsLess closed (DetectorStep.reports v e) h = (ground arith, ground arith)
DetectorStep-IsLess closed (DetectorStep.fails v e) h = (ground arith, ground arith)
DetectorStep-IsLess closed (DetectorStep.gives_up v e) h = (ground arith, ground arith)
