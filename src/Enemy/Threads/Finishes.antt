-- ===== src/Enemy/Threads/Finishes.antt =====
-- P2 does not come to rest within a turn as long as none of its helpers has given up.
use pacman_posix.Prelude.{
  ℕ, zero, suc, ◌<◌, ◌≤◌, ◌≡◌, ◌⊎◌, inl, inr, refl, Bool, true, false, List, [], ◌∷◌, arith,
}
use pacman_posix.Common.{ghost_count}
use pacman_posix.Enemy.{EnemyInstruction, EnemyContext}
use pacman_posix.Enemy.Helpers.{
  GhostPlace, loading, load_failed, awaiting_ghost_turn, checking_stop, popping, processing,
  reporting, failing, ghost_ended, TrackerPlace, awaiting_track, checking_track, reading_shared,
  writing, track_reporting, track_failing, tracker_ended, DetectorPlace, awaiting_detect,
  checking_detect, reading_pacman, reading_ghosts, reading_tick, publishing, detect_reporting,
  detect_failing, detector_ended, View, GhostStep, TrackerStep, DetectorStep,
}
use pacman_posix.Enemy.Threads.{
  ControllerPlace, awaiting_turn, checking_game, posting_turns, awaiting_ghosts, posting_tracker,
  awaiting_tracker, posting_collision, awaiting_collision, posting_done, stopping, closing,
  closing_tracker, closing_collision, controller_ended, EnemyProcess, start_process, ControllerStep,
  Reaches, view,
}
use pacman_posix.Enemy.Threads.Due.{
  ghost_gone, tracker_gone, detector_gone, ghost_due, tracker_due, detector_due, IsDue, start-IsDue,
  reached-IsDue,
}

-- A step in which no call fails.
abbrev pub ghost_goes_on :
    {g : ℕ} {is js : List EnemyInstruction} {v w : View GhostPlace} → GhostStep g is js v w → Bool
ghost_goes_on (GhostStep.cannot_load is js v e) = false
ghost_goes_on (GhostStep.cannot_check is v e) = false
ghost_goes_on (GhostStep.fails is v e) = false
ghost_goes_on _ = true

abbrev pub tracker_goes_on : {v w : View TrackerPlace} → TrackerStep v w → Bool
tracker_goes_on (TrackerStep.cannot_check v e) = false
tracker_goes_on (TrackerStep.fails v e) = false
tracker_goes_on _ = true

abbrev pub detector_goes_on : {v w : View DetectorPlace} → DetectorStep v w → Bool
detector_goes_on (DetectorStep.cannot_check v e) = false
detector_goes_on (DetectorStep.fails v e) = false
detector_goes_on _ = true

abbrev pub GhostGoesOn : ℕ → List EnemyInstruction → View GhostPlace → Type 0
GhostGoesOn g is v =
    (js : List EnemyInstruction) × (w : View GhostPlace) × (step : GhostStep g is js v w)
    × (ghost_goes_on step ≡ true)

abbrev pub TrackerGoesOn : View TrackerPlace → Type 0
TrackerGoesOn v = (w : View TrackerPlace) × (step : TrackerStep v w) × (tracker_goes_on step ≡ true)

abbrev pub DetectorGoesOn : View DetectorPlace → Type 0
DetectorGoesOn v =
    (w : View DetectorPlace) × (step : DetectorStep v w) × (detector_goes_on step ≡ true)

-- One of the threads has a step.
pub data GoesOn (s : EnemyProcess) : Type 0 where
  controller : {t : EnemyProcess} → ControllerStep s t → GoesOn s
  ghost :
      (g : ℕ) → g < ghost_count → GhostGoesOn g (s.instructions g) (view (s.ghosts g) s) → GoesOn s
  tracker : TrackerGoesOn (view s.tracker s) → GoesOn s
  detector : DetectorGoesOn (view s.detector s) → GoesOn s

pub data IsResting (s : EnemyProcess) : Type 0 where
  waits : s.controller_at ≡ awaiting_turn → s.enemy_turn ≡ 0 → IsResting s
  ended : s.controller_at ≡ controller_ended → IsResting s

-- A helper that has something to do, and nothing to report yet.
ghost_pops :
    (g : ℕ) (is : List EnemyInstruction) (v : View GhostPlace)
    → v.helper.place ≡ popping
    → GhostGoesOn g is v
ghost_pops g [] v e = (_, _, GhostStep.pops_none v e, refl)
ghost_pops g (i ∷ is) v e = (_, _, GhostStep.pops i is v e, refl)

ghost_wakes_up :
    (g : ℕ) (is : List EnemyInstruction) (v : View GhostPlace) (n : ℕ)
    → v.helper.requested ≡ n
    → v.helper.place ≡ awaiting_ghost_turn
    → 1 ≤ ghost_due v.helper
    → v.helper.done ≡ 0
    → GhostGoesOn g is v
ghost_wakes_up g is v zero r e due none_done = absurd (ground arith)
ghost_wakes_up g is v (suc n) r e due none_done = (_, _, GhostStep.takes_turn is v n e r, refl)

ghost_does :
    (g : ℕ) (is : List EnemyInstruction) (v : View GhostPlace) (p : GhostPlace)
    → v.helper.place ≡ p
    → 1 ≤ ghost_due v.helper
    → v.helper.done ≡ 0
    → ghost_gone v.helper.place ≡ 0
    → GhostGoesOn g is v
ghost_does g is v loading e due n here = (_, _, GhostStep.loads is v e, refl)
ghost_does g is v load_failed e due n here = (_, _, GhostStep.asks_stop is v e, refl)
ghost_does g is v awaiting_ghost_turn e due n here = ghost_wakes_up g is v _ refl e due n
ghost_does g is v checking_stop e due n here = (_, _, GhostStep.checks is v e, refl)
ghost_does g is v popping e due n here = ghost_pops g is v e
ghost_does g is v (processing i) e due n here = (_, _, GhostStep.processes i is v e, refl)
ghost_does g is v reporting e due n here = (_, _, GhostStep.reports is v e, refl)
ghost_does g is v failing e due n here = absurd (ground arith)
ghost_does g is v ghost_ended e due n here = absurd (ground arith)

tracker_wakes_up :
    (v : View TrackerPlace) (n : ℕ)
    → v.helper.requested ≡ n
    → v.helper.place ≡ awaiting_track
    → 1 ≤ tracker_due v.helper
    → v.helper.done ≡ 0
    → TrackerGoesOn v
tracker_wakes_up v zero r e due none_done = absurd (ground arith)
tracker_wakes_up v (suc n) r e due none_done = (_, TrackerStep.takes_turn v n e r, refl)

tracker_does :
    (v : View TrackerPlace) (p : TrackerPlace)
    → v.helper.place ≡ p
    → 1 ≤ tracker_due v.helper
    → v.helper.done ≡ 0
    → tracker_gone v.helper.place ≡ 0
    → TrackerGoesOn v
tracker_does v awaiting_track e due n here = tracker_wakes_up v _ refl e due n
tracker_does v checking_track e due n here = (_, TrackerStep.checks v e, refl)
tracker_does v reading_shared e due n here = (_, TrackerStep.reads v e, refl)
tracker_does v (writing x y) e due n here = (_, TrackerStep.writes v x y e, refl)
tracker_does v track_reporting e due n here = (_, TrackerStep.reports v e, refl)
tracker_does v track_failing e due n here = absurd (ground arith)
tracker_does v tracker_ended e due n here = absurd (ground arith)

detector_wakes_up :
    (v : View DetectorPlace) (n : ℕ)
    → v.helper.requested ≡ n
    → v.helper.place ≡ awaiting_detect
    → 1 ≤ detector_due v.helper
    → v.helper.done ≡ 0
    → DetectorGoesOn v
detector_wakes_up v zero r e due none_done = absurd (ground arith)
detector_wakes_up v (suc n) r e due none_done = (_, DetectorStep.takes_turn v n e r, refl)

detector_does :
    (v : View DetectorPlace) (p : DetectorPlace)
    → v.helper.place ≡ p
    → 1 ≤ detector_due v.helper
    → v.helper.done ≡ 0
    → detector_gone v.helper.place ≡ 0
    → DetectorGoesOn v
detector_does v awaiting_detect e due n here = detector_wakes_up v _ refl e due n
detector_does v checking_detect e due n here = (_, DetectorStep.checks v e, refl)
detector_does v reading_pacman e due n here = (_, DetectorStep.reads_pacman v e, refl)
detector_does v (reading_ghosts p) e due n here = (_, DetectorStep.reads_ghosts v p e, refl)
detector_does v (reading_tick p g) e due n here = (_, DetectorStep.reads_tick v p g e, refl)
detector_does v (publishing i t) e due n here = (_, DetectorStep.publishes v i t e, refl)
detector_does v detect_reporting e due n here = (_, DetectorStep.reports v e, refl)
detector_does v detect_failing e due n here = absurd (ground arith)
detector_does v detector_ended e due n here = absurd (ground arith)

module _ (s : EnemyProcess) (h : IsDue s)
    (ghosts_stay : (j : ℕ) → j < ghost_count → ghost_gone (s.ghosts j).place ≡ 0)
    (tracker_stays : tracker_gone s.tracker.place ≡ 0)
    (detector_stays : detector_gone s.detector.place ≡ 0) where
  turn_or_rest :
      (n : ℕ) → s.enemy_turn ≡ n → s.controller_at ≡ awaiting_turn → GoesOn s ⊎ IsResting s
  turn_or_rest zero t e = inr (IsResting.waits e t)
  turn_or_rest (suc n) t e = inl (GoesOn.controller (ControllerStep.takes_turn s n e t))

  ghost_or_controller :
      (k n : ℕ) → (s.ghosts k).done ≡ n → s.controller_at ≡ awaiting_ghosts k → GoesOn s
  ghost_or_controller k (suc n) d e = GoesOn.controller (ControllerStep.hears_ghost s k n e d)
  ghost_or_controller k zero d e =
      let few : k < ghost_count = ground (arith, h.in_range) in
      let due = h.ghosts_due k few in
      GoesOn.ghost k few (
        ghost_does k (s.instructions k) (view (s.ghosts k) s) _ refl (ground arith) d
          (ghosts_stay k few))

  tracker_or_controller :
      (n : ℕ) → s.tracker.done ≡ n → s.controller_at ≡ awaiting_tracker → GoesOn s
  tracker_or_controller (suc n) d e = GoesOn.controller (ControllerStep.hears_tracker s n e d)
  tracker_or_controller zero d e =
      GoesOn.tracker
        (tracker_does (view s.tracker s) _ refl (ground (arith, h.tracker_is_due)) d tracker_stays)

  detector_or_controller :
      (n : ℕ) → s.detector.done ≡ n → s.controller_at ≡ awaiting_collision → GoesOn s
  detector_or_controller (suc n) d e = GoesOn.controller (ControllerStep.hears_collision s n e d)
  detector_or_controller zero d e = GoesOn.detector (
      detector_does (view s.detector s) _ refl (ground (arith, h.detector_is_due)) d detector_stays)

  progress : (c : ControllerPlace) → s.controller_at ≡ c → GoesOn s ⊎ IsResting s
  progress awaiting_turn e = turn_or_rest _ refl e
  progress checking_game e = inl (GoesOn.controller (ControllerStep.checks s e))
  progress (posting_turns k) e = inl (GoesOn.controller (ControllerStep.posts_turn s k e))
  progress (awaiting_ghosts k) e = inl (ghost_or_controller k _ refl e)
  progress posting_tracker e = inl (GoesOn.controller (ControllerStep.posts_tracker s e))
  progress awaiting_tracker e = inl (tracker_or_controller _ refl e)
  progress posting_collision e = inl (GoesOn.controller (ControllerStep.posts_collision s e))
  progress awaiting_collision e = inl (detector_or_controller _ refl e)
  progress posting_done e = inl (GoesOn.controller (ControllerStep.posts_done s e))
  progress stopping e = inl (GoesOn.controller (ControllerStep.stops s e))
  progress (closing k) e = inl (GoesOn.controller (ControllerStep.closes_ghost s k e))
  progress closing_tracker e = inl (GoesOn.controller (ControllerStep.closes_tracker s e))
  progress closing_collision e = inl (GoesOn.controller (ControllerStep.closes_collision s e))
  progress controller_ended e = inr (IsResting.ended e)

-- In every state that the threads of P2 can reach, and in which no helper has ended or is about to
-- because a call failed or a stop was asked for: a thread has a step in which no call fails, or the
-- controller waits for a turn that P0 has not given, or it has ended.
pub enemy_process_progress :
    (context : EnemyContext) (files : ℕ → List EnemyInstruction) (s : EnemyProcess)
    → Reaches (start_process context files) s
    → ((j : ℕ) → j < ghost_count → ghost_gone (s.ghosts j).place ≡ 0)
    → tracker_gone s.tracker.place ≡ 0
    → detector_gone s.detector.place ≡ 0
    → GoesOn s ⊎ IsResting s
enemy_process_progress context files s reached ghosts_stay tracker_stays detector_stays =
    progress s (reached-IsDue reached (start-IsDue context files)) ghosts_stay tracker_stays
      detector_stays _ refl
