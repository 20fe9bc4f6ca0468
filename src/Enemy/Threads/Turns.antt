-- ===== src/Enemy/Threads/Turns.antt =====
-- The turns of P2: within one its helpers work one kind after the other, and between them none works.
use pacman_posix.Prelude.{ℕ, ◌+◌, ◌<◌, ◌≤◌, List, arith}
use pacman_posix.Common.{ghost_count}
use pacman_posix.Enemy.{EnemyInstruction, EnemyContext}
use pacman_posix.Enemy.Threads.{
  ControllerPlace, awaiting_turn, checking_game, posting_turns, awaiting_ghosts, posting_tracker,
  awaiting_tracker, posting_collision, awaiting_collision, posting_done, stopping, closing,
  closing_tracker, closing_collision, controller_ended, EnemyProcess, start_process, ControllerStep,
  Step, Reaches,
}
use pacman_posix.Enemy.Threads.Loads.{ghost_works, tracker_works, detector_works}
use pacman_posix.Enemy.Threads.Quiet.{
  allowed_ghost, allowed_tracker, allowed_detector, IsQuiet, Step-IsQuiet, start-IsQuiet,
}

-- 1 while the controller has a turn.
abbrev pub controls : ControllerPlace → ℕ
controls awaiting_turn = 0
controls controller_ended = 0
controls _ = 1

abbrev Accounted : EnemyProcess → Type 0
Accounted s = s.confirmed + s.enemy_turn + controls s.controller_at + s.p2_done ≤ s.given

ControllerStep-Accounted : {s t : EnemyProcess} → ControllerStep s t → Accounted s → Accounted t
ControllerStep-Accounted (ControllerStep.takes_turn s n e p) h = ground arith
ControllerStep-Accounted (ControllerStep.checks s e) h = ground arith
ControllerStep-Accounted (ControllerStep.cannot_check s e) h = ground arith
ControllerStep-Accounted (ControllerStep.posts_turn s k e) h = ground arith
ControllerStep-Accounted (ControllerStep.hears_ghost s k n e d) h = ground arith
ControllerStep-Accounted (ControllerStep.posts_tracker s e) h = ground arith
ControllerStep-Accounted (ControllerStep.hears_tracker s n e d) h = ground arith
ControllerStep-Accounted (ControllerStep.posts_collision s e) h = ground arith
ControllerStep-Accounted (ControllerStep.hears_collision s n e d) h = ground arith
ControllerStep-Accounted (ControllerStep.posts_done s e) h = ground arith
ControllerStep-Accounted (ControllerStep.stops s e) h = ground arith
ControllerStep-Accounted (ControllerStep.closes_ghost s k e) h = ground arith
ControllerStep-Accounted (ControllerStep.closes_tracker s e) h = ground arith
ControllerStep-Accounted (ControllerStep.closes_collision s e) h = ground arith

Step-Accounted : {s t : EnemyProcess} → Step s t → Accounted s → Accounted t
Step-Accounted (Step.controller c) h = ControllerStep-Accounted c h
Step-Accounted (Step.ghost s g is v few step) h = h
Step-Accounted (Step.tracker s v step) h = h
Step-Accounted (Step.detector s v step) h = h
Step-Accounted (Step.turn_given s) h = omega arith
Step-Accounted (Step.turn_confirmed s n e) h = omega arith
Step-Accounted (Step.others_write s shared) h = h

-- What the controller waits for, and that it has a turn then.
allowed_once :
    (c : ControllerPlace) (j : ℕ)
    → allowed_ghost c j + allowed_tracker c + allowed_detector c ≤ controls c
allowed_once awaiting_turn j = omega arith
allowed_once checking_game j = omega arith
allowed_once (posting_turns k) j = ground arith
allowed_once (awaiting_ghosts k) j = ground arith
allowed_once posting_tracker j = omega arith
allowed_once awaiting_tracker j = omega arith
allowed_once posting_collision j = omega arith
allowed_once awaiting_collision j = omega arith
allowed_once posting_done j = omega arith
allowed_once stopping j = omega arith
allowed_once (closing k) j = omega arith
allowed_once closing_tracker j = omega arith
allowed_once closing_collision j = omega arith
allowed_once controller_ended j = omega arith

pub controls_once : (c : ControllerPlace) → controls c ≤ 1
controls_once c = ground arith

-- How many of ghost `j`, the tracker and the collision thread are at work.
abbrev pub at_work : ℕ → EnemyProcess → ℕ
at_work j s =
    ghost_works (s.ghosts j).place + tracker_works s.tracker.place + detector_works s.detector.place

pub IsQuiet-at_work :
    (s : EnemyProcess) (j : ℕ)
    → j < ghost_count
    → IsQuiet s
    → at_work j s ≤ controls s.controller_at
IsQuiet-at_work s j few h =
    omega
      (arith, h.ghosts_fit j few, h.tracker_fits, h.detector_fits, allowed_once s.controller_at j)

reached-Accounted : {s t : EnemyProcess} → Reaches s t → Accounted s → Accounted t
reached-Accounted (Reaches.here s) h = h
reached-Accounted (Reaches.then before step) h = Step-Accounted step (reached-Accounted before h)

pub reached-IsQuiet : {s t : EnemyProcess} → Reaches s t → IsQuiet s → IsQuiet t
reached-IsQuiet (Reaches.here s) h = h
reached-IsQuiet (Reaches.then before step) h = Step-IsQuiet step (reached-IsQuiet before h)

-- However the threads of P2 interleave with each other and with P0, and where its helpers fail: the
-- turns that are confirmed, posted, with the controller or posted back are together no more than those
-- that P0 gave; of a ghost, the tracker and the collision thread at most one is at work, and only
-- within a turn that was given and is not confirmed.
pub enemy_process_turns :
    (context : EnemyContext) (files : ℕ → List EnemyInstruction) (s : EnemyProcess)
    → Reaches (start_process context files) s
    → (s.confirmed + s.enemy_turn + controls s.controller_at + s.p2_done ≤ s.given)
      × ((j : ℕ) → j < ghost_count → (at_work j s ≤ 1) × (s.confirmed + at_work j s ≤ s.given))
unfolding start_process
enemy_process_turns context files s reached =
    let a = reached-Accounted reached (omega arith) in
    let q = reached-IsQuiet reached (start-IsQuiet context files) in
    (
      a,
      λ j few. (
        omega (arith, IsQuiet-at_work s j few q, controls_once s.controller_at),
        omega (arith, IsQuiet-at_work s j few q, a),
      ),
    )
