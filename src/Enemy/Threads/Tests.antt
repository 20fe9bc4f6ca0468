-- ===== src/Enemy/Threads/Tests.antt =====
-- A first turn of P2 in which the third ghost is found on Pac-Man's cell, and one in which the list of
-- the first ghost cannot be loaded.
use pacman_posix.Prelude.{◌⊎◌, ◌+◌, ◌<◌, ◌≤◌, ◌≡◌, ℕ, refl, List, [], arith}
use pacman_posix.Prelude.Int.{pos}
use pacman_posix.Common.{ghost_count}
use pacman_posix.Shared.{zeroed}
use pacman_posix.Enemy.{EnemyInstruction, EnemyContext, first_hit}
use pacman_posix.Enemy.Collisions.{NoneBefore}
use pacman_posix.Enemy.Helpers.{publishing, GhostPlace, View, GhostStep, TrackerStep, DetectorStep}
use pacman_posix.Enemy.Threads.{
  EnemyProcess, posting_turns, start_process, ControllerStep, Step, Reaches, after_ghost, view,
}
use pacman_posix.Enemy.Threads.Turns.{controls, at_work, enemy_process_turns}
use pacman_posix.Enemy.Threads.Snapshot.{enemy_process_collision}
use pacman_posix.Enemy.Threads.Due.{ghost_gone, tracker_gone, detector_gone}
use pacman_posix.Enemy.Threads.Finishes.{GoesOn, IsResting, enemy_process_progress}
use pacman_posix.Enemy.Threads.Blocked.{IsBlocked, ghost_blocks}

-- Pac-Man on (4, 1), and the ghosts from (2, 1) on.
abbrev context : EnemyContext
context = record {
  shared = record zeroed { pacman_x = pos 4; pacman_y = pos 1 };
  pacman_position = record { x = pos 1; y = pos 1 };
  ghosts = λ i. record { x = pos (i + 2); y = pos 1 };
}

abbrev files : ℕ → List EnemyInstruction
files i = []

abbrev control : {r s t : EnemyProcess} → Reaches r s → ControllerStep s t → Reaches r t
control before step = Reaches.then before (Step.controller step)

abbrev haunt :
    {r s : EnemyProcess} {is : List EnemyInstruction} {v : View GhostPlace}
    → Reaches r s
    → (g : ℕ) → g < ghost_count
    → GhostStep g (s.instructions g) is (view (s.ghosts g) s) v
    → Reaches r (after_ghost s g is v)
haunt before g few step = Reaches.then before (Step.ghost _ g _ _ few step)

few_0 : 0 < ghost_count
few_0 = omega arith

few_1 : 1 < ghost_count
few_1 = omega arith

few_2 : 2 < ghost_count
few_2 = omega arith

few_3 : 3 < ghost_count
few_3 = omega arith

abbrev Hunted : Type 0
Hunted =
    (s : EnemyProcess) × Reaches (start_process context files) s
    × (s.detector.place ≡ publishing 2 (pos 0))

hunted : Hunted
unfolding start_process first_hit
hunted =
    let start = Reaches.here (start_process context files) in
    let r1 = Reaches.then start (Step.turn_given _) in
    let r2 = control r1 (ControllerStep.takes_turn _ 0 refl refl) in
    let r3 = control r2 (ControllerStep.checks _ refl) in
    let r4 = control r3 (ControllerStep.posts_turn _ 0 refl) in
    let r5 = control r4 (ControllerStep.posts_turn _ 1 refl) in
    let r6 = control r5 (ControllerStep.posts_turn _ 2 refl) in
    let r7 = control r6 (ControllerStep.posts_turn _ 3 refl) in
    let r8 = haunt r7 0 few_0 (GhostStep.loads [] _ refl) in
    let r9 = haunt r8 0 few_0 (GhostStep.takes_turn [] _ 0 refl refl) in
    let r10 = haunt r9 0 few_0 (GhostStep.checks [] _ refl) in
    let r11 = haunt r10 0 few_0 (GhostStep.pops_none _ refl) in
    let r12 = haunt r11 0 few_0 (GhostStep.reports [] _ refl) in
    let r13 = control r12 (ControllerStep.hears_ghost _ 0 0 refl refl) in
    let r14 = haunt r13 1 few_1 (GhostStep.loads [] _ refl) in
    let r15 = haunt r14 1 few_1 (GhostStep.takes_turn [] _ 0 refl refl) in
    let r16 = haunt r15 1 few_1 (GhostStep.checks [] _ refl) in
    let r17 = haunt r16 1 few_1 (GhostStep.pops_none _ refl) in
    let r18 = haunt r17 1 few_1 (GhostStep.reports [] _ refl) in
    let r19 = control r18 (ControllerStep.hears_ghost _ 1 0 refl refl) in
    let r20 = haunt r19 2 few_2 (GhostStep.loads [] _ refl) in
    let r21 = haunt r20 2 few_2 (GhostStep.takes_turn [] _ 0 refl refl) in
    let r22 = haunt r21 2 few_2 (GhostStep.checks [] _ refl) in
    let r23 = haunt r22 2 few_2 (GhostStep.pops_none _ refl) in
    let r24 = haunt r23 2 few_2 (GhostStep.reports [] _ refl) in
    let r25 = control r24 (ControllerStep.hears_ghost _ 2 0 refl refl) in
    let r26 = haunt r25 3 few_3 (GhostStep.loads [] _ refl) in
    let r27 = haunt r26 3 few_3 (GhostStep.takes_turn [] _ 0 refl refl) in
    let r28 = haunt r27 3 few_3 (GhostStep.checks [] _ refl) in
    let r29 = haunt r28 3 few_3 (GhostStep.pops_none _ refl) in
    let r30 = haunt r29 3 few_3 (GhostStep.reports [] _ refl) in
    let r31 = control r30 (ControllerStep.hears_ghost _ 3 0 refl refl) in
    let r32 = control r31 (ControllerStep.posts_tracker _ refl) in
    let r33 = Reaches.then r32 (Step.tracker _ _ (TrackerStep.takes_turn _ 0 refl refl)) in
    let r34 = Reaches.then r33 (Step.tracker _ _ (TrackerStep.checks _ refl)) in
    let r35 = Reaches.then r34 (Step.tracker _ _ (TrackerStep.reads _ refl)) in
    let r36 = Reaches.then r35 (Step.tracker _ _ (TrackerStep.writes _ _ _ refl)) in
    let r37 = Reaches.then r36 (Step.tracker _ _ (TrackerStep.reports _ refl)) in
    let r38 = control r37 (ControllerStep.hears_tracker _ 0 refl refl) in
    let r39 = control r38 (ControllerStep.posts_collision _ refl) in
    let r40 = Reaches.then r39 (Step.detector _ _ (DetectorStep.takes_turn _ 0 refl refl)) in
    let r41 = Reaches.then r40 (Step.detector _ _ (DetectorStep.checks _ refl)) in
    let r42 = Reaches.then r41 (Step.detector _ _ (DetectorStep.reads_pacman _ refl)) in
    let r43 = Reaches.then r42 (Step.detector _ _ (DetectorStep.reads_ghosts _ _ refl)) in
    let r44 = Reaches.then r43 (Step.detector _ _ (DetectorStep.reads_tick _ _ _ refl)) in
    (_, r44, refl)

enemy_process_turns_example :
    (hunted.0.confirmed + hunted.0.enemy_turn + controls hunted.0.controller_at + hunted.0.p2_done
      ≤ hunted.0.given)
    × ((j : ℕ)
        → j < ghost_count
        → (at_work j hunted.0 ≤ 1) × (hunted.0.confirmed + at_work j hunted.0 ≤ hunted.0.given))
enemy_process_turns_example = enemy_process_turns context files hunted.0 hunted.1

enemy_process_collision_example :
    (2 < ghost_count)
    × (hunted.0.context.ghosts 2 ≡ hunted.0.context.pacman_position)
    × NoneBefore hunted.0.context.ghosts hunted.0.context.pacman_position 2
enemy_process_collision_example =
    enemy_process_collision context files hunted.0 2 (pos 0) hunted.1 hunted.2

abbrev Lost : Type 0
Lost =
    (s : EnemyProcess) × Reaches (start_process context files) s
    × IsBlocked 0 s
    × (s.controller_at ≡ posting_turns 0)

lost : Lost
unfolding start_process
lost =
    let start = Reaches.here (start_process context files) in
    let a = haunt start 0 few_0 (GhostStep.cannot_load [] [] _ refl) in
    let b = Reaches.then a (Step.turn_given _) in
    let c = control b (ControllerStep.takes_turn _ 0 refl refl) in
    let d = control c (ControllerStep.checks _ refl) in
    (_, d, record { waits = refl; lost = refl; silent = refl }, refl)

going_on : (t : EnemyProcess) × Reaches lost.0 t
going_on = (_, control (Reaches.here lost.0) (ControllerStep.posts_turn lost.0 0 lost.3))

ghost_blocks_example :
    IsBlocked 0 going_on.0
    × (going_on.0.p2_done + going_on.0.confirmed ≡ lost.0.p2_done + lost.0.confirmed)
ghost_blocks_example = ghost_blocks 0 few_0 lost.0 going_on.0 going_on.1 lost.2

abbrev Begun : Type 0
Begun =
    (s : EnemyProcess) × Reaches (start_process context files) s
    × ((j : ℕ) → j < ghost_count → ghost_gone (s.ghosts j).place ≡ 0)
    × (tracker_gone s.tracker.place ≡ 0)
    × (detector_gone s.detector.place ≡ 0)

begun : Begun
unfolding start_process
begun =
    let a = Reaches.then (Reaches.here (start_process context files)) (Step.turn_given _) in
    let b = control a (ControllerStep.takes_turn _ 0 refl refl) in
    let c = control b (ControllerStep.checks _ refl) in
    let d = control c (ControllerStep.posts_turn _ 0 refl) in
    let e = control d (ControllerStep.posts_turn _ 1 refl) in
    let f = control e (ControllerStep.posts_turn _ 2 refl) in
    let g = control f (ControllerStep.posts_turn _ 3 refl) in
    (_, g, (λ j few. ground arith), refl, refl)

enemy_process_progress_example : GoesOn begun.0 ⊎ IsResting begun.0
enemy_process_progress_example =
    enemy_process_progress context files begun.0 begun.1 begun.2 begun.3 begun.4
