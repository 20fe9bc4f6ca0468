-- ===== src/Enemy/Threads/Snapshot.antt =====
-- The collision that P2 publishes is one of the state in which it publishes it.
use pacman_posix.Prelude.{
  ℕ, ◌<◌, ◌≡◌, refl, subst, Bool, true, false, List, Option, none, some, if◌then◌else◌, arith,
}
use pacman_posix.Prelude.Int.{ℤ}
use pacman_posix.Common.{ghost_count}
use pacman_posix.Enemy.{EnemyInstruction, EnemyPosition, EnemyContext, first_hit}
use pacman_posix.Enemy.Collisions.{NoneBefore, First, detected-First}
use pacman_posix.Enemy.Helpers.{
  GhostPlace, TrackerPlace, DetectorPlace, awaiting_detect, checking_detect, reading_pacman,
  reading_ghosts, reading_tick, publishing, detect_reporting, detect_failing, detector_ended,
  on_hit, View, GhostStep, TrackerStep, DetectorStep,
}
use pacman_posix.Enemy.Threads.{EnemyProcess, start_process, ControllerStep, Step, Reaches}
use pacman_posix.Enemy.Threads.Loads.{ghost_works, tracker_works, detector_works}
use pacman_posix.Enemy.Threads.Quiet.{IsQuiet, start-IsQuiet}
use pacman_posix.Enemy.Threads.Turns.{IsQuiet-at_work, reached-IsQuiet, controls_once}

-- What the collision thread has read is still so.
abbrev Seen : DetectorPlace → EnemyPosition → (ℕ → EnemyPosition) → Type 0
Seen (reading_ghosts p) pacman ghosts = p ≡ pacman
Seen (reading_tick p g) pacman ghosts = (p ≡ pacman) × (g ≡ ghosts)
Seen (publishing i tick) pacman ghosts = First ghosts pacman (some i)
Seen _ pacman ghosts = Unit {0}

abbrev SeenIn : EnemyProcess → Type 0
SeenIn s = Seen s.detector.place s.context.pacman_position s.context.ghosts

GhostStep-context :
    {g : ℕ} {is js : List EnemyInstruction} {v w : View GhostPlace}
    → GhostStep g is js v w
    → ghost_works v.helper.place ≡ 0
    → v.context ≡ w.context
GhostStep-context (GhostStep.loads is v e) h = refl
GhostStep-context (GhostStep.cannot_load is js v e) h = refl
GhostStep-context (GhostStep.asks_stop is v e) h = refl
GhostStep-context (GhostStep.takes_turn is v n e r) h = refl
GhostStep-context (GhostStep.checks is v e) h = refl
GhostStep-context (GhostStep.cannot_check is v e) h = refl
GhostStep-context (GhostStep.pops i is v e) h = refl
GhostStep-context (GhostStep.pops_none v e) h = refl
GhostStep-context (GhostStep.processes i is v e) h = absurd (ground arith)
GhostStep-context (GhostStep.reports is v e) h = refl
GhostStep-context (GhostStep.fails is v e) h = refl
GhostStep-context (GhostStep.gives_up is v e) h = refl

TrackerStep-context :
    {v w : View TrackerPlace}
    → TrackerStep v w
    → tracker_works v.helper.place ≡ 0
    → v.context ≡ w.context
TrackerStep-context (TrackerStep.takes_turn v n e r) h = refl
TrackerStep-context (TrackerStep.checks v e) h = refl
TrackerStep-context (TrackerStep.cannot_check v e) h = refl
TrackerStep-context (TrackerStep.reads v e) h = refl
TrackerStep-context (TrackerStep.writes v x y e) h = absurd (ground arith)
TrackerStep-context (TrackerStep.reports v e) h = refl
TrackerStep-context (TrackerStep.fails v e) h = refl
TrackerStep-context (TrackerStep.gives_up v e) h = refl

-- Who has read has to be left alone.
kept-Seen :
    (p : DetectorPlace) (c d : EnemyContext)
    → (detector_works p ≡ 1 → c ≡ d)
    → Seen p c.pacman_position c.ghosts
    → Seen p d.pacman_position d.ghosts
kept-Seen awaiting_detect c d same h = tt
kept-Seen checking_detect c d same h = tt
kept-Seen reading_pacman c d same h = tt
kept-Seen detect_reporting c d same h = tt
kept-Seen detect_failing c d same h = tt
kept-Seen detector_ended c d same h = tt
kept-Seen (reading_ghosts p) c d same h =
    subst (λ (x : EnemyContext). Seen (reading_ghosts p) x.pacman_position x.ghosts) (same refl) h
kept-Seen (reading_tick p g) c d same h =
    subst (λ (x : EnemyContext). Seen (reading_tick p g) x.pacman_position x.ghosts) (same refl) h
kept-Seen (publishing i tick) c d same h =
    subst (λ (x : EnemyContext). Seen (publishing i tick) x.pacman_position x.ghosts) (same refl) h

on_hit-Seen :
    (hit : Option ℕ) (tick : ℤ) (pacman : EnemyPosition) (ghosts : ℕ → EnemyPosition)
    → First ghosts pacman hit
    → Seen (on_hit hit tick) pacman ghosts
on_hit-Seen none tick pacman ghosts h = tt
on_hit-Seen (some i) tick pacman ghosts h = h

-- The collision thread reads what is there, and writes neither of the two.
abbrev SeenBy : View DetectorPlace → Type 0
SeenBy v = Seen v.helper.place v.context.pacman_position v.context.ghosts

place_is :
    (v : View DetectorPlace) {p : DetectorPlace}
    → v.helper.place ≡ p
    → SeenBy v
    → Seen p v.context.pacman_position v.context.ghosts
place_is v e h = subst (λ p. Seen p v.context.pacman_position v.context.ghosts) e h

checked-Seen :
    (stop : Bool) (pacman : EnemyPosition) (ghosts : ℕ → EnemyPosition)
    → Seen (if stop then detector_ended else reading_pacman) pacman ghosts
checked-Seen true pacman ghosts = tt
checked-Seen false pacman ghosts = tt

DetectorStep-Seen : {v w : View DetectorPlace} → DetectorStep v w → SeenBy v → SeenBy w
DetectorStep-Seen (DetectorStep.takes_turn v n e r) h = tt
DetectorStep-Seen (DetectorStep.checks v e) h =
    checked-Seen v.should_stop v.context.pacman_position v.context.ghosts
DetectorStep-Seen (DetectorStep.cannot_check v e) h = tt
DetectorStep-Seen (DetectorStep.reads_pacman v e) h = refl
DetectorStep-Seen (DetectorStep.reads_ghosts v p e) h = (place_is v e h, refl)
DetectorStep-Seen (DetectorStep.reads_tick v p g e) h =
    let (same_pacman, same_ghosts) = place_is v e h in
    on_hit-Seen (first_hit 0 ghost_count g p) v.context.shared.global_tick v.context.pacman_position
      v.context.ghosts
      (subst (λ q. First v.context.ghosts q (first_hit 0 ghost_count g p)) same_pacman
        (subst (λ f. First f p (first_hit 0 ghost_count g p)) same_ghosts (detected-First g p)))
DetectorStep-Seen (DetectorStep.publishes v i tick e) h = tt
DetectorStep-Seen (DetectorStep.reports v e) h = tt
DetectorStep-Seen (DetectorStep.fails v e) h = tt
DetectorStep-Seen (DetectorStep.gives_up v e) h = tt

ControllerStep-Seen : {s t : EnemyProcess} → ControllerStep s t → SeenIn s → SeenIn t
ControllerStep-Seen (ControllerStep.takes_turn s n e p) h = h
ControllerStep-Seen (ControllerStep.checks s e) h = h
ControllerStep-Seen (ControllerStep.cannot_check s e) h = h
ControllerStep-Seen (ControllerStep.posts_turn s k e) h = h
ControllerStep-Seen (ControllerStep.hears_ghost s k n e d) h = h
ControllerStep-Seen (ControllerStep.posts_tracker s e) h = h
ControllerStep-Seen (ControllerStep.hears_tracker s n e d) h = h
ControllerStep-Seen (ControllerStep.posts_collision s e) h = h
ControllerStep-Seen (ControllerStep.hears_collision s n e d) h = h
ControllerStep-Seen (ControllerStep.posts_done s e) h = h
ControllerStep-Seen (ControllerStep.stops s e) h = h
ControllerStep-Seen (ControllerStep.closes_ghost s k e) h = h
ControllerStep-Seen (ControllerStep.closes_tracker s e) h = h
ControllerStep-Seen (ControllerStep.closes_collision s e) h = h

Step-Seen : {s t : EnemyProcess} → Step s t → IsQuiet s → SeenIn s → SeenIn t
Step-Seen (Step.controller c) q h = ControllerStep-Seen c h
Step-Seen (Step.ghost s g is v few step) q h =
    kept-Seen s.detector.place s.context v.context
      (λ works.
        GhostStep-context step
          (omega (arith, works, IsQuiet-at_work s g few q, controls_once s.controller_at)))
      h
Step-Seen (Step.tracker s v step) q h =
    kept-Seen s.detector.place s.context v.context
      (λ works.
        TrackerStep-context step (
          omega (arith, works, IsQuiet-at_work s 0 (omega arith) q, controls_once s.controller_at)))
      h
Step-Seen (Step.detector s v step) q h = DetectorStep-Seen step h
Step-Seen (Step.turn_given s) q h = h
Step-Seen (Step.turn_confirmed s n e) q h = h
Step-Seen (Step.others_write s shared) q h = h

reached-Seen : {s t : EnemyProcess} → Reaches s t → IsQuiet s → SeenIn s → SeenIn t
reached-Seen (Reaches.here s) q h = h
reached-Seen (Reaches.then before step) q h =
    Step-Seen step (reached-IsQuiet before q) (reached-Seen before q h)

-- However the threads of P2 interleave with each other and with P0 and P1, and where its helpers fail:
-- when the collision thread is about to publish a ghost, that ghost still stands where the tracker has
-- seen Pac-Man last, and no ghost before it does.
pub enemy_process_collision :
    (context : EnemyContext) (files : ℕ → List EnemyInstruction) (s : EnemyProcess) (i : ℕ)
    (tick : ℤ)
    → Reaches (start_process context files) s
    → s.detector.place ≡ publishing i tick
    → (i < ghost_count)
      × (s.context.ghosts i ≡ s.context.pacman_position)
      × NoneBefore s.context.ghosts s.context.pacman_position i
unfolding start_process
enemy_process_collision context files s i tick reached e =
    subst (λ p. Seen p s.context.pacman_position s.context.ghosts) e
      (reached-Seen reached (start-IsQuiet context files) tt)
