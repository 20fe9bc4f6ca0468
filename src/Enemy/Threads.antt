-- ===== src/Enemy/Threads.antt =====
-- src/enemy.c, `enemy_process_run`: the controller and its helpers, the four ghosts, the tracker and
-- the collision thread, as steps that interleave with each other and with the turns that P0 gives.
pub mod Loads
pub mod Quiet
pub mod Turns
pub mod Due
pub mod Finishes
pub mod Snapshot
pub mod Blocked
mod Tests
use pacman_posix.Prelude.{
  ℕ, suc, ◌+◌, ◌<◌, ◌≡◌, Bool, true, false, List, ◌==◌, update, if◌then◌else◌,
}
use pacman_posix.Common.{ghost_count}
use pacman_posix.Shared.{SharedState}
use pacman_posix.Enemy.{EnemyInstruction, EnemyContext}
use pacman_posix.Enemy.Helpers.{
  GhostPlace, loading, TrackerPlace, awaiting_track, DetectorPlace, awaiting_detect, Helper, View,
  GhostStep, TrackerStep, DetectorStep,
}

-- Where the controller stands. `posting_turns k` has posted to `k` ghosts, `awaiting_ghosts k` has heard
-- of `k`; what comes after `request_stop` in `signal_helper_shutdown` is `closing`.
pub data ControllerPlace : Type 0 where
  awaiting_turn checking_game : ControllerPlace
  posting_turns awaiting_ghosts : ℕ → ControllerPlace
  posting_tracker awaiting_tracker posting_collision awaiting_collision posting_done :
      ControllerPlace
  stopping : ControllerPlace
  closing : ℕ → ControllerPlace
  closing_tracker closing_collision controller_ended : ControllerPlace

-- `EnemyContext` with the threads. `instructions i` is what is left of the list of ghost `i`
-- (Enemy/Instructions); `given` and `confirmed` count the turns that P0 gave and saw confirmed.
pub record EnemyProcess : Type 0 where
  pub context : EnemyContext
  pub should_stop : Bool
  pub enemy_turn : ℕ
  pub p2_done : ℕ
  pub given : ℕ
  pub confirmed : ℕ
  pub controller_at : ControllerPlace
  pub instructions : ℕ → List EnemyInstruction
  pub ghosts : ℕ → Helper GhostPlace
  pub tracker : Helper TrackerPlace
  pub detector : Helper DetectorPlace

-- After `context_init` and the `pthread_create`s, before the first turn; `files i` are the
-- instructions in the file of ghost `i`.
unfoldable pub start_process : EnemyContext → (ℕ → List EnemyInstruction) → EnemyProcess
start_process context files = record {
  context = context;
  should_stop = false;
  enemy_turn = 0;
  p2_done = 0;
  given = 0;
  confirmed = 0;
  controller_at = awaiting_turn;
  instructions = files;
  ghosts = λ _. record { place = loading; requested = 0; done = 0 };
  tracker = record { place = awaiting_track; requested = 0; done = 0 };
  detector = record { place = awaiting_detect; requested = 0; done = 0 };
}

abbrev pub request : {P : Type 0} → Helper P → Helper P
request h = record h { requested = h.requested + 1 }

abbrev pub request_ghost : ℕ → EnemyProcess → ℕ → Helper GhostPlace
request_ghost k s = update s.ghosts k (request (s.ghosts k))

-- The loop `for (i = 0; i < PACMAN_GHOST_COUNT; ++i)` at `k`, and what follows it.
abbrev pub loop_at : ℕ → ControllerPlace → (ℕ → ControllerPlace) → ControllerPlace
loop_at k after body = if k == ghost_count then after else body k

pub data ControllerStep : EnemyProcess → EnemyProcess → Type 0 where
  takes_turn :
      (s : EnemyProcess) (n : ℕ)
      → s.controller_at ≡ awaiting_turn
      → s.enemy_turn ≡ suc n
      → ControllerStep s (record s { enemy_turn = n; controller_at = checking_game })
  checks :
      (s : EnemyProcess)
      → s.controller_at ≡ checking_game
      → ControllerStep s (record s {
        controller_at = if s.context.shared.game_over then stopping else posting_turns 0;
      })
  cannot_check :
      (s : EnemyProcess)
      → s.controller_at ≡ checking_game
      → ControllerStep s (record s { controller_at = stopping })
  posts_turn :
      (s : EnemyProcess) (k : ℕ)
      → s.controller_at ≡ posting_turns k
      → ControllerStep s (record s {
        ghosts = request_ghost k s;
        controller_at = loop_at (k + 1) (awaiting_ghosts 0) posting_turns;
      })
  hears_ghost :
      (s : EnemyProcess) (k n : ℕ)
      → s.controller_at ≡ awaiting_ghosts k
      → (s.ghosts k).done ≡ suc n
      → ControllerStep s (record s {
        ghosts = update s.ghosts k (record (s.ghosts k) { done = n });
        controller_at = loop_at (k + 1) posting_tracker awaiting_ghosts;
      })
  posts_tracker :
      (s : EnemyProcess)
      → s.controller_at ≡ posting_tracker
      → ControllerStep s
          (record s { tracker = request s.tracker; controller_at = awaiting_tracker })
  hears_tracker :
      (s : EnemyProcess) (n : ℕ)
      → s.controller_at ≡ awaiting_tracker
      → s.tracker.done ≡ suc n
      → ControllerStep s
          (record s { tracker = record s.tracker { done = n }; controller_at = posting_collision })
  posts_collision :
      (s : EnemyProcess)
      → s.controller_at ≡ posting_collision
      → ControllerStep s
          (record s { detector = request s.detector; controller_at = awaiting_collision })
  hears_collision :
      (s : EnemyProcess) (n : ℕ)
      → s.controller_at ≡ awaiting_collision
      → s.detector.done ≡ suc n
      → ControllerStep s
          (record s { detector = record s.detector { done = n }; controller_at = posting_done })
  posts_done :
      (s : EnemyProcess)
      → s.controller_at ≡ posting_done
      → ControllerStep s (record s { p2_done = s.p2_done + 1; controller_at = awaiting_turn })
  stops :
      (s : EnemyProcess)
      → s.controller_at ≡ stopping
      → ControllerStep s (record s { should_stop = true; controller_at = closing 0 })
  closes_ghost :
      (s : EnemyProcess) (k : ℕ)
      → s.controller_at ≡ closing k
      → ControllerStep s (record s {
        ghosts = request_ghost k s;
        controller_at = loop_at (k + 1) closing_tracker closing;
      })
  closes_tracker :
      (s : EnemyProcess)
      → s.controller_at ≡ closing_tracker
      → ControllerStep s
          (record s { tracker = request s.tracker; controller_at = closing_collision })
  closes_collision :
      (s : EnemyProcess)
      → s.controller_at ≡ closing_collision
      → ControllerStep s
          (record s { detector = request s.detector; controller_at = controller_ended })

abbrev pub view : {P : Type 0} → Helper P → EnemyProcess → View P
view h s = record { helper = h; context = s.context; should_stop = s.should_stop }

abbrev pub after_ghost : EnemyProcess → ℕ → List EnemyInstruction → View GhostPlace → EnemyProcess
after_ghost s g is v = record s {
  context = v.context;
  should_stop = v.should_stop;
  instructions = update s.instructions g is;
  ghosts = update s.ghosts g v.helper;
}

-- A step of P2, or of P0, or of a process that writes to the shared state.
pub data Step : EnemyProcess → EnemyProcess → Type 0 where
  controller : {s t : EnemyProcess} → ControllerStep s t → Step s t
  ghost :
      (s : EnemyProcess) (g : ℕ) (is : List EnemyInstruction) (v : View GhostPlace)
      → g < ghost_count
      → GhostStep g (s.instructions g) is (view (s.ghosts g) s) v
      → Step s (after_ghost s g is v)
  tracker :
      (s : EnemyProcess) (v : View TrackerPlace)
      → TrackerStep (view s.tracker s) v
      → Step s (record s { context = v.context; should_stop = v.should_stop; tracker = v.helper })
  detector :
      (s : EnemyProcess) (v : View DetectorPlace)
      → DetectorStep (view s.detector s) v
      → Step s (record s { context = v.context; should_stop = v.should_stop; detector = v.helper })
  turn_given :
      (s : EnemyProcess) → Step s (record s { enemy_turn = s.enemy_turn + 1; given = s.given + 1 })
  turn_confirmed :
      (s : EnemyProcess) (n : ℕ)
      → s.p2_done ≡ suc n
      → Step s (record s { p2_done = n; confirmed = s.confirmed + 1 })
  others_write :
      (s : EnemyProcess) (shared : SharedState)
      → Step s (record s { context = record s.context { shared = shared } })

-- What can come of `s`.
pub data Reaches : EnemyProcess → EnemyProcess → Type 0 where
  here : (s : EnemyProcess) → Reaches s s
  then : {s t u : EnemyProcess} → Reaches s t → Step t u → Reaches s u
