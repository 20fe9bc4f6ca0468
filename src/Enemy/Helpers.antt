-- ===== src/Enemy/Helpers.antt =====
-- src/enemy.c: a ghost's thread, the tracker and the collision thread, each with its own steps. A step
-- is one critical section or one call on a semaphore; a thread that waits on a semaphore has no step
-- while its value is 0.
use pacman_posix.Prelude.{
  ℕ, suc, ◌+◌, ◌≡◌, Bool, true, false, List, [], ◌∷◌, Option, none, some, if◌then◌else◌,
}
use pacman_posix.Prelude.Int.{ℤ}
use pacman_posix.Common.{ghost_count}
use pacman_posix.Enemy.{
  EnemyInstruction, EnemyInstructionType, instruction_move, instruction_set_priority, EnemyPosition,
  EnemyContext, move_ghost, ask_enemy_priority, record_collision, first_hit,
}

-- Where each thread stands.
pub data GhostPlace : Type 0 where
  loading load_failed awaiting_ghost_turn checking_stop popping reporting failing ghost_ended :
      GhostPlace
  processing : EnemyInstruction → GhostPlace

pub data TrackerPlace : Type 0 where
  awaiting_track checking_track reading_shared track_reporting track_failing tracker_ended :
      TrackerPlace
  writing : (x y : ℤ) → TrackerPlace

pub data DetectorPlace : Type 0 where
  awaiting_detect checking_detect reading_pacman detect_reporting detect_failing detector_ended :
      DetectorPlace
  reading_ghosts : (pacman : EnemyPosition) → DetectorPlace
  reading_tick : (pacman : EnemyPosition) (ghosts : ℕ → EnemyPosition) → DetectorPlace
  publishing : (ghost : ℕ) (tick : ℤ) → DetectorPlace

-- A helper thread: its place, and the semaphores between it and the controller.
pub record Helper (Place : Type 0) : Type 0 where
  pub place : Place
  pub requested : ℕ
  pub done : ℕ

-- What a helper thread sees: itself, the context, and `should_stop`.
pub record View (Place : Type 0) : Type 0 where
  pub helper : Helper Place
  pub context : EnemyContext
  pub should_stop : Bool

abbrev pub at_place : {P : Type 0} → P → View P → View P
at_place p v = record v { helper = record v.helper { place = p } }

-- `sem_post` of the semaphore that the controller waits for, and back to the head of the loop.
abbrev pub report : {P : Type 0} → P → View P → View P
report p v = record v { helper = record v.helper { place = p; done = v.helper.done + 1 } }

-- `sem_wait` of the semaphore that the controller posts, which then is `n`.
abbrev pub wake : {P : Type 0} → ℕ → P → View P → View P
wake n p v = record v { helper = record v.helper { place = p; requested = n } }

-- `request_stop(context); break;`
abbrev pub give_up : {P : Type 0} → P → View P → View P
give_up p v = record v { helper = record v.helper { place = p }; should_stop = true }

-- What `process_ghost_instruction` does to the context.
abbrev pub carry_out_type :
    EnemyInstructionType → ℕ → EnemyInstruction → EnemyContext → EnemyContext
carry_out_type instruction_move ghost i c = move_ghost ghost i.direction c
carry_out_type instruction_set_priority ghost i c = record c {
  shared = ask_enemy_priority i.priority c.shared;
}

unfoldable pub carry_out : ℕ → EnemyInstruction → EnemyContext → EnemyContext
carry_out ghost i c = carry_out_type i.type ghost i c

-- Where a failed call makes a ghost leave its loop.
abbrev pub may_fail : GhostPlace → Bool
may_fail awaiting_ghost_turn = true
may_fail (processing i) = true
may_fail reporting = true
may_fail _ = false

-- A step of ghost `g`, whose list goes from the first one given to the second.
pub data GhostStep (g : ℕ)
    : List EnemyInstruction
      → List EnemyInstruction
      → View GhostPlace
      → View GhostPlace
      → Type 0 where
  loads :
      (is : List EnemyInstruction) (v : View GhostPlace)
      → v.helper.place ≡ loading
      → GhostStep g is is v (at_place awaiting_ghost_turn v)
  cannot_load :
      (is some_of_them : List EnemyInstruction) (v : View GhostPlace)
      → v.helper.place ≡ loading
      → GhostStep g is some_of_them v (at_place load_failed v)
  asks_stop :
      (is : List EnemyInstruction) (v : View GhostPlace)
      → v.helper.place ≡ load_failed
      → GhostStep g is is v (give_up awaiting_ghost_turn v)
  takes_turn :
      (is : List EnemyInstruction) (v : View GhostPlace) (n : ℕ)
      → v.helper.place ≡ awaiting_ghost_turn
      → v.helper.requested ≡ suc n
      → GhostStep g is is v (wake n checking_stop v)
  checks :
      (is : List EnemyInstruction) (v : View GhostPlace)
      → v.helper.place ≡ checking_stop
      → GhostStep g is is v (at_place (if v.should_stop then ghost_ended else popping) v)
  cannot_check :
      (is : List EnemyInstruction) (v : View GhostPlace)
      → v.helper.place ≡ checking_stop
      → GhostStep g is is v (at_place ghost_ended v)
  pops :
      (i : EnemyInstruction) (is : List EnemyInstruction) (v : View GhostPlace)
      → v.helper.place ≡ popping
      → GhostStep g (i ∷ is) is v (at_place (processing i) v)
  pops_none :
      (v : View GhostPlace) → v.helper.place ≡ popping → GhostStep g [] [] v (at_place reporting v)
  processes :
      (i : EnemyInstruction) (is : List EnemyInstruction) (v : View GhostPlace)
      → v.helper.place ≡ processing i
      → GhostStep g is is v (record (at_place reporting v) { context = carry_out g i v.context })
  reports :
      (is : List EnemyInstruction) (v : View GhostPlace)
      → v.helper.place ≡ reporting
      → GhostStep g is is v (report awaiting_ghost_turn v)
  fails :
      (is : List EnemyInstruction) (v : View GhostPlace)
      → may_fail v.helper.place ≡ true
      → GhostStep g is is v (at_place failing v)
  gives_up :
      (is : List EnemyInstruction) (v : View GhostPlace)
      → v.helper.place ≡ failing
      → GhostStep g is is v (give_up ghost_ended v)

abbrev pub track_may_fail : TrackerPlace → Bool
track_may_fail awaiting_track = true
track_may_fail reading_shared = true
track_may_fail (writing x y) = true
track_may_fail track_reporting = true
track_may_fail _ = false

pub data TrackerStep : View TrackerPlace → View TrackerPlace → Type 0 where
  takes_turn :
      (v : View TrackerPlace) (n : ℕ)
      → v.helper.place ≡ awaiting_track
      → v.helper.requested ≡ suc n
      → TrackerStep v (wake n checking_track v)
  checks :
      (v : View TrackerPlace)
      → v.helper.place ≡ checking_track
      → TrackerStep v (at_place (if v.should_stop then tracker_ended else reading_shared) v)
  reads :
      (v : View TrackerPlace)
      → v.helper.place ≡ reading_shared
      → TrackerStep v (at_place (writing v.context.shared.pacman_x v.context.shared.pacman_y) v)
  writes :
      (v : View TrackerPlace) (x y : ℤ)
      → v.helper.place ≡ writing x y
      → TrackerStep v (record (at_place track_reporting v) {
        context = record v.context { pacman_position = record { x = x; y = y } };
      })
  reports :
      (v : View TrackerPlace)
      → v.helper.place ≡ track_reporting
      → TrackerStep v (report awaiting_track v)
  cannot_check :
      (v : View TrackerPlace)
      → v.helper.place ≡ checking_track
      → TrackerStep v (at_place tracker_ended v)
  fails :
      (v : View TrackerPlace)
      → track_may_fail v.helper.place ≡ true
      → TrackerStep v (at_place track_failing v)
  gives_up :
      (v : View TrackerPlace)
      → v.helper.place ≡ track_failing
      → TrackerStep v (give_up tracker_ended v)

-- The end of `detect_collision`: publish, or return.
abbrev pub on_hit : Option ℕ → ℤ → DetectorPlace
on_hit none tick = detect_reporting
on_hit (some i) tick = publishing i tick

abbrev pub detect_may_fail : DetectorPlace → Bool
detect_may_fail checking_detect = false
detect_may_fail detect_failing = false
detect_may_fail detector_ended = false
detect_may_fail _ = true

pub data DetectorStep : View DetectorPlace → View DetectorPlace → Type 0 where
  takes_turn :
      (v : View DetectorPlace) (n : ℕ)
      → v.helper.place ≡ awaiting_detect
      → v.helper.requested ≡ suc n
      → DetectorStep v (wake n checking_detect v)
  checks :
      (v : View DetectorPlace)
      → v.helper.place ≡ checking_detect
      → DetectorStep v (at_place (if v.should_stop then detector_ended else reading_pacman) v)
  reads_pacman :
      (v : View DetectorPlace)
      → v.helper.place ≡ reading_pacman
      → DetectorStep v (at_place (reading_ghosts v.context.pacman_position) v)
  reads_ghosts :
      (v : View DetectorPlace) (pacman : EnemyPosition)
      → v.helper.place ≡ reading_ghosts pacman
      → DetectorStep v (at_place (reading_tick pacman v.context.ghosts) v)
  reads_tick :
      (v : View DetectorPlace) (pacman : EnemyPosition) (ghosts : ℕ → EnemyPosition)
      → v.helper.place ≡ reading_tick pacman ghosts
      → DetectorStep v
          (at_place (on_hit (first_hit 0 ghost_count ghosts pacman) v.context.shared.global_tick) v)
  publishes :
      (v : View DetectorPlace) (i : ℕ) (tick : ℤ)
      → v.helper.place ≡ publishing i tick
      → DetectorStep v (record (at_place detect_reporting v) {
        context = record v.context { shared = record_collision (i + 1) tick v.context.shared };
      })
  reports :
      (v : View DetectorPlace)
      → v.helper.place ≡ detect_reporting
      → DetectorStep v (report awaiting_detect v)
  cannot_check :
      (v : View DetectorPlace)
      → v.helper.place ≡ checking_detect
      → DetectorStep v (at_place detector_ended v)
  fails :
      (v : View DetectorPlace)
      → detect_may_fail v.helper.place ≡ true
      → DetectorStep v (at_place detect_failing v)
  gives_up :
      (v : View DetectorPlace)
      → v.helper.place ≡ detect_failing
      → DetectorStep v (give_up detector_ended v)
