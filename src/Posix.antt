-- ===== src/Posix.antt =====
-- What src/*.c use of POSIX on one thread, one call after the other: mutexes, semaphores and
-- condition variables that are made, used and destroyed, and calls that may fail. The calls that
-- fail are chosen from outside; a call that fails has no effect, and the code returns PACMAN_ERROR.
use pacman_posix.Prelude.{ℕ, ◌+◌, Bool, true, false, ◌==◌, if◌then◌else◌}

-- The objects of the three processes, with the name, the descriptor and the mapping of the shared
-- memory, and the child processes that are not waited for yet.
pub data Object : Type 0 where
  mutex_attributes state_mutex priority_mutex collision_mutex : Object
  sem_pacman_turn sem_enemy_turn sem_p1_done sem_p2_done : Object
  runtime_mutex tick_available selection_available turn_completed collision_completed : Object
  queue_mutex queue_available local_mutex publish_requested : Object
  stop_mutex ghost_mutex pacman_mutex : Object
  tracker_requested tracker_done collision_requested collision_done : Object
  shared_name shared_descriptor shared_mapping pacman_child enemy_child : Object
  turn_requested turn_done : (ghost : ℕ) → Object

-- A number for each object, by which the tables below are indexed.
abbrev pub name : Object → ℕ
name mutex_attributes = 0
name state_mutex = 1
name priority_mutex = 2
name collision_mutex = 3
name sem_pacman_turn = 4
name sem_enemy_turn = 5
name sem_p1_done = 6
name sem_p2_done = 7
name runtime_mutex = 8
name tick_available = 9
name selection_available = 10
name turn_completed = 11
name collision_completed = 12
name queue_mutex = 13
name queue_available = 14
name local_mutex = 15
name publish_requested = 16
name stop_mutex = 17
name ghost_mutex = 18
name pacman_mutex = 19
name tracker_requested = 20
name tracker_done = 21
name collision_requested = 22
name collision_done = 23
name shared_name = 24
name shared_descriptor = 25
name shared_mapping = 26
name pacman_child = 27
name enemy_child = 28
name (turn_requested i) = 29 + (i + i)
name (turn_done i) = 30 + (i + i)

abbrev pub Flags : Type 0
Flags = ℕ → Bool

abbrev pub put : Flags → Object → Bool → Flags
put f o b p = if name o == p then b else f p

-- What a thread sees: its data, the objects that exist, the mutexes that it holds, and how many
-- calls it has made. `succeeds n` tells whether the n-th call succeeds.
pub record World (S : Type 0) : Type 0 where
  pub at : S
  pub live : Flags
  pub held : Flags
  pub calls : ℕ
  pub succeeds : ℕ → Bool

-- `stuck` is a thread that cannot go on alone: it waits for a mutex which it holds itself, or for a
-- semaphore whose value is 0, or it has followed a dangling pointer.
pub data Status (A : Type 0) : Type 0 where
  ok : A → Status A
  error : Status A
  stuck : Status A

abbrev pub M : Type 0 → Type 0 → Type 0
M S A = World S → Status A × World S

module _ {S A B : Type 0} where
  abbrev pub continue : Status A → (A → M S B) → M S B
  continue (ok a) f w = f a w
  continue error f w = (error, w)
  continue stuck f w = (stuck, w)

  infixl 5 ◌>>=◌
  abbrev pub ◌>>=◌ : M S A → (A → M S B) → M S B
  ◌>>=◌ m f w = continue (m w).0 f (m w).1

module _ {S B : Type 0} where
  infixl 5 ◌>>◌
  abbrev pub ◌>>◌ : M S (Unit {0}) → M S B → M S B
  m >> k = m >>= λ _. k

module _ {S A : Type 0} where
  abbrev pub pure : A → M S A
  pure a w = (ok a, w)

  -- `return PACMAN_ERROR;`
  abbrev pub raise : M S A
  raise w = (error, w)

  abbrev pub recover : Status A → M S A → M S A
  recover (ok a) c w = (ok a, w)
  recover error c w = c w
  recover stuck c w = (stuck, w)

  -- `if (m != PACMAN_OK) { c }`
  abbrev pub on_error : M S A → M S A → M S A
  on_error m c w = recover (m w).0 c (m w).1

  abbrev pub gets : (S → A) → M S A
  gets f w = (ok (f w.at), w)

module _ {S : Type 0} where
  abbrev pub modify : (S → S) → M S (Unit {0})
  modify f w = (ok tt, record w { at = f w.at })

  abbrev pub when : Bool → M S (Unit {0}) → M S (Unit {0})
  when b m = if b then m else pure tt

  -- A call with no effect but its result.
  abbrev pub call : M S (Unit {0})
  call w = (if w.succeeds w.calls then ok tt else error, record w { calls = w.calls + 1 })

  abbrev pub create : Object → M S (Unit {0})
  create o w = (ok tt, record w { live = put w.live o true })

  -- `pthread_mutex_init`, `sem_init`, `pthread_cond_init`, `pthread_mutexattr_init`
  abbrev pub init : Object → M S (Unit {0})
  init o = call >> create o

  -- `pthread_mutex_destroy` and the like; no caller looks at the result.
  abbrev pub destroy : Object → M S (Unit {0})
  destroy o w = (ok tt, record w { live = put w.live o false })

  abbrev pub take_mutex : Object → M S (Unit {0})
  take_mutex m w = (ok tt, record w { held = put w.held m true })

  -- `lock_mutex`: the mutexes are not recursive.
  abbrev pub lock_mutex : Object → M S (Unit {0})
  lock_mutex m w = if w.held (name m) then (stuck, w) else (call >> take_mutex m) w

  abbrev pub unlock_mutex : Object → M S (Unit {0})
  unlock_mutex m = call >> λ w. (ok tt, record w { held = put w.held m false })

-- `lock_mutex`, a body that reads by `g` and then writes by `f`, `unlock_mutex`; the code returns
-- PACMAN_ERROR where either call does.
abbrev pub critical : {S A : Type 0} → Object → (S → S) → (S → A) → M S A
critical m f g = lock_mutex m >> (gets g >>= λ a. modify f >> unlock_mutex m >> pure a)

-- `m`, its status ignored.
abbrev pub ignore : {S : Type 0} → M S (Unit {0}) → M S (Unit {0})
ignore m w = recover (m w).0 (pure tt) (m w).1

abbrev pub worse : Status (Unit {0}) → Status (Unit {0}) → Status (Unit {0})
worse (ok _) s = s
worse error (ok _) = error
worse error error = error
worse error stuck = stuck
worse stuck s = stuck

abbrev pub also_if : {S : Type 0} → Status (Unit {0}) → M S (Unit {0}) → M S (Unit {0})
also_if stuck k w = (stuck, w)
also_if s k w = (worse s (k w).0, (k w).1)

-- `if (m != PACMAN_OK) { status = PACMAN_ERROR; } if (k != PACMAN_OK) { status = PACMAN_ERROR; }`
abbrev pub also : {S : Type 0} → M S (Unit {0}) → M S (Unit {0}) → M S (Unit {0})
also m k w = also_if (m w).0 k (m w).1

-- A function on a part of the data.
abbrev pub zoom : {S T A : Type 0} → (S → T) → (T → S → S) → M T A → M S A
zoom get set m w =
    let r = m (record {
      at = get w.at;
      live = w.live;
      held = w.held;
      calls = w.calls;
      succeeds = w.succeeds;
    }) in
    (
      r.0,
      record {
        at = set r.1.at w.at;
        live = r.1.live;
        held = r.1.held;
        calls = r.1.calls;
        succeeds = r.1.succeeds;
      },
    )
