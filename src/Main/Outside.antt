-- ===== src/Main/Outside.antt =====
-- What the operations that `main` calls do to the objects outside the shared memory: the name, the
-- descriptor and the mapping of it, and the children.
use pacman_posix.Prelude.{
  ℕ, ◌≤◌, ◌≡◌, ◌≢◌, refl, ◌∙◌, ap, Bool, true, false, Option, none, some, arith,
}
use pacman_posix.Prelude.Int.{ℤ}
use pacman_posix.Map.{Map}
use pacman_posix.Posix.{World, Status, ok, error, stuck, continue}
use pacman_posix.Shared.{
  SharedState, Environ, shared_state_initialize, initialize_mutexes, initialize_semaphores,
  prepare_objects, is_too_big, load_initial_priorities,
}
use pacman_posix.Shared.Prepare.{prepared, prepare_state_lem}
use pacman_posix.Scheduler.{Scheduler, scheduler_request_shutdown}

-- The numbers of the objects outside are 24 and above.
objects-outside : (w : World SharedState) (o : ℕ) → 24 ≤ o → (prepare_objects w).1.live o ≡ w.live o
unfolding prepare_objects initialize_mutexes initialize_semaphores
objects-outside w o far = ground arith

objects-never_stuck : (w : World SharedState) → (prepare_objects w).0 ≢ stuck
unfolding prepare_objects initialize_mutexes initialize_semaphores
objects-never_stuck w h = ground arith

pub shutdown-outside :
    (w : World Scheduler) (o : ℕ) → (scheduler_request_shutdown w).1.live o ≡ w.live o
unfolding scheduler_request_shutdown
shutdown-outside w o = ground arith

prepared-live :
    (p : Option (ℤ × ℤ)) (big : Bool) (map : Map) (max_ticks : ℤ) (w : World SharedState)
    → ((prepared p big map max_ticks w).1.live ≡ w.live)
      × ((prepared p big map max_ticks w).0 ≢ stuck)
prepared-live none big map max_ticks w = (refl, λ h. cc)
prepared-live (some p) true map max_ticks w = (refl, λ h. cc)
prepared-live (some p) false map max_ticks w = (refl, λ h. cc)

outside_after :
    (r : Status (Unit {0}) × World SharedState)
    → r.0 ≢ stuck
    → let q = continue r.0 (λ _. prepare_objects) r.1 in
      (q.0 ≢ stuck) × ((o : ℕ) → 24 ≤ o → q.1.live o ≡ r.1.live o)
outside_after (ok u, w) h = (objects-never_stuck w, objects-outside w)
outside_after (error, w) h = ((λ e. cc), λ o far. refl)
outside_after (stuck, w) h = absurd (h refl)

pub initialize-outside :
    (getenv : Environ) (map : Map) (max_ticks : ℤ) (w : World SharedState)
    → let q = shared_state_initialize getenv map max_ticks w in
      (q.0 ≢ stuck) × ((o : ℕ) → 24 ≤ o → q.1.live o ≡ w.live o)
unfolding shared_state_initialize
initialize-outside getenv map max_ticks w =
    let p = load_initial_priorities getenv in
    let (l, n) = prepared-live p (is_too_big map) map max_ticks w in
    let (a, b) = outside_after (prepared p (is_too_big map) map max_ticks w) n in
    rw (prepare_state_lem getenv map max_ticks w) (a, λ o far. b o far ∙ ap (λ f. f o) l)
