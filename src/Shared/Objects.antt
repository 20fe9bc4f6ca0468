-- ===== src/Shared/Objects.antt =====
-- The mutexes and semaphores of src/shared.c: what exists after their initialisation, and after it
-- failed at any of its calls.
use pacman_posix.Prelude.{
  ℕ, ◌≡◌, ◌≢◌, ◌⊎◌, ◌||◌, ◌==◌, inl, inr, refl, Bool, true, false, arith, Option, none, some,
}
use pacman_posix.Posix.{continue, on_error, raise, ◌>>◌, Flags, World, Status, ok, error, stuck}
use pacman_posix.Prelude.Int.{ℤ}
use pacman_posix.Map.{Map}
use pacman_posix.Shared.Prepare.{prepared, prepare_state_lem}
use pacman_posix.Shared.{
  SharedState, Environ, load_initial_priorities, is_too_big, destroy_mutexes, initialize_mutexes,
  initialize_semaphores, prepare_objects, shared_state_initialize,
}

-- Nothing exists.
abbrev pub AllClear : Flags → Type 0
AllClear live = (o : ℕ) → live o ≡ false

-- The three mutexes of the shared state, and nothing else.
abbrev pub is_shared_mutex : ℕ → Bool
is_shared_mutex o = o == 1 || o == 2 || o == 3

abbrev pub is_shared_semaphore : ℕ → Bool
is_shared_semaphore o = o == 4 || o == 5 || o == 6 || o == 7

module _ (w : World SharedState) (clear : AllClear w.live) where
  initialize_mutexes-error :
      (initialize_mutexes w).0 ≡ error → AllClear (initialize_mutexes w).1.live
  unfolding initialize_mutexes
  initialize_mutexes-error h o = ground (arith, clear o)

  initialize_mutexes-ok :
      (initialize_mutexes w).0 ≡ ok tt
      → (o : ℕ) → (initialize_mutexes w).1.live o ≡ is_shared_mutex o
  unfolding initialize_mutexes
  initialize_mutexes-ok h o = ground (arith, clear o)

  -- No call locks anything here.
  initialize_mutexes-ne-stuck : (initialize_mutexes w).0 ≢ stuck
  unfolding initialize_mutexes
  initialize_mutexes-ne-stuck h = ground arith

module _ (w : World SharedState) (before : (o : ℕ) → w.live o ≡ is_shared_mutex o) where
  initialize_semaphores-error :
      (initialize_semaphores w).0 ≡ error
      → (o : ℕ) → (initialize_semaphores w).1.live o ≡ is_shared_mutex o
  unfolding initialize_semaphores
  initialize_semaphores-error h o = ground (arith, before o)

  initialize_semaphores-ok :
      (initialize_semaphores w).0 ≡ ok tt
      → (o : ℕ) → (initialize_semaphores w).1.live o ≡ (is_shared_mutex o || is_shared_semaphore o)
  unfolding initialize_semaphores
  initialize_semaphores-ok h o = ground (arith, before o)

  initialize_semaphores-ne-stuck : (initialize_semaphores w).0 ≢ stuck
  unfolding initialize_semaphores
  initialize_semaphores-ne-stuck h = ground arith

-- Either everything exists and the call succeeded, or nothing does and it failed.
abbrev Built : Status (Unit {0}) → Flags → Type 0
Built (ok _) live = (o : ℕ) → live o ≡ (is_shared_mutex o || is_shared_semaphore o)
Built error live = AllClear live
Built stuck live = ⊥

-- The semaphores, once the mutexes exist.
semaphores-Built :
    (w : World SharedState) (before : (o : ℕ) → w.live o ≡ is_shared_mutex o)
    → (s : Status (Unit {0})) → (initialize_semaphores w).0 ≡ s
    → let r = on_error initialize_semaphores (destroy_mutexes >> raise) w in Built r.0 r.1.live
semaphores-Built w before (ok u) e = rw e (initialize_semaphores-ok w before e)
semaphores-Built w before error e =
    rw e (λ o. ground (arith, initialize_semaphores-error w before e o))
semaphores-Built w before stuck e = absurd (initialize_semaphores-ne-stuck w before e)

prepare_objects-Built :
    (w : World SharedState) (clear : AllClear w.live)
    → (s : Status (Unit {0})) → (initialize_mutexes w).0 ≡ s
    → Built (prepare_objects w).0 (prepare_objects w).1.live
unfolding prepare_objects
prepare_objects-Built w clear (ok u) e =
    rw e (semaphores-Built (initialize_mutexes w).1 (initialize_mutexes-ok w clear e) _ refl)
prepare_objects-Built w clear error e = rw e (initialize_mutexes-error w clear e)
prepare_objects-Built w clear stuck e = absurd (initialize_mutexes-ne-stuck w clear e)

prepared-live :
    (o : Option (ℤ × ℤ)) (big : Bool) (map : Map) (max_ticks : ℤ) (w : World SharedState)
    → (prepared o big map max_ticks w).1.live ≡ w.live
prepared-live none big map max_ticks w = refl
prepared-live (some p) true map max_ticks w = refl
prepared-live (some p) false map max_ticks w = refl

-- From any result of the first half.
objects_after :
    (r : Status (Unit {0}) × World SharedState)
    → r.0 ≢ stuck
    → AllClear r.1.live
    → let q = continue r.0 (λ _. prepare_objects) r.1 in Built q.0 q.1.live
objects_after (ok u, w) h clear = prepare_objects-Built w clear _ refl
objects_after (error, w) h clear = clear
objects_after (stuck, w) h clear = absurd (h refl)

prepared-ne-stuck :
    (o : Option (ℤ × ℤ)) (big : Bool) (map : Map) (max_ticks : ℤ) (w : World SharedState)
    → (prepared o big map max_ticks w).0 ≢ stuck
prepared-ne-stuck none big map max_ticks w h = cc
prepared-ne-stuck (some p) true map max_ticks w h = cc
prepared-ne-stuck (some p) false map max_ticks w h = cc

Built-sum :
    (s : Status (Unit {0})) (live : Flags)
    → Built s live
    → ((s ≡ ok tt) × ((o : ℕ) → live o ≡ (is_shared_mutex o || is_shared_semaphore o)))
      ⊎ ((s ≡ error) × AllClear live)
Built-sum (ok u) live b = inl (refl, b)
Built-sum error live b = inr (refl, b)
Built-sum stuck live b = absurd b

initialize-Built :
    (getenv : Environ) (map : Map) (max_ticks : ℤ) (w : World SharedState)
    → AllClear w.live
    → Built
        (shared_state_initialize getenv map max_ticks w).0
        (shared_state_initialize getenv map max_ticks w).1.live
unfolding shared_state_initialize
initialize-Built getenv map max_ticks w clear = rw (prepare_state_lem getenv map max_ticks w) (
    objects_after (prepared (load_initial_priorities getenv) (is_too_big map) map max_ticks w)
      (prepared-ne-stuck (load_initial_priorities getenv) (is_too_big map) map max_ticks w)
      (rw (prepared-live (load_initial_priorities getenv) (is_too_big map) map max_ticks w) clear))

-- From a state where no object exists, and whichever of its calls fail: `shared_state_initialize`
-- either returns PACMAN_OK and exactly the three mutexes and the four semaphores of the shared
-- state exist, or it returns PACMAN_ERROR and nothing that it made is left.
pub shared_state_initialize_objects :
    (getenv : Environ) (map : Map) (max_ticks : ℤ) (w : World SharedState)
    → AllClear w.live
    → let r = shared_state_initialize getenv map max_ticks w in
      ((r.0 ≡ ok tt) × ((o : ℕ) → r.1.live o ≡ (is_shared_mutex o || is_shared_semaphore o)))
      ⊎ ((r.0 ≡ error) × AllClear r.1.live)
shared_state_initialize_objects getenv map max_ticks w clear =
    Built-sum _ _ (initialize-Built getenv map max_ticks w clear)
