-- ===== src/Shared/Memory/Release.antt =====
-- Nothing of the shared memory is left behind unless a call that gives it back fails.
use pacman_posix.Prelude.{
  ℕ, ◌≡◌, ◌⊎◌, inl, inr, refl, Bool, true, false, ◌&&◌, ◌||◌, ◌==◌, if◌then◌else◌, arith,
}
use pacman_posix.Posix.{World, Status, ok, error, stuck, M, also, also_if, worse}
use pacman_posix.Shared.Objects.{is_shared_mutex, is_shared_semaphore}
use pacman_posix.Shared.{destroy_sync_objects}
use pacman_posix.Shared.Memory.{
  SharedMemory, release_state, release_fd, release_name, shared_memory_release,
}

abbrev belongs_state : SharedMemory → ℕ → Bool
belongs_state m o =
    m.is_mapped && (o == 26 || (m.sync_initialized && (is_shared_mutex o || is_shared_semaphore o)))

-- The objects that `shared_memory_release` gives back.
abbrev pub belongs : SharedMemory → ℕ → Bool
belongs m o = (m.is_named && o == 24) || (m.fd_open && o == 25) || belongs_state m o

abbrev pub Released : World SharedMemory → Status (Unit {0}) × World SharedMemory → Type 0
Released w r =
    ((r.0 ≡ ok tt) × ((o : ℕ) → r.1.live o ≡ (if belongs w.at o then false else w.live o)))
    ⊎ ((r.0 ≡ error) × (r.1.at.release_failed ≡ true))

pub release-never_stuck : (w : World SharedMemory) → (shared_memory_release w).0 ≡ stuck → ⊥
unfolding shared_memory_release destroy_sync_objects
release-never_stuck w h = ground arith

pub release-failed :
    (w : World SharedMemory)
    → (shared_memory_release w).0 ≡ error
    → (shared_memory_release w).1.at.release_failed ≡ true
unfolding shared_memory_release destroy_sync_objects
release-failed w h = ground arith

both_ok :
    (s : Status (Unit {0})) (k : M SharedMemory (Unit {0})) (v : World SharedMemory)
    → (also_if s k v).0 ≡ ok tt
    → (s ≡ ok tt) × ((k v).0 ≡ ok tt) × ((also_if s k v).1 ≡ (k v).1)
both_ok (ok u) k v h = (refl, h, refl)
both_ok error k v h = absurd (error-worse (k v).0 h)
  where
    error-worse : (s : Status (Unit {0})) → worse error s ≡ ok tt → ⊥
    error-worse (ok u) e = cc
    error-worse error e = cc
    error-worse stuck e = cc
both_ok stuck k v h = absurd cc

-- What each of the three parts leaves when it succeeds.
state-left :
    (w : World SharedMemory) (o : ℕ)
    → (release_state w).0 ≡ ok tt
    → ((release_state w).1.live o ≡ (if belongs_state w.at o then false else w.live o))
      × ((release_state w).1.at.fd_open ≡ w.at.fd_open)
      × ((release_state w).1.at.is_named ≡ w.at.is_named)
unfolding destroy_sync_objects
state-left w o h = (ground arith, ground arith, ground arith)

fd-left :
    (w : World SharedMemory) (o : ℕ)
    → (release_fd w).0 ≡ ok tt
    → ((release_fd w).1.live o ≡ (if w.at.fd_open && o == 25 then false else w.live o))
      × ((release_fd w).1.at.is_named ≡ w.at.is_named)
fd-left w o h = (ground arith, ground arith)

name-left :
    (w : World SharedMemory) (o : ℕ)
    → (release_name w).0 ≡ ok tt
    → (release_name w).1.live o ≡ (if w.at.is_named && o == 24 then false else w.live o)
name-left w o h = ground arith

pub release-left :
    (w : World SharedMemory) (o : ℕ)
    → (shared_memory_release w).0 ≡ ok tt
    → (shared_memory_release w).1.live o ≡ (if belongs w.at o then false else w.live o)
unfolding shared_memory_release
release-left w o h =
    let first = also release_state release_fd w in
    let (e1, e2, e3) = both_ok first.0 release_name first.1 h in
    let state = release_state w in
    let (f1, f2, f3) = both_ok state.0 release_fd state.1 e1 in
    let (l1, n1, n2) = state-left w o f1 in
    let (l2, n3) = fd-left state.1 o f2 in
    let l3 = name-left first.1 o e2 in
    rw (e3, l3, f3, l2, n3, l1, n1, n2) (by_cases w.at o (w.live o))
  where
    by_cases :
        (m : SharedMemory) (o : ℕ) (b : Bool)
        → (if m.is_named && o == 24
            then false
            else if m.fd_open && o == 25
            then false
            else if belongs_state m o
            then false
            else b)
          ≡ (if belongs m o then false else b)
    by_cases m o b = ground arith

release-closed :
    (w : World SharedMemory)
    → ((shared_memory_release w).1.at.fd_open ≡ false)
      × ((shared_memory_release w).1.at.is_mapped ≡ false)
unfolding shared_memory_release destroy_sync_objects
release-closed w = (ground arith, ground arith)

release_by :
    (w : World SharedMemory) (s : Status (Unit {0}))
    → (shared_memory_release w).0 ≡ s
    → Released w (shared_memory_release w)
release_by w (ok u) e = inl (e, λ o. release-left w o e)
release_by w error e = inr (e, release-failed w e)
release_by w stuck e = absurd (release-never_stuck w e)

-- Whichever of its calls fail, `shared_memory_release` leaves neither a descriptor nor an address
-- behind that would be used again. It returns PACMAN_OK and has given back exactly the name, the
-- descriptor, the mapping, and the semaphores and mutexes that it has to, or it returns PACMAN_ERROR
-- because a call that gives something back has failed.
pub shared_memory_release-Released :
    (w : World SharedMemory)
    → Released w (shared_memory_release w)
      × ((shared_memory_release w).1.at.fd_open ≡ false)
      × ((shared_memory_release w).1.at.is_mapped ≡ false)
shared_memory_release-Released w = let (a, b) = release-closed w in (release_by w _ refl, a, b)
