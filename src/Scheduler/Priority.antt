-- ===== src/Scheduler/Priority.antt =====
-- SET_PRIORITY in P0: what becomes of the two requests at the start of a tick.
use pacman_posix.Prelude.{
  ℕ, ◌≡◌, ◌≢◌, inl, inr, Bool-cases, sym, subst, refl, Bool, true, false, ◌&&◌, if◌then◌else◌,
  arith,
}
use pacman_posix.Prelude.Int.{ℤ}
use pacman_posix.Posix.{World, ok, stuck, priority_mutex, name}
use pacman_posix.Shared.{SharedState}
use pacman_posix.Shared.Priorities.{InRange}
use pacman_posix.Scheduler.{
  Scheduler, on_state, is_priority_in_range, apply_pacman_priority_request,
  apply_enemy_priority_request, apply_pacman_if, apply_enemy_if, apply_requests,
  scheduler_apply_priority_requests,
}
use pacman_posix.Scheduler.Sections.{
  Section, Section-outcome, Section-ne-stuck, Section-ok, Section-keeps,
}

-- What a mailbox leads to: a request from 0 to 100 is granted, and nothing else.
pub record Granted (active : Bool) (pending current result : ℤ) : Type 0 where
  pub taken : active ≡ true → InRange pending → result ≡ pending
  pub refused : active ≡ true → ¬ InRange pending → result ≡ current
  pub unasked : active ≡ false → result ≡ current

-- Everything but the two priorities and the two flags.
abbrev pub but_priorities : SharedState → SharedState → SharedState
but_priorities s t = record t {
  prioridad_pacman = s.prioridad_pacman;
  prioridad_enemy = s.prioridad_enemy;
  priority_request_active = s.priority_request_active;
  enemy_priority_request_active = s.enemy_priority_request_active;
}

-- What the code between the two calls on the mutex does with both mailboxes.
pub record Applied (s t : SharedState) : Type 0 where
  pub pacman :
      Granted s.priority_request_active s.pending_priority_pacman s.prioridad_pacman
        t.prioridad_pacman
  pub enemy :
      Granted s.enemy_priority_request_active s.pending_priority_enemy s.prioridad_enemy
        t.prioridad_enemy
  pub pacman_taken : t.priority_request_active ≡ false
  pub enemy_taken : t.enemy_priority_request_active ≡ false
  pub rest : but_priorities s t ≡ s

abbrev pub InRanges : SharedState → Type 0
InRanges s = InRange s.prioridad_pacman × InRange s.prioridad_enemy

is_priority_in_range-InRange : (p : ℤ) → is_priority_in_range p ≡ true → InRange p
unfolding is_priority_in_range
is_priority_in_range-InRange p h = ground arith

InRange-is_priority_in_range : (p : ℤ) → InRange p → is_priority_in_range p ≡ true
unfolding is_priority_in_range
InRange-is_priority_in_range p h = ground arith

-- The priority that the code computes from a mailbox.
granted : Bool → ℤ → ℤ → ℤ
granted active pending current = if active && is_priority_in_range pending then pending else current

granted-Granted :
    (active : Bool) (pending current : ℤ)
    → Granted active pending current (granted active pending current)
unfolding granted
granted-Granted active pending current = record {
  taken = λ a r. rw (a, InRange-is_priority_in_range pending r) refl;
  refused = λ a r. elim (Bool-cases (is_priority_in_range pending)) [
    | inl e ↦ absurd (r (is_priority_in_range-InRange pending e))
    | inr e ↦ rw (a, e) refl
  ];
  unasked = λ a. rw a refl;
}

rest_same :
    (s : SharedState) (p e : Bool) → but_priorities s (apply_enemy_if e (apply_pacman_if p s)) ≡ s
unfolding apply_pacman_if apply_enemy_if
rest_same s false false = refl
rest_same s false true = refl
rest_same s true false = refl
rest_same s true true = refl

same_enemy_flag :
    (s : SharedState)
    → (apply_pacman_priority_request s).enemy_priority_request_active
      ≡ s.enemy_priority_request_active
unfolding apply_pacman_priority_request
same_enemy_flag s = ground arith

apply_requests-pacman :
    (s : SharedState)
    → (apply_requests s).prioridad_pacman
      ≡ granted s.priority_request_active s.pending_priority_pacman s.prioridad_pacman
unfolding apply_requests apply_pacman_priority_request apply_enemy_priority_request granted
apply_requests-pacman s = ground arith

apply_requests-enemy :
    (s : SharedState)
    → (apply_requests s).prioridad_enemy
      ≡ granted s.enemy_priority_request_active s.pending_priority_enemy s.prioridad_enemy
unfolding apply_requests apply_pacman_priority_request apply_enemy_priority_request granted
apply_requests-enemy s = ground arith

pub apply_requests-Applied : (s : SharedState) → Applied s (apply_requests s)
unfolding apply_requests apply_pacman_priority_request apply_enemy_priority_request
apply_requests-Applied s = record {
  pacman = rw (apply_requests-pacman s) (granted-Granted _ _ _);
  enemy = rw (apply_requests-enemy s) (granted-Granted _ _ _);
  pacman_taken = ground arith;
  enemy_taken = ground arith;
  rest =
      rw (same_enemy_flag s, apply_enemy_if)
        (rest_same s s.priority_request_active s.enemy_priority_request_active);
}

-- The outcomes of `scheduler_apply_priority_requests`, whichever calls fail, when P0 does not hold
-- the mutex already: it is done, or the lock failed and nothing changed, or the unlock failed.
scheduler_apply_priority_requests-Section :
    (w : World Scheduler)
    → w.held (name priority_mutex) ≡ false
    → Section priority_mutex (on_state apply_requests) tt w (scheduler_apply_priority_requests w)
unfolding scheduler_apply_priority_requests
scheduler_apply_priority_requests-Section w free =
    Section-outcome priority_mutex (on_state apply_requests) (λ _. tt) w free

-- When `scheduler_apply_priority_requests` returns PACMAN_OK, both mailboxes are empty, each
-- priority is the requested one if there was a request between 0 and 100 and the old one
-- otherwise, nothing else of the shared state has changed, and P0 holds the mutexes it held before.
pub scheduler_apply_priority_requests-Applied :
    (w : World Scheduler)
    → w.held (name priority_mutex) ≡ false
    → (scheduler_apply_priority_requests w).0 ≡ ok tt
    → Applied w.at.state (scheduler_apply_priority_requests w).1.at.state
      × ((o : ℕ) → (scheduler_apply_priority_requests w).1.held o ≡ w.held o)
scheduler_apply_priority_requests-Applied w free h =
    let r = Section-ok (scheduler_apply_priority_requests-Section w free) h in
    (
      subst (λ (t : Scheduler). Applied w.at.state t.state) (sym r.1)
          (apply_requests-Applied w.at.state),
      r.2,
    )

granted-InRange :
    (active : Bool) (pending current : ℤ)
    → InRange current
    → InRange (granted active pending current)
unfolding granted
granted-InRange active pending current r =
    elim (Bool-cases (active && is_priority_in_range pending)) [
      | inl e ↦ rw e (is_priority_in_range-InRange pending (ground arith))
      | inr e ↦ rw e r
    ]

pub apply_requests-InRanges : (s : SharedState) → InRanges s → InRanges (apply_requests s)
apply_requests-InRanges s h = (
  subst InRange (sym (apply_requests-pacman s)) (granted-InRange _ _ _ h.0),
  subst InRange (sym (apply_requests-enemy s)) (granted-InRange _ _ _ h.1),
)

-- Whatever is asked for and whichever calls fail, `scheduler_apply_priority_requests` keeps both
-- priorities between 0 and 100, and it never waits for a mutex that P0 holds; when P0 does not hold
-- `priority_mutex` before.
pub scheduler_apply_priority_requests-InRanges :
    (w : World Scheduler)
    → w.held (name priority_mutex) ≡ false
    → InRanges w.at.state
    → InRanges (scheduler_apply_priority_requests w).1.at.state
      × ((scheduler_apply_priority_requests w).0 ≢ stuck)
scheduler_apply_priority_requests-InRanges w free h =
    let s = scheduler_apply_priority_requests-Section w free in
    (
      Section-keeps (λ (t : Scheduler). InRanges t.state) s (apply_requests-InRanges w.at.state) h,
      Section-ne-stuck s,
    )
