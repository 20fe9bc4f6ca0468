-- ===== src/Scheduler/Dry.antt =====
-- The dry run of the scheduler: how long it takes and how it ends.
pub mod Ends
use pacman_posix.Prelude.{
  ℕ, zero, suc, ◌+◌, ◌-◌, ◌<◌, ◌≤◌, ◌≡◌, ◌≢◌, ◌⊎◌, inl, inr, refl, sym, ap, subst, ◌∙◌, Bool, true,
  false, not, Option, none, some, if◌then◌else◌, arith, Bool-cases,
}
use pacman_posix.Prelude.Int.{ℤ, pos, ◌+ℤ◌, ◌≤ℤ◌, ltb_ℤ, leb_ℤ}
use pacman_posix.Posix.{
  Object, World, Status, ok, error, stuck, state_mutex, priority_mutex, name, continue, critical,
}
use pacman_posix.Shared.{SharedState}
use pacman_posix.Scheduler.{
  Scheduler, on_state, next_tick, ticks_are_over, ticks_left, dry_tick, dry_round, dry_body,
  dry_loop, scheduler_run_dry, apply_requests, scheduler_apply_priority_requests,
  scheduler_select_next_process, select_by_priority_or_round_robin, scheduler_print_tick_log,
  SchedulerProcess,
}
use pacman_posix.Scheduler.Sections.{Section, Section-outcome}
use pacman_posix.Scheduler.Priority.{Applied, apply_requests-Applied}

-- The two mutexes that the dry run takes.
abbrev pub Free : World Scheduler → Type 0
Free w = (w.held (name state_mutex) ≡ false) × (w.held (name priority_mutex) ≡ false)

-- The two clocks of the shared state are as they were.
abbrev SameTicks : Scheduler → Scheduler → Type 0
SameTicks s t =
    (t.state.global_tick ≡ s.state.global_tick) × (t.state.max_ticks ≡ s.state.max_ticks)

-- A part of the round ends well, with the mutexes free, or with an error.
data Part {A : Type 0} (w : World Scheduler) (r : Status A × World Scheduler) : Type 0 where
  went : (a : A) → r.0 ≡ ok a → SameTicks w.at r.1.at → Free r.1 → Part w r
  broke : r.0 ≡ error → SameTicks w.at r.1.at → Part w r

Part-Section :
    {A : Type 0} {m : Object} {f : Scheduler → Scheduler} {a : A} {w : World Scheduler}
    {r : Status A × World Scheduler}
    → Section m f a w r
    → SameTicks w.at (f w.at)
    → Free w
    → Part w r
Part-Section (Section.done e x h) k free = went _ e (rw x k) (h _ ∙ free.0, h _ ∙ free.1)
Part-Section (Section.lock_failed e x h) k free = broke e (rw x (refl, refl))
Part-Section (Section.unlock_failed e x h) k free = broke e (rw x k)

Part-from :
    {A : Type 0} {w v : World Scheduler} {r : Status A × World Scheduler}
    → SameTicks w.at v.at
    → Part v r
    → Part w r
Part-from k (went a e x h) = went a e (x.0 ∙ k.0, x.1 ∙ k.1) h
Part-from k (broke e x) = broke e (x.0 ∙ k.0, x.1 ∙ k.1)

Part-then :
    {A B : Type 0} {w : World Scheduler} (r : Status A × World Scheduler)
    (f : A → World Scheduler → Status B × World Scheduler)
    → Part w r
    → ((a : A) (v : World Scheduler) → Free v → Part v (f a v))
    → Part w (continue r.0 f r.1)
Part-then r f (went a e x h) k = rw e (Part-from x (k a r.1 h))
Part-then r f (broke e x) k = rw e (broke refl x)

apply-Part : (w : World Scheduler) → Free w → Part w (scheduler_apply_priority_requests w)
unfolding scheduler_apply_priority_requests
apply-Part w free =
    let a = apply_requests-Applied w.at.state in
    Part-Section (Section-outcome priority_mutex (on_state apply_requests) (λ _. tt) w free.1)
      (ap (λ (t : SharedState). t.global_tick) a.rest, ap (λ (t : SharedState). t.max_ticks) a.rest)
      free

select-Part : (w : World Scheduler) → Free w → Part w (scheduler_select_next_process w)
unfolding scheduler_select_next_process select_by_priority_or_round_robin
select-Part w free =
    Part-Section
      (Section-outcome priority_mutex (λ s. (select_by_priority_or_round_robin s).1)
        (λ s. (select_by_priority_or_round_robin s).0) w free.1)
      (refl, refl) free

print-Part : (w : World Scheduler) → Free w → Part w (scheduler_print_tick_log w)
unfolding scheduler_print_tick_log
print-Part w free =
    Part-then _ _
      (Part-Section (Section-outcome state_mutex (λ s. s) (λ _. tt) w free.0) (refl, refl) free)
      (λ a v h.
        Part-Section (Section-outcome priority_mutex (λ s. s) (λ _. tt) v h.1) (refl, refl) h)

round-Part : (w : World Scheduler) → Free w → Part w (dry_round w)
unfolding dry_round
round-Part w free =
    Part-then _ _ (apply-Part w free)
      (λ a v h. Part-then _ _ (select-Part v h) (λ p u k. print-Part u k))

-- The tick at which a run stops.
abbrev pub last_tick : ℤ → ℤ → ℤ
last_tick max_ticks tick = if leb_ℤ max_ticks tick then tick else max_ticks

abbrev pub final_tick : SharedState → ℤ
final_tick s = last_tick s.max_ticks s.global_tick

-- One round: there is another one, a tick later; or the ticks were over; or a call failed, before or
-- after the tick.
pub data Round (w : World Scheduler) (r : Status Bool × World Scheduler) : Type 0 where
  again :
      r.0 ≡ ok true
      → leb_ℤ w.at.state.max_ticks w.at.state.global_tick ≡ false
      → r.1.at.state.global_tick ≡ w.at.state.global_tick +ℤ pos 1
      → r.1.at.state.max_ticks ≡ w.at.state.max_ticks
      → Free r.1
      → Round w r
  over :
      r.0 ≡ ok false
      → leb_ℤ w.at.state.max_ticks w.at.state.global_tick ≡ true
      → SameTicks w.at r.1.at
      → Round w r
  failed :
      r.0 ≡ error
      → w.at.state.global_tick ≤ℤ r.1.at.state.global_tick
      → r.1.at.state.global_tick ≤ℤ final_tick w.at.state
      → r.1.at.state.max_ticks ≡ w.at.state.max_ticks
      → Round w r

tick_stays : (m g : ℤ) → (g ≤ℤ g) × (g ≤ℤ last_tick m g)
tick_stays m g = (omega arith, ground arith)

tick_fits : (m g : ℤ) → leb_ℤ m g ≡ false → (g ≤ℤ g +ℤ pos 1) × (g +ℤ pos 1 ≤ℤ last_tick m g)
tick_fits m g h = (ground arith, ground arith)

failed_same :
    (w : World Scheduler) (r : Status Bool × World Scheduler)
    → r.0 ≡ error
    → SameTicks w.at r.1.at
    → Round w r
failed_same w r e x =
    let k = tick_stays w.at.state.max_ticks w.at.state.global_tick in
    failed e (rw (x.0) (k.0)) (rw (x.0) (k.1)) (x.1)

failed_later :
    (w : World Scheduler) (r : Status Bool × World Scheduler)
    → leb_ℤ w.at.state.max_ticks w.at.state.global_tick ≡ false
    → r.0 ≡ error
    → r.1.at.state.global_tick ≡ w.at.state.global_tick +ℤ pos 1
    → r.1.at.state.max_ticks ≡ w.at.state.max_ticks
    → Round w r
failed_later w r h e x y =
    let k = tick_fits w.at.state.max_ticks w.at.state.global_tick h in
    failed e (rw x (k.0)) (rw x (k.1)) y

-- The rest of a round, once the tick is counted.
Round-after :
    (w v : World Scheduler) (r : Status (Unit {0}) × World Scheduler)
    → leb_ℤ w.at.state.max_ticks w.at.state.global_tick ≡ false
    → v.at.state.global_tick ≡ w.at.state.global_tick +ℤ pos 1
    → v.at.state.max_ticks ≡ w.at.state.max_ticks
    → Part v r
    → Round w (continue r.0 (λ _ u. (ok true, u)) r.1)
Round-after w v r h x y (went a e k free) = rw e (again refl h (k.0 ∙ x) (k.1 ∙ y) free)
Round-after w v r h x y (broke e k) = rw e (failed_later w (error, r.1) h refl (k.0 ∙ x) (k.1 ∙ y))

abbrev tick_step : Scheduler → Scheduler
tick_step s = if ticks_are_over s.state then s else on_state next_tick s

abbrev rest_of : Bool → World Scheduler → Status Bool × World Scheduler
rest_of more =
    if more
    then (λ v. continue (dry_round v).0 (λ _ u. (ok true, u)) (dry_round v).1)
    else (λ v. (ok false, v))

after_tick :
    (w : World Scheduler) (r : Status Bool × World Scheduler) (b : Bool)
    → Free w
    → ticks_are_over w.at.state ≡ b
    → Section state_mutex tick_step (not (ticks_are_over w.at.state)) w r
    → Round w (continue r.0 rest_of r.1)
unfolding ticks_are_over next_tick
after_tick w r true free h (Section.done e x k) = rw (e, h) (over refl h (rw (x, h) (refl, refl)))
after_tick w r false free h (Section.done e x k) =
    rw (e, h)
      (Round-after w r.1 (dry_round r.1) h (rw (x, h) refl) (rw (x, h) refl)
        (round-Part r.1 (k _ ∙ free.0, k _ ∙ free.1)))
after_tick w r b free h (Section.lock_failed e x k) =
    rw e (failed_same w (error, r.1) refl (rw x (refl, refl)))
after_tick w r true free h (Section.unlock_failed e x k) =
    rw e (failed_same w (error, r.1) refl (rw (x, h) (refl, refl)))
after_tick w r false free h (Section.unlock_failed e x k) =
    rw e (failed_later w (error, r.1) h refl (rw (x, h) refl) (rw (x, h) refl))

pub body-Round : (w : World Scheduler) → Free w → Round w (dry_body w)
unfolding dry_body dry_tick
body-Round w free =
    after_tick w (critical state_mutex tick_step (λ s. not (ticks_are_over s.state)) w) _ free refl
      (Section-outcome state_mutex tick_step (λ s. not (ticks_are_over s.state)) w free.0)
