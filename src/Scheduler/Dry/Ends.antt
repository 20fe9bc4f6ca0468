-- ===== src/Scheduler/Dry/Ends.antt =====
-- The loop of `scheduler_run_dry`.
use pacman_posix.Prelude.{
  ℕ, zero, suc, ◌+◌, ◌-◌, ◌<◌, ◌≡◌, ◌⊎◌, inl, inr, refl, sym, subst, ◌∙◌, true, false, Option, some,
  arith,
}
use pacman_posix.Prelude.Int.{ℤ, pos, pos_part, neg_part, ◌+ℤ◌, ◌≤ℤ◌, leb_ℤ}
use pacman_posix.Posix.{World, Status, ok, error, state_mutex, priority_mutex, name}
use pacman_posix.Scheduler.{Scheduler, ticks_left, dry_body, dry_loop, scheduler_run_dry}
use pacman_posix.Scheduler.Dry.{Round, body-Round, Free, last_tick, final_tick}

-- How the run can end: well, at the last tick; or with an error, on the way there.
pub record Ran (w v : World Scheduler) (result : Status (Unit {0})) : Type 0 where
  pub later : w.at.state.global_tick ≤ℤ v.at.state.global_tick
  pub bounded : v.at.state.global_tick ≤ℤ final_tick w.at.state
  pub same_limit : v.at.state.max_ticks ≡ w.at.state.max_ticks
  pub outcome :
      ((result ≡ ok tt) × (v.at.state.global_tick ≡ final_tick w.at.state)) ⊎ (result ≡ error)

abbrev left : ℤ → ℤ → ℕ
left m g = pos_part m + neg_part g - (pos_part g + neg_part m)

left_step :
    (m g : ℤ) (fuel : ℕ) → leb_ℤ m g ≡ false → left m g < suc fuel → left m (g +ℤ pos 1) < fuel
left_step m g fuel h l = ground arith

last_step : (m g : ℤ) → leb_ℤ m g ≡ false → last_tick m (g +ℤ pos 1) ≡ last_tick m g
last_step m g h = ground arith

last_over : (m g : ℤ) → leb_ℤ m g ≡ true → last_tick m g ≡ g
last_over m g h = ground arith

le_step : (m g t : ℤ) → g +ℤ pos 1 ≤ℤ t → g ≤ℤ t
le_step m g t h = ground arith

le_self : (a : ℤ) → a ≤ℤ a
le_self a = omega arith

abbrev Ends : World Scheduler → Option (Status (Unit {0}) × World Scheduler) → Type 0
Ends w run =
    (result : Status (Unit {0})) × (v : World Scheduler) × (run ≡ some (result, v)) × Ran w v result

-- A run from the world after a round is the rest of the run from the world before.
later_run :
    (w v : World Scheduler) (run : Option (Status (Unit {0}) × World Scheduler))
    → leb_ℤ w.at.state.max_ticks w.at.state.global_tick ≡ false
    → v.at.state.global_tick ≡ w.at.state.global_tick +ℤ pos 1
    → v.at.state.max_ticks ≡ w.at.state.max_ticks
    → Ends v run
    → Ends w run
later_run w v run h x y (result, u, e, r) =
    let same : final_tick v.at.state ≡ final_tick w.at.state =
      rw (x, y) (last_step w.at.state.max_ticks w.at.state.global_tick h) in
    (
      result,
      u,
      e,
      record {
        later =
            le_step w.at.state.max_ticks w.at.state.global_tick u.at.state.global_tick
              (subst (λ t. t ≤ℤ u.at.state.global_tick) x r.later);
        bounded = subst (λ t. u.at.state.global_tick ≤ℤ t) same r.bounded;
        same_limit = r.same_limit ∙ y;
        outcome =
            subst (λ t. ((result ≡ ok tt) × (u.at.state.global_tick ≡ t)) ⊎ (result ≡ error)) same
              r.outcome;
      },
    )

dry_loop-Ends :
    (fuel : ℕ) (w : World Scheduler)
    → Free w
    → left w.at.state.max_ticks w.at.state.global_tick < fuel
    → Ends w (dry_loop fuel w)
unfolding dry_loop
dry_loop-Ends zero w free enough = absurd (omega arith)
dry_loop-Ends (suc fuel) w free enough = elim (body-Round w free) [
  | Round.again e h x y later ↦ rw e (
      later_run w (dry_body w).1 (dry_loop fuel (dry_body w).1) h x y (
        dry_loop-Ends fuel (dry_body w).1 later
          (rw (x, y) (left_step w.at.state.max_ticks w.at.state.global_tick fuel h enough))))
  | Round.over e h x ↦ rw e (
    ok tt,
    (dry_body w).1,
    refl,
    record {
      later = rw (x.0) (le_self w.at.state.global_tick);
      bounded =
          rw (x.0, last_over w.at.state.max_ticks w.at.state.global_tick h)
            (le_self w.at.state.global_tick);
      same_limit = x.1;
      outcome = inl (refl, x.0 ∙ sym (last_over w.at.state.max_ticks w.at.state.global_tick h));
    },
  )
  | Round.failed e a b c ↦ rw e (
    error,
    (dry_body w).1,
    refl,
    record { later = a; bounded = b; same_limit = c; outcome = inr refl },
  )
]

-- `scheduler_run_dry` always ends, whichever of its calls fail, when P0 holds neither of the two
-- mutexes before: it returns PACMAN_OK at the last tick, which is `max_ticks` or the present tick if
-- that is not smaller, or PACMAN_ERROR; the tick only grows, never past the last one, and
-- `max_ticks` is as before.
pub scheduler_run_dry-Ran :
    (w : World Scheduler)
    → w.held (name state_mutex) ≡ false
    → w.held (name priority_mutex) ≡ false
    → (result : Status (Unit {0})) × (v : World Scheduler) × (scheduler_run_dry w
        ≡ some (result, v))
      × Ran w v result
unfolding scheduler_run_dry ticks_left
scheduler_run_dry-Ran w free_state free_priority =
    dry_loop-Ends (left w.at.state.max_ticks w.at.state.global_tick + 1) w
      (free_state, free_priority) (omega arith)
