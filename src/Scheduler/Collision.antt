-- ===== src/Scheduler/Collision.antt =====
-- Lives: what P0 does with a collision that P2 has published.
use pacman_posix.Prelude.{
  ℕ, zero, suc, ◌≡◌, ◌≢◌, inl, inr, refl, sym, ap, ap₂, subst, ◌∙◌, Bool, true, false, ◌||◌,
  if◌then◌else◌, arith, Bool-cases,
}
use pacman_posix.Prelude.Int.{ℤ, pos, negsuc, ◌+ℤ◌, eqb_ℤ, eqb_ℤ_iff, ltb_ℤ, leb_ℤ}
use pacman_posix.Posix.{
  World, Status, ok, stuck, state_mutex, collision_mutex, name, continue, when, critical,
}
use pacman_posix.Shared.{SharedState}
use pacman_posix.Scheduler.{
  Scheduler, on_state, lose_life, clear_collision_event, should_process, take_collision,
  decrement_life_for_collision, scheduler_process_collision_events,
}
use pacman_posix.Scheduler.Sections.{Section, Section-outcome, Section-ok, Section-ne-stuck}

-- What a whole round of `collision_manager_thread` does to the data when no call fails.
abbrev pub collided : Scheduler → Scheduler
collided s = if should_process s then on_state lose_life (take_collision s) else take_collision s

-- One life less, down to none; at none the game is over.
abbrev pub one_less : ℤ → ℤ
one_less (pos (suc n)) = pos n
one_less lives = lives

pub lose_life-lives : (s : SharedState) → (lose_life s).pacman_lives ≡ one_less s.pacman_lives
unfolding lose_life
lose_life-lives s = go s.pacman_lives
  where
    go : (l : ℤ) → (if ltb_ℤ (pos 0) l then l +ℤ negsuc 0 else l) ≡ one_less l
    go (pos zero) = refl
    go (pos (suc n)) = ground arith
    go (negsuc n) = ground arith

-- A collision is published, with another tick than the last one that was processed.
abbrev pub IsNew : Scheduler → Type 0
IsNew s =
    (s.state.collision_detected ≡ true) × (s.state.collision_tick ≢ s.last_processed_collision_tick)

-- What one call of `scheduler_process_collision_events` that succeeds has done.
pub record Collided (s t : Scheduler) : Type 0 where
  pub lives_if_new : IsNew s → t.state.pacman_lives ≡ one_less s.state.pacman_lives
  pub lives_else : ¬ IsNew s → t.state.pacman_lives ≡ s.state.pacman_lives
  pub over_if_new :
      IsNew s
      → t.state.game_over ≡ (s.state.game_over || leb_ℤ (one_less s.state.pacman_lives) (pos 0))
  pub over_else : ¬ IsNew s → t.state.game_over ≡ s.state.game_over
  pub cleared : t.state.collision_detected ≡ false
  pub remembered : t.last_processed_collision_tick ≡ (
      if s.state.collision_detected
      then s.state.collision_tick
      else s.last_processed_collision_tick)

should_process-IsNew : (s : Scheduler) → should_process s ≡ true → IsNew s
unfolding should_process
should_process-IsNew s h = (
  ground arith,
  λ e.
      let k = (eqb_ℤ_iff s.state.collision_tick s.last_processed_collision_tick).1 e in
      ground arith,
)

IsNew-should_process : (s : Scheduler) → IsNew s → should_process s ≡ true
unfolding should_process
IsNew-should_process s (detected, other) =
    elim (Bool-cases (eqb_ℤ s.state.collision_tick s.last_processed_collision_tick)) [
      | inl e ↦
          absurd (other ((eqb_ℤ_iff s.state.collision_tick s.last_processed_collision_tick).0 e))
      | inr e ↦ rw (detected, e) refl
    ]

take_collision-lives :
    (s : Scheduler) → (take_collision s).state.pacman_lives ≡ s.state.pacman_lives
unfolding take_collision clear_collision_event
take_collision-lives s = ground arith

take_collision-over : (s : Scheduler) → (take_collision s).state.game_over ≡ s.state.game_over
unfolding take_collision clear_collision_event
take_collision-over s = ground arith

take_collision-cleared : (s : Scheduler) → (take_collision s).state.collision_detected ≡ false
unfolding take_collision clear_collision_event
take_collision-cleared s = ground arith

take_collision-remembered :
    (s : Scheduler)
    → (take_collision s).last_processed_collision_tick ≡ (
        if s.state.collision_detected
        then s.state.collision_tick
        else s.last_processed_collision_tick)
unfolding take_collision should_process
take_collision-remembered s =
    ground (arith, eqb_ℤ_iff s.state.collision_tick s.last_processed_collision_tick)

pub lose_life-over :
    (s : SharedState)
    → (lose_life s).game_over ≡ (s.game_over || leb_ℤ (lose_life s).pacman_lives (pos 0))
unfolding lose_life
lose_life-over s = ground arith

lose_life-detected : (s : SharedState) → (lose_life s).collision_detected ≡ s.collision_detected
unfolding lose_life
lose_life-detected s = refl

collided-Collided : (s : Scheduler) → Collided s (collided s)
collided-Collided s = elim (Bool-cases (should_process s)) [
  | inl e ↦
      let new = should_process-IsNew s e in
      record {
        lives_if_new = λ n.
            rw e (lose_life-lives (take_collision s).state ∙ ap one_less (take_collision-lives s));
        lives_else = λ old. absurd (old new);
        over_if_new = λ n. rw e (
            lose_life-over (take_collision s).state
            ∙ ap₂ (λ (g : Bool) (l : ℤ). g || leb_ℤ l (pos 0)) (take_collision-over s)
                (lose_life-lives (take_collision s).state ∙ ap one_less (take_collision-lives s)));
        over_else = λ old. absurd (old new);
        cleared = rw e (lose_life-detected (take_collision s).state ∙ take_collision-cleared s);
        remembered = rw e (take_collision-remembered s);
      }
  | inr e ↦
      let old : ¬ IsNew s = λ n. let h = IsNew-should_process s n in absurd (ground arith) in
      record {
        lives_if_new = λ n. absurd (old n);
        lives_else = λ n. rw e (take_collision-lives s);
        over_if_new = λ n. absurd (old n);
        over_else = λ n. rw e (take_collision-over s);
        cleared = rw e (take_collision-cleared s);
        remembered = rw e (take_collision-remembered s);
      }
]

-- Every way in which the call can end: it never waits for itself, and it returns PACMAN_OK only with
-- its work done and the mutexes as before.
record Ends (w : World Scheduler) (r : Status (Unit {0}) × World Scheduler) : Type 0 where
  ne_stuck : r.0 ≢ stuck
  works : r.0 ≡ ok tt → (r.1.at ≡ collided w.at) × ((o : ℕ) → r.1.held o ≡ w.held o)

module _ (w : World Scheduler) (free : w.held (name state_mutex) ≡ false) where
  after_lock :
      (process : Bool) (q : World Scheduler)
      → should_process w.at ≡ process
      → q.at ≡ take_collision w.at
      → ((o : ℕ) → q.held o ≡ w.held o)
      → Ends w (when process decrement_life_for_collision q)
  after_lock false q e x h = record { ne_stuck = λ z. ground arith; works = λ z. (rw e x, h) }
  after_lock true q e x h =
      let s =
        Section-outcome state_mutex (on_state lose_life) (λ _. tt) q
          (h (name state_mutex) ∙ free) in
      record {
        ne_stuck = Section-ne-stuck s;
        works = λ z.
            let r = Section-ok s z in
            (r.1 ∙ ap (on_state lose_life) x ∙ rw e refl, λ o. r.2 o ∙ h o);
      }

  events_after :
      (q : Status Bool × World Scheduler)
      → Section collision_mutex take_collision (should_process w.at) w q
      → Ends w (continue q.0 (λ process. when process decrement_life_for_collision) q.1)
  events_after q (Section.done e x h) = rw e (after_lock (should_process w.at) q.1 refl x h)
  events_after q (Section.lock_failed e x h) =
      rw e (record { ne_stuck = λ z. ground arith; works = λ z. absurd (ground arith) })
  events_after q (Section.unlock_failed e x h) =
      rw e (record { ne_stuck = λ z. ground arith; works = λ z. absurd (ground arith) })

events-Ends :
    (w : World Scheduler)
    → w.held (name collision_mutex) ≡ false
    → w.held (name state_mutex) ≡ false
    → Ends w (scheduler_process_collision_events w)
unfolding scheduler_process_collision_events
events-Ends w free_collision free_state =
    events_after w free_state (critical collision_mutex take_collision should_process w)
      (Section-outcome collision_mutex take_collision should_process w free_collision)

-- When `scheduler_process_collision_events` returns PACMAN_OK: a published collision with another tick
-- than the last one costs exactly one life if there is one left, and no other costs any; the game
-- ends then if no life is left; no event is left to process, and its tick is remembered; P0 holds
-- the mutexes it held before.
pub scheduler_process_collision_events-Collided :
    (w : World Scheduler)
    → w.held (name collision_mutex) ≡ false
    → w.held (name state_mutex) ≡ false
    → (scheduler_process_collision_events w).0 ≡ ok tt
    → Collided w.at (scheduler_process_collision_events w).1.at
      × ((o : ℕ) → (scheduler_process_collision_events w).1.held o ≡ w.held o)
scheduler_process_collision_events-Collided w free_collision free_state h =
    let r = (events-Ends w free_collision free_state).works h in
    (subst (Collided w.at) (sym r.0) (collided-Collided w.at), r.1)
