-- ===== src/Scheduler/Choice.antt =====
-- Which process P0 gives the turn to.
use pacman_posix.Prelude.{
  ℕ, zero, suc, ◌+◌, ◌≡◌, ◌≢◌, ◌⊎◌, inl, inr, refl, sym, ap, subst, ◌∙◌, true, false, arith,
  Bool-cases,
}
use mathlib.Core.Bool.{false≢true}
use pacman_posix.Prelude.Int.{ℤ, ◌≤ℤ◌, eqb_ℤ, eqb_ℤ_iff}
use pacman_posix.Posix.{World, ok, priority_mutex, name}
use pacman_posix.Shared.{SharedState}
use pacman_posix.Scheduler.{
  SchedulerProcess, process_pacman, process_enemy, Scheduler, alternate, choose,
  select_by_priority_or_round_robin, scheduler_select_next_process,
}
use pacman_posix.Scheduler.Sections.{Section-outcome, Section-ok}

abbrev pub priority_of : SharedState → SchedulerProcess → ℤ
priority_of s process_pacman = s.prioridad_pacman
priority_of s process_enemy = s.prioridad_enemy

-- `selected` is the right choice in `s`, and `t` is the scheduler after it.
pub record Chosen (s t : Scheduler) (selected : SchedulerProcess) : Type 0 where
  pub highest :
      (other : SchedulerProcess) → priority_of s.state other ≤ℤ priority_of s.state selected
  pub in_turn :
      ((s.state.prioridad_pacman ≡ s.state.prioridad_enemy)
        × (selected ≡ t.last_round_robin)
        × (selected ≢ s.last_round_robin))
      ⊎ ((s.state.prioridad_pacman ≢ s.state.prioridad_enemy)
          × (t.last_round_robin ≡ s.last_round_robin))
  pub same_state : t.state ≡ s.state
  pub same_collision : t.last_processed_collision_tick ≡ s.last_processed_collision_tick

choose_highest :
    (s : SharedState) (last other : SchedulerProcess)
    → priority_of s other ≤ℤ priority_of s (choose s.prioridad_pacman s.prioridad_enemy last).0
unfolding choose
choose_highest s process_pacman process_pacman = ground arith
choose_highest s process_pacman process_enemy = ground arith
choose_highest s process_enemy process_pacman = ground arith
choose_highest s process_enemy process_enemy = ground arith

alternate-ne : (last : SchedulerProcess) → alternate last ≢ last
unfolding alternate
alternate-ne process_pacman h = cc
alternate-ne process_enemy h = cc

choose_tie :
    (p e : ℤ) (last : SchedulerProcess)
    → eqb_ℤ p e ≡ true
    → choose p e last ≡ (alternate last, alternate last)
unfolding choose
choose_tie p e last h = ground arith

choose_last : (p e : ℤ) (last : SchedulerProcess) → eqb_ℤ p e ≡ false → (choose p e last).1 ≡ last
unfolding choose
choose_last p e last h = ground arith

eqb_ne : (p e : ℤ) → eqb_ℤ p e ≡ false → p ≢ e
eqb_ne p e h q = false≢true (sym h ∙ (eqb_ℤ_iff p e).1 q)

choose_in_turn :
    (p e : ℤ) (last : SchedulerProcess)
    → ((p ≡ e) × ((choose p e last).0 ≡ (choose p e last).1) × ((choose p e last).0 ≢ last))
      ⊎ ((p ≢ e) × ((choose p e last).1 ≡ last))
choose_in_turn p e last = elim (Bool-cases (eqb_ℤ p e)) [
  | inl h ↦ rw (choose_tie p e last h) (inl ((eqb_ℤ_iff p e).0 h, refl, alternate-ne last))
  | inr h ↦ inr (eqb_ne p e h, choose_last p e last h)
]

select-Chosen :
    (s : Scheduler)
    → Chosen s (select_by_priority_or_round_robin s).1 (select_by_priority_or_round_robin s).0
unfolding select_by_priority_or_round_robin
select-Chosen s = record {
  highest = choose_highest s.state s.last_round_robin;
  in_turn = choose_in_turn s.state.prioridad_pacman s.state.prioridad_enemy s.last_round_robin;
  same_state = refl;
  same_collision = refl;
}

-- When `scheduler_select_next_process` returns PACMAN_OK, no process has a higher priority than the
-- one selected; if the two are equal, it is the one that was not selected at the last tie, and it is
-- remembered; if they differ, the memory of ties is as before; the shared state is unchanged.
pub scheduler_select_next_process-Chosen :
    (w : World Scheduler) (selected : SchedulerProcess)
    → w.held (name priority_mutex) ≡ false
    → (scheduler_select_next_process w).0 ≡ ok selected
    → Chosen w.at (scheduler_select_next_process w).1.at selected
unfolding scheduler_select_next_process
scheduler_select_next_process-Chosen w selected free h =
    let r =
      Section-ok
        (Section-outcome priority_mutex (λ s. (select_by_priority_or_round_robin s).1)
          (λ s. (select_by_priority_or_round_robin s).0) w free)
        h in
    subst (λ (p : SchedulerProcess). Chosen w.at (scheduler_select_next_process w).1.at p) r.0
      (subst (λ (t : Scheduler). Chosen w.at t (select_by_priority_or_round_robin w.at).0) (sym r.1)
        (select-Chosen w.at))

-- The choices of `rounds` ticks between which no request comes in: how often Pac-Man is selected.
pub pacman_turns : ℕ → Scheduler → ℕ
pacman_turns zero s = 0
pacman_turns (suc rounds) s =
    let r = select_by_priority_or_round_robin s in
    (elim r.0 [ process_pacman ↦ 1 | process_enemy ↦ 0 ]) + pacman_turns rounds r.1

tie_step :
    (s : Scheduler)
    → eqb_ℤ s.state.prioridad_pacman s.state.prioridad_enemy ≡ true
    → select_by_priority_or_round_robin s
      ≡ (alternate s.last_round_robin, record s { last_round_robin = alternate s.last_round_robin })
unfolding select_by_priority_or_round_robin
tie_step s h = rw (choose_tie s.state.prioridad_pacman s.state.prioridad_enemy s.last_round_robin h)

abbrev at_turn : SharedState → ℤ → SchedulerProcess → Scheduler
at_turn state tick last = record {
  state = state;
  last_round_robin = last;
  last_processed_collision_tick = tick;
}

tie_pair :
    (rounds : ℕ) (state : SharedState) (tick : ℤ) (last : SchedulerProcess)
    → eqb_ℤ state.prioridad_pacman state.prioridad_enemy ≡ true
    → pacman_turns (suc (suc rounds)) (at_turn state tick last)
      ≡ suc (pacman_turns rounds (at_turn state tick last))
unfolding pacman_turns alternate
tie_pair rounds state tick process_pacman h =
    rw (tie_step (at_turn state tick process_pacman) h)
      (rw (tie_step (at_turn state tick process_enemy) h) (omega arith))
tie_pair rounds state tick process_enemy h =
    rw (tie_step (at_turn state tick process_enemy) h)
      (rw (tie_step (at_turn state tick process_pacman) h) (omega arith))

-- While the priorities are equal the two processes share the ticks evenly: of 2 * n choices in a
-- row, n are Pac-Man's.
pub pacman_turns_even :
    (n : ℕ) (s : Scheduler)
    → s.state.prioridad_pacman ≡ s.state.prioridad_enemy
    → pacman_turns (n + n) s ≡ n
pacman_turns_even n s e = go n
  where
    h : eqb_ℤ s.state.prioridad_pacman s.state.prioridad_enemy ≡ true
    h = (eqb_ℤ_iff s.state.prioridad_pacman s.state.prioridad_enemy).1 e

    go : (k : ℕ) → pacman_turns (k + k) s ≡ k
    go zero = unfold pacman_turns in refl
    go (suc k) =
        let two : suc k + suc k ≡ suc (suc (k + k)) = omega arith in
        rw two (
          tie_pair (k + k) s.state s.last_processed_collision_tick s.last_round_robin h
          ∙ ap suc (go k))
