-- ===== src/Enemy/Threads/Blocked.antt =====
-- A ghost that stops within a turn: P2 never finishes that turn.
use pacman_posix.Prelude.{
  ℕ, ◌+◌, ◌<◌, ◌≤◌, ◌≡◌, refl, Bool, true, false, List, leb, ◌==◌, Bool-cases, inl, inr, arith,
}
use pacman_posix.Common.{ghost_count}
use pacman_posix.Enemy.{EnemyInstruction}
use pacman_posix.Enemy.Helpers.{
  GhostPlace, load_failed, popping, processing, reporting, failing, ghost_ended, View, GhostStep,
}
use pacman_posix.Enemy.Threads.{
  ControllerPlace, posting_turns, awaiting_ghosts, EnemyProcess, ControllerStep, Step, Reaches,
  view, after_ghost,
}
use pacman_posix.Enemy.Threads.Loads.{
  one_if, GhostStep-IsLess, TrackerStep-IsLess, DetectorStep-IsLess,
}

-- The controller waits for ghost `i` or for one before it, or is about to.
abbrev pub awaits : ℕ → ControllerPlace → Bool
awaits i (posting_turns k) = true
awaits i (awaiting_ghosts k) = leb k i
awaits i _ = false

-- The thread of a ghost has ended or will do so before it reports, given `should_stop`.
abbrev pub is_lost : Bool → GhostPlace → Bool
is_lost stop load_failed = true
is_lost stop failing = true
is_lost stop ghost_ended = true
is_lost stop popping = false
is_lost stop (processing i) = false
is_lost stop reporting = false
is_lost stop _ = stop

pub record IsBlocked (i : ℕ) (s : EnemyProcess) : Type 0 where
  pub waits : awaits i s.controller_at ≡ true
  pub lost : is_lost s.should_stop (s.ghosts i).place ≡ true
  pub silent : (s.ghosts i).done ≡ 0

abbrev IsLost : View GhostPlace → Type 0
IsLost v = (is_lost v.should_stop v.helper.place ≡ true) × (v.helper.done ≡ 0)

GhostStep-IsLost :
    {g : ℕ} {is js : List EnemyInstruction} {v w : View GhostPlace}
    → GhostStep g is js v w
    → IsLost v
    → IsLost w
GhostStep-IsLost (GhostStep.loads is v e) h = (ground arith, ground arith)
GhostStep-IsLost (GhostStep.cannot_load is js v e) h = (ground arith, ground arith)
GhostStep-IsLost (GhostStep.asks_stop is v e) h = (ground arith, ground arith)
GhostStep-IsLost (GhostStep.takes_turn is v n e r) h = (ground arith, ground arith)
GhostStep-IsLost (GhostStep.checks is v e) h = (ground arith, ground arith)
GhostStep-IsLost (GhostStep.cannot_check is v e) h = (ground arith, ground arith)
GhostStep-IsLost (GhostStep.pops i is v e) h = (ground arith, ground arith)
GhostStep-IsLost (GhostStep.pops_none v e) h = (ground arith, ground arith)
GhostStep-IsLost (GhostStep.processes i is v e) h = (ground arith, ground arith)
GhostStep-IsLost (GhostStep.reports is v e) h = (ground arith, ground arith)
GhostStep-IsLost (GhostStep.fails is v e) h = (ground arith, ground arith)
GhostStep-IsLost (GhostStep.gives_up is v e) h = (ground arith, ground arith)

-- A ghost that is lost stays so when another thread asks for a stop.
lost_still :
    (stop stop_now : Bool) (p : GhostPlace)
    → one_if stop ≤ one_if stop_now
    → is_lost stop p ≡ true
    → is_lost stop_now p ≡ true
lost_still stop stop_now p more h = ground arith

module _ (i : ℕ) (few : i < ghost_count) where
  ControllerStep-IsBlocked :
      {s t : EnemyProcess}
      → ControllerStep s t
      → IsBlocked i s
      → IsBlocked i t × (t.p2_done + t.confirmed ≡ s.p2_done + s.confirmed)
  ControllerStep-IsBlocked (ControllerStep.posts_turn s k e) h =
      (record { waits = ground arith; lost = ground arith; silent = ground arith }, refl)
  ControllerStep-IsBlocked (ControllerStep.hears_ghost s k n e d) h =
      (record { waits = ground arith; lost = ground arith; silent = ground arith }, refl)
  ControllerStep-IsBlocked (ControllerStep.takes_turn s n e p) h = absurd (ground (arith, h.waits))
  ControllerStep-IsBlocked (ControllerStep.checks s e) h = absurd (ground (arith, h.waits))
  ControllerStep-IsBlocked (ControllerStep.cannot_check s e) h = absurd (ground (arith, h.waits))
  ControllerStep-IsBlocked (ControllerStep.posts_tracker s e) h = absurd (ground (arith, h.waits))
  ControllerStep-IsBlocked (ControllerStep.hears_tracker s n e d) h =
      absurd (ground (arith, h.waits))
  ControllerStep-IsBlocked (ControllerStep.posts_collision s e) h = absurd (ground (arith, h.waits))
  ControllerStep-IsBlocked (ControllerStep.hears_collision s n e d) h =
      absurd (ground (arith, h.waits))
  ControllerStep-IsBlocked (ControllerStep.posts_done s e) h = absurd (ground (arith, h.waits))
  ControllerStep-IsBlocked (ControllerStep.stops s e) h = absurd (ground (arith, h.waits))
  ControllerStep-IsBlocked (ControllerStep.closes_ghost s k e) h = absurd (ground (arith, h.waits))
  ControllerStep-IsBlocked (ControllerStep.closes_tracker s e) h = absurd (ground (arith, h.waits))
  ControllerStep-IsBlocked (ControllerStep.closes_collision s e) h =
      absurd (ground (arith, h.waits))

  ghost-IsBlocked :
      (s : EnemyProcess) (g : ℕ) (is : List EnemyInstruction) (v : View GhostPlace)
      → GhostStep g (s.instructions g) is (view (s.ghosts g) s) v
      → IsBlocked i s
      → IsBlocked i (after_ghost s g is v)
  ghost-IsBlocked s g is v step h = elim (Bool-cases (g == i)) [
    | inl e ↦
        let same : g ≡ i = ground arith in
        let l = GhostStep-IsLost step (rw same (h.lost, h.silent)) in
        record { waits = h.waits; lost = rw e l.0; silent = rw e l.1 }
    | inr e ↦ record {
      waits = h.waits;
      lost = rw e (
          lost_still s.should_stop v.should_stop (s.ghosts i).place
            (GhostStep-IsLess false step (omega arith)).1 h.lost);
      silent = rw e h.silent;
    }
  ]

  Step-IsBlocked :
      {s t : EnemyProcess}
      → Step s t
      → IsBlocked i s
      → IsBlocked i t × (t.p2_done + t.confirmed ≡ s.p2_done + s.confirmed)
  Step-IsBlocked (Step.controller c) h = ControllerStep-IsBlocked c h
  Step-IsBlocked (Step.ghost s g is v less step) h = (ghost-IsBlocked s g is v step h, refl)
  Step-IsBlocked (Step.tracker s v step) h = (
    record {
      waits = h.waits;
      lost =
          lost_still s.should_stop v.should_stop (s.ghosts i).place
            (TrackerStep-IsLess false step (omega arith)).1 h.lost;
      silent = h.silent;
    },
    refl,
  )
  Step-IsBlocked (Step.detector s v step) h = (
    record {
      waits = h.waits;
      lost =
          lost_still s.should_stop v.should_stop (s.ghosts i).place
            (DetectorStep-IsLess false step (omega arith)).1 h.lost;
      silent = h.silent;
    },
    refl,
  )
  Step-IsBlocked (Step.turn_given s) h =
      (record { waits = h.waits; lost = h.lost; silent = h.silent }, refl)
  Step-IsBlocked (Step.turn_confirmed s n e) h =
      (record { waits = h.waits; lost = h.lost; silent = h.silent }, omega arith)
  Step-IsBlocked (Step.others_write s shared) h =
      (record { waits = h.waits; lost = h.lost; silent = h.silent }, refl)

  -- While the controller waits for ghost `i`, or for one before it, and that ghost has ended or will
  -- end without reporting (its list could not be loaded, a call of it failed, or a stop was asked for
  -- before its check), the turn is never finished, whatever the threads do: the controller goes on
  -- waiting, and no turn is posted back to P0.
  pub ghost_blocks :
      (s t : EnemyProcess)
      → Reaches s t
      → IsBlocked i s
      → IsBlocked i t × (t.p2_done + t.confirmed ≡ s.p2_done + s.confirmed)
  ghost_blocks s t (Reaches.here u) h = (h, refl)
  ghost_blocks s t (Reaches.then {t = u} before step) h =
      let (b, e) = ghost_blocks s u before h in
      let (c, f) = Step-IsBlocked step b in (c, omega (arith, e, f))
