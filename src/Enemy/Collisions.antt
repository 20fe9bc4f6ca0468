-- ===== src/Enemy/Collisions.antt =====
-- The collisions that P2 finds and publishes.
use pacman_posix.Prelude.{
  ℕ, zero, suc, ◌+◌, ◌<◌, ◌≡◌, ◌≢◌, ◌⊎◌, inl, inr, refl, sym, subst, ap, ◌∙◌, true, false, Option,
  none, some, ◌↔◌, arith, Bool-cases,
}
use pacman_posix.Prelude.Int.{pos, eqb_ℤ_iff}
use pacman_posix.Posix.{
  Object, M, World, Status, ok, error, stuck, ◌>>=◌, continue, critical, name, ghost_mutex,
  pacman_mutex, state_mutex, collision_mutex,
}
use pacman_posix.Common.{ghost_count}
use pacman_posix.Shared.{SharedState}
use pacman_posix.Scheduler.Sections.{Section, Section-outcome, Section-ok}
use pacman_posix.Enemy.{
  EnemyPosition, EnemyContext, record_collision, same_position, first_hit, publish_hit,
  detect_collision, read_global_tick,
}

-- No mutex that `detect_collision` takes is held.
abbrev pub AllFree : World EnemyContext → Type 0
AllFree w =
    (w.held (name pacman_mutex) ≡ false)
    × (w.held (name ghost_mutex) ≡ false)
    × (w.held (name state_mutex) ≡ false)
    × (w.held (name collision_mutex) ≡ false)

-- Ghosts 0 to n - 1 are elsewhere.
pub NoneBefore : (ℕ → EnemyPosition) → EnemyPosition → ℕ → Type 0
NoneBefore ghosts pacman zero = Unit {0}
NoneBefore ghosts pacman (suc n) = NoneBefore ghosts pacman n × (ghosts n ≢ pacman)

abbrev pub First : (ℕ → EnemyPosition) → EnemyPosition → Option ℕ → Type 0
First ghosts pacman none = NoneBefore ghosts pacman ghost_count
First ghosts pacman (some i) = (i < ghost_count) × (ghosts i ≡ pacman) × NoneBefore ghosts pacman i

same_position_iff : (p q : EnemyPosition) → (same_position p q ≡ true) ↔ (p ≡ q)
same_position_iff p q = (there, λ e. subst (λ r. same_position p r ≡ true) e (self p))
  where
    self : (r : EnemyPosition) → same_position r r ≡ true
    self r = rw ((eqb_ℤ_iff r.x r.x).1 refl, (eqb_ℤ_iff r.y r.y).1 refl) refl

    there : same_position p q ≡ true → p ≡ q
    there h =
        let ex = (eqb_ℤ_iff p.x q.x).0 (ground arith) in
        let ey = (eqb_ℤ_iff p.y q.y).0 (ground arith) in λ i. record { x = ex i; y = ey i }

elsewhere : (p q : EnemyPosition) → same_position p q ≡ false → p ≢ q
elsewhere p q h e = let t = (same_position_iff p q).1 e in absurd (ground arith)

first_hit-First :
    (i left : ℕ) (ghosts : ℕ → EnemyPosition) (pacman : EnemyPosition)
    → i + left ≡ ghost_count
    → NoneBefore ghosts pacman i
    → First ghosts pacman (first_hit i left ghosts pacman)
unfolding first_hit
first_hit-First i zero ghosts pacman e before =
    let all : i ≡ ghost_count = omega arith in subst (NoneBefore ghosts pacman) all before
first_hit-First i (suc left) ghosts pacman e before =
    elim (Bool-cases (same_position (ghosts i) pacman)) [
      | inl h ↦ rw h (omega arith, (same_position_iff (ghosts i) pacman).0 h, before)
      | inr h ↦ rw h (
          first_hit-First (i + 1) left ghosts pacman (omega arith) (
            subst (NoneBefore ghosts pacman) (one_more i)
              (unfold NoneBefore in (before, elsewhere (ghosts i) pacman h))))
    ]
  where
    one_more : (k : ℕ) → suc k ≡ k + 1
    one_more k = omega arith

pub detected-First :
    (ghosts : ℕ → EnemyPosition) (pacman : EnemyPosition)
    → First ghosts pacman (first_hit 0 ghost_count ghosts pacman)
detected-First ghosts pacman =
    first_hit-First 0 ghost_count ghosts pacman refl (unfold NoneBefore in tt)

-- What `publish_collision` writes for ghost `i`, counted from 0, and that it writes nothing else.
pub record Published (i : ℕ) (s t : SharedState) : Type 0 where
  pub detected : t.collision_detected ≡ true
  pub at_tick : t.collision_tick ≡ s.global_tick
  pub ghost : t.collision_ghost_id ≡ pos (i + 1)
  pub rest :
      record t {
        collision_detected = s.collision_detected;
        collision_tick = s.collision_tick;
        collision_ghost_id = s.collision_ghost_id;
      }
      ≡ s

record_collision-Published :
    (i : ℕ) (s : SharedState) → Published i s (record_collision (i + 1) s.global_tick s)
unfolding record_collision
record_collision-Published i s = record {
  detected = refl;
  at_tick = refl;
  ghost = refl;
  rest = refl;
}

-- What a call of `detect_collision` that succeeds has done.
abbrev pub Detected : EnemyContext → EnemyContext → Type 0
Detected c d =
    (d.pacman_position ≡ c.pacman_position)
    × (d.ghosts ≡ c.ghosts)
    × (((i : ℕ) × (i < ghost_count)
          × (c.ghosts i ≡ c.pacman_position)
          × NoneBefore c.ghosts c.pacman_position i
          × Published i c.shared d.shared)
        ⊎ (NoneBefore c.ghosts c.pacman_position ghost_count × (d.shared ≡ c.shared)))

abbrev SameHeld : World EnemyContext → World EnemyContext → Type 0
SameHeld w v = (o : ℕ) → v.held o ≡ w.held o

abbrev reading : {A : Type 0} → Object → (EnemyContext → A) → M EnemyContext A
reading m g = critical m (λ c. c) g

continue_error :
    {A B : Type 0} (s : Status A) (f : A → M EnemyContext B) (v : World EnemyContext) {b : B}
    → s ≡ error
    → (continue s f v).0 ≢ ok b
continue_error (ok a) f v e q = cc
continue_error error f v e q = cc
continue_error stuck f v e q = cc

-- A read under a mutex that succeeded gives the value and changes no data.
read_then :
    {A B : Type 0} (m : Object) (g : EnemyContext → A) (f : A → M EnemyContext B)
    (w : World EnemyContext) {b : B} (r : Status A × World EnemyContext)
    → Section m (λ c. c) (g w.at) w r
    → (continue r.0 f r.1).0 ≡ ok b
    → (v : World EnemyContext) × (v.at ≡ w.at) × SameHeld w v × (continue r.0 f r.1 ≡ f (g w.at) v)
read_then m g f w r (Section.done e x h) q = (r.1, x, h, rw e refl)
read_then m g f w r (Section.lock_failed e x h) q = absurd (continue_error r.0 f r.1 e q)
read_then m g f w r (Section.unlock_failed e x h) q = absurd (continue_error r.0 f r.1 e q)

reading_then :
    {A B : Type 0} (m : Object) (g : EnemyContext → A) (f : A → M EnemyContext B)
    (w : World EnemyContext) {b : B}
    → w.held (name m) ≡ false
    → ((reading m g >>= f) w).0 ≡ ok b
    → (v : World EnemyContext) × (v.at ≡ w.at)
      × SameHeld w v
      × ((reading m g >>= f) w ≡ f (g w.at) v)
reading_then m g f w free q =
    read_then m g f w (reading m g w) (Section-outcome m (λ c. c) g w free) q

publish-Detected :
    (hit : Option ℕ) (c : EnemyContext) (v : World EnemyContext)
    → v.at ≡ c
    → v.held (name collision_mutex) ≡ false
    → First c.ghosts c.pacman_position hit
    → (publish_hit hit c.shared.global_tick v).0 ≡ ok tt
    → Detected c (publish_hit hit c.shared.global_tick v).1.at
publish-Detected none c v e free first q = rw e (refl, refl, inr (first, refl))
publish-Detected (some i) c v e free (few, here, before) q =
    let r =
      Section-ok
        (Section-outcome collision_mutex
          (λ (d : EnemyContext). record d {
            shared = record_collision (i + 1) c.shared.global_tick d.shared;
          })
          (λ _. tt) v free)
        q in
    subst (Detected c)
      (sym (
        r.1
        ∙ ap
            (λ (d : EnemyContext). record d {
              shared = record_collision (i + 1) c.shared.global_tick d.shared;
            })
            e))
      (refl, refl, inl (i, few, here, before, record_collision-Published i c.shared))

-- The three reads, the last one first: each one leaves the data as in `c`.
module _ (c : EnemyContext) where
  abbrev Good : Status (Unit {0}) × World EnemyContext → Type 0
  Good r = r.0 ≡ ok tt → Detected c r.1.at

  abbrev with_tick : Option ℕ → M EnemyContext (Unit {0})
  with_tick hit = read_global_tick >>= λ tick. publish_hit hit tick

  abbrev with_ghosts : EnemyPosition → M EnemyContext (Unit {0})
  with_ghosts pacman = reading ghost_mutex (λ d. d.ghosts) >>= λ ghosts.
      with_tick (first_hit 0 ghost_count ghosts pacman)

  abbrev with_pacman : M EnemyContext (Unit {0})
  with_pacman = reading pacman_mutex (λ d. d.pacman_position) >>= with_ghosts

  tick-Good :
      (hit : Option ℕ) (v : World EnemyContext)
      → v.at ≡ c
      → AllFree v
      → First c.ghosts c.pacman_position hit
      → Good (with_tick hit v)
  tick-Good hit v e (f1, f2, f3, f4) first q =
      let (u, x, h, r) =
        reading_then state_mutex (λ d. d.shared.global_tick) (publish_hit hit) v f3 q in
      subst Good (sym r)
        (subst (λ (d : EnemyContext). Good (publish_hit hit d.shared.global_tick u)) (sym e)
          (publish-Detected hit c u (x ∙ e) (h _ ∙ f4) first))
        q

  ghosts-Good :
      (v : World EnemyContext) → v.at ≡ c → AllFree v → Good (with_ghosts c.pacman_position v)
  ghosts-Good v e (f1, f2, f3, f4) q =
      let (u, x, h, r) =
        reading_then ghost_mutex (λ d. d.ghosts)
          (λ ghosts. with_tick (first_hit 0 ghost_count ghosts c.pacman_position)) v f2 q in
      subst Good (sym r)
        (subst
          (λ (d : EnemyContext).
            Good (with_tick (first_hit 0 ghost_count d.ghosts c.pacman_position) u))
          (sym e)
          (tick-Good (first_hit 0 ghost_count c.ghosts c.pacman_position) u (x ∙ e)
            (h _ ∙ f1, h _ ∙ f2, h _ ∙ f3, h _ ∙ f4) (detected-First c.ghosts c.pacman_position)))
        q

  pacman-Good : (v : World EnemyContext) → v.at ≡ c → AllFree v → Good (with_pacman v)
  pacman-Good v e (f1, f2, f3, f4) q =
      let (u, x, h, r) = reading_then pacman_mutex (λ d. d.pacman_position) with_ghosts v f1 q in
      subst Good (sym r)
        (subst (λ (d : EnemyContext). Good (with_ghosts d.pacman_position u)) (sym e)
          (ghosts-Good u (x ∙ e) (h _ ∙ f1, h _ ∙ f2, h _ ∙ f3, h _ ∙ f4)))
        q

-- When `detect_collision` returns PACMAN_OK: if a ghost stands where the tracker has seen Pac-Man, the
-- first such ghost is published with the present tick, and nothing else changes; if none does,
-- nothing changes.
pub detect_collision-Detected :
    (w : World EnemyContext)
    → AllFree w
    → (detect_collision w).0 ≡ ok tt
    → Detected w.at (detect_collision w).1.at
unfolding detect_collision
detect_collision-Detected w free q = pacman-Good w.at w refl free q
