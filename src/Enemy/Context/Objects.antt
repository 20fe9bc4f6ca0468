-- ===== src/Enemy/Context/Objects.antt =====
-- Which objects exist after `context_init` and after `context_destroy`.
use pacman_posix.Prelude.{
  ℕ, zero, suc, ◌+◌, ◌≡◌, ◌≢◌, ◌⊎◌, inl, inr, refl, sym, ap, ◌∙◌, Bool, true, false, ◌&&◌, ◌||◌,
  ◌==◌, leb, ltb, if◌then◌else◌, arith,
}
use pacman_posix.Posix.{World, Status, ok, error, stuck, continue}
use pacman_posix.Common.{ghost_count}
use pacman_posix.Enemy.{EnemyContext}
use pacman_posix.Enemy.Context.{
  place_pacman, init_ghost, destroy_ghost, destroy_before, fail_ghost, init_ghosts, init_mutexes,
  init_semaphores, context_init, destroy_ghosts, context_destroy,
}

-- The three mutexes of P2; its four semaphores; and those of the first `n` ghosts.
abbrev pub is_mutex : ℕ → Bool
is_mutex o = o == 17 || o == 18 || o == 19

abbrev pub is_semaphore : ℕ → Bool
is_semaphore o = o == 20 || o == 21 || o == 22 || o == 23

abbrev pub is_ghost_semaphore : ℕ → ℕ → Bool
is_ghost_semaphore n o = leb 29 o && ltb o (29 + (n + n))

abbrev Holds : World EnemyContext → (ℕ → Bool) → Type 0
Holds w f = (o : ℕ) → w.live o ≡ f o

mutexes-error :
    (w : World EnemyContext)
    → Holds w (λ _. false)
    → (init_mutexes w).0 ≡ error
    → Holds (init_mutexes w).1 (λ _. false)
unfolding init_mutexes
mutexes-error w h e o = ground (arith, h o)

mutexes-ok :
    (w : World EnemyContext)
    → Holds w (λ _. false)
    → (init_mutexes w).0 ≡ ok tt
    → Holds (init_mutexes w).1 is_mutex
unfolding init_mutexes
mutexes-ok w h e o = ground (arith, h o)

mutexes-never_stuck : (w : World EnemyContext) → (init_mutexes w).0 ≢ stuck
unfolding init_mutexes
mutexes-never_stuck w e = ground arith

semaphores-ok :
    (w : World EnemyContext)
    → Holds w is_mutex
    → (init_semaphores w).0 ≡ ok tt
    → Holds (init_semaphores w).1 (λ o. is_mutex o || is_semaphore o)
unfolding init_semaphores
semaphores-ok w h e o = ground (arith, h o)

-- The first semaphores may be left.
semaphores-error :
    (w : World EnemyContext)
    → Holds w is_mutex
    → (init_semaphores w).0 ≡ error
    → (o : ℕ) → (init_semaphores w).1.live o ≡ true
    → (o == 20 || o == 21 || o == 22) ≡ true
unfolding init_semaphores
semaphores-error w h e o l = ground (arith, h o)

semaphores-never_stuck : (w : World EnemyContext) → (init_semaphores w).0 ≢ stuck
unfolding init_semaphores
semaphores-never_stuck w e = ground arith

destroy_before-live :
    (i : ℕ) (w : World EnemyContext)
    → ((destroy_before i w).0 ≡ ok tt)
      × ((o : ℕ)
          → (destroy_before i w).1.live o ≡ (if is_ghost_semaphore i o then false else w.live o))
unfolding destroy_before
destroy_before-live zero w = (refl, λ o. ground arith)
destroy_before-live (suc i) w =
    let (e, l) = destroy_before-live i (destroy_ghost i w).1 in (e, λ o. ground (arith, l o))

init_ghost-ok :
    (i : ℕ) (w : World EnemyContext)
    → (init_ghost i w).0 ≡ ok tt
    → (o : ℕ) → (init_ghost i w).1.live o ≡ (o == 29 + (i + i) || o == 30 + (i + i) || w.live o)
unfolding init_ghost
init_ghost-ok i w e o = ground arith

init_ghost-error :
    (i : ℕ) (w : World EnemyContext)
    → (init_ghost i w).0 ≡ error
    → (o : ℕ) → (init_ghost i w).1.live o ≡ true
    → w.live o ≡ true
unfolding init_ghost
init_ghost-error i w e o = ground arith

init_ghost-never_stuck : (i : ℕ) (w : World EnemyContext) → (init_ghost i w).0 ≢ stuck
unfolding init_ghost
init_ghost-never_stuck i w e = ground arith

-- All that exists once the first `n` ghosts are made.
abbrev pub is_made : ℕ → ℕ → Bool
is_made n o = is_mutex o || is_semaphore o || is_ghost_semaphore n o

abbrev Built : ℕ → Status (Unit {0}) × World EnemyContext → Type 0
Built n r = ((r.0 ≡ ok tt) × Holds r.1 (is_made n)) ⊎ ((r.0 ≡ error) × Holds r.1 (λ _. false))

-- What `context_init` does where ghost `i` cannot be made: nothing is left.
torn_down :
    (i : ℕ) (w : World EnemyContext)
    → ((o : ℕ) → w.live o ≡ true → is_made i o ≡ true)
    → ((fail_ghost i w).0 ≡ error) × Holds (fail_ghost i w).1 (λ _. false)
torn_down i w h =
    let (e, l) = destroy_before-live i w in
    rw e (refl, λ o. rw (l o) (none_left (is_ghost_semaphore i o) o (w.live o) (h o)))
  where
    none_left :
        (g : Bool) (o : ℕ) (b : Bool)
        → (b ≡ true → (is_mutex o || is_semaphore o || g) ≡ true)
        → (if 17 == o
            then false
            else if 18 == o
            then false
            else if 19 == o
            then false
            else if 20 == o
            then false
            else if 21 == o
            then false
            else if 22 == o
            then false
            else if 23 == o
            then false
            else if g
            then false
            else b)
          ≡ false
    none_left g o b h = ground arith

ghost_then :
    (left i : ℕ) (w : World EnemyContext) (s : Status (Unit {0}))
    → Holds w (is_made i)
    → ((v : World EnemyContext)
        → Holds v (is_made (i + 1))
        → Built (i + 1 + left) (init_ghosts left (i + 1) v))
    → (init_ghost i w).0 ≡ s
    → Built (i + suc left) (init_ghosts (suc left) i w)
unfolding init_ghosts
ghost_then left i w (ok u) h rest e =
    rw (e, next_number)
      (rest (init_ghost i w).1 (λ o.
        init_ghost-ok i w e o
        ∙ ap (λ b. o == 29 + (i + i) || o == 30 + (i + i) || b) (h o)
        ∙ one_more o))
  where
    next_number : i + suc left ≡ i + 1 + left
    next_number = omega arith

    one_more : (o : ℕ) → (o == 29 + (i + i) || o == 30 + (i + i) || is_made i o) ≡ is_made (i + 1) o
    one_more o = ground arith
ghost_then left i w error h rest e =
    let (f, l) = torn_down i (init_ghost i w).1 (λ o x. sym (h o) ∙ init_ghost-error i w e o x) in
    rw (e, f) (inr (refl, l))
ghost_then left i w stuck h rest e = absurd (init_ghost-never_stuck i w e)

ghosts-Built :
    (left i : ℕ) (w : World EnemyContext)
    → Holds w (is_made i)
    → Built (i + left) (init_ghosts left i w)
unfolding init_ghosts
ghosts-Built zero i w h = inl (refl, λ o. h o ∙ ap (λ n. is_made n o) same)
  where
    same : i ≡ i + 0
    same = omega arith
ghosts-Built (suc left) i w h = ghost_then left i w _ h (λ v k. ghosts-Built left (i + 1) v k) refl

-- How `context_init` can end; the semaphores that the chain of `sem_init` had made are left where a
-- later one of the chain fails.
abbrev pub Initialized : Status (Unit {0}) × World EnemyContext → Type 0
Initialized r =
    ((r.0 ≡ ok tt) × ((o : ℕ) → r.1.live o ≡ is_made ghost_count o))
    ⊎ ((r.0 ≡ error) × ((o : ℕ) → r.1.live o ≡ true → (o == 20 || o == 21 || o == 22) ≡ true))

semaphores_then :
    (w : World EnemyContext) (s : Status (Unit {0}))
    → Holds w is_mutex
    → (init_semaphores w).0 ≡ s
    → Initialized (continue s (λ _. init_ghosts ghost_count 0) (init_semaphores w).1)
semaphores_then w (ok u) h e =
    elim (ghosts-Built ghost_count 0 (init_semaphores w).1
      (λ o. semaphores-ok w h e o ∙ no_ghost o)) [
        | inl (f, l) ↦ inl (f, l)
        | inr (f, l) ↦ inr (f, λ o x. ground (arith, l o))
      ]
  where
    no_ghost : (o : ℕ) → (is_mutex o || is_semaphore o) ≡ is_made 0 o
    no_ghost o = ground arith
semaphores_then w error h e = inr (refl, semaphores-error w h e)
semaphores_then w stuck h e = absurd (semaphores-never_stuck w e)

mutexes_then :
    (w : World EnemyContext) (s : Status (Unit {0}))
    → Holds w (λ _. false)
    → (init_mutexes w).0 ≡ s
    → let r = continue s (λ _. init_semaphores) (init_mutexes w).1 in
      Initialized (continue r.0 (λ _. init_ghosts ghost_count 0) r.1)
mutexes_then w (ok u) h e = semaphores_then (init_mutexes w).1 _ (mutexes-ok w h e) refl
mutexes_then w error h e = inr (refl, λ o x. ground (arith, mutexes-error w h e o))
mutexes_then w stuck h e = absurd (mutexes-never_stuck w e)

destroy_ghosts-live :
    (left i : ℕ) (w : World EnemyContext)
    → ((destroy_ghosts left i w).0 ≡ ok tt)
      × ((o : ℕ)
          → (destroy_ghosts left i w).1.live o ≡ (
              if leb (29 + (i + i)) o && ltb o (29 + (i + left + (i + left)))
              then false
              else w.live o))
unfolding destroy_ghosts
destroy_ghosts-live zero i w = (refl, λ o. ground arith)
destroy_ghosts-live (suc left) i w =
    let (e, l) = destroy_ghosts-live left (i + 1) (destroy_ghost i w).1 in
    (e, λ o. ground (arith, l o))

context_destroy-live :
    (w : World EnemyContext)
    → Holds w (is_made ghost_count)
    → Holds (context_destroy w).1 (λ _. false)
unfolding context_destroy
context_destroy-live w h o =
    let (e, l) = destroy_ghosts-live ghost_count 0 w in rw (e, l o, h o) (ground arith)

init-Initialized :
    (w : World EnemyContext) → ((o : ℕ) → w.live o ≡ false) → Initialized (context_init w)
unfolding context_init
init-Initialized w h = mutexes_then (record w { at = place_pacman w.at }) _ h refl

-- From a state where no object exists, and whichever of its calls fail: `context_init` of P2 returns
-- PACMAN_OK and exactly its three mutexes, its four semaphores and the two of each ghost exist, all of
-- which `context_destroy` then destroys; or it returns PACMAN_ERROR and at most the semaphores
-- tracker_requested, tracker_done and collision_requested are left.
pub context_init-Initialized :
    (w : World EnemyContext)
    → ((o : ℕ) → w.live o ≡ false)
    → Initialized (context_init w)
      × ((context_init w).0 ≡ ok tt
          → (o : ℕ) → (context_destroy (context_init w).1).1.live o ≡ false)
context_init-Initialized w h =
    let i = init-Initialized w h in
    (
      i,
      λ e o. elim i [
        | inl (f, l) ↦ context_destroy-live (context_init w).1 l o
        | inr (f, l) ↦ absurd (ok-ne-error (sym e ∙ f))
      ],
    )
  where
    ok-ne-error : ok tt ≢ error
    ok-ne-error e = cc
