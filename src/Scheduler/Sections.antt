-- ===== src/Scheduler/Sections.antt =====
-- The outcomes of a critical section: a mutex is locked, the state is changed, the mutex is
-- unlocked, and either call may fail.
use pacman_posix.Prelude.{ℕ, ◌+◌, ◌≡◌, ◌≢◌, refl, Bool, true, false, arith}
use pacman_posix.Posix.{Object, name, World, Status, ok, error, stuck, critical, put}

-- How a step that changes the data by `f` under one mutex can end: it is done, and the thread holds
-- what it held; or the lock failed, and nothing changed; or the unlock failed after the change.
pub data Section {S A : Type 0} (m : Object) (f : S → S) (a : A) (w : World S)
    : Status A × World S → Type 0 where
  done :
      {r : Status A × World S}
      → r.0 ≡ ok a
      → r.1.at ≡ f w.at
      → ((o : ℕ) → r.1.held o ≡ w.held o)
      → Section m f a w r
  lock_failed :
      {r : Status A × World S}
      → r.0 ≡ error
      → r.1.at ≡ w.at
      → ((o : ℕ) → r.1.held o ≡ w.held o)
      → Section m f a w r
  unlock_failed :
      {r : Status A × World S}
      → r.0 ≡ error
      → r.1.at ≡ f w.at
      → r.1.held (name m) ≡ true
      → Section m f a w r

-- The mutex is put back.
put_back :
    (held : ℕ → Bool) (m : Object) (o : ℕ)
    → held (name m) ≡ false
    → put (put held m true) m false o ≡ held o
put_back held m o h = ground arith

put_self : (held : ℕ → Bool) (m : Object) (b : Bool) → put held m b (name m) ≡ b
put_self held m b = ground arith

module _ {S A : Type 0} (m : Object) (f : S → S) (g : S → A) where
  Section-by :
      (w : World S) (locks unlocks : Bool)
      → w.held (name m) ≡ false
      → w.succeeds w.calls ≡ locks
      → w.succeeds (w.calls + 1) ≡ unlocks
      → Section m f (g w.at) w (critical m f g w)
  Section-by w false u free l e =
      lock_failed (rw (free, l) refl) (rw (free, l) refl) (λ o. rw (free, l) refl)
  Section-by w true true free l e =
      done (rw (free, l, e) refl) (rw (free, l, e) refl)
        (λ o. rw (free, l, e) (put_back w.held m o free))
  Section-by w true false free l e =
      unlock_failed (rw (free, l, e) refl) (rw (free, l, e) refl)
        (rw (free, l, e) (put_self w.held m true))

  -- A critical section never waits for its own mutex, if that is free.
  pub Section-outcome :
      (w : World S) → w.held (name m) ≡ false → Section m f (g w.at) w (critical m f g w)
  Section-outcome w free = Section-by w _ _ free refl refl

module _ {S A : Type 0} {m : Object} {f : S → S} {a : A} {w : World S} where
  pub Section-ne-stuck : {r : Status A × World S} → Section m f a w r → r.0 ≢ stuck
  Section-ne-stuck (done e x h) q = ground arith
  Section-ne-stuck (lock_failed e x h) q = ground arith
  Section-ne-stuck (unlock_failed e x h) q = ground arith

  -- A section that returns has done its work.
  pub Section-ok :
      {r : Status A × World S} {b : A}
      → Section m f a w r
      → r.0 ≡ ok b
      → (a ≡ b) × (r.1.at ≡ f w.at) × ((o : ℕ) → r.1.held o ≡ w.held o)
  Section-ok (done e x h) q = (ground arith, x, h)
  Section-ok (lock_failed e x h) q = cc
  Section-ok (unlock_failed e x h) q = cc

  -- What the body keeps is kept whatever fails.
  pub Section-keeps {κ} :
      (P : S → Type κ) {r : Status A × World S}
      → Section m f a w r
      → (P w.at → P (f w.at))
      → P w.at
      → P r.1.at
  Section-keeps P (done e x h) k p = rw x (k p)
  Section-keeps P (lock_failed e x h) k p = rw x p
  Section-keeps P (unlock_failed e x h) k p = rw x (k p)
