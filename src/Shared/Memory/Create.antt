-- ===== src/Shared/Memory/Create.antt =====
-- `shared_memory_create` makes the name, the descriptor and the mapping, or gives back what it made.
use pacman_posix.Prelude.{
  ℕ, ◌+◌, ◌≡◌, ◌⊎◌, inl, inr, refl, Bool, true, false, ◌||◌, ◌==◌, if◌then◌else◌, arith, Bool-cases,
  sym, ◌∙◌,
}
use pacman_posix.Posix.{World, Status, ok, error, stuck, M, ◌>>◌, raise, ignore, continue}
use pacman_posix.Shared.Memory.{
  SharedMemory, before_create, shared_memory_release, shared_memory_create,
}
use pacman_posix.Shared.Memory.Release.{belongs, release-never_stuck, release-failed, release-left}

-- Nothing exists that did not exist in `w`, unless giving it back has failed.
abbrev pub IsClean : World SharedMemory → World SharedMemory → Type 0
IsClean w v = (v.at.release_failed ≡ true) ⊎ ((o : ℕ) → v.live o ≡ true → w.live o ≡ true)

-- The three objects of the shared memory.
abbrev pub is_memory : ℕ → Bool
is_memory o = o == 24 || o == 25 || o == 26

pub data Created (w : World SharedMemory) : Status (Unit {0}) × World SharedMemory → Type 0 where
  created :
      {r : Status (Unit {0}) × World SharedMemory}
      → r.0 ≡ ok tt
      → ((o : ℕ) → r.1.live o ≡ (is_memory o || w.live o))
      → r.1.at ≡ record (before_create w.at) { fd_open = true; is_mapped = true }
      → Created w r
  not_created :
      {r : Status (Unit {0}) × World SharedMemory} → r.0 ≡ error → IsClean w r.1 → Created w r

record GaveUp (w : World SharedMemory) (r : Status (Unit {0}) × World SharedMemory) : Type 0 where
  failed : r.0 ≡ error
  clean : IsClean w r.1

GaveUp-Created :
    {w : World SharedMemory} {r : Status (Unit {0}) × World SharedMemory} → GaveUp w r → Created w r
GaveUp-Created g = not_created g.failed g.clean

-- What follows a failure is skipped.
skipped :
    {w : World SharedMemory} {r : Status (Unit {0}) × World SharedMemory}
    (k : Unit {0} → M SharedMemory (Unit {0}))
    → GaveUp w r
    → GaveUp w (continue r.0 k r.1)
skipped {r = r} k g = rw g.failed (record { failed = refl; clean = g.clean })

left_before :
    (w v : World SharedMemory) (o : ℕ)
    → (v.live o ≡ true → belongs v.at o ≡ false → w.live o ≡ true)
    → (if belongs v.at o then false else v.live o) ≡ true
    → w.live o ≡ true
left_before w v o mine h = elim (Bool-cases (belongs v.at o)) [
  | inl b ↦ absurd (ground arith)
  | inr b ↦ mine (ground arith) b
]

given_up_by :
    (w v : World SharedMemory) (s : Status (Unit {0}))
    → (shared_memory_release v).0 ≡ s
    → ((o : ℕ) → v.live o ≡ true → belongs v.at o ≡ false → w.live o ≡ true)
    → GaveUp w ((ignore shared_memory_release >> raise) v)
given_up_by w v (ok u) e mine = rw e (record {
  failed = refl;
  clean = inr (λ o h. left_before w v o (mine o) (sym (release-left v o e) ∙ h));
})
given_up_by w v error e mine = rw e (record { failed = refl; clean = inl (release-failed v e) })
given_up_by w v stuck e mine = absurd (release-never_stuck v e)

given_up :
    (w v : World SharedMemory)
    → ((o : ℕ) → v.live o ≡ true → belongs v.at o ≡ false → w.live o ≡ true)
    → GaveUp w ((ignore shared_memory_release >> raise) v)
given_up w v mine = given_up_by w v _ refl mine

create_by :
    (w : World SharedMemory) (b0 b1 b2 b3 : Bool)
    → w.succeeds w.calls ≡ b0
    → w.succeeds (w.calls + 1) ≡ b1
    → w.succeeds (w.calls + 1 + 1) ≡ b2
    → w.succeeds (w.calls + 1 + 1 + 1) ≡ b3
    → Created w (shared_memory_create w)
unfolding shared_memory_create
create_by w false b1 b2 b3 e0 e1 e2 e3 = rw e0 (not_created refl (inr (λ o h. h)))
create_by w true false b2 b3 e0 e1 e2 e3 =
    rw (e0, e1) (not_created refl (inr (λ o h. ground arith)))
create_by w true true false b3 e0 e1 e2 e3 =
    rw (e0, e1, e2) (GaveUp-Created (skipped _ (skipped _ (given_up w _ (λ o h b. ground arith)))))
create_by w true true true false e0 e1 e2 e3 =
    rw (e0, e1, e2, e3) (GaveUp-Created (skipped _ (given_up w _ (λ o h b. ground arith))))
create_by w true true true true e0 e1 e2 e3 =
    rw (e0, e1, e2, e3) (created refl (λ o. ground arith) refl)

-- Whichever of its calls fail, and whether or not an earlier run has left the name behind:
-- `shared_memory_create` returns PACMAN_OK and has made the name, the descriptor and the mapping and
-- nothing else, or it returns PACMAN_ERROR and nothing that it made is left, unless giving it back
-- failed as well.
pub shared_memory_create-Created : (w : World SharedMemory) → Created w (shared_memory_create w)
shared_memory_create-Created w = create_by w _ _ _ _ refl refl refl refl
