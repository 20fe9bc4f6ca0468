-- ===== src/Processes/Wait.antt =====
-- The children that exist after `processes_start`, and after `processes_wait` where it returns.
use pacman_posix.Prelude.{ℕ, ◌≡◌, ◌≢◌, Bool, true, false, ◌&&◌, ◌||◌, ◌==◌, if◌then◌else◌, arith}
use pacman_posix.Posix.{World, stuck}
use pacman_posix.Processes.{ProcessHandles, processes_start, processes_wait, wait_one_child}

abbrev pub is_child : ProcessHandles → ℕ → Bool
is_child h o = (h.pacman_started && o == 27) || (h.enemy_started && o == 28)

-- It blocks only on a child that was started.
pub wait-blocked :
    (w : World ProcessHandles)
    → (processes_wait w).0 ≡ stuck
    → (w.at.pacman_started || w.at.enemy_started) ≡ true
unfolding processes_wait wait_one_child
wait-blocked w h = ground arith

-- Where it returns, both children were waited for, whatever they returned.
pub wait-left :
    (w : World ProcessHandles) (o : ℕ)
    → (processes_wait w).0 ≢ stuck
    → (processes_wait w).1.at.wait_failed ≡ false
    → (processes_wait w).1.live o ≡ (if is_child w.at o then false else w.live o)
unfolding processes_wait wait_one_child
wait-left w o returns h = ground arith

pub start-started :
    (w : World ProcessHandles) (o : ℕ)
    → (processes_start w).1.live o ≡ (is_child (processes_start w).1.at o || w.live o)
unfolding processes_start
start-started w o = ground arith

pub start-failed :
    (w : World ProcessHandles) → (processes_start w).1.at.wait_failed ≡ w.at.wait_failed
unfolding processes_start
start-failed w = ground arith
