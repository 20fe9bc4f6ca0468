-- ===== src/Processes.antt =====
-- src/processes.c: the two child processes, started and waited for. What the children
-- themselves do is in Pacman and Enemy.
pub mod Wait
use pacman_posix.Prelude.{Bool, true, false, ◌+◌, if◌then◌else◌}
use pacman_posix.Posix.{
  Object, M, ok, stuck, ◌>>◌, raise, on_error, modify, when, call, init, destroy, also,
  pacman_child, enemy_child,
}

-- `ProcessHandles`: whether each identifier is positive. `wait_failed` is whether `waitpid` has
-- failed, which the code reports by `perror`.
pub record ProcessHandles : Type 0 where
  pub pacman_started : Bool
  pub enemy_started : Bool
  pub wait_failed : Bool

-- The child ends, or `waitpid` blocks for ever: that is chosen from outside like the result of a call.
abbrev pub await_end : M ProcessHandles (Unit {0})
await_end w = (if w.succeeds w.calls then ok tt else stuck, record w { calls = w.calls + 1 })

-- `waitpid`, which fails or waits for the child's end, and then whether it exited with EXIT_SUCCESS.
unfoldable pub wait_one_child : Bool → Object → M ProcessHandles (Unit {0})
wait_one_child started child = when started (
    on_error call ((modify λ h. record h { wait_failed = true }) >> raise)
    >> await_end
    >> destroy child
    >> call)

-- In P0; `fork` makes the child.
unfoldable pub processes_start : M ProcessHandles (Unit {0})
processes_start =
    (modify λ h. record h { pacman_started = false; enemy_started = false })
    >> init pacman_child
    >> (modify λ h. record h { pacman_started = true })
    >> init enemy_child
    >> (modify λ h. record h { enemy_started = true })

abbrev wait_pacman : M ProcessHandles (Unit {0})
wait_pacman w = wait_one_child w.at.pacman_started pacman_child w

abbrev wait_enemy : M ProcessHandles (Unit {0})
wait_enemy w = wait_one_child w.at.enemy_started enemy_child w

unfoldable pub processes_wait : M ProcessHandles (Unit {0})
unfolding wait_one_child
processes_wait = also wait_pacman wait_enemy
