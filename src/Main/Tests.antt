-- ===== src/Main/Tests.antt =====
-- `main` on the small board, with movement files that hold one move each, where `scheduler_run` only
-- ends the game, and where the second child cannot be started.
use pacman_posix.Prelude.{
  ◌≡◌, refl, true, false, ◌==◌, not, List, [], ◌∷◌, none, if◌then◌else◌, some, leb, ◌&&◌, ◌-◌, ◌^◌,
}
use pacman_posix.Prelude.Int.{pos}
use pacman_posix.Text.{Bytes, codes, streq, digits_value, is_digit, starts_with_digit}
use pacman_posix.Environment.{FileSystem}
use pacman_posix.Map.Samples.{small_file}
use pacman_posix.Posix.{World, M, modify}
use pacman_posix.Shared.{zeroed, Environ}
use pacman_posix.Scheduler.{Scheduler, scheduler_init}
use pacman_posix.Main.{System, parse_max_ticks}
use pacman_posix.Main.Ticks.{parse_max_ticks-Digits}

abbrev run : M Scheduler (Unit {0})
run = modify λ c. record c { state = record c.state { game_over = true } }

abbrev case_files : FileSystem
case_files path =
    if streq path (codes "c/map.txt")
    then some small_file
    else some (record { contents = codes "UP\n"; read_error = false })

abbrev no_variables : Environ
no_variables name = none

abbrev fresh : World System
fresh = record {
  at = record {
    shared = record {
      state = zeroed;
      fd_open = false;
      sync_initialized = false;
      is_mapped = false;
      is_named = false;
      release_failed = false;
    };
    scheduler = scheduler_init zeroed;
    processes = record { pacman_started = false; enemy_started = false; wait_failed = false };
  };
  live = λ _. false;
  held = λ _. false;
  calls = 0;
  succeeds = λ n. not (n == 14);
}

abbrev argv : List Bytes
argv = codes "pacman" ∷ codes "c" ∷ codes "2" ∷ []

parse_max_ticks-Digits_example : parse_max_ticks (codes "20") ≡ (
    if leb 1 (digits_value 0 (codes "20")) && leb (digits_value 0 (codes "20")) (2 ^ 31 - 1)
    then some (pos (digits_value 0 (codes "20")))
    else none)
parse_max_ticks-Digits_example =
    parse_max_ticks-Digits (codes "20")
      (unfold starts_with_digit is_digit in (refl, (refl, (refl, tt))))
