-- ===== src/Main/Ticks.antt =====
-- The number of ticks on the command line.
use pacman_posix.Prelude.{◌≡◌, none, some, ◌&&◌, ◌-◌, ◌^◌, leb, if◌then◌else◌, arith}
use pacman_posix.Prelude.Int.{pos}
use pacman_posix.Text.{Bytes, digits_value, clamp_long, at_end}
use pacman_posix.Text.Number.{Digits, strtol-Digits}
use pacman_posix.Main.{parse_max_ticks}

-- A limit that is written in digits only is taken exactly when its number is at least 1 and at most
-- INT_MAX, and then as that number.
pub parse_max_ticks-Digits :
    (text : Bytes)
    → Digits text
    → let n = digits_value 0 text in
      parse_max_ticks text ≡ (if leb 1 n && leb n (2 ^ 31 - 1) then some (pos n) else none)
unfolding parse_max_ticks clamp_long at_end
parse_max_ticks-Digits text h = rw (strtol-Digits text h) (ground arith)
