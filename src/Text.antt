-- ===== src/Text.antt =====
-- What src/*.c use of the C library on text: `char` buffers as lists of byte values, `fgets`,
-- `strlen`, `strcmp`, `strncmp`, `strtol`, and the trimming loops of the program.
pub mod Strip
pub mod Number
pub mod Lines
use Prim.Native.Char.{code}
use Prim.Native.String.{String}
use pacman_posix.Prelude.{
  ℕ, zero, suc, ◌+◌, ◌-◌, ◌*◌, ◌^◌, Bool, true, false, ◌&&◌, ◌||◌, not, List, [], ◌∷◌, ◌++◌, ltb,
  leb, ◌==◌, if◌then◌else◌, length, drop, get_or, take,
}
use pacman_posix.Prelude.Int.{ℤ, pos, negsuc}

abbrev pub Bytes : Type 0
Bytes = List ℕ

-- The bytes of an ASCII literal.
abbrev pub codes : String → Bytes
codes String.[] = []
codes (String.◌∷◌ c s) = code c ∷ codes s

-- A buffer up to its first NUL: what `strlen`, `strcmp` and the loops below see of it.
unfoldable pub c_string : Bytes → Bytes
c_string [] = []
c_string (c ∷ cs) = if c == 0 then [] else c ∷ c_string cs

-- Put a byte in front of the first piece.
abbrev pub cons_head : ℕ → List Bytes → List Bytes
cons_head c [] = (c ∷ []) ∷ []
cons_head c (l ∷ ls) = (c ∷ l) ∷ ls

-- What the calls `fgets(line, size, file)` return one after the other until NULL, `size - 1`
-- being `most`, when `room` bytes are left in the buffer of the current call.
unfoldable pub fgets_from : ℕ → ℕ → Bytes → List Bytes
fgets_from most room [] = []
fgets_from most room (c ∷ cs) =
    let stop = c == b'\n' || leb room 1 in
    let rest = fgets_from most (if stop then most else room - 1) cs in
    if stop then (c ∷ []) ∷ rest else cons_head c rest

-- `char line[4096]`
abbrev pub line_size : ℕ
line_size = 4096

unfoldable pub fgets_all : Bytes → List Bytes
unfolding fgets_from
fgets_all = fgets_from (line_size - 1) (line_size - 1)

-- `strcmp(a, b) == 0`
unfoldable pub streq : Bytes → Bytes → Bool
streq [] [] = true
streq (x ∷ xs) (y ∷ ys) = x == y && streq xs ys
streq _ _ = false

-- `strncmp(text, prefix, strlen(prefix)) == 0`
unfoldable pub has_prefix : Bytes → Bytes → Bool
has_prefix [] text = true
has_prefix (p ∷ ps) [] = false
has_prefix (p ∷ ps) (c ∷ cs) = c == p && has_prefix ps cs

-- `while (length > 0 && blank(line[length - 1])) --length;`
unfoldable pub strip_end : (ℕ → Bool) → Bytes → ℕ → ℕ
strip_end blank line zero = zero
strip_end blank line (suc n) =
    let rest = strip_end blank line n in if blank (get_or line n 0) then rest else suc n

-- `while (blank(line[start])) ++start;`, which stops at the NUL
unfoldable pub leading : (ℕ → Bool) → Bytes → ℕ
leading blank [] = 0
leading blank (c ∷ cs) = if blank c then suc (leading blank cs) else 0

unfoldable pub is_digit : ℕ → Bool
is_digit c = leb b'0' c && leb c b'9'

-- `isspace` in the C locale
unfoldable pub is_space : ℕ → Bool
is_space c = c == b' ' || (leb 9 c && leb c 13)

abbrev pub long_max : ℕ
long_max = 2 ^ 63 - 1

-- What `strtol(text, &end, 10)` tells its caller: the value, the text at `end`, whether `end` is
-- `text`, and whether it set `errno`.
pub record Strtol : Type 0 where
  pub value : ℤ
  pub rest : Bytes
  pub no_digits : Bool
  pub range_error : Bool

unfoldable pub digits_value : ℕ → Bytes → ℕ
unfolding is_digit
digits_value acc [] = acc
digits_value acc (c ∷ cs) =
    let rest = digits_value (acc * 10 + (c - b'0')) cs in if is_digit c then rest else acc

unfoldable pub after_digits : Bytes → Bytes
unfolding is_digit
after_digits [] = []
after_digits (c ∷ cs) = if is_digit c then after_digits cs else c ∷ cs

unfoldable pub starts_with_digit : Bytes → Bool
unfolding is_digit
starts_with_digit [] = false
starts_with_digit (c ∷ cs) = is_digit c

-- The value clamped to `long`; `negative` is the sign that was read.
unfoldable pub clamp_long : Bool → ℕ → ℤ
clamp_long false n = if ltb long_max n then pos long_max else pos n
clamp_long true zero = pos 0
clamp_long true (suc n) = if ltb long_max n then negsuc long_max else negsuc n

-- 2^63 is in range with a minus sign only.
unfoldable pub out_of_long : Bool → ℕ → Bool
out_of_long false n = ltb long_max n
out_of_long true n = ltb (long_max + 1) n

unfoldable pub strtol_digits : Bytes → Bool → Bytes → Strtol
unfolding digits_value after_digits starts_with_digit clamp_long out_of_long
strtol_digits text negative digits =
    if starts_with_digit digits
    then record {
      value = clamp_long negative (digits_value 0 digits);
      rest = after_digits digits;
      no_digits = false;
      range_error = out_of_long negative (digits_value 0 digits);
    }
    else record { value = pos 0; rest = text; no_digits = true; range_error = false }

unfoldable pub strtol_sign : Bytes → Bytes → Strtol
unfolding strtol_digits
strtol_sign text [] = strtol_digits text false []
strtol_sign text (c ∷ cs) =
    if c == b'-'
    then strtol_digits text true cs
    else if c == b'+'
    then strtol_digits text false cs
    else strtol_digits text false (c ∷ cs)

unfoldable pub strtol : Bytes → Strtol
unfolding strtol_sign leading is_space
strtol text = strtol_sign text (drop (leading is_space text) text)

-- `*end == '\0'`
unfoldable pub at_end : Bytes → Bool
at_end [] = true
at_end (_ ∷ _) = false
