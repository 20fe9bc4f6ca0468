-- ===== src/Pacman/Parse.antt =====
-- P1's parser against the check that P0 makes of the same file before the game.
use pacman_posix.Prelude.{
  ℕ, ◌<◌, ◌≡◌, ◌⊎◌, inl, inr, refl, sym, ◌∙◌, Bool, true, false, ◌||◌, [], ◌∷◌, Option, none, some,
  drop, length, leb, if◌then◌else◌, arith, All, Bool-cases,
}
use pacman_posix.Prelude.Int.{ℤ, pos}
use pacman_posix.Text.{
  Bytes, codes, streq, has_prefix, digits_value, clamp_long, at_end, starts_with_digit, is_digit,
}
use pacman_posix.Text.Number.{Digits, strtol-Digits}
use pacman_posix.Movement.{priority_prefix, is_digits, all_digits, is_valid_instruction}
use pacman_posix.Shared.Priorities.{InRange}
use pacman_posix.Pacman.{
  PacmanInstruction, PacmanMoveDirection, moving, setting, parse_priority_value, parse_instruction,
}

parse_priority_value-Digits :
    (text : Bytes)
    → Digits text
    → parse_priority_value text
      ≡ (if leb (digits_value 0 text) 100 then some (pos (digits_value 0 text)) else none)
unfolding parse_priority_value clamp_long at_end
parse_priority_value-Digits text h = rw (strtol-Digits text h) (ground arith)

all_digits-All : (text : Bytes) → all_digits text ≡ true → All (λ c. is_digit c ≡ true) text
unfolding all_digits
all_digits-All [] h = tt
all_digits-All (c ∷ cs) h = elim (Bool-cases (is_digit c)) [
  | inl e ↦ (e, all_digits-All cs (sym (rw e refl) ∙ h))
  | inr e ↦ absurd (ground arith)
]

is_digits-Digits : (text : Bytes) → is_digits text ≡ true → Digits text
unfolding is_digits starts_with_digit
is_digits-Digits [] h = cc
is_digits-Digits (c ∷ cs) h = let a = all_digits-All (c ∷ cs) h in (a.0, a)

-- The number that follows the prefix.
abbrev pub number_of : Bytes → ℕ
number_of line = digits_value 0 (drop (length priority_prefix) line)

-- What P1 makes of a line.
abbrev pub Parsed : Bytes → Type 0
Parsed line =
    ((i : PacmanInstruction) × (parse_instruction line ≡ some i))
    ⊎ ((has_prefix priority_prefix line ≡ true)
        × (100 < number_of line)
        × (parse_instruction line ≡ none))

-- The test of the parser, as a value.
abbrev parse_by : Bool → Bool → Bool → Bool → Bool → Bytes → Option PacmanInstruction
parse_by up down left right prefix line =
    if up
    then moving line PacmanMoveDirection.move_up
    else if down
    then moving line PacmanMoveDirection.move_down
    else if left
    then moving line PacmanMoveDirection.move_left
    else if right
    then moving line PacmanMoveDirection.move_right
    else if prefix
    then setting line (parse_priority_value (drop (length priority_prefix) line))
    else none

ParsedBy : Option PacmanInstruction → Bool → Bytes → Type 0
ParsedBy parsed prefix line =
    ((i : PacmanInstruction) × (parsed ≡ some i))
    ⊎ ((prefix ≡ true) × (100 < number_of line) × (parsed ≡ none))

setting-ParsedBy :
    (line : Bytes)
    → Digits (drop (length priority_prefix) line)
    → ParsedBy (setting line (parse_priority_value (drop (length priority_prefix) line))) true line
unfolding ParsedBy
setting-ParsedBy line h =
    rw (parse_priority_value-Digits (drop (length priority_prefix) line) h) (go (number_of line))
  where
    go :
        (n : ℕ)
        → ((i : PacmanInstruction) × (setting line (if leb n 100 then some (pos n) else none)
              ≡ some i))
          ⊎ ((true ≡ true)
              × (100 < n)
              × (setting line (if leb n 100 then some (pos n) else none) ≡ none))
    go n = elim (Bool-cases (leb n 100)) [
      | inl e ↦ rw e (inl (_, refl))
      | inr e ↦ rw e (inr (refl, ground arith, refl))
    ]

parse_by-ParsedBy :
    (up down left right prefix : Bool) (line : Bytes)
    → (if up || down || left || right
        then true
        else if prefix
        then is_digits (drop (length priority_prefix) line)
        else false)
      ≡ true
    → ParsedBy (parse_by up down left right prefix line) prefix line
unfolding ParsedBy
parse_by-ParsedBy true down left right prefix line h = inl (_, refl)
parse_by-ParsedBy false true left right prefix line h = inl (_, refl)
parse_by-ParsedBy false false true right prefix line h = inl (_, refl)
parse_by-ParsedBy false false false true prefix line h = inl (_, refl)
parse_by-ParsedBy false false false false true line h =
    setting-ParsedBy line (is_digits-Digits (drop (length priority_prefix) line) h)
parse_by-ParsedBy false false false false false line h = cc

-- A line that P0's `is_valid_instruction` accepts is an instruction for P1's `parse_instruction`,
-- or it is SET_PRIORITY with a number above 100, and P1 rejects it.
pub is_valid_instruction-Parsed : (line : Bytes) → is_valid_instruction line ≡ true → Parsed line
unfolding is_valid_instruction parse_instruction ParsedBy
is_valid_instruction-Parsed line h =
    parse_by-ParsedBy (streq line (codes "UP")) (streq line (codes "DOWN"))
      (streq line (codes "LEFT")) (streq line (codes "RIGHT")) (has_prefix priority_prefix line)
      line h

parse_priority_value-InRange :
    (text : Bytes) {p : ℤ} → parse_priority_value text ≡ some p → InRange p
unfolding parse_priority_value
parse_priority_value-InRange text h = ground arith
