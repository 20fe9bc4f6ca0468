-- ===== src/Shared/Priorities.antt =====
-- The priorities that src/shared.c takes from the environment.
use pacman_posix.Prelude.{ℕ, ◌≡◌, refl, Option, none, some, leb, if◌then◌else◌, arith, [], ◌∷◌}
use pacman_posix.Prelude.Int.{ℤ, pos, ◌≤ℤ◌}
use pacman_posix.Text.{Bytes, digits_value, clamp_long, at_end, starts_with_digit}
use pacman_posix.Text.Number.{Digits, strtol-Digits}
use pacman_posix.Common.{min_priority, max_priority}
use pacman_posix.Shared.{
  Environ, second, parse_priority_text, parse_priority_env, load_initial_priorities,
}

abbrev pub InRange : ℤ → Type 0
InRange p = (min_priority ≤ℤ p) × (p ≤ℤ max_priority)

parse_priority_text-InRange : (text : Bytes) {p : ℤ} → parse_priority_text text ≡ some p → InRange p
unfolding parse_priority_text
parse_priority_text-InRange text h = ground arith

parse_priority_env-InRange :
    (value : Option Bytes) (d p : ℤ) → InRange d → parse_priority_env value d ≡ some p → InRange p
unfolding parse_priority_env
parse_priority_env-InRange none d p r h = ground arith
parse_priority_env-InRange (some []) d p r h = ground arith
parse_priority_env-InRange (some (c ∷ cs)) d p r h = parse_priority_text-InRange (c ∷ cs) h

-- A number that is written in digits only is taken exactly when it is at most 100.
parse_priority_text-Digits :
    (text : Bytes)
    → Digits text
    → parse_priority_text text
      ≡ (if leb (digits_value 0 text) 100 then some (pos (digits_value 0 text)) else none)
unfolding parse_priority_text clamp_long at_end
parse_priority_text-Digits text h = rw (strtol-Digits text h) (ground arith)

Digits-cons : (text : Bytes) → Digits text → (c : ℕ) × (cs : Bytes) × (text ≡ c ∷ cs)
unfolding starts_with_digit
Digits-cons [] h = cc (h.0)
Digits-cons (c ∷ cs) h = (c, cs, refl)

-- The same of the variable that holds it, whatever the default.
pub parse_priority_env-Digits :
    (text : Bytes) (default_value : ℤ)
    → Digits text
    → parse_priority_env (some text) default_value
      ≡ (if leb (digits_value 0 text) 100 then some (pos (digits_value 0 text)) else none)
unfolding parse_priority_env starts_with_digit
parse_priority_env-Digits [] d h = cc (h.0)
parse_priority_env-Digits (c ∷ cs) d h = parse_priority_text-Digits (c ∷ cs) h

both_parts : (p q : Option ℤ) (a b : ℤ) → second p q ≡ some (a, b) → (p ≡ some a) × (q ≡ some b)
both_parts none q a b h = cc
both_parts (some p) none a b h = cc
both_parts (some p) (some q) a b h = ground arith

-- Whatever the environment holds, the two initial priorities lie between 0 and 100.
pub load_initial_priorities-InRange :
    (getenv : Environ) (p e : ℤ)
    → load_initial_priorities getenv ≡ some (p, e)
    → InRange p × InRange e
unfolding load_initial_priorities
load_initial_priorities-InRange getenv p e h =
    let r = both_parts _ _ p e h in
    (
      parse_priority_env-InRange _ _ p (omega arith) r.0,
      parse_priority_env-InRange _ _ e (omega arith) r.1,
    )
