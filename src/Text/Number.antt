-- ===== src/Text/Number.antt =====
-- `strtol` on a plain string of digits.
use pacman_posix.Prelude.{ℕ, ◌≡◌, refl, [], ◌∷◌, arith, true, false, All, ltb, ◌==◌}
use pacman_posix.Text.{
  Bytes, is_digit, is_space, digits_value, after_digits, starts_with_digit, clamp_long,
  strtol_digits, strtol, long_max,
}

-- The text has digits only, and at least one.
abbrev pub Digits : Bytes → Type 0
Digits text = (starts_with_digit text ≡ true) × All (λ c. is_digit c ≡ true) text

after_digits-digits : (text : Bytes) → All (λ c. is_digit c ≡ true) text → after_digits text ≡ []
unfolding after_digits
after_digits-digits [] h = refl
after_digits-digits (c ∷ cs) h = ground (arith, after_digits-digits cs h.1)

digit_not_space : (c : ℕ) → is_digit c ≡ true → is_space c ≡ false
unfolding is_digit is_space
digit_not_space c h = ground arith

digit_not_sign : (c : ℕ) → is_digit c ≡ true → ((c == b'-') ≡ false) × ((c == b'+') ≡ false)
unfolding is_digit
digit_not_sign c h = ground arith

strtol_skips_nothing :
    (c : ℕ) (cs : Bytes)
    → is_digit c ≡ true
    → strtol (c ∷ cs) ≡ strtol_digits (c ∷ cs) false (c ∷ cs)
unfolding strtol
strtol_skips_nothing c cs h = ground (arith, digit_not_space c h, digit_not_sign c h)

-- Every digit counts, and the value is clamped to `long`.
pub strtol-Digits :
    (text : Bytes)
    → Digits text
    → strtol text ≡ record {
      value = clamp_long false (digits_value 0 text);
      rest = [];
      no_digits = false;
      range_error = ltb long_max (digits_value 0 text);
    }
unfolding starts_with_digit
strtol-Digits [] h = cc (h.0)
strtol-Digits (c ∷ cs) h =
    rw (strtol_skips_nothing c cs h.1.0)
      (unfold strtol_digits in rw (h.1.0, after_digits-digits cs h.1.1) refl)
