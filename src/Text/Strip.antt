-- ===== src/Text/Strip.antt =====
-- What the trimming loops do: the index form against a reading of the line from its ends.
use pacman_posix.Prelude.{
  ℕ, zero, suc, ◌≤◌, ◌<◌, ◌≡◌, [], ◌∷◌, arith, length, Bool, true, false, Bool-cases, inl, inr,
  get_or,
}
use pacman_posix.Text.{Bytes, strip_end, leading}

module _ (blank : ℕ → Bool) where
  pub strip_end-le : (line : Bytes) (n : ℕ) → strip_end blank line n ≤ n
  unfolding strip_end
  strip_end-le line zero = omega arith
  strip_end-le line (suc n) = ground (arith, strip_end-le line n)

  -- What is kept does not end in a blank.
  pub strip_end-last :
      (line : Bytes) (n m : ℕ) → strip_end blank line n ≡ suc m → blank (get_or line m 0) ≡ false
  unfolding strip_end
  strip_end-last line zero m h = absurd (omega arith)
  strip_end-last line (suc n) m h = ground (arith, strip_end-last line n m)

  -- What is cut off is blank.
  pub strip_end-cut :
      (line : Bytes) (n i : ℕ) → strip_end blank line n ≤ i → i < n → blank (get_or line i 0) ≡ true
  unfolding strip_end
  strip_end-cut line zero i h k = absurd (omega arith)
  strip_end-cut line (suc n) i h k = ground (arith, strip_end-cut line n i)

  pub leading-le : (line : Bytes) → leading blank line ≤ length line
  unfolding leading
  leading-le [] = omega arith
  leading-le (c ∷ cs) = ground (arith, leading-le cs)

  pub leading-cut : (line : Bytes) (i : ℕ) → i < leading blank line → blank (get_or line i 0) ≡ true
  unfolding leading
  leading-cut [] i h = absurd (omega arith)
  leading-cut (c ∷ cs) zero h = ground arith
  leading-cut (c ∷ cs) (suc i) h = ground (arith, leading-cut cs i)

  -- What is kept does not start with a blank.
  pub leading-first :
      (line : Bytes)
      → leading blank line < length line
      → blank (get_or line (leading blank line) 0) ≡ false
  unfolding leading
  leading-first [] h = absurd (omega arith)
  leading-first (c ∷ cs) h = elim (Bool-cases (blank c)) [
    | inl e ↦ rw e (leading-first cs (ground arith))
    | inr e ↦ rw e e
  ]
