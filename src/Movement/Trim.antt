-- ===== src/Movement/Trim.antt =====
-- `strip_line` of src/movement.c against a description of what trimming is.
use mathlib.Core.List.{append_assoc}
use pacman_posix.Prelude.{
  ℕ, suc, ◌+◌, ◌-◌, ◌≤◌, ◌<◌, ◌≡◌, sym, ap, ◌∙◌, [], ◌∷◌, ◌++◌, arith, length, All, true, false,
  take, drop, get_or, take-append-drop, length-take, length-drop, get_or-take, get_or-drop,
  get_or-append_last, length-append, All-intro,
}
use pacman_posix.Text.{Bytes, strip_end, leading}
use pacman_posix.Text.Strip.{
  strip_end-le, strip_end-last, strip_end-cut, leading-le, leading-cut, leading-first,
}
use pacman_posix.Movement.{is_blank, is_line_end, strip_line}

-- `text` is `line` without the blanks before it and the blanks and line ends after it.
pub record Trimmed (line text : Bytes) : Type 0 where
  pub before : Bytes
  pub after : Bytes
  pub splits : line ≡ before ++ (text ++ after)
  pub before_blank : All (λ c. is_blank c ≡ true) before
  pub after_blank : All (λ c. is_line_end c ≡ true) after
  pub first_kept : (c : ℕ) (cs : Bytes) → text ≡ c ∷ cs → is_blank c ≡ false
  pub last_kept : (cs : Bytes) (c : ℕ) → text ≡ cs ++ c ∷ [] → is_line_end c ≡ false

module _ (line : Bytes) where
  abbrev stop : ℕ
  stop = strip_end is_line_end line (length line)

  abbrev kept : Bytes
  kept = take stop line

  abbrev start : ℕ
  start = leading is_blank kept

  stop_le : stop ≤ length line
  stop_le = strip_end-le is_line_end line (length line)

  length-kept : length kept ≡ stop
  length-kept = length-take stop line stop_le

  start_le : start ≤ stop
  start_le = omega (arith, leading-le is_blank kept, length-kept)

  line_splits : line ≡ take start kept ++ (drop start kept ++ drop stop line)
  line_splits =
      sym (take-append-drop stop line)
      ∙ ap (λ t. t ++ drop stop line) (sym (take-append-drop start kept))
      ∙ append_assoc (take start kept) (drop start kept) (drop stop line)

  before-All : All (λ c. is_blank c ≡ true) (take start kept)
  before-All = All-intro _ _ 0 λ i h.
      let k : i < start =
        omega (arith, h, length-take start kept (omega (arith, length-kept, start_le))) in
      rw (get_or-take start kept i 0 k) (leading-cut is_blank kept i k)

  after-All : All (λ c. is_line_end c ≡ true) (drop stop line)
  after-All = All-intro _ _ 0 λ i h. rw (get_or-drop stop line i 0) (
      strip_end-cut is_line_end line (length line) (stop + i) (omega arith)
        (omega (arith, length-drop stop line, h)))

  first_ok : (c : ℕ) (cs : Bytes) → drop start kept ≡ c ∷ cs → is_blank c ≡ false
  first_ok c cs e =
      let size : suc (length cs) ≡ length kept - start =
        sym (ap length e) ∙ length-drop start kept in
      let at : get_or kept start 0 ≡ c =
        ap (λ k. get_or kept k 0) (omega arith)
        ∙ sym (get_or-drop start kept 0 0)
        ∙ ap (λ t. get_or t 0 0) e in
      rw at at (leading-first is_blank kept (omega arith))

  last_ok : (cs : Bytes) (c : ℕ) → drop start kept ≡ cs ++ c ∷ [] → is_line_end c ≡ false
  last_ok cs c e =
      let size : length (cs ++ c ∷ []) ≡ length kept - start =
        sym (ap length e) ∙ length-drop start kept in
      let grown : length (cs ++ c ∷ []) ≡ length cs + 1 = length-append cs (c ∷ []) in
      let whole : stop ≡ suc (start + length cs) = omega (arith, size, grown, length-kept) in
      let at : get_or line (start + length cs) 0 ≡ c =
        sym (get_or-take stop line (start + length cs) 0 (omega arith))
        ∙ sym (get_or-drop start kept (length cs) 0)
        ∙ ap (λ t. get_or t (length cs) 0) e
        ∙ get_or-append_last cs c 0 in
      rw at at (strip_end-last is_line_end line (length line) (start + length cs) whole)

-- `strip_line` leaves exactly the text between the surrounding blanks: what it cuts in front is
-- blanks, what it cuts behind is blanks and line ends, and neither end of what is left is one.
pub strip_line-Trimmed : (line : Bytes) → Trimmed line (strip_line line)
unfolding strip_line
strip_line-Trimmed line = record {
  before = take (start line) (kept line);
  after = drop (stop line) line;
  splits = line_splits line;
  before_blank = before-All line;
  after_blank = after-All line;
  first_kept = first_ok line;
  last_kept = last_ok line;
}
