-- ===== src/Map/Scan.antt =====
-- The scan of src/map.c over the cells: what it accepts, what it counts, and the places it keeps.
use mathlib.Core.List.{append_assoc}
use pacman_posix.Prelude.{
  ℕ, ◌+◌, ◌≡◌, ◌⊎◌, inl, inr, refl, sym, ap, ◌∙◌, List, [], ◌∷◌, ◌++◌, none, some, All, length,
  get_elem?, length-append, ◌==◌, if◌then◌else◌, arith, Bool-cases, ==_iff,
}
use pacman_posix.Prelude.Int.{to_int}
use pacman_posix.Text.{Bytes}
use pacman_posix.Common.{Position}
use pacman_posix.Map.{
  Checked, accepted, rejected, ◌>>=◌, Entities, validate_map_cell, register_entity, scan_row,
  scan_rows,
}
use pacman_posix.Map.Cells.{
  Piece, letter, IsPiece, IsCell, count, count_grid, Holds, get_elem?-middle,
}

abbrev pub count_of : Entities → Piece → ℕ
count_of found none = found.pacman_count
count_of found (some i) = found.ghost_counts i

abbrev pub start_of : Entities → Piece → Position
start_of found none = found.pacman_start
start_of found (some i) = found.ghost_starts i

register-count :
    (cell row col : ℕ) (found : Entities) (k : Piece)
    → IsPiece k
    → count_of (register_entity cell row col found) k
      ≡ count_of found k + (if cell == letter k then 1 else 0)
unfolding register_entity
register-count cell row col found none h = ground arith
register-count cell row col found (some i) h = ground arith

register-start :
    (cell row col : ℕ) (found : Entities) (k : Piece)
    → IsPiece k
    → start_of (register_entity cell row col found) k ≡ (
        if cell == letter k
        then record { row = to_int row; col = to_int col }
        else start_of found k)
unfolding register_entity
register-start cell row col found none h = ground arith
register-start cell row col found (some i) h = ground arith

validate_map_cell-IsCell :
    (cell row col : ℕ) → validate_map_cell cell row col ≡ accepted tt → IsCell cell
unfolding validate_map_cell
validate_map_cell-IsCell cell row col h = ground arith

IsCell-validate_map_cell :
    (cell row col : ℕ) → IsCell cell → validate_map_cell cell row col ≡ accepted tt
unfolding validate_map_cell
IsCell-validate_map_cell cell row col h = ground arith

pub bind-accepted :
    {A B : Type 0} (m : Checked A) (f : A → Checked B) {b : B}
    → (m >>= f) ≡ accepted b
    → (a : A) × (m ≡ accepted a) × (f a ≡ accepted b)
bind-accepted (accepted a) f h = (a, refl, h)
bind-accepted (rejected e) f h = cc

pub accepted_injective : {A : Type 0} {a b : A} → accepted a ≡ accepted b → a ≡ b
accepted_injective h = cc

-- One cell of a scan that goes through.
scan_row_step :
    (row col cell : ℕ) (rest : Bytes) (found last : Entities)
    → scan_row row col (cell ∷ rest) found ≡ accepted last
    → IsCell cell
      × (scan_row row (col + 1) rest (register_entity cell row col found) ≡ accepted last)
unfolding scan_row
scan_row_step row col cell rest found last h =
    let (u, v, later) = bind-accepted (validate_map_cell cell row col) _ h in
    (validate_map_cell-IsCell cell row col v, later)

scan_row-known :
    (row col : ℕ) (line : Bytes) (found last : Entities)
    → scan_row row col line found ≡ accepted last
    → All IsCell line
scan_row-known row col [] found last h = tt
scan_row-known row col (cell ∷ rest) found last h =
    let (good, later) = scan_row_step row col cell rest found last h in
    (good, scan_row-known row (col + 1) rest _ last later)

scan_row-ok :
    (row col : ℕ) (line : Bytes) (found : Entities)
    → All IsCell line
    → (last : Entities) × (scan_row row col line found ≡ accepted last)
unfolding scan_row
scan_row-ok row col [] found h = (found, refl)
scan_row-ok row col (cell ∷ rest) found h =
    rw (IsCell-validate_map_cell cell row col h.0)
      (scan_row-ok row (col + 1) rest (register_entity cell row col found) h.1)

scan_row-count :
    (row col : ℕ) (line : Bytes) (found last : Entities) (k : Piece)
    → IsPiece k
    → scan_row row col line found ≡ accepted last
    → count_of last k ≡ count_of found k + count (letter k) line
unfolding scan_row
scan_row-count row col [] found last k p h =
    omega (arith, ap (λ s. count_of s k) (accepted_injective h))
scan_row-count row col (cell ∷ rest) found last k p h =
    let (good, later) = scan_row_step row col cell rest found last h in
    omega (
      arith,
      register-count cell row col found k p,
      scan_row-count row (col + 1) rest (register_entity cell row col found) last k p later,
    )

-- One row of a scan that goes through.
scan_rows_step :
    (row : ℕ) (line : Bytes) (rest : List Bytes) (found last : Entities)
    → scan_rows row (line ∷ rest) found ≡ accepted last
    → (next : Entities) × (scan_row row 0 line found ≡ accepted next)
      × (scan_rows (row + 1) rest next ≡ accepted last)
unfolding scan_rows
scan_rows_step row line rest found last h = bind-accepted (scan_row row 0 line found) _ h

-- A scan goes through only over known cells.
pub scan_rows-known :
    (row : ℕ) (grid : List Bytes) (found last : Entities)
    → scan_rows row grid found ≡ accepted last
    → All (λ line. All IsCell line) grid
scan_rows-known row [] found last h = tt
scan_rows-known row (line ∷ rest) found last h =
    let (next, here, later) = scan_rows_step row line rest found last h in
    (scan_row-known row 0 line found next here, scan_rows-known (row + 1) rest next last later)

-- It goes through over any known cells.
pub scan_rows-ok :
    (row : ℕ) (grid : List Bytes) (found : Entities)
    → All (λ line. All IsCell line) grid
    → (last : Entities) × (scan_rows row grid found ≡ accepted last)
unfolding scan_rows
scan_rows-ok row [] found h = (found, refl)
scan_rows-ok row (line ∷ rest) found h =
    let (next, e) = scan_row-ok row 0 line found h.0 in rw e (scan_rows-ok (row + 1) rest next h.1)

-- Its counters count the letters.
pub scan_rows-count :
    (row : ℕ) (grid : List Bytes) (found last : Entities) (k : Piece)
    → IsPiece k
    → scan_rows row grid found ≡ accepted last
    → count_of last k ≡ count_of found k + count_grid (letter k) grid
unfolding scan_rows
scan_rows-count row [] found last k p h =
    omega (arith, ap (λ s. count_of s k) (accepted_injective h))
scan_rows-count row (line ∷ rest) found last k p h =
    let (next, here, later) = scan_rows_step row line rest found last h in
    omega (
      arith,
      scan_row-count row 0 line found next k p here,
      scan_rows-count (row + 1) rest next last k p later,
    )

-- The place that is kept for a piece that was met holds its letter.
abbrev pub Located : List Bytes → Piece → Entities → Type 0
Located grid k found = (count_of found k ≡ 0) ⊎ Holds grid (letter k) (start_of found k)

module _ (grid : List Bytes) (k : Piece) (known : IsPiece k) where
  register-Located :
      (cell row col : ℕ) (line : Bytes) (found : Entities)
      → get_elem? grid row ≡ some line
      → get_elem? line col ≡ some cell
      → Located grid k found
      → Located grid k (register_entity cell row col found)
  register-Located cell row col line found r c l = elim (Bool-cases (cell == letter k)) [
    | inl e ↦ inr (record {
      row = row;
      col = col;
      line = line;
      in_row = r;
      in_col = c ∙ ap some ((==_iff cell (letter k)).0 e);
      place = register-start cell row col found k known ∙ rw e;
    })
    | inr e ↦
        let same : start_of (register_entity cell row col found) k ≡ start_of found k =
          register-start cell row col found k known ∙ rw e in
        let count : count_of (register_entity cell row col found) k ≡ count_of found k =
          register-count cell row col found k known ∙ rw e (omega arith) in
        elim l [ inl z ↦ inl (count ∙ z) | inr h ↦ inr (rw same h) ]
  ]

  scan_row-Located :
      (row : ℕ) (before rest : Bytes) (found last : Entities)
      → get_elem? grid row ≡ some (before ++ rest)
      → scan_row row (length before) rest found ≡ accepted last
      → Located grid k found
      → Located grid k last
  unfolding scan_row
  scan_row-Located row before [] found last r h l = rw (← accepted_injective h) l
  scan_row-Located row before (cell ∷ rest) found last r h l =
      let (good, later) = scan_row_step row (length before) cell rest found last h in
      let moved : length (before ++ cell ∷ []) ≡ length before + 1 =
        length-append before (cell ∷ []) in
      scan_row-Located row (before ++ cell ∷ []) rest
        (register_entity cell row (length before) found) last
        (r ∙ ap some (sym (append_assoc before (cell ∷ []) rest))) (rw moved later)
        (register-Located cell row (length before) (before ++ (cell ∷ rest)) found r
          (get_elem?-middle before rest cell) l)

  scan_rows-Located :
      (before rest : List Bytes) (found last : Entities)
      → grid ≡ before ++ rest
      → scan_rows (length before) rest found ≡ accepted last
      → Located grid k found
      → Located grid k last
  unfolding scan_rows
  scan_rows-Located before [] found last g h l = rw (← accepted_injective h) l
  scan_rows-Located before (line ∷ rest) found last g h l =
      let (next, here, later) = scan_rows_step (length before) line rest found last h in
      let moved : length (before ++ line ∷ []) ≡ length before + 1 =
        length-append before (line ∷ []) in
      scan_rows-Located (before ++ line ∷ []) rest next last
        (g ∙ sym (append_assoc before (line ∷ []) rest)) (rw moved later)
        (scan_row-Located (length before) [] line found next
          (ap (λ t. get_elem? t (length before)) g ∙ get_elem?-middle before rest line) here l)

-- After a scan of the whole grid, each piece that was met has the place of its letter.
pub scan_rows_places :
    (grid : List Bytes) (found last : Entities) (k : Piece)
    → IsPiece k
    → count_of found k ≡ 0
    → scan_rows 0 grid found ≡ accepted last
    → Located grid k last
scan_rows_places grid found last k p z h =
    scan_rows-Located grid k p [] grid found last refl h (inl z)
