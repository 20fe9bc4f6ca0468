-- ===== src/Map/Rows.antt =====
-- The reading loop of src/map.c: the rows that it stores are the lines of the file, all as long as
-- the first.
use mathlib.Core.List.{append_assoc, append-nil}
use pacman_posix.Prelude.{
  ℕ, ◌+◌, ◌<◌, ◌≤◌, ◌≡◌, ◌⊎◌, inl, inr, refl, sym, ap, subst, ◌∙◌, Bool, true, false, List, [], ◌∷◌,
  ◌++◌, All, All-append, length, length-append, ◌==◌, arith, map as map_list, Bool-cases, ==_iff,
}
use pacman_posix.Text.{Bytes, c_string}
use pacman_posix.Map.{Map, accepted, validate_row_width, append_row, strip_line_ending, read_rows}
use pacman_posix.Map.Scan.{bind-accepted, accepted_injective}

-- The row that one call of `fgets` gives.
abbrev pub row_of : Bytes → Bytes
row_of buffer = strip_line_ending (c_string buffer)

abbrev pub rows_of : List Bytes → List Bytes
rows_of = map_list row_of

-- What holds of the map after any number of rounds.
pub record Grown (map : Map) : Type 0 where
  pub rows_count : map.rows ≡ length map.cells
  pub even : All (λ line. length line ≡ map.cols) map.cells
  pub some_cols : 0 < map.rows → 0 < map.cols

-- A row that is let through.
record Widened (map wide : Map) (width : ℕ) : Type 0 where
  same_cells : wide.cells ≡ map.cells
  same_rows : wide.rows ≡ map.rows
  fits : width ≡ wide.cols
  positive : 0 < width
  kept : (map.rows ≡ 0) ⊎ (wide.cols ≡ map.cols)

validate_row_width-ok :
    (map wide : Map) (width line_number : ℕ)
    → validate_row_width map width line_number ≡ accepted wide
    → Widened map wide width
unfolding validate_row_width
validate_row_width-ok map wide width line_number h = record {
  same_cells = ground arith;
  same_rows = ground arith;
  fits = ground arith;
  positive = ground arith;
  kept = ground arith;
}

append_row-ok :
    (memory : Bool) (map longer : Map) (line : Bytes)
    → append_row memory map line ≡ accepted longer
    → (memory ≡ true)
      × (longer ≡ record map { cells = map.cells ++ line ∷ []; rows = map.rows + 1 })
unfolding append_row
append_row-ok true map longer line h = (refl, sym (accepted_injective h))
append_row-ok false map longer line h = cc

-- One round of the loop that goes through.
record Round (memory : ℕ → Bool) (map longer : Map) (line : Bytes) : Type 0 where
  cells : longer.cells ≡ map.cells ++ line ∷ []
  rows : longer.rows ≡ map.rows + 1
  fits : length line ≡ longer.cols
  positive : 0 < length line
  kept : (map.rows ≡ 0) ⊎ (longer.cols ≡ map.cols)
  memory_ok : memory map.rows ≡ true

read_rows_step :
    (memory : ℕ → Bool) (l : ℕ) (buffer : Bytes) (rest : List Bytes) (map last : Map)
    → read_rows memory l (buffer ∷ rest) map ≡ accepted last
    → (longer : Map) × Round memory map longer (row_of buffer)
      × (read_rows memory (l + 1) rest longer ≡ accepted last)
unfolding read_rows
read_rows_step memory l buffer rest map last h =
    let line = row_of buffer in
    let (wide, v, more) = bind-accepted (validate_row_width map (length line) (l + 1)) _ h in
    let (longer, a, later) = bind-accepted (append_row (memory wide.rows) wide line) _ more in
    let w = validate_row_width-ok map wide (length line) (l + 1) v in
    let (m, e) = append_row-ok (memory wide.rows) wide longer line a in
    (
      longer,
      record {
        cells = ap (λ (t : Map). t.cells) e ∙ ap (λ (t : List Bytes). t ++ line ∷ []) w.same_cells;
        rows = ap (λ (t : Map). t.rows) e ∙ ap (λ (t : ℕ). t + 1) w.same_rows;
        fits = w.fits ∙ sym (ap (λ (t : Map). t.cols) e);
        positive = w.positive;
        kept = elim w.kept [ inl z ↦ inl z | inr q ↦ inr (ap (λ (t : Map). t.cols) e ∙ q) ];
        memory_ok = ap memory (sym w.same_rows) ∙ m;
      },
      later,
    )

nil_of_length {ℓ} : {A : Type ℓ} (xs : List A) → length xs ≡ 0 → xs ≡ []
nil_of_length [] h = refl
nil_of_length (x ∷ xs) h = absurd (omega arith)

Round-even :
    (memory : ℕ → Bool) (map longer : Map) (line : Bytes)
    → Grown map
    → Round memory map longer line
    → All (λ l. length l ≡ longer.cols) map.cells
Round-even memory map longer line g r = elim r.kept [
  | inl z ↦ let e : map.cells ≡ [] = nil_of_length map.cells (sym g.rows_count ∙ z) in rw e tt
  | inr q ↦ subst (λ (c : ℕ). All (λ (l : Bytes). length l ≡ c) map.cells) (sym q) g.even
]

Round-Grown :
    (memory : ℕ → Bool) (map longer : Map) (line : Bytes)
    → Grown map
    → Round memory map longer line
    → Grown longer
Round-Grown memory map longer line g r = record {
  rows_count =
      omega (arith, r.rows, g.rows_count, ap length r.cells, length-append map.cells (line ∷ []));
  even = rw r.cells (
      (All-append (λ (l : Bytes). length l ≡ longer.cols) map.cells (line ∷ [])).1
        (Round-even memory map longer line g r, (r.fits, tt)));
  some_cols = λ _. omega (arith, r.fits, r.positive);
}

-- What the whole loop did.
pub record ReadsRows (memory : ℕ → Bool) (lines : List Bytes) (map last : Map) : Type 0 where
  pub grown : Grown last
  pub cells : last.cells ≡ map.cells ++ rows_of lines
  pub memory_ok : (i : ℕ) → map.rows ≤ i → i < last.rows → memory i ≡ true

pub read_rows-ReadsRows :
    (memory : ℕ → Bool) (l : ℕ) (lines : List Bytes) (map last : Map)
    → Grown map
    → read_rows memory l lines map ≡ accepted last
    → ReadsRows memory lines map last
unfolding read_rows
read_rows-ReadsRows memory l [] map last g h = record {
  grown = rw (← accepted_injective h) g;
  cells = ap (λ (t : Map). t.cells) (sym (accepted_injective h)) ∙ sym (append-nil map.cells);
  memory_ok = λ i p q. absurd (omega (arith, ap (λ (t : Map). t.rows) (accepted_injective h)));
}
read_rows-ReadsRows memory l (buffer ∷ rest) map last g h =
    let (longer, r, later) = read_rows_step memory l buffer rest map last h in
    let all =
      read_rows-ReadsRows memory (l + 1) rest longer last
        (Round-Grown memory map longer (row_of buffer) g r) later in
    record {
      grown = all.grown;
      cells =
          all.cells
          ∙ ap (λ (t : List Bytes). t ++ rows_of rest) r.cells
          ∙ append_assoc map.cells (row_of buffer ∷ []) (rows_of rest);
      memory_ok = λ i p q. elim (Bool-cases (i == map.rows)) [
        | inl e ↦ ap memory ((==_iff i map.rows).0 e) ∙ r.memory_ok
        | inr e ↦ all.memory_ok i (ground (arith, r.rows)) q
      ];
    }

validate_row_width-fits :
    (map : Map) (width given line_number : ℕ)
    → given ≡ width
    → 0 < width
    → (map.rows ≡ 0) ⊎ (map.cols ≡ width)
    → validate_row_width map given line_number ≡ accepted (record map { cols = width })
unfolding validate_row_width
validate_row_width-fits map width given line_number e p k = ground arith

append_row-memory :
    (memory : Bool) (map : Map) (line : Bytes)
    → memory ≡ true
    → append_row memory map line
      ≡ accepted (record map { cells = map.cells ++ line ∷ []; rows = map.rows + 1 })
unfolding append_row
append_row-memory memory map line m = rw m

-- With memory for each row, lines of one positive width are all stored.
pub read_rows-ok :
    (memory : ℕ → Bool) (l width : ℕ) (lines : List Bytes) (map : Map)
    → ((i : ℕ) → i < map.rows + length lines → memory i ≡ true)
    → 0 < width
    → All (λ line. length line ≡ width) (rows_of lines)
    → (map.rows ≡ 0) ⊎ (map.cols ≡ width)
    → (last : Map) × (read_rows memory l lines map ≡ accepted last)
unfolding read_rows
read_rows-ok memory l width [] map m p a k = (map, refl)
read_rows-ok memory l width (buffer ∷ rest) map m p a k =
    let wide : Map = record map { cols = width } in
    let longer : Map = record wide {
      cells = map.cells ++ row_of buffer ∷ [];
      rows = map.rows + 1;
    } in
    let v : validate_row_width map (length (row_of buffer)) (l + 1) ≡ accepted wide =
      validate_row_width-fits map width _ (l + 1) a.0 p k in
    let q : append_row (memory wide.rows) wide (row_of buffer) ≡ accepted longer =
      append_row-memory (memory wide.rows) wide (row_of buffer) (m map.rows (omega arith)) in
    let (last, e) =
      read_rows-ok memory (l + 1) width rest longer (λ i h. m i (omega arith)) p a.1 (inr refl) in
    (last, rw (v, q) e)
