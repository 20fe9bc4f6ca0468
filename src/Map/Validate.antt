-- ===== src/Map/Validate.antt =====
-- `validate_entities` of src/map.c: the counts that it demands, and the places that it keeps.
use pacman_posix.Prelude.{
  ℕ, zero, suc, ◌+◌, ◌<◌, ◌≤◌, ◌≡◌, inl, inr, refl, sym, ap, ◌∙◌, none, some, ◌==◌, arith,
  Bool-cases, ==_iff,
}
use pacman_posix.Common.{Position, ghost_count}
use pacman_posix.Map.{
  Map, accepted, Entities, scan_rows, check_ghosts, check_counts, no_entities, validate_entities,
}
use pacman_posix.Map.Cells.{Piece, letter, IsPiece, Holds, IsBoard}
use pacman_posix.Map.Scan.{
  bind-accepted, accepted_injective, count_of, start_of, scan_rows-known, scan_rows-ok,
  scan_rows-count, scan_rows_places,
}

check_ghosts_step :
    (i left : ℕ) (found : Entities)
    → check_ghosts i (suc left) found ≡ accepted tt
    → (found.ghost_counts i ≡ 1) × (check_ghosts (i + 1) left found ≡ accepted tt)
unfolding check_ghosts
check_ghosts_step i left found h = ground arith

check_ghosts-once :
    (i left : ℕ) (found : Entities)
    → check_ghosts i left found ≡ accepted tt
    → (j : ℕ) → i ≤ j
    → j < i + left
    → found.ghost_counts j ≡ 1
unfolding check_ghosts
check_ghosts-once i zero found h j p q = absurd (omega arith)
check_ghosts-once i (suc left) found h j p q = elim (Bool-cases (i == j)) [
  | inl e ↦ ap found.ghost_counts (sym ((==_iff i j).0 e)) ∙ (check_ghosts_step i left found h).0
  | inr e ↦
      check_ghosts-once (i + 1) left found (check_ghosts_step i left found h).1 j (ground arith)
        (omega arith)
]

check_ghosts-ok :
    (i left : ℕ) (found : Entities)
    → ((j : ℕ) → i ≤ j → j < i + left → found.ghost_counts j ≡ 1)
    → check_ghosts i left found ≡ accepted tt
unfolding check_ghosts
check_ghosts-ok i zero found h = refl
check_ghosts-ok i (suc left) found h =
    let here : found.ghost_counts i ≡ 1 = h i (omega arith) (omega arith) in
    let later : check_ghosts (i + 1) left found ≡ accepted tt =
      check_ghosts-ok (i + 1) left found (λ j p q. h j (omega arith) (omega arith)) in
    ground arith

check_counts-parts :
    (found : Entities)
    → check_counts found ≡ accepted tt
    → (found.pacman_count ≡ 1) × (check_ghosts 0 ghost_count found ≡ accepted tt)
unfolding check_counts
check_counts-parts found h = ground arith

-- The counters are let through when each piece was met once.
check_counts-once :
    (found : Entities)
    → check_counts found ≡ accepted tt
    → (k : Piece) → IsPiece k
    → count_of found k ≡ 1
check_counts-once found h none p = (check_counts-parts found h).0
check_counts-once found h (some i) p =
    check_ghosts-once 0 ghost_count found (check_counts-parts found h).1 i (omega arith)
      (omega arith)

check_counts-ok :
    (found : Entities)
    → ((k : Piece) → IsPiece k → count_of found k ≡ 1)
    → check_counts found ≡ accepted tt
unfolding check_counts
check_counts-ok found h =
    let one : found.pacman_count ≡ 1 = h none tt in
    let ghosts : check_ghosts 0 ghost_count found ≡ accepted tt =
      check_ghosts-ok 0 ghost_count found (λ j p q. h (some j) q) in
    ground arith

-- Where the loaded map says that a piece starts.
abbrev pub place_of : Map → Piece → Position
place_of map none = map.pacman_start
place_of map (some i) = map.ghost_starts i

no_entities-count : (map : Map) (k : Piece) → count_of (no_entities map) k ≡ 0
unfolding no_entities
no_entities-count map none = refl
no_entities-count map (some i) = refl

-- What `validate_entities` has checked when it succeeds.
pub record Validated (map last : Map) : Type 0 where
  pub same_cells : last.cells ≡ map.cells
  pub same_rows : last.rows ≡ map.rows
  pub same_cols : last.cols ≡ map.cols
  pub board : IsBoard map.cells
  pub places : (k : Piece) → IsPiece k → Holds map.cells (letter k) (place_of last k)

start_of-place_of :
    (map : Map) (found : Entities) (k : Piece)
    → place_of
        (record map { pacman_start = found.pacman_start; ghost_starts = found.ghost_starts })
        k
      ≡ start_of found k
start_of-place_of map found none = refl
start_of-place_of map found (some i) = refl

pub validate_entities-Validated :
    (map last : Map) → validate_entities map ≡ accepted last → Validated map last
unfolding validate_entities
validate_entities-Validated map last h =
    let (found, scan, more) = bind-accepted (scan_rows 0 map.cells (no_entities map)) _ h in
    let (u, checked, done) = bind-accepted (check_counts found) _ more in
    let once = check_counts-once found checked in
    rw (← accepted_injective done) (record {
      same_cells = refl;
      same_rows = refl;
      same_cols = refl;
      board = record {
        known = scan_rows-known 0 map.cells (no_entities map) found scan;
        once = λ k p. omega (
          arith,
          scan_rows-count 0 map.cells (no_entities map) found k p scan,
          no_entities-count map k,
          once k p,
        );
      };
      places = λ k p.
          elim (scan_rows_places map.cells (no_entities map) found k p (no_entities-count map k)
            scan) [
              | inl z ↦ absurd (omega (arith, once k p, z))
              | inr at ↦ rw (start_of-place_of map found k) at
            ];
    })

pub validate_entities-ok :
    (map : Map) → IsBoard map.cells → (last : Map) × (validate_entities map ≡ accepted last)
unfolding validate_entities
validate_entities-ok map b =
    let (found, scan) = scan_rows-ok 0 map.cells (no_entities map) b.known in
    let checked : check_counts found ≡ accepted tt = check_counts-ok found (λ k p. omega (
      arith,
      scan_rows-count 0 map.cells (no_entities map) found k p scan,
      no_entities-count map k,
      b.once k p,
    )) in
    (
      record map { pacman_start = found.pacman_start; ghost_starts = found.ghost_starts },
      rw (scan, checked),
    )
