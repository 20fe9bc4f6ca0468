-- ===== src/Shared/Prepare.antt =====
-- The three outcomes of the first half of `shared_state_initialize`.
use pacman_posix.Prelude.{◌≡◌, refl, Bool, true, false, Option, none, some}
use pacman_posix.Prelude.Int.{ℤ}
use pacman_posix.Map.{Map}
use pacman_posix.Posix.{World, Status, ok, error}
use pacman_posix.Shared.{
  SharedState, Environ, zeroed, load_initial_priorities, initial_fields, is_too_big, copy_grid,
  copy_map_to_shared, copy_initial_positions, prepare_state,
}

abbrev pub placed_state : Map → ℤ → ℤ × ℤ → SharedState
placed_state map max_ticks p =
    copy_initial_positions map (copy_grid map (initial_fields max_ticks p zeroed))

abbrev pub prepared :
    Option (ℤ × ℤ) → Bool → Map → ℤ → World SharedState → Status (Unit {0}) × World SharedState
prepared none big map max_ticks w = (error, record w { at = zeroed })
prepared (some p) true map max_ticks w =
    (error, record w { at = initial_fields max_ticks p zeroed })
prepared (some p) false map max_ticks w = (ok tt, record w { at = placed_state map max_ticks p })

prepare_state_by :
    (getenv : Environ) (map : Map) (max_ticks : ℤ) (w : World SharedState) (o : Option (ℤ × ℤ))
    (b : Bool)
    → load_initial_priorities getenv ≡ o
    → is_too_big map ≡ b
    → prepare_state getenv map max_ticks w ≡ prepared o b map max_ticks w
unfolding prepare_state copy_map_to_shared
prepare_state_by getenv map max_ticks w none b e f = rw e refl
prepare_state_by getenv map max_ticks w (some p) true e f = rw (e, f) refl
prepare_state_by getenv map max_ticks w (some p) false e f = rw (e, f) refl

-- The environment variables are looked at first, then the size of the map.
pub prepare_state_lem :
    (getenv : Environ) (map : Map) (max_ticks : ℤ) (w : World SharedState)
    → prepare_state getenv map max_ticks w
      ≡ prepared (load_initial_priorities getenv) (is_too_big map) map max_ticks w
prepare_state_lem getenv map max_ticks w = prepare_state_by getenv map max_ticks w _ _ refl refl
