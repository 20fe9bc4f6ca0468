-- ===== src/Text/Lines.antt =====
-- What `fgets` hands out: the whole file, cut at newlines and at the size of the buffer.
use pacman_posix.Prelude.{
  ℕ, ◌≤◌, ◌≡◌, refl, ap, ◌∙◌, List, [], ◌∷◌, ◌++◌, ◌||◌, arith, length, All, ◌==◌, leb, Bool-cases,
  inl, inr, ◌-◌,
}
use pacman_posix.Text.{Bytes, cons_head, fgets_from}

-- The pieces put together again.
abbrev pub joined : List Bytes → Bytes
joined [] = []
joined (l ∷ ls) = l ++ joined ls

joined-cons_head : (c : ℕ) (ls : List Bytes) → joined (cons_head c ls) ≡ c ∷ joined ls
joined-cons_head c [] = refl
joined-cons_head c (l ∷ ls) = refl

-- No byte is lost or repeated.
pub joined-fgets_from : (most room : ℕ) (file : Bytes) → joined (fgets_from most room file) ≡ file
unfolding fgets_from
joined-fgets_from most room [] = refl
joined-fgets_from most room (c ∷ cs) = elim (Bool-cases (c == b'\n' || leb room 1)) [
  | inl e ↦ rw e (ap (◌∷◌ c) (joined-fgets_from most most cs))
  | inr e ↦ rw e (joined-cons_head c _ ∙ ap (◌∷◌ c) (joined-fgets_from most (room - 1) cs))
]

abbrev Fits : ℕ → List Bytes → Type 0
Fits most = All (λ l. length l ≤ most)

-- The first piece is what is left of the current call.
abbrev FitsFrom : ℕ → ℕ → List Bytes → Type 0
FitsFrom most room [] = Unit
FitsFrom most room (l ∷ ls) = (length l ≤ room) × Fits most ls

FitsFrom-Fits : (most : ℕ) (ls : List Bytes) → FitsFrom most most ls → Fits most ls
FitsFrom-Fits most [] h = tt
FitsFrom-Fits most (l ∷ ls) h = h

FitsFrom-cons_head :
    (most room c : ℕ) (ls : List Bytes)
    → 1 ≤ room
    → FitsFrom most (room - 1) ls
    → FitsFrom most room (cons_head c ls)
FitsFrom-cons_head most room c [] p h = (omega arith, tt)
FitsFrom-cons_head most room c (l ∷ ls) p h = (omega arith, h.1)

-- No piece overflows the buffer.
pub fgets_from-fits :
    (most room : ℕ) (file : Bytes)
    → 1 ≤ most
    → 1 ≤ room
    → FitsFrom most room (fgets_from most room file)
unfolding fgets_from
fgets_from-fits most room [] p q = tt
fgets_from-fits most room (c ∷ cs) p q = elim (Bool-cases (c == b'\n' || leb room 1)) [
  | inl e ↦ rw e (q, FitsFrom-Fits most _ (fgets_from-fits most most cs p p))
  | inr e ↦
      rw e
        (FitsFrom-cons_head most room c _ q (fgets_from-fits most (room - 1) cs p (ground arith)))
]
