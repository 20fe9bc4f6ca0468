-- ===== src/Chain/Cells.antt =====
-- What a chain stands for: its cells, each an address and an item, in order.
use pacman_posix.Prelude.{
  ℕ, ◌≡◌, refl, ◌∙◌, Bool, true, false, ◌||◌, List, [], ◌∷◌, Option, none, some, ◌==◌, arith,
}
use pacman_posix.Chain.{Store, Chain}

module _ {A : Type 0} where
  abbrev pub has : ℕ → List (ℕ × A) → Bool
  has a [] = false
  has a ((p, x) ∷ cells) = (a == p) || has a cells

  -- The address of the last cell.
  abbrev pub last : List (ℕ × A) → Option ℕ
  last [] = none
  last ((p, x) ∷ []) = some p
  last ((p, x) ∷ c ∷ cells) = last (c ∷ cells)

  abbrev pub items : List (ℕ × A) → List A
  items [] = []
  items ((p, x) ∷ cells) = x ∷ items cells

  -- From `head` the `next` pointers lead through the distinct cells to NULL.
  pub data Linked (store : Store A) : Option ℕ → List (ℕ × A) → Type 0 where
    nil : Linked store none []
    cons :
        {p : ℕ} {x : A} {next : Option ℕ} {cells : List (ℕ × A)}
        → store p ≡ some (record { item = x; next = next })
        → has p cells ≡ false
        → Linked store next cells
        → Linked store (some p) ((p, x) ∷ cells)

  -- The chain holds these items, in this order.
  pub record Holds (c : Chain A) (xs : List A) : Type 0 where
    pub cells : List (ℕ × A)
    pub linked : Linked c.store c.head cells
    pub ends : c.tail ≡ last cells
    pub holds : items cells ≡ xs

  -- Cells survive any change of the store that spares their addresses.
  pub frame :
      {s t : Store A} {head : Option ℕ} {cells : List (ℕ × A)}
      → Linked s head cells
      → ((a : ℕ) → has a cells ≡ true → t a ≡ s a)
      → Linked t head cells
  frame Linked.nil same = Linked.nil
  frame (Linked.cons {p} e out l) same =
      Linked.cons (same p (ground arith) ∙ e) out (frame l λ a i. same a (ground arith))

  -- An address that is not allocated is no cell's.
  pub has_of_none :
      {s : Store A} {head : Option ℕ} {cells : List (ℕ × A)} (a : ℕ)
      → Linked s head cells
      → s a ≡ none
      → has a cells ≡ false
  has_of_none a Linked.nil unused = refl
  has_of_none a (Linked.cons e out l) unused = ground (arith, has_of_none a l unused)
