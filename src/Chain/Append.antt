-- ===== src/Chain/Append.antt =====
-- Linking a new last node, and taking the first one.
use pacman_posix.Prelude.{
  ℕ, ◌≡◌, refl, sym, ap, subst, true, false, ◌||◌, List, [], ◌∷◌, ◌++◌, Option, none, some, ◌==◌,
  update, arith,
}
use pacman_posix.Chain.{
  Node, Store, Chain, empty_chain, write_node, link_after, link_at, link_node, nothing, taken,
  if_null, take_node, take_at, take_first,
}
use pacman_posix.Chain.Cells.{has, last, items, Linked, Holds, frame}

module _ {A : Type 0} where
  abbrev end_node : A → Node A
  end_node x = record { item = x; next = none }

  abbrev add_cell : List (ℕ × A) → ℕ → A → List (ℕ × A)
  add_cell cells p x = cells ++ (p, x) ∷ []

  items-add :
      (cells : List (ℕ × A)) (p : ℕ) (x : A) → items (add_cell cells p x) ≡ items cells ++ x ∷ []
  items-add [] p x = refl
  items-add ((q, y) ∷ cells) p x = ap (◌∷◌ y) (items-add cells p x)

  last-add : (cells : List (ℕ × A)) (p : ℕ) (x : A) → last (add_cell cells p x) ≡ some p
  last-add [] p x = refl
  last-add (c ∷ []) p x = refl
  last-add (c ∷ d ∷ cells) p x = last-add (d ∷ cells) p x

  last-has : (cells : List (ℕ × A)) (t : ℕ) → last cells ≡ some t → has t cells ≡ true
  last-has [] t e = cc
  last-has ((q, y) ∷ []) t e = ground arith
  last-has ((q, y) ∷ d ∷ cells) t e = ground (arith, last-has (d ∷ cells) t e)

  has-add :
      (a : ℕ) (cells : List (ℕ × A)) (p : ℕ) (x : A)
      → has a (add_cell cells p x) ≡ (has a cells || (a == p))
  has-add a [] p x = ground arith
  has-add a ((q, y) ∷ cells) p x = ground (arith, has-add a cells p x)

  -- The store after the new node was written at `p` and linked behind the node `n` at `t`.
  abbrev linked_store : Store A → ℕ → A → ℕ → Node A → Store A
  linked_store s p x t n =
      update (update s p (some (end_node x))) t (some (record n { next = some p }))

  link_last :
      {s : Store A} {head : Option ℕ} {cells : List (ℕ × A)} (p t : ℕ) (x : A)
      → Linked s head cells
      → last cells ≡ some t
      → s p ≡ none
      → (n : Node A) × (s t ≡ some n) × Linked (linked_store s p x t n) head (add_cell cells p x)
  link_last p t x Linked.nil e free = cc
  link_last {s} p t x (Linked.cons {p = q} {x = y} held out Linked.nil) e free =
      let here : q ≡ t = ground arith in
      (
        end_node y,
        ground arith,
        Linked.cons (ground arith) (ground arith) (Linked.cons (ground arith) refl Linked.nil),
      )
  link_last {s} p t x (Linked.cons {p = q} {x = y} {cells = d ∷ cells} held out rest) e free =
      let (n, at_t, linked) = link_last p t x rest e free in
      let there = last-has (d ∷ cells) t e in
      (n, at_t, Linked.cons (ground arith) (rw (has-add q (d ∷ cells) p x) (ground arith)) linked)

  link_last-Holds :
      (c : Chain A) (t : Option ℕ) {cells : List (ℕ × A)} (p : ℕ) (x : A)
      → c.tail ≡ t
      → Linked c.store c.head cells
      → t ≡ last cells
      → c.store p ≡ none
      → (d : Chain A) × (link_at t p (write_node p x c) ≡ some d) × Holds d (items cells ++ x ∷ [])
  unfolding link_at link_after write_node
  link_last-Holds c none {cells = d ∷ cells} p x ct l e free = absurd (none_last d cells e)
    where
      none_last : (d : ℕ × A) (cells : List (ℕ × A)) → none ≡ last (d ∷ cells) → ⊥
      none_last (q, y) [] e = cc
      none_last c (d ∷ cells) e = none_last d cells e
  link_last-Holds c none {cells = []} p x ct l e free = (
    _,
    refl,
    record {
      cells = (p, x) ∷ [];
      linked = Linked.cons (ground arith) refl Linked.nil;
      ends = refl;
      holds = refl;
    },
  )
  link_last-Holds c (some t) {cells} p x ct l e free =
      let (n, at_t, linked) = link_last p t x l (sym e) free in
      let ne : (p == t) ≡ false = ground arith in
      (
        record c { store = linked_store c.store p x t n; tail = some p },
        rw (ne, at_t) refl,
        record {
          cells = add_cell cells p x;
          linked = linked;
          ends = sym (last-add cells p x);
          holds = items-add cells p x;
        },
      )

  -- A new node at a free address becomes the last item; no pointer dangles.
  pub link_node-Holds :
      (c : Chain A) (xs : List A) (p : ℕ) (x : A)
      → Holds c xs
      → c.store p ≡ none
      → (d : Chain A) × (link_node p (write_node p x c) ≡ some d) × Holds d (xs ++ x ∷ [])
  unfolding link_node write_node
  link_node-Holds c xs p x h free =
      let (d, e, k) = link_last-Holds c c.tail p x refl h.linked h.ends free in
      (d, e, subst (λ ys. Holds d (ys ++ x ∷ [])) h.holds k)

  rest_ends :
      {s : Store A} {next t : Option ℕ} {cells : List (ℕ × A)} (p : ℕ) (x : A)
      → Linked s next cells
      → t ≡ last ((p, x) ∷ cells)
      → if_null next t ≡ last cells
  rest_ends p x Linked.nil e = refl
  rest_ends p x (Linked.cons at_q out rest) e = e

  take-Linked :
      (c : Chain A) (head : Option ℕ) {cells : List (ℕ × A)}
      → Linked c.store head cells
      → c.tail ≡ last cells
      → (y : A) (ys : List A) → items cells ≡ y ∷ ys
      → (d : Chain A) × (take_at head c ≡ taken y d) × Holds d ys
  unfolding take_at take_node
  take-Linked c head Linked.nil e y ys q = cc
  take-Linked c head (Linked.cons {p} {x} {next} {cells} at_p out rest) e y ys q =
      let spared = frame {t = update c.store p none} rest (λ a i. ground arith) in
      (
        record { store = update c.store p none; head = next; tail = if_null next c.tail },
        rw at_p (ground arith),
        record {
          cells = cells;
          linked = spared;
          ends = rest_ends p x rest e;
          holds = ground arith;
        },
      )

  -- The first item is taken and its node freed; no pointer dangles.
  pub take_first-Holds :
      (c : Chain A) (x : A) (xs : List A)
      → Holds c (x ∷ xs)
      → (d : Chain A) × (take_first c ≡ taken x d) × Holds d xs
  unfolding take_first
  take_first-Holds c x xs h = take-Linked c c.head h.linked h.ends x xs h.holds

  take_nothing :
      (c : Chain A) (head : Option ℕ) {cells : List (ℕ × A)}
      → Linked c.store head cells
      → items cells ≡ []
      → take_at head c ≡ nothing
  unfolding take_at
  take_nothing c head Linked.nil e = refl
  take_nothing c head (Linked.cons at_p out rest) e = cc

  pub take_first_nothing : (c : Chain A) → Holds c [] → take_first c ≡ nothing
  unfolding take_first
  take_first_nothing c h = take_nothing c c.head h.linked h.holds

  pub empty_chain-Holds : (s : Store A) → Holds (empty_chain s) []
  empty_chain-Holds s = record { cells = []; linked = Linked.nil; ends = refl; holds = refl }
