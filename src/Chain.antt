-- ===== src/Chain.antt =====
-- The singly linked lists with a pointer to each end that src/pacman.c (`PacmanInstructionQueue`) and
-- src/enemy.c (`GhostContext`) keep their instructions in: nodes in a store, `malloc` and `free`.
pub mod Cells
pub mod Append
pub mod Fifo
mod Tests
use pacman_posix.Prelude.{ℕ, Bool, true, false, Option, none, some, ◌==◌, update, if◌then◌else◌}

-- A node as it lies in memory: the instruction, and the address of the next node or NULL.
pub record Node (A : Type 0) : Type 0 where
  pub item : A
  pub next : Option ℕ

-- `none` where no node is allocated.
abbrev pub Store : Type 0 → Type 0
Store A = ℕ → Option (Node A)

pub record Chain (A : Type 0) : Type 0 where
  pub store : Store A
  pub head : Option ℕ
  pub tail : Option ℕ

module _ {A : Type 0} where
  -- After the `memset`: both pointers are NULL.
  abbrev pub empty_chain : Store A → Chain A
  empty_chain store = record { store = store; head = none; tail = none }

  -- `*node = *instruction; node->next = NULL;` at the address that `malloc` gave.
  unfoldable pub write_node : ℕ → A → Chain A → Chain A
  write_node p x c = record c { store = update c.store p (some (record { item = x; next = none })) }

  unfoldable pub free_node : ℕ → Chain A → Chain A
  free_node p c = record c { store = update c.store p none }

  -- `tail->next = node; tail = node;` where `last` is what `tail` points to: `none` where nothing does.
  unfoldable pub link_after : ℕ → Option (Node A) → ℕ → Chain A → Option (Chain A)
  link_after t none p c = none
  link_after t (some last) p c =
      some (record c {
        store = update c.store t (some (record last { next = some p }));
        tail = some p;
      })

  unfoldable pub link_at : Option ℕ → ℕ → Chain A → Option (Chain A)
  unfolding link_after
  link_at none p c = some (record c { head = some p; tail = some p })
  link_at (some t) p c = link_after t (c.store t) p c

  -- The node at `p` becomes the last one: `none` where the code follows a dangling pointer.
  unfoldable pub link_node : ℕ → Chain A → Option (Chain A)
  unfolding link_at
  link_node p c = link_at c.tail p c

-- What taking the first node gives: NULL, the instruction, or a dangling pointer.
pub data Taken (A : Type 0) : Type 0 where
  nothing : Taken A
  taken : A → Chain A → Taken A
  dangling : Taken A

-- The tail after the first node went, by the new head.
abbrev pub if_null : Option ℕ → Option ℕ → Option ℕ
if_null none tail = none
if_null (some p) tail = tail

module _ {A : Type 0} where
  unfoldable pub take_node : ℕ → Option (Node A) → Chain A → Taken A
  take_node p none c = dangling
  take_node p (some node) c =
      taken node.item (record {
        store = update c.store p none;
        head = node.next;
        tail = if_null node.next c.tail;
      })

  unfoldable pub take_at : Option ℕ → Chain A → Taken A
  unfolding take_node
  take_at none c = nothing
  take_at (some p) c = take_node p (c.store p) c

  -- `head = node->next; if (head == NULL) tail = NULL; … free(node);`
  unfoldable pub take_first : Chain A → Taken A
  unfolding take_at
  take_first c = take_at c.head c
