-- ===== src/Chain/Fifo.antt =====
-- A chain is a FIFO: whatever is put in and taken out, in any order, and wherever `malloc` puts the
-- nodes or returns NULL.
use pacman_posix.Prelude.{
  ℕ, ◌≡◌, refl, List, [], ◌∷◌, ◌++◌, Option, none, some, Option-cases, inl, inr,
}
use pacman_posix.Chain.{
  Store, Chain, empty_chain, write_node, link_node, Taken, nothing, taken, dangling, take_first,
}
use pacman_posix.Chain.Cells.{Holds}
use pacman_posix.Chain.Append.{
  link_node-Holds, take_first-Holds, take_first_nothing, empty_chain-Holds,
}

module _ (A : Type 0) where
  pub data Operation : Type 0 where
    put : A → Operation
    get : Operation

  -- What the caller sees.
  pub data Event : Type 0 where
    added refused : A → Event
    got : A → Event
    was_empty : Event

  -- The events that a queue which holds `xs` allows.
  pub data Fifo : List A → List Event → Type 0 where
    done : {xs : List A} → Fifo xs []
    add : {xs : List A} {es : List Event} (x : A) → Fifo (xs ++ x ∷ []) es → Fifo xs (added x ∷ es)
    refuse : {xs : List A} {es : List Event} (x : A) → Fifo xs es → Fifo xs (refused x ∷ es)
    take : {xs : List A} {es : List Event} (x : A) → Fifo xs es → Fifo (x ∷ xs) (got x ∷ es)
    find_none : {es : List Event} → Fifo [] es → Fifo [] (was_empty ∷ es)

module _ {A : Type 0} (malloc : Store A → Option ℕ) where
  abbrev pub first_event : Event A → Option (List (Event A)) → Option (List (Event A))
  first_event e none = none
  first_event e (some es) = some (e ∷ es)

  -- One operation, and then the rest of the run; `none` where the code follows a dangling pointer.
  abbrev pub after_put :
      Option (Chain A) → A → (Chain A → Option (List (Event A))) → Option (List (Event A))
  after_put none x rest = none
  after_put (some d) x rest = first_event (Event.added x) (rest d)

  abbrev pub put_at :
      Option ℕ → A → Chain A → (Chain A → Option (List (Event A))) → Option (List (Event A))
  put_at none x c rest = first_event (Event.refused x) (rest c)
  put_at (some p) x c rest = after_put (link_node p (write_node p x c)) x rest

  abbrev pub after_get :
      Taken A → Chain A → (Chain A → Option (List (Event A))) → Option (List (Event A))
  after_get nothing c rest = first_event Event.was_empty (rest c)
  after_get (taken x d) c rest = first_event (Event.got x) (rest d)
  after_get dangling c rest = none

  unfoldable pub perform : List (Operation A) → Chain A → Option (List (Event A))
  perform [] c = some []
  perform (Operation.put x ∷ os) c = put_at (malloc c.store) x c (perform os)
  perform (Operation.get ∷ os) c = after_get (take_first c) c (perform os)

  -- A run that does not fault, and whose events a queue allows.
  abbrev pub Allowed : List A → Option (List (Event A)) → Type 0
  Allowed xs r = (es : List (Event A)) × (r ≡ some es) × Fifo A xs es

  module _ (unused : (s : Store A) (p : ℕ) → malloc s ≡ some p → s p ≡ none) where
    put-Allowed :
        (c : Chain A) (xs : List A) (x : A) (rest : Chain A → Option (List (Event A)))
        → ((d : Chain A) (ys : List A) → Holds d ys → Allowed ys (rest d))
        → Holds c xs
        → Allowed xs (put_at (malloc c.store) x c rest)
    put-Allowed c xs x rest ih h = elim (Option-cases (malloc c.store)) [
      | inl e ↦
          let (es, r, f) = ih c xs h in (Event.refused x ∷ es, rw (e, r) refl, Fifo.refuse x f)
      | inr (p, e) ↦
          let (d, l, k) = link_node-Holds c xs p x h (unused c.store p e) in
          let (es, r, f) = ih d (xs ++ x ∷ []) k in
          (Event.added x ∷ es, rw (e, l, r) refl, Fifo.add x f)
    ]

    get-Allowed :
        (c : Chain A) (xs : List A) (rest : Chain A → Option (List (Event A)))
        → ((d : Chain A) (ys : List A) → Holds d ys → Allowed ys (rest d))
        → Holds c xs
        → Allowed xs (after_get (take_first c) c rest)
    get-Allowed c [] rest ih h =
        let (es, r, f) = ih c [] h in
        (Event.was_empty ∷ es, rw (take_first_nothing c h, r) refl, Fifo.find_none f)
    get-Allowed c (x ∷ xs) rest ih h =
        let (d, e, k) = take_first-Holds c x xs h in
        let (es, r, f) = ih d xs k in (Event.got x ∷ es, rw (e, r) refl, Fifo.take x f)

    perform-Allowed :
        (os : List (Operation A)) (c : Chain A) (xs : List A)
        → Holds c xs
        → Allowed xs (perform os c)
    unfolding perform
    perform-Allowed [] c xs h = ([], refl, Fifo.done)
    perform-Allowed (Operation.put x ∷ os) c xs h =
        put-Allowed c xs x (perform os) (perform-Allowed os) h
    perform-Allowed (Operation.get ∷ os) c xs h =
        get-Allowed c xs (perform os) (perform-Allowed os) h

    -- From empty on, whatever is put in and taken out and wherever `malloc` finds memory that is not
    -- in use: no pointer dangles, and what is seen is what a FIFO queue allows: items come out in the
    -- order in which they were put in, none is lost or made up, and only an empty queue gives none.
    pub perform-Fifo :
        (os : List (Operation A)) (s : Store A)
        → (es : List (Event A)) × (perform os (empty_chain s) ≡ some es) × Fifo A [] es
    perform-Fifo os s = perform-Allowed os (empty_chain s) [] (empty_chain-Holds s)
