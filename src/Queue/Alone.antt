-- ===== src/Queue/Alone.antt =====
-- A pop of a queue of src/core/atm_queue.c that no other thread comes between is that of its list.
use atm_cache.Base.{
  false, dec32, ℕ, ◌≡◌, refl, ap, ◌∙◌, Option, none, some, List, ◌∷◌, arith, Run, ok, stop, Stop,
  Returns, Option-cases, inl, inr, ◌⊎◌, ◌==◌, if◌then◌else◌,
}
use atm_cache.LinkedList.Nodes.{
  Heap, LinkedList, points_at, load, set_prev, entry_isol, release, lpop_entry, take_value,
  list_lpop,
}
use atm_cache.LinkedList.Steps.{IsList}
use atm_cache.LinkedList.Pop.{list_lpop-IsList}
use atm_cache.Queue.{
  BlkType, Queue, past, blocking, nonblocking, queue_size, nonempty_wait, pop_access, accesses,
  queue_pop,
}

Run-cases : {X : Type 0} (r : Run X) → ((x : X) × (r ≡ ok x)) ⊎ ((why : Stop) × (r ≡ stop why))
Run-cases (ok x) = inl (x, refl)
Run-cases (stop why) = inr (why, refl)

module _ {A : Type 0} where
  abbrev left_by : LinkedList A → ℕ → A → Heap A → Option ℕ → Option A × LinkedList A
  left_by l p v h n = (
    some v,
    record l {
      heap = h;
      head = n;
      tail = if points_at l.tail p then none else l.tail;
      size = dec32 l.size;
    },
  )

  same_head :
      (l : LinkedList A) (p : ℕ) (v : A) (h : Heap A) (n n' : Option ℕ)
      → n ≡ n'
      → ok (left_by l p v h n) ≡ ok (left_by l p v h n')
  same_head l p v h n n' e = ap (λ k. ok (left_by l p v h k)) e

  -- Case by case of the accesses to the store.
  accesses-list_lpop :
      (l : LinkedList A) (p : ℕ) → l.head ≡ some p → accesses 8 l past ≡ list_lpop l
  unfolding accesses pop_access list_lpop lpop_entry take_value
  accesses-list_lpop l p is = elim (Run-cases (load l.heap p)) [
    | inr (why, e) ↦ rw (is, e, accesses) refl
    | inl (c, e) ↦ elim (Option-cases c.next) [
      | inl last ↦ elim (Run-cases (entry_isol l.heap p)) [
        | inr (why, e2) ↦ rw (is, e, accesses, last, e2) refl
        | inl (h2, e2) ↦ elim (Run-cases (load h2 p)) [
          | inr (why, e3) ↦ rw (is, e, accesses, last, e2, e3) refl
          | inl (c3, e3) ↦ elim (Run-cases (release h2 p)) [
            | inr (why, e4) ↦ rw (is, e, accesses, last, e2, e3, e4) refl
            | inl (h4, e4) ↦
                rw (is, e, accesses, last, e2, e3, e4) (same_head l p c3.val h4 c.next none last)
          ]
        ]
      ]
      | inr (n, more) ↦ elim (Run-cases (set_prev l.heap n none)) [
        | inr (why, e1) ↦ rw (is, e, accesses, more, e1) refl
        | inl (h, e1) ↦ elim (Run-cases (entry_isol h p)) [
          | inr (why, e2) ↦ rw (is, e, accesses, more, e1, e2) refl
          | inl (h2, e2) ↦ elim (Run-cases (load h2 p)) [
            | inr (why, e3) ↦ rw (is, e, accesses, more, e1, e2, e3) refl
            | inl (c3, e3) ↦ elim (Run-cases (release h2 p)) [
              | inr (why, e4) ↦ rw (is, e, accesses, more, e1, e2, e3, e4) refl
              | inl (h4, e4) ↦
                  rw (is, e, accesses, more, e1, e2, e3, e4)
                    (same_head l p c3.val h4 c.next (some n) more)
            ]
          ]
        ]
      ]
    ]
  ]

  popped :
      (b : BlkType) (l : LinkedList A) (r : Option A × LinkedList A)
      (some_left : (l.size == 0) ≡ false)
      → accesses 8 l past ≡ ok r
      → queue_pop (record { blk_type = b; vals = l })
        ≡ ok (r.0, record { blk_type = b; vals = r.1 })
  unfolding queue_pop nonempty_wait queue_size
  popped blocking l r some_left run = rw (some_left, run) refl
  popped nonblocking l r some_left run = rw run refl

  -- A queue whose list stands for a first value and others, blocking or not: a pop that no other
  -- thread comes between ends normally with the first value, and the list then stands for the others.
  pub queue_pop-first :
      (q : Queue A) (p : ℕ) (v : A) (xs : List (ℕ × A))
      → IsList q.vals ((p, v) ∷ xs)
      → Returns (queue_pop q) (λ r. (r.0 ≡ some v) × IsList r.1.vals xs)
  queue_pop-first q p v xs h =
      let (r, run, (first, rest)) = list_lpop-IsList q.vals p v xs h in
      let some_left : (q.vals.size == 0) ≡ false = ground (arith, h.counted) in
      (
        (r.0, record q { vals = r.1 }),
        popped q.blk_type q.vals r some_left (accesses-list_lpop q.vals p h.head_is ∙ run),
        (first, rest),
      )
