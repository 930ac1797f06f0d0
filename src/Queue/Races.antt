-- ===== src/Queue/Races.antt =====
-- Runs of a queue of src/core/atm_queue.c in which its pops, which hold no mutex, do harm.
use mathlib.Core.Path.{subst}
use atm_cache.Base.{
  ℕ, suc, ◌≡◌, refl, Option, none, some, List, [], ◌∷◌, Run, ok, stop, ◌>>=◌, Returns, inc32, dec32,
  FreeType, Bool,
}
use atm_cache.LinkedList.Nodes.{
  load, write, set_prev, set_next, entry_isol, release, list_new, list_push, list_entry_new,
}
use atm_cache.Queue.{
  blocking, World, Move, push, wait, pop, queue_new, queue_size, queue_push, nonempty_wait,
  pop_access, after_access, wait_move, make_move, world_new, Reach, here, next, runs,
}

module _ {A : Type 0} where
  -- How many pops found no value.
  abbrev pub nones : List (Option A) → ℕ
  nones [] = 0
  nones (none ∷ os) = suc (nones os)
  nones (some v ∷ os) = nones os

  -- The run ends normally, in a world with `P`.
  abbrev InOk : (World A → Type 0) → Run (World A) → Type 0
  InOk P (ok w) = P w
  InOk P (stop reason) = ⊥

  ended : (P : World A → Type 0) (r : Run (World A)) → InOk P r → Returns r P
  ended P (ok w) p = (w, refl, p)
  ended P (stop reason) p = absurd p

  ok_is : {w u : World A} → ok w ≡ ok u → w ≡ u
  ok_is e = cc e

  moved :
      (start w : World A) (m : Move A) (ms : List (Move A)) (r : Run (World A)) (w' : World A)
      → make_move w m ≡ r
      → Reach start w
      → ((u : World A) → Reach start u → runs ms u ≡ ok w' → Reach start w')
      → r >>= runs ms ≡ ok w'
      → Reach start w'
  moved start w m ms (ok u) w' e reach rest run = rest u (next w u m reach e) run
  moved start w m ms (stop reason) w' e reach rest run = absurd (cc run)

  reached :
      (start : World A) (ms : List (Move A)) (w w' : World A)
      → Reach start w
      → runs ms w ≡ ok w'
      → Reach start w'
  unfolding runs
  reached start [] w w' reach run = subst (λ u. Reach start u) (ok_is run) reach
  reached start (m ∷ ms) w w' reach run =
      moved start w m ms (make_move w m) w' refl reach (λ u. reached start ms u w') run

  -- A run of these moves that ends in a world with `P`.
  run_to :
      (start : World A) (ms : List (Move A)) (P : World A → Type 0)
      → InOk P (runs ms start)
      → (w : World A) × Reach start w × P w
  run_to start ms P p =
      let (w, run, q) = ended P (runs ms start) p in (w, reached start ms start w here run, q)

  -- The accesses of a whole pop by the consumer `i`.
  abbrev whole_pop : ℕ → List (Move A)
  whole_pop i = pop i ∷ pop i ∷ pop i ∷ pop i ∷ pop i ∷ pop i ∷ pop i ∷ pop i ∷ []

  -- A blocking queue with a single consumer: whatever two values are pushed, there is a run in which
  -- the second push comes between two accesses of the pop of the first value. The next pop passes its
  -- wait and finds no value, and from then on `head` is NULL while the second value is counted.
  pub queue_pop-lost :
      (f : FreeType) (can : Bool) (u v : A)
      → (w : World A) × Reach (world_new blocking f can 1) w
        × ((w.popped ≡ some u ∷ none ∷ []) × (w.queue.vals.head ≡ none) × (queue_size w.queue ≡ 1))
  unfolding world_new queue_new list_new runs make_move queue_push list_push list_entry_new
      wait_move nonempty_wait queue_size pop_access after_access load write set_prev set_next
      entry_isol release inc32 dec32
  queue_pop-lost f can u v =
      run_to (world_new blocking f can 1)
        (push 0 u
          ∷ wait 0
          ∷ pop 0
          ∷ pop 0
          ∷ pop 0
          ∷ push 1 v
          ∷ pop 0
          ∷ pop 0
          ∷ pop 0
          ∷ pop 0
          ∷ pop 0
          ∷ wait 0
          ∷ pop 0
          ∷ [])
        (λ w.
          (w.popped ≡ some u ∷ none ∷ []) × (w.queue.vals.head ≡ none) × (queue_size w.queue ≡ 1))
        (refl, refl, refl)
