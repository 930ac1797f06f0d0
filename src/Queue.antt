-- ===== src/Queue.antt =====
-- The queue of src/core/atm_queue.c on its list of src/core/atm_list.c. A push and the wait for a value
-- hold the mutex and are a move each; a pop after its wait does not, and each access of it to the list
-- is a move of its own. No pop comes in the middle of a push here. The queue is passed as a value, which
-- leaves out the guards against a NULL queue; a wait that times out waits again.
pub mod Races
pub mod Alone
use atm_cache.Base.{
  ℕ, zero, suc, Bool, true, false, ◌≡◌, Option, none, some, List, [], ◌∷◌, ◌++◌, if◌then◌else◌,
  ◌==◌, set, get_or, not, replicate, Run, ok, stop, exit_error, out_of_fuel, ◌>>=◌, dec32, FreeType,
}
use atm_cache.LinkedList.Nodes.{
  Node, LinkedList, points_at, load, set_prev, entry_isol, release, list_new, list_push, list_lpeek,
}

-- `ATM_QUEUE_BLOCK` and `ATM_QUEUE_NONBLOCK`.
pub data BlkType : Type 0 where
  blocking nonblocking : BlkType

pub record Queue (A : Type 0) : Type 0 where
  pub blk_type : BlkType
  pub vals : LinkedList A

-- Where a consumer stands in `atm_queue_pop`: outside, past the wait, or in `atm_list_lpop` with the
-- entry that it read from `head`, and what it read then.
pub data Place : Type 0 where
  outside past : Place
  got : ℕ → Place
  next_read : ℕ → Option ℕ → Place
  head_set linked cut : ℕ → Place
  size_read : ℕ → ℕ → Place
  size_set : ℕ → Place

-- A queue with its consumers and what their pops gave so far.
pub record World (A : Type 0) : Type 0 where
  pub queue : Queue A
  pub consumers : List Place
  pub popped : List (Option A)

-- The next access of a pop: where the consumer stands then, the list, and what the pop returns, if it
-- ends.
pub record Access (A : Type 0) : Type 0 where
  pub place : Place
  pub list : LinkedList A
  pub result : List (Option A)

-- A push of a value at the address that `atm_alloc` returns, a wait that ends, the call of a pop that
-- does not wait, and the next access of a pop.
pub data Move (A : Type 0) : Type 0 where
  push : ℕ → A → Move A
  wait enter pop : ℕ → Move A

module _ {A : Type 0} where
  unfoldable pub queue_new : BlkType → FreeType → Bool → Queue A
  unfolding list_new
  queue_new b f can = record { blk_type = b; vals = list_new f can }

  unfoldable pub queue_size : Queue A → ℕ
  queue_size q = q.vals.size

  unfoldable pub queue_push : Queue A → ℕ → A → Run (Queue A)
  queue_push q fresh v = do l ← list_push q.vals fresh v; ok (record q { vals = l })

  -- `atm_queue_nonempty_wait`: whether the test of its loop lets the consumer go on.
  unfoldable pub nonempty_wait : Queue A → Run Bool
  unfolding queue_size
  nonempty_wait q = elim q.blk_type [
    | blocking ↦ ok (not (queue_size q == 0))
    | nonblocking ↦ stop exit_error
  ]

  unfoldable pub queue_peek : Queue A → Run (Option A)
  queue_peek q = list_lpeek q.vals

  -- The accesses of `atm_list_lpop_entry` and `atm_list_lpop` in their order.
  unfoldable pub pop_access : LinkedList A → Place → Run (Access A)
  pop_access l outside = stop out_of_fuel
  pop_access l past = elim l.head [
    | none ↦ ok (record { place = outside; list = l; result = none ∷ [] })
    | some p ↦ ok (record { place = got p; list = l; result = [] })
  ]
  pop_access l (got p) = do
    c ← load l.heap p
    ok (record { place = next_read p c.next; list = l; result = [] })
  pop_access l (next_read p n) =
      ok (record { place = head_set p; list = record l { head = n }; result = [] })
  pop_access l (head_set p) = elim l.head [
    | none ↦ ok (record { place = linked p; list = l; result = [] })
    | some n ↦ do
      h ← set_prev l.heap n none
      ok (record { place = linked p; list = record l { heap = h }; result = [] })
  ]
  pop_access l (linked p) = ok (record {
    place = cut p;
    list = record l { tail = if points_at l.tail p then none else l.tail };
    result = [];
  })
  pop_access l (cut p) = ok (record { place = size_read p l.size; list = l; result = [] })
  pop_access l (size_read p n) =
      ok (record { place = size_set p; list = record l { size = dec32 n }; result = [] })
  pop_access l (size_set p) = do
    h ← entry_isol l.heap p
    c ← load h p
    h' ← release h p
    ok (record { place = outside; list = record l { heap = h' }; result = some c.val ∷ [] })

  -- A pop from its `f`-th last access on with no other thread in between.
  unfoldable pub accesses : ℕ → LinkedList A → Place → Run (Option A × LinkedList A)
  accesses zero l place = stop out_of_fuel
  accesses (suc f) l place = do
    a ← pop_access l place
    elim a.result [ [] ↦ accesses f a.list a.place | o ∷ os ↦ ok (o, a.list) ]

  -- `atm_queue_pop` with no other thread in between, on a blocking queue where it need not wait.
  unfoldable pub queue_pop : Queue A → Run (Option A × Queue A)
  unfolding accesses
  queue_pop q =
      let popped = accesses 8 q.vals past >>= λ r. ok (r.0, record q { vals = r.1 }) in
      elim q.blk_type [
        | nonblocking ↦ popped
        | blocking ↦ do goes ← nonempty_wait q; if goes then popped else stop out_of_fuel
      ]

  -- A queue with `n` consumers that pop one value after the other.
  unfoldable pub world_new : BlkType → FreeType → Bool → ℕ → World A
  unfolding queue_new
  world_new b f can n = record {
    queue = queue_new b f can;
    consumers = replicate n outside;
    popped = [];
  }

  unfoldable pub after_access : World A → ℕ → Access A → World A
  after_access w i a = record w {
    queue = record (w.queue) { vals = a.list };
    consumers = set w.consumers i a.place;
    popped = w.popped ++ a.result;
  }

  -- What a consumer does, by where it stands; one that cannot move stops.
  unfoldable pub wait_move : World A → ℕ → Place → Run (World A)
  unfolding nonempty_wait
  wait_move w i outside = do
    goes ← nonempty_wait w.queue
    if goes then ok (record w { consumers = set w.consumers i past }) else stop out_of_fuel
  wait_move w i _ = stop out_of_fuel

  unfoldable pub enter_move : World A → ℕ → Place → Run (World A)
  enter_move w i outside = elim w.queue.blk_type [
    | blocking ↦ stop out_of_fuel
    | nonblocking ↦ ok (record w { consumers = set w.consumers i past })
  ]
  enter_move w i _ = stop out_of_fuel

  unfoldable pub make_move : World A → Move A → Run (World A)
  unfolding queue_push wait_move enter_move pop_access after_access
  make_move w (push fresh v) = do q ← queue_push w.queue fresh v; ok (record w { queue = q })
  make_move w (wait i) = wait_move w i (get_or w.consumers i past)
  make_move w (enter i) = enter_move w i (get_or w.consumers i past)
  make_move w (pop i) = do
    a ← pop_access w.queue.vals (get_or w.consumers i outside)
    ok (after_access w i a)

  pub data Reach (start : World A) : World A → Type 0 where
    here : Reach start start
    next : (w w' : World A) (m : Move A) → Reach start w → make_move w m ≡ ok w' → Reach start w'

  -- Moves in this order.
  unfoldable pub runs : List (Move A) → World A → Run (World A)
  unfolding make_move
  runs [] w = ok w
  runs (m ∷ ms) w = make_move w m >>= runs ms
