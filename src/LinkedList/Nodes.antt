-- ===== src/LinkedList/Nodes.antt =====
-- The list of src/core/atm_list.c: entries at addresses of a store, with a pointer each way. The
-- field `list` of an entry always points to the one list modelled here, so it is left out. A list is
-- passed as a value, which leaves out the guards against a NULL list. `none` stands for NULL, both
-- for pointers to entries and for the values that come back.
use atm_cache.Base.{
  ℕ, zero, suc, Bool, false, Option, none, some, List, [], ◌∷◌, ◌++◌, if◌then◌else◌, ◌==◌, FreeType,
  shallow, deep, Run, ok, stop, exit_error, use_after_free, out_of_fuel, ◌>>=◌, inc32, dec32,
}

pub record Node (A : Type 0) : Type 0 where
  pub val : A
  pub prev : Option ℕ
  pub next : Option ℕ

abbrev pub Heap : Type 0 → Type 0
Heap A = ℕ → Option (Node A)

-- `can_free` says whether `v_type->free` is there.
pub record LinkedList (A : Type 0) : Type 0 where
  pub free_type : FreeType
  pub can_free : Bool
  pub heap : Heap A
  pub head : Option ℕ
  pub tail : Option ℕ
  pub size : ℕ

pub record ListIter (A : Type 0) : Type 0 where
  pub list : LinkedList A
  pub curr : Option ℕ

abbrev pub points_at : Option ℕ → ℕ → Bool
points_at none p = false
points_at (some q) p = q == p

module _ {A : Type 0} where
  unfoldable pub write : Heap A → ℕ → Option (Node A) → Heap A
  write h p c a = if a == p then c else h a

  -- `*p`, which is not defined where no entry stands.
  unfoldable pub load : Heap A → ℕ → Run (Node A)
  load h p = elim (h p) [ none ↦ stop use_after_free | some c ↦ ok c ]

  unfoldable pub set_prev : Heap A → ℕ → Option ℕ → Run (Heap A)
  unfolding load write
  set_prev h p q = do c ← load h p; ok (write h p (some (record c { prev = q })))

  unfoldable pub set_next : Heap A → ℕ → Option ℕ → Run (Heap A)
  unfolding load write
  set_next h p q = do c ← load h p; ok (write h p (some (record c { next = q })))

  -- `atm_free` of an entry.
  unfoldable pub release : Heap A → ℕ → Run (Heap A)
  unfolding load write
  release h p = do _ ← load h p; ok (write h p none)

  -- `atm_list_entry_isol`.
  unfoldable pub entry_isol : Heap A → ℕ → Run (Heap A)
  unfolding load write
  entry_isol h p = do c ← load h p; ok (write h p (some (record c { prev = none; next = none })))

  -- `atm_list_entry_new`, with the address that `atm_alloc` returns.
  unfoldable pub list_entry_new : Heap A → ℕ → A → Heap A
  unfolding write
  list_entry_new h p v = write h p (some (record { val = v; prev = none; next = none }))

  -- `atm_list_entry_free`, with the values that the callback `free` is given.
  unfoldable pub list_entry_free : LinkedList A → ℕ → Run (List A × LinkedList A)
  list_entry_free l p = do
    h ← entry_isol l.heap p
    c ← load h p
    freed ← elim l.free_type [
      | shallow ↦ ok []
      | deep ↦ if l.can_free then ok (c.val ∷ []) else stop exit_error
    ]
    h' ← release h p
    ok (freed, record l { heap = h' })

  -- The loop of `atm_list_find_linear` from the entry `curr`, `fuel` entries far at most.
  unfoldable pub find_linear : ℕ → Heap A → Option ℕ → (A → Bool) → Run (Option ℕ)
  unfolding load
  find_linear n h none m = ok none
  find_linear zero h (some p) m = stop out_of_fuel
  find_linear (suc n) h (some p) m = do
    c ← load h p
    let rest = find_linear n h c.next m in if m c.val then ok (some p) else rest

  -- `atm_list_find_entry`: as many rounds as the list has entries are enough.
  unfoldable pub find_entry : LinkedList A → (A → Bool) → Run (Option ℕ)
  find_entry l m = find_linear l.size l.heap l.head m

  unfoldable pub lpop_entry : LinkedList A → Run (Option ℕ × LinkedList A)
  lpop_entry l = elim l.head [
    | none ↦ ok (none, l)
    | some p ↦ do
      c ← load l.heap p
      h ← elim c.next [ none ↦ ok l.heap | some n ↦ set_prev l.heap n none ]
      h' ← entry_isol h p
      ok (
        some p,
        record l {
          heap = h';
          head = c.next;
          tail = if points_at l.tail p then none else l.tail;
          size = dec32 l.size;
        },
      )
  ]

  unfoldable pub rpop_entry : LinkedList A → Run (Option ℕ × LinkedList A)
  rpop_entry l = elim l.tail [
    | none ↦ ok (none, l)
    | some p ↦ do
      c ← load l.heap p
      h ← elim c.prev [ none ↦ ok l.heap | some n ↦ set_next l.heap n none ]
      h' ← entry_isol h p
      ok (
        some p,
        record l {
          heap = h';
          tail = c.prev;
          head = if points_at l.head p then none else l.head;
          size = dec32 l.size;
        },
      )
  ]

  unfoldable pub list_new : FreeType → Bool → LinkedList A
  list_new f can = record {
    free_type = f;
    can_free = can;
    heap = λ _. none;
    head = none;
    tail = none;
    size = 0;
  }

  -- `atm_list_push`; `fresh` is the address that `atm_alloc` returns.
  unfoldable pub list_push : LinkedList A → ℕ → A → Run (LinkedList A)
  list_push l fresh v =
      let h = list_entry_new l.heap fresh v in
      elim l.tail [
        | none ↦ elim l.head [
          | none ↦
              ok (record l { heap = h; head = some fresh; tail = some fresh; size = inc32 l.size })
          | some _ ↦ stop exit_error
        ]
        | some t ↦ do
          h' ← set_next h t (some fresh)
          h'' ← set_prev h' fresh (some t)
          ok (record l { heap = h''; tail = some fresh; size = inc32 l.size })
      ]

  -- The four cases of `atm_list_del`, by the neighbours of the entry that goes.
  unfoldable pub unlink_entry : LinkedList A → Option ℕ → Option ℕ → Run (LinkedList A)
  unlink_entry l none none = ok (record l { head = none; tail = none })
  unlink_entry l none (some n) = do
    h ← set_prev l.heap n none
    ok (record l { heap = h; head = some n })
  unlink_entry l (some p) none = do
    h ← set_next l.heap p none
    ok (record l { heap = h; tail = some p })
  unlink_entry l (some p) (some n) = do
    h ← set_next l.heap p (some n)
    h' ← set_prev h n (some p)
    ok (record l { heap = h' })

  -- `atm_list_del`, with the values that the callback `free` is given.
  unfoldable pub list_del : LinkedList A → (A → Bool) → Run (List A × LinkedList A)
  list_del l m = do
    e ← find_entry l m
    elim e [
      | none ↦ ok ([], l)
      | some p ↦ do
        c ← load l.heap p
        l' ← unlink_entry l c.prev c.next
        list_entry_free (record l' { size = dec32 l'.size }) p
    ]

  unfoldable pub list_find : LinkedList A → (A → Bool) → Run (Option A)
  list_find l m = do
    e ← find_entry l m
    elim e [ none ↦ ok none | some p ↦ do c ← load l.heap p; ok (some c.val) ]

  -- What `atm_list_lpop` and `atm_list_rpop` do with the entry that was taken off.
  unfoldable pub take_value : Option ℕ × LinkedList A → Run (Option A × LinkedList A)
  take_value (none, l) = ok (none, l)
  take_value (some p, l) = do
    c ← load l.heap p
    h ← release l.heap p
    ok (some c.val, record l { heap = h })

  unfoldable pub list_lpop : LinkedList A → Run (Option A × LinkedList A)
  list_lpop l = lpop_entry l >>= take_value

  unfoldable pub list_rpop : LinkedList A → Run (Option A × LinkedList A)
  list_rpop l = rpop_entry l >>= take_value

  unfoldable pub peek : Heap A → Option ℕ → Run (Option A)
  unfolding load
  peek h none = ok none
  peek h (some p) = do c ← load h p; ok (some c.val)

  unfoldable pub list_lpeek : LinkedList A → Run (Option A)
  unfolding peek
  list_lpeek l = peek l.heap l.head

  unfoldable pub list_rpeek : LinkedList A → Run (Option A)
  unfolding peek
  list_rpeek l = peek l.heap l.tail

  -- The loop of `atm_list_clear`, with the values that the callback `free` is given.
  unfoldable pub clear_loop : ℕ → LinkedList A → Run (List A × LinkedList A)
  clear_loop zero l = elim l.head [ none ↦ ok ([], l) | some _ ↦ stop out_of_fuel ]
  clear_loop (suc n) l = do
    (e, l') ← lpop_entry l
    elim e [
      | none ↦ ok ([], l')
      | some p ↦ do
        (freed, rest) ← list_entry_free l' p
        (more, done) ← clear_loop n rest
        ok (freed ++ more, done)
    ]

  unfoldable pub list_clear : LinkedList A → Run (List A × LinkedList A)
  list_clear l = clear_loop l.size l

  unfoldable pub iter_new : LinkedList A → ListIter A
  iter_new l = record { list = l; curr = l.head }

  -- `atm_list_next`.
  unfoldable pub iter_next : ListIter A → Run (Option A × ListIter A)
  unfolding load
  iter_next it = elim it.curr [
    | none ↦ ok (none, it)
    | some p ↦ do c ← load it.list.heap p; ok (some c.val, record it { curr = c.next })
  ]

  unfoldable pub iter_reset : ListIter A → ListIter A
  iter_reset it = record it { curr = it.list.head }
