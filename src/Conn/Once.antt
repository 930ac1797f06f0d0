-- ===== src/Conn/Once.antt =====
-- In src/core/atm_conn.c a connection is given back at most once, whatever its threads do.
use atm_cache.Base.{
  ℕ, zero, suc, ◌+◌, ◌≤◌, ◌≡◌, refl, Bool, true, false, not, ◌||◌, Option, none, some, arith,
  if◌then◌else◌, ltb, ◌==◌,
}
use atm_cache.Buf.{Pooled}
use atm_cache.Buf.Sock.{Socket}
use atm_cache.Conn.{
  Conn, add_notify, write_notify, inter_write, yield_write, conn_inactive, free_check,
}
use atm_cache.Conn.Threads.{
  Threads, yield_place, after_sent, handle_write, handle_read, restore_read, add_read,
  read_inactive, give_back, add_write, conn_new, Turn, puts, notifies, adds, dispatches,
  hangs_up_write, hangs_up_read, tests, counts, transfers, decides, leaves, adds_read, reads,
  receives, quits, restores, read_fails, read_ends, gives_back, Turns, here, next,
}

-- The connection stands in the list of those to give back, or was given back, at most once, and not
-- while it is active.
abbrev pub IsOnce : Conn → ℕ → Type 0
IsOnce c freed = (c.queued + freed ≤ 1) × (c.active ≡ true → c.queued + freed ≡ 0)

if-IsOnce :
    (b : Bool) (c d : Conn) (freed : ℕ)
    → IsOnce c freed
    → IsOnce d freed
    → IsOnce (if b then c else d) freed
if-IsOnce true c d freed h g = h
if-IsOnce false c d freed h g = g

if-IsOnce_pair :
    {A : Type 0} (b : Bool) (p q : A × Conn) (freed : ℕ)
    → IsOnce p.1 freed
    → IsOnce q.1 freed
    → IsOnce (if b then p else q).1 freed
if-IsOnce_pair true p q freed h g = h
if-IsOnce_pair false p q freed h g = g

-- The step to an inactive connection puts it in the list, and leaves no way to do so again.
IsOnce-queued :
    (c : Conn) (flag : Bool) (freed : ℕ)
    → c.active ≡ true
    → IsOnce c freed
    → IsOnce (record c { active = false; on_write = flag; queued = suc c.queued }) freed
IsOnce-queued c flag freed on h = (omega (arith, h.1 on), λ again. absurd (cc again))

if-IsOnce_when :
    (b : Bool) (c d : Conn) (freed : ℕ)
    → (b ≡ true → IsOnce c freed)
    → IsOnce d freed
    → IsOnce (if b then c else d) freed
if-IsOnce_when true c d freed h g = h refl
if-IsOnce_when false c d freed h g = g

write_notify-IsOnce : (c : Conn) (freed : ℕ) → IsOnce c freed → IsOnce (write_notify c) freed
unfolding write_notify add_notify
write_notify-IsOnce c freed h = if-IsOnce c.active _ c freed (if-IsOnce c.on_write _ _ freed h h) h

inter_write-IsOnce :
    (c : Conn) (wreqs wrmn freed : ℕ) → IsOnce c freed → IsOnce (inter_write c wreqs wrmn) freed
unfolding inter_write add_notify
inter_write-IsOnce c wreqs wrmn freed h =
    if-IsOnce (ltb wreqs c.write_reqs || ltb 0 wrmn) _ _ freed (if-IsOnce c.active _ _ freed h h) h

yield_place-IsOnce :
    (c : Conn) (wreqs freed : ℕ) → IsOnce c freed → IsOnce (yield_place c wreqs).1 freed
unfolding yield_place yield_write
yield_place-IsOnce c wreqs freed h =
    if-IsOnce_pair ((c.write_reqs == wreqs) || not c.active) _ _ freed h h

conn_inactive-IsOnce : (c : Conn) (freed : ℕ) → IsOnce c freed → IsOnce (conn_inactive c) freed
unfolding conn_inactive
conn_inactive-IsOnce c freed h =
    if-IsOnce_when c.active _ c freed (λ on. IsOnce-queued c false freed on h) h

after_sent-IsOnce :
    (c : Conn) (wreqs : ℕ) (o : Option ℕ) (again : Bool) (freed : ℕ)
    → IsOnce c freed
    → IsOnce (after_sent c wreqs o again).1 freed
unfolding after_sent
after_sent-IsOnce c wreqs none again freed h =
    if-IsOnce_pair again _ _ freed (yield_place-IsOnce c wreqs freed h)
      (conn_inactive-IsOnce c freed h)
after_sent-IsOnce c wreqs (some zero) again freed h =
    inter_write-IsOnce c wreqs c.w_buf.buf.aval freed h
after_sent-IsOnce c wreqs (some (suc n)) again freed h = yield_place-IsOnce c wreqs freed h

module _ {S : Type 0} where
  -- What `IsOnce` says of the state of the threads.
  abbrev pub IsSafe : Threads S → Type 0
  IsSafe t = IsOnce t.conn t.freed

  if-IsSafe :
      (b : Bool) (t u : Threads S) → (b ≡ true → IsSafe t) → IsSafe u → IsSafe (if b then t else u)
  if-IsSafe true t u h g = h refl
  if-IsSafe false t u h g = g

  read_inactive-IsSafe : (t : Threads S) → IsSafe t → IsSafe (read_inactive t)
  unfolding read_inactive
  read_inactive-IsSafe t h =
      if-IsSafe t.conn.active _ t (λ on. IsOnce-queued t.conn t.conn.on_write t.freed on h) h

  give_back-IsSafe : (t : Threads S) → IsSafe t → IsSafe (give_back t)
  unfolding give_back
  give_back-IsSafe t h =
      if-IsSafe (t.conn.on_write || t.on_read) t _ (λ used. h)
        (omega (arith, h.0), λ on. omega (arith, h.1 on))

module _ {S : Type 0} (k : Socket S) (again : S → Bool) where
  Turn-IsSafe : {t u : Threads S} → Turn k again t u → IsSafe t → IsSafe u
  unfolding add_write add_read handle_write handle_read restore_read free_check
  Turn-IsSafe (puts t before after src n r is run) h = h
  Turn-IsSafe (notifies t before after is) h = write_notify-IsOnce t.conn t.freed h
  Turn-IsSafe (adds t n asks) h = h
  Turn-IsSafe (dispatches t armed) h = if-IsSafe t.conn.active _ t (λ on. h) h
  Turn-IsSafe (hangs_up_write t) h = if-IsSafe t.conn.active _ t (λ on. h) h
  Turn-IsSafe (hangs_up_read t) h = if-IsSafe t.conn.active _ t (λ on. h) h
  Turn-IsSafe (tests t before after is) h = h
  Turn-IsSafe (counts t before after is) h = h
  Turn-IsSafe (transfers t before after wreqs g r is run) h = h
  Turn-IsSafe (decides t before after wreqs o b is) h = after_sent-IsOnce t.conn wreqs o b t.freed h
  Turn-IsSafe (leaves t before after is) h = h
  Turn-IsSafe (adds_read t n asks) h = h
  Turn-IsSafe (reads t armed) h = if-IsSafe t.conn.active _ t (λ on. h) h
  Turn-IsSafe (receives t before after is) h = h
  Turn-IsSafe (read_fails t before after is) h = read_inactive-IsSafe t h
  Turn-IsSafe (quits t before after is) h = read_inactive-IsSafe t h
  Turn-IsSafe (restores t before after is) h = if-IsSafe t.conn.active _ t (λ on. h) h
  Turn-IsSafe (read_ends t before after is) h = h
  Turn-IsSafe (gives_back t) h = give_back-IsSafe t h

  Turns-IsSafe : (m : Pooled) (s : S) {t : Threads S} → Turns k again (conn_new m s) t → IsSafe t
  unfolding conn_new
  Turns-IsSafe m s here = (omega arith, λ on. refl)
  Turns-IsSafe m s (next t u run step) = Turn-IsSafe step (Turns-IsSafe m s run)

  -- From a new connection on, in any order of the steps of its threads and tasks, and whatever the
  -- socket does: the connection stands in the list of those to give back, or was given back, at most
  -- once in all, and not at all while it is active.
  pub conn_inactive-once :
      (m : Pooled) (s : S) (t : Threads S)
      → Turns k again (conn_new m s) t
      → (t.conn.queued + t.freed ≤ 1) × (t.conn.active ≡ true → t.conn.queued + t.freed ≡ 0)
  conn_inactive-once m s t run = Turns-IsSafe m s run
