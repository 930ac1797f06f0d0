-- ===== src/Conn/Race.antt =====
-- In src/core/atm_conn.c the check at the end of a write task takes back the flag of the next one.
use atm_cache.Base.{ℕ, suc, ◌+◌, ◌≡◌, refl, Bool, true, false, [], ◌∷◌, arith, inc32}
use atm_cache.Buf.{Pooled}
use atm_cache.Buf.Sock.{Socket}
use atm_cache.Conn.{add_notify, write_notify, free_check}
use atm_cache.Conn.Threads.{
  ready, leaving, serving, notifying, closing, Threads, handle_write, handle_read, restore_read,
  read_inactive, give_back, add_write, add_read, conn_new, notifies, adds, dispatches, leaves,
  adds_read, reads, restores, read_fails, read_ends, gives_back, Turns, here, next,
}
use atm_cache.Conn.Once.{conn_inactive-once}

module _ {S : Type 0} where
  -- The only write task of an active connection has given the flag back and stands before its last
  -- check, while its only read task stands between the buffer and the notification.
  abbrev pub between : Pooled → S → ℕ → ℕ → ℕ → ℕ → ℕ → Bool → Bool → Bool → Threads S
  between m s reqs asked queued freed asked_read on_read armed read_armed = record {
    conn = record {
      active = true;
      on_write = false;
      write_reqs = reqs;
      w_buf = m;
      asked = asked;
      queued = queued;
    };
    sock = s;
    on_read = on_read;
    armed = armed;
    read_armed = read_armed;
    asked_read = asked_read;
    readers = notifying ∷ [];
    tasks = leaving ∷ [];
    freed = freed;
  }

  -- The state at the end.
  abbrev pub lost : Pooled → S → ℕ → ℕ → ℕ → ℕ → Threads S
  lost m s reqs asked freed asked_read = record {
    conn = record {
      active = false;
      on_write = false;
      write_reqs = inc32 reqs;
      w_buf = m;
      asked = asked;
      queued = 0;
    };
    sock = s;
    on_read = false;
    armed = false;
    read_armed = false;
    asked_read = asked_read;
    readers = [];
    tasks = ready ∷ [];
    freed = freed;
  }

  module _ (k : Socket S) (again : S → Bool) where
    pub to_lost :
        (m : Pooled) (s : S) (reqs asked queued freed asked_read : ℕ)
        (on_read armed read_armed : Bool)
        → Turns k again
            (between m s reqs asked queued freed asked_read on_read armed read_armed)
            (lost m s reqs asked (freed + suc queued) asked_read)
    unfolding write_notify add_notify add_write add_read handle_write handle_read restore_read
        read_inactive give_back free_check
    to_lost m s reqs asked queued freed asked_read on_read armed read_armed =
        let t1 = between m s reqs asked queued freed asked_read on_read armed read_armed in
        let t2 : Threads S = record t1 { conn = write_notify t1.conn; readers = serving ∷ [] } in
        let t3 = add_write t2 asked in
        let t4 = handle_write t3 in
        let t5 : Threads S = record t4 { conn = free_check t4.conn; tasks = ready ∷ [] } in
        let t6 : Threads S = record (restore_read t5) { readers = closing ∷ [] } in
        let t7 : Threads S = record t6 { on_read = false; readers = [] } in
        let t8 = add_read t7 asked_read in
        let t9 = handle_read t8 in
        let t10 : Threads S = record (read_inactive t9) { readers = [] } in
        let r2 = next t1 t2 here (notifies t1 [] [] refl) in
        let r3 = next t2 t3 r2 (adds t2 asked refl) in
        let r4 = next t3 t4 r3 (dispatches t3 refl) in
        let r5 = next t4 t5 r4 (leaves t4 [] (ready ∷ []) refl) in
        let r6 = next t5 t6 r5 (restores t5 [] [] refl) in
        let r7 = next t6 t7 r6 (read_ends t6 [] [] refl) in
        let r8 = next t7 t8 r7 (adds_read t7 asked_read refl) in
        let r9 = next t8 t9 r8 (reads t8 refl) in
        let r10 = next t9 t10 r9 (read_fails t9 [] [] refl) in
        next t10 (give_back t10) r10 (gives_back t10)

    -- If a run from a new connection comes to a state where it is active, its only write task has
    -- given `on_write` back and stands before its last check, and its only read task stands between
    -- the buffer and the notification, then a run goes on from that state to one where the connection
    -- was given back and a write task that was dispatched has still to begin.
    pub give_back-in_use :
        (m0 : Pooled) (s0 : S) (m : Pooled) (s : S) (reqs asked queued freed asked_read : ℕ)
        (on_read armed read_armed : Bool)
        → Turns k again
            (conn_new m0 s0)
            (between m s reqs asked queued freed asked_read on_read armed read_armed)
        → (t : Threads S) × Turns k again
            (between m s reqs asked queued freed asked_read on_read armed read_armed)
            t
          × (t.freed ≡ 1)
          × (t.tasks ≡ ready ∷ [])
    give_back-in_use m0 s0 m s reqs asked queued freed asked_read on_read armed read_armed run =
        let now = between m s reqs asked queued freed asked_read on_read armed read_armed in
        let once = (conn_inactive-once k again m0 s0 now run).1 refl in
        (
          lost m s reqs asked (freed + suc queued) asked_read,
          to_lost m s reqs asked queued freed asked_read on_read armed read_armed,
          omega (arith, once),
          refl,
        )
