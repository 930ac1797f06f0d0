-- ===== src/Conn/Threads.antt =====
-- The threads that share a connection of src/core/atm_conn.c: the event loop, the read tasks, in which
-- the session writes, the write tasks and the task that gives connections back. A step is what a thread does under the mutex of
-- the connection, or, under none, the test of a loop or a transfer to the socket.
use atm_cache.Base.{
  ℕ, zero, suc, ◌+◌, ◌≡◌, Bool, true, false, ◌||◌, Option, none, some, List, [], ◌∷◌, ◌++◌,
  if◌then◌else◌, ok,
}
use atm_cache.Buf.{Pooled, buf_write}
use atm_cache.Buf.Sock.{Socket, buf_write_sock}
use atm_cache.Conn.{Conn, write_notify, inter_write, yield_write, conn_inactive, free_check}

-- Where a write task stands: at the test of its loop, past the test, past the read of `write_reqs`,
-- past the transfer with its result and whether `errno` is `EAGAIN`, and before the check at the end.
pub data Place : Type 0 where
  ready entered : Place
  counted : ℕ → Place
  sent : ℕ → Option ℕ → Bool → Place
  leaving : Place

-- Where a read task stands: before its transfer, in the session, in `atm_conn_write` between the
-- buffer and the notification, and before the check at the end.
pub data ReadPlace : Type 0 where
  waiting serving notifying closing : ReadPlace

-- `armed` and `read_armed` say whether the event loop waits for a write or a read event, `asked_read`
-- counts the requests to it for a read event, and `freed` how often the connection was given back.
pub record Threads (S : Type 0) : Type 0 where
  pub conn : Conn
  pub sock : S
  pub on_read : Bool
  pub armed : Bool
  pub read_armed : Bool
  pub asked_read : ℕ
  pub readers : List ReadPlace
  pub tasks : List Place
  pub freed : ℕ

unfoldable pub loop_test : Conn → Place
loop_test c = if c.active then entered else leaving

unfoldable pub yield_place : Conn → ℕ → Option Place × Conn
unfolding yield_write
yield_place c wreqs =
    let next = yield_write c wreqs in (some (if next.0 then leaving else ready), next.1)

-- What a task does with the result of a transfer, and where it stands then, if it goes on.
unfoldable pub after_sent : Conn → ℕ → Option ℕ → Bool → Option Place × Conn
unfolding yield_place conn_inactive inter_write
after_sent c wreqs none again = if again then yield_place c wreqs else (none, conn_inactive c)
after_sent c wreqs (some zero) again = (some leaving, inter_write c wreqs c.w_buf.buf.aval)
after_sent c wreqs (some (suc n)) again = yield_place c wreqs

abbrev pub placed : Option Place → List Place
placed none = []
placed (some p) = p ∷ []

module _ {S : Type 0} where
  unfoldable pub handle_write : Threads S → Threads S
  handle_write t =
      let c = t.conn in
      let going = record t {
        conn = record c { on_write = true };
        armed = false;
        tasks = t.tasks ++ ready ∷ [];
      } in
      if c.active then going else t

  unfoldable pub handle_read : Threads S → Threads S
  handle_read t =
      let going = record t {
        on_read = true;
        read_armed = false;
        readers = t.readers ++ waiting ∷ [];
      } in
      if t.conn.active then going else t

  -- The read event is asked for again, where the event is active.
  unfoldable pub restore_read : Threads S → Threads S
  restore_read t = if t.conn.active then record t { asked_read = suc t.asked_read } else t

  -- `atm_conn_inactive` with the flag `on_read`.
  unfoldable pub read_inactive : Threads S → Threads S
  read_inactive t =
      let c = t.conn in
      let gone = record t {
        conn = record c { active = false; queued = suc c.queued };
        on_read = false;
      } in
      if c.active then gone else t

  -- `atm_conn_free_func` with the connection in its list as often as it was queued.
  unfoldable pub give_back : Threads S → Threads S
  give_back t =
      let c = t.conn in
      let back = record t { conn = record c { queued = 0 }; freed = t.freed + c.queued } in
      if c.on_write || t.on_read then t else back

  unfoldable pub add_write : Threads S → ℕ → Threads S
  add_write t n = record t { conn = record t.conn { asked = n }; armed = true }

  unfoldable pub add_read : Threads S → ℕ → Threads S
  add_read t n = record t { asked_read = n; read_armed = true }

module _ {S : Type 0} (k : Socket S) (again : S → Bool) where
  pub data Turn : Threads S → Threads S → Type 0 where
    puts :
        (t : Threads S) (before after : List ReadPlace) (src : List ℕ) (n : ℕ) (r : ℕ × Pooled)
        → t.readers ≡ before ++ serving ∷ after
        → buf_write t.conn.w_buf src n ≡ ok r
        → Turn t (record t {
          conn = record t.conn { w_buf = r.1 };
          readers = before ++ notifying ∷ after;
        })
    notifies :
        (t : Threads S) (before after : List ReadPlace)
        → t.readers ≡ before ++ notifying ∷ after
        → Turn t (record t { conn = write_notify t.conn; readers = before ++ serving ∷ after })
    adds : (t : Threads S) (n : ℕ) → t.conn.asked ≡ suc n → Turn t (add_write t n)
    dispatches : (t : Threads S) → t.armed ≡ true → Turn t (handle_write t)
    -- The event loop takes `EPOLLERR` and `EPOLLHUP` for both events, waited for or not.
    hangs_up_write : (t : Threads S) → Turn t (handle_write t)
    hangs_up_read : (t : Threads S) → Turn t (handle_read t)
    tests :
        (t : Threads S) (before after : List Place)
        → t.tasks ≡ before ++ ready ∷ after
        → Turn t (record t { tasks = before ++ loop_test t.conn ∷ after })
    counts :
        (t : Threads S) (before after : List Place)
        → t.tasks ≡ before ++ entered ∷ after
        → Turn t (record t { tasks = before ++ counted t.conn.write_reqs ∷ after })
    transfers :
        (t : Threads S) (before after : List Place) (wreqs g : ℕ) (r : Option ℕ × (Pooled × S))
        → t.tasks ≡ before ++ counted wreqs ∷ after
        → buf_write_sock k g t.conn.w_buf t.sock 0 (some 0) ≡ ok r
        → Turn t (record t {
          conn = record t.conn { w_buf = r.1.0 };
          sock = r.1.1;
          tasks = before ++ sent wreqs r.0 (again r.1.1) ∷ after;
        })
    decides :
        (t : Threads S) (before after : List Place) (wreqs : ℕ) (o : Option ℕ) (b : Bool)
        → t.tasks ≡ before ++ sent wreqs o b ∷ after
        → Turn t (record t {
          conn = (after_sent t.conn wreqs o b).1;
          tasks = before ++ placed (after_sent t.conn wreqs o b).0 ++ after;
        })
    leaves :
        (t : Threads S) (before after : List Place)
        → t.tasks ≡ before ++ leaving ∷ after
        → Turn t (record t { conn = free_check t.conn; tasks = before ++ after })
    adds_read : (t : Threads S) (n : ℕ) → t.asked_read ≡ suc n → Turn t (add_read t n)
    reads : (t : Threads S) → t.read_armed ≡ true → Turn t (handle_read t)
    -- The transfer from the socket brings bytes, or finds none for now.
    receives :
        (t : Threads S) (before after : List ReadPlace)
        → t.readers ≡ before ++ waiting ∷ after
        → Turn t (record t { readers = before ++ serving ∷ after })
    -- It finds the end of the stream or an error, and the task ends.
    read_fails :
        (t : Threads S) (before after : List ReadPlace)
        → t.readers ≡ before ++ waiting ∷ after
        → Turn t (record (read_inactive t) { readers = before ++ after })
    -- The session ends with an error.
    quits :
        (t : Threads S) (before after : List ReadPlace)
        → t.readers ≡ before ++ serving ∷ after
        → Turn t (record (read_inactive t) { readers = before ++ serving ∷ after })
    restores :
        (t : Threads S) (before after : List ReadPlace)
        → t.readers ≡ before ++ serving ∷ after
        → Turn t (record (restore_read t) { readers = before ++ closing ∷ after })
    read_ends :
        (t : Threads S) (before after : List ReadPlace)
        → t.readers ≡ before ++ closing ∷ after
        → Turn t (record t { on_read = false; readers = before ++ after })
    gives_back : (t : Threads S) → Turn t (give_back t)

  pub data Turns (start : Threads S) : Threads S → Type 0 where
    here : Turns start start
    next : (t u : Threads S) → Turns start t → Turn t u → Turns start u

-- A connection as `atm_conn_new` makes it, after `atm_event_add_conn` for a read event.
unfoldable pub conn_new : {S : Type 0} → Pooled → S → Threads S
conn_new m s = record {
  conn = record {
    active = true;
    on_write = false;
    write_reqs = 0;
    w_buf = m;
    asked = 0;
    queued = 0;
  };
  sock = s;
  on_read = false;
  armed = false;
  read_armed = true;
  asked_read = 0;
  readers = [];
  tasks = [];
  freed = 0;
}
