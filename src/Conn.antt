-- ===== src/Conn.antt =====
-- The write side of a connection of src/core/atm_conn.c: the session adds bytes to the buffer and
-- counts a request, and the write task sends them. `asked` counts the requests to the event loop for a
-- write event, and `queued` how often the connection was put in the list of those to give back. A task
-- runs with no other thread in between; its mutexes are left out.
pub mod Write
pub mod Free
pub mod Threads
pub mod Once
pub mod Race
use atm_cache.Base.{
  ℕ, zero, suc, ◌+◌, Bool, true, false, not, ◌||◌, Option, none, some, List, if◌then◌else◌, ltb,
  ◌==◌, inc32, Run, ok, stop, ◌>>=◌, out_of_fuel,
}
use atm_cache.Buf.{Pooled, buf_write}
use atm_cache.Buf.Sock.{Socket, buf_write_sock}

pub record Conn : Type 0 where
  pub active : Bool
  pub on_write : Bool
  pub write_reqs : ℕ
  pub w_buf : Pooled
  pub asked : ℕ
  pub queued : ℕ

-- `atm_event_add_notify` for `ATM_EVENT_WRITE`.
unfoldable pub add_notify : Conn → Conn
add_notify c = record c { asked = suc c.asked }

unfoldable pub write_notify : Conn → Conn
unfolding add_notify inc32
write_notify c =
    let counted = record c { write_reqs = inc32 c.write_reqs } in
    if c.active then (if c.on_write then counted else add_notify counted) else c

unfoldable pub conn_write : Conn → List ℕ → ℕ → Run Conn
conn_write c src n = do r ← buf_write c.w_buf src n; ok (write_notify (record c { w_buf = r.1 }))

-- `wrmn` is converted from `aval` to a signed word; a buffer has fewer than 2 ^ 31 bytes.
unfoldable pub inter_write : Conn → ℕ → ℕ → Conn
unfolding add_notify
inter_write c wreqs wrmn =
    let resting = record c { on_write = false } in
    if ltb wreqs c.write_reqs || ltb 0 wrmn
    then (if c.active then add_notify resting else resting)
    else resting

unfoldable pub yield_write : Conn → ℕ → Bool × Conn
yield_write c wreqs =
    if (c.write_reqs == wreqs) || not c.active
    then (true, record c { on_write = false })
    else (false, c)

-- `atm_conn_inactive` with the flag `on_write`.
unfoldable pub conn_inactive : Conn → Conn
conn_inactive c =
    if c.active then record c { active = false; on_write = false; queued = suc c.queued } else c

-- `atm_conn_free_check` with the flag `on_write`: both branches take the flag back.
unfoldable pub free_check : Conn → Conn
free_check c = record c { on_write = false }

-- The end of a round: whether the loop goes on, `none`, or ends, and then whether it returns `ATM_OK`.
unfoldable pub yielded : Conn → ℕ → Option Bool × Conn
unfolding yield_write free_check
yielded c wreqs =
    let next = yield_write c wreqs in
    if next.0 then (some true, free_check next.1) else (none, next.1)

-- The branches on `ret`, where `again` is whether `errno` is `EAGAIN`.
unfoldable pub round_end : Bool → Conn → ℕ → Option ℕ → Option Bool × Conn
unfolding yielded conn_inactive free_check inter_write
round_end again c wreqs none = if again then yielded c wreqs else (some false, conn_inactive c)
round_end again c wreqs (some zero) = (some true, free_check (inter_write c wreqs c.w_buf.buf.aval))
round_end again c wreqs (some (suc n)) = yielded c wreqs

module _ {S : Type 0} (k : Socket S) (again : S → Bool) where
  -- `again` tells `errno` after a call of `write` that failed, and `g` is the number of rounds of a
  -- transfer.
  unfoldable pub task_write : ℕ → ℕ → Conn → S → Run (Bool × (Conn × S))
  task_write zero g c s = stop out_of_fuel
  task_write (suc f) g c s =
      if c.active
      then (do
        r ← buf_write_sock k g c.w_buf s 0 (some 0)
        let e = round_end (again r.1.1) (record c { w_buf = r.1.0 }) c.write_reqs r.0
        elim e.0 [ some b ↦ ok (b, (e.1, r.1.1)) | none ↦ task_write f g e.1 r.1.1 ])
      else ok (true, (free_check c, s))
