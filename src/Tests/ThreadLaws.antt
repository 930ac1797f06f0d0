-- ===== src/Tests/ThreadLaws.antt =====
-- The theorems on the threads of a connection at a run that is reached, with blocks of two bytes.
use atm_cache.Base.{
  ℕ, ◌+◌, ◌≤◌, ◌≡◌, refl, Bool, true, false, none, some, List, [], ◌∷◌, ◌++◌, length, ok, inc32,
}
use atm_cache.Str.Bytes.{copy_to}
use atm_cache.Blk.{Blk, blk_new, pool_fetch, blk_free, pool_release, blk_reset}
use atm_cache.Buf.{
  copy_length, Pooled, buf_write, write_loop, get_rblk, get_wblk, readable, needs_blk, put_bytes,
  skip_bytes, set_first, set_last, last_of, copy_from,
}
use atm_cache.Buf.Sock.{Socket, sock_result, buf_write_sock}
use atm_cache.Conn.{add_notify, write_notify, yield_write}
use atm_cache.Conn.Threads.{
  ready, entered, counted, sent, leaving, serving, notifying, Threads, loop_test, yield_place,
  after_sent, handle_write, handle_read, add_write, conn_new, puts, notifies, adds, dispatches,
  tests, counts, transfers, decides, reads, receives, Turns, here, next,
}
use atm_cache.Conn.Once.{conn_inactive-once}
use atm_cache.Conn.Race.{between, give_back-in_use}

abbrev clean_blk : Blk
clean_blk = record { size = 2; head = 0 ∷ 0 ∷ []; ridx = 0; widx = 0 }

abbrev no_bytes : Pooled
no_bytes = record { pool = some (clean_blk ∷ clean_blk ∷ []); buf = record { aval = 0; blks = [] } }

-- The socket takes all bytes.
abbrev wide : Socket (List ℕ)
wide = record {
  sys_read = λ s n. (none, s);
  sys_write = λ s bytes. (some (length bytes), s ++ bytes);
}

abbrev again_always : List ℕ → Bool
again_always s = true

abbrev blk : List ℕ → ℕ → ℕ → Blk
blk head ridx widx = record { size = 2; head = head; ridx = ridx; widx = widx }

abbrev one_byte : Pooled
one_byte = record {
  pool = some (clean_blk ∷ []);
  buf = record { aval = 1; blks = blk (7 ∷ 0 ∷ []) 0 1 ∷ [] };
}

abbrev one_sent : Pooled
one_sent = record {
  pool = some (clean_blk ∷ []);
  buf = record { aval = 0; blks = blk (7 ∷ 0 ∷ []) 1 1 ∷ [] };
}

abbrev two_bytes : Pooled
two_bytes = record {
  pool = some (clean_blk ∷ []);
  buf = record { aval = 1; blks = blk (7 ∷ 8 ∷ []) 1 2 ∷ [] };
}

one_put : buf_write no_bytes (7 ∷ []) 1 ≡ ok (1, one_byte)
unfolding buf_write write_loop get_wblk needs_blk put_bytes set_last last_of blk_new pool_fetch
    copy_to copy_from copy_length
one_put = refl

one_gone : buf_write_sock wide 2 one_byte [] 0 (some 0) ≡ ok (some 1, (one_sent, 7 ∷ []))
unfolding buf_write_sock get_rblk readable skip_bytes set_first copy_from sock_result blk_free
    pool_release blk_reset
one_gone = refl

two_put : buf_write one_sent (8 ∷ []) 1 ≡ ok (1, two_bytes)
unfolding buf_write write_loop get_wblk needs_blk put_bytes set_last last_of blk_new pool_fetch
    copy_to copy_from copy_length
two_put = refl

-- A byte is written and sent, and the next is in the buffer when the task has still to leave.
to_between :
    Turns wide again_always
      (conn_new no_bytes [])
      (between two_bytes (7 ∷ []) 1 0 0 0 0 true false false)
unfolding conn_new write_notify add_notify yield_write loop_test yield_place after_sent handle_write
    handle_read add_write inc32
to_between =
    let v0 : Threads (List ℕ) = conn_new no_bytes [] in
    let v1 = handle_read v0 in
    let u0 : Threads (List ℕ) = record v1 { readers = serving ∷ [] } in
    let u1 : Threads (List ℕ) = record u0 {
      conn = record u0.conn { w_buf = one_byte };
      readers = notifying ∷ [];
    } in
    let u2 : Threads (List ℕ) = record u1 { conn = write_notify u1.conn; readers = serving ∷ [] } in
    let u3 = add_write u2 0 in
    let u4 = handle_write u3 in
    let u5 : Threads (List ℕ) = record u4 { tasks = entered ∷ [] } in
    let u6 : Threads (List ℕ) = record u5 { tasks = counted 1 ∷ [] } in
    let u7 : Threads (List ℕ) = record u6 {
      conn = record u6.conn { w_buf = one_sent };
      sock = 7 ∷ [];
      tasks = sent 1 (some 1) true ∷ [];
    } in
    let u8 : Threads (List ℕ) = record u7 {
      conn = record u7.conn { on_write = false };
      tasks = leaving ∷ [];
    } in
    let q1 = next v0 v1 here (reads v0 refl) in
    let r0 = next v1 u0 q1 (receives v1 [] [] refl) in
    let r1 = next u0 u1 r0 (puts u0 [] [] (7 ∷ []) 1 (1, one_byte) refl one_put) in
    let r2 = next u1 u2 r1 (notifies u1 [] [] refl) in
    let r3 = next u2 u3 r2 (adds u2 0 refl) in
    let r4 = next u3 u4 r3 (dispatches u3 refl) in
    let r5 = next u4 u5 r4 (tests u4 [] [] refl) in
    let r6 = next u5 u6 r5 (counts u5 [] [] refl) in
    let r7 = next u6 u7 r6 (transfers u6 [] [] 1 2 (some 1, (one_sent, 7 ∷ [])) refl one_gone) in
    let r8 = next u7 u8 r7 (decides u7 [] [] 1 (some 1) true refl) in
    next u8 (between two_bytes (7 ∷ []) 1 0 0 0 0 true false false) r8
      (puts u8 [] [] (8 ∷ []) 1 (1, two_bytes) refl two_put)

abbrev middle_of_run : Threads (List ℕ)
middle_of_run = between two_bytes (7 ∷ []) 1 0 0 0 0 true false false

conn_inactive-once_example :
    (middle_of_run.conn.queued + middle_of_run.freed ≤ 1)
    × (middle_of_run.conn.active ≡ true → middle_of_run.conn.queued + middle_of_run.freed ≡ 0)
conn_inactive-once_example =
    conn_inactive-once wide again_always no_bytes [] middle_of_run to_between

give_back-in_use_example :
    (t : Threads (List ℕ)) × Turns wide again_always middle_of_run t
    × (t.freed ≡ 1)
    × (t.tasks ≡ ready ∷ [])
give_back-in_use_example =
    give_back-in_use wide again_always no_bytes [] two_bytes (7 ∷ []) 1 0 0 0 0 true false false
      to_between
