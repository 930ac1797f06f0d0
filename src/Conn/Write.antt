-- ===== src/Conn/Write.antt =====
-- The write task of src/core/atm_conn.c sends what the socket takes, and asks for no event.
use atm_cache.Base.{
  ℕ, zero, suc, ◌<◌, ◌≡◌, refl, ap, ◌∙◌, Bool, true, false, Option, none, some, ◌++◌, arith, length,
  ltb, ◌==◌, ok, Run, Returns, if◌then◌else◌,
}
use atm_cache.Buf.Valid.{contents, IsBuf}
use atm_cache.Buf.Sock.{Socket, SocketLaws}
use atm_cache.Buf.Relay.{TakesSome, buf_write_sock-Sent}
use atm_cache.Conn.{Conn, yielded, round_end, task_write}

chosen : {A : Type 0} (b : Bool) (u v : A) → b ≡ true → (if b then u else v) ≡ u
chosen b u v e = rw e refl

ends_with :
    {S : Type 0} (e : Option Bool × Conn) (c : Conn) (s : S) (rest : Run (Bool × (Conn × S)))
    → e ≡ (some true, c)
    → elim e.0 [ some b ↦ ok (b, (e.1, s)) | none ↦ rest ] ≡ ok (true, (c, s))
ends_with (some true, d) c s rest is = ap (λ f. ok (true, (f.1, s))) is
ends_with (some false, d) c s rest is = absurd (cc is)
ends_with (none, d) c s rest is = absurd (cc is)

no_more : (n : ℕ) → ltb n n ≡ false
no_more n = ground arith

same_reqs : (n : ℕ) → (n == n) ≡ true
same_reqs n = ground arith

yielded-ends : (c : Conn) → yielded c c.write_reqs ≡ (some true, record c { on_write = false })
unfolding yielded
yielded-ends c = rw (same_reqs c.write_reqs) refl

-- A round with no request in between ends the loop, and no write event is asked for.
round_end-ends :
    (c : Conn) (o : Option ℕ)
    → (o ≡ some 0 → c.w_buf.buf.aval ≡ 0)
    → round_end true c c.write_reqs o ≡ (some true, record c { on_write = false })
unfolding round_end
round_end-ends c none z = yielded-ends c
round_end-ends c (some zero) z = rw (no_more c.write_reqs, z refl) refl
round_end-ends c (some (suc n)) z = yielded-ends c

-- A write task on an active connection with a well-formed buffer, while no other thread adds bytes
-- and the socket, each time, takes some of the bytes or fails with `EAGAIN`. One round is enough: the
-- task returns `ATM_OK`, no byte is lost, `on_write` is false and no write event was asked for,
-- whatever bytes are left.
pub task_write-rests :
    {S : Type 0} (k : Socket S) (again : S → Bool) (laws : SocketLaws k)
    → TakesSome k
    → ((s : S) → again s ≡ true)
    → (c : Conn) (s : S) (g : ℕ) → c.active ≡ true
    → IsBuf c.w_buf
    → length (contents c.w_buf) < g
    → Returns (task_write k again 1 g c s) (λ r.
      (r.0 ≡ true)
      × (r.1.0.on_write ≡ false)
      × (r.1.0.asked ≡ c.asked)
      × IsBuf r.1.0.w_buf
      × (laws.outgoing r.1.1 ++ contents r.1.0.w_buf ≡ laws.outgoing s ++ contents c.w_buf))
unfolding task_write
task_write-rests k again laws takes patient c s g active h enough =
    let (r, run, w) = buf_write_sock-Sent k laws g c.w_buf s 0 (some 0) h enough in
    let sent : Conn = record c { w_buf = r.1.0 } in
    let empty : r.0 ≡ some 0 → r.1.0.buf.aval ≡ 0 =
      λ z. omega (arith, w.buf.counted, ap length (w.drained takes z)) in
    let ended = round_end-ends sent r.0 empty in
    let ended' = ap (λ b. round_end b sent c.write_reqs r.0) (patient r.1.1) ∙ ended in
    (
      (true, (record sent { on_write = false }, r.1.1)),
      chosen c.active _ _ active
          ∙ rw run (ends_with _ (record sent { on_write = false }) r.1.1 _ ended'),
      (refl, refl, refl, w.buf, w.kept),
    )
