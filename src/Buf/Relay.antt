-- ===== src/Buf/Relay.antt =====
-- The bytes that pass from a socket through a buffer of src/core/atm_buf.c to a socket.
use atm_cache.Base.{
  ℕ, zero, suc, ◌+◌, ◌-◌, ◌≤◌, ◌<◌, ◌≡◌, ◌≢◌, refl, ap, sym, ◌∙◌, true, Option, none, some, List,
  [], ◌∷◌, ◌++◌, arith, length, length-append, length-take, length-drop, take, drop,
  take-append-drop, ltb, lt→ltb, ltb→lt, Option-cases, Bool-cases, inl, inr, ok, Returns,
}
use atm_cache.Arr.Valid.{append_assoc}
use atm_cache.Blk.{Blk}
use atm_cache.Buf.{Pooled, get_rblk, get_wblk, skip_bytes, copy_from}
use atm_cache.Buf.Valid.{contents, IsBuf}
use atm_cache.Buf.Put.{put_bytes-IsBuf}
use atm_cache.Buf.Wblk.{get_wblk-Wblk}
use atm_cache.Buf.Take.{get_rblk-Rblk, Taken, skip_bytes-Taken, take-take}
use atm_cache.Buf.Sock.{Socket, SocketLaws, sock_result, buf_read_sock, buf_write_sock}

-- A write of some bytes takes one or fails.
abbrev pub TakesSome : {S : Type 0} → Socket S → Type 0
TakesSome {S} k = (s : S) (bytes : List ℕ) → 0 < length bytes → (k.sys_write s bytes).0 ≢ some 0

not_zero : (total : ℕ) (ret : Option ℕ) → sock_result total ret ≡ some 0 → ret ≡ some 0
unfolding sock_result
not_zero total ret e = elim (Bool-cases (ltb 0 total)) [
  | inl p ↦ let t : total ≡ 0 = cc (p, e) in absurd (omega (arith, ltb→lt 0 total p, t))
  | inr p ↦ cc (p, e)
]

module _ {S : Type 0} (k : Socket S) (laws : SocketLaws k) where
  -- What a transfer from the socket leaves.
  pub record Received (m : Pooled) (s : S) (r : Option ℕ × (Pooled × S)) : Type 0 where
    pub buf : IsBuf r.1.0
    pub kept : contents r.1.0 ++ laws.incoming r.1.1 ≡ contents m ++ laws.incoming s

  pub buf_read_sock-Received :
      (f : ℕ) (m : Pooled) (s : S) (total : ℕ)
      → IsBuf m
      → length (laws.incoming s) < f
      → Returns (buf_read_sock k f m s total) (λ r. Received m s r)
  unfolding buf_read_sock
  buf_read_sock-Received zero m s total h fuel = absurd (omega arith)
  buf_read_sock-Received (suc f) m s total h fuel =
      let w = get_wblk-Wblk m h in
      let b : Blk = w.blk in
      let room : ℕ = b.size - b.widx in
      elim (Option-cases (k.sys_read s room).0) [
        | inl e ↦ (
          (sock_result total none, ((get_wblk m).1, (k.sys_read s room).1)),
          rw (w.found, e, buf_read_sock) refl,
          record {
            buf = w.buf;
            kept =
                ap (λ c. c ++ laws.incoming (k.sys_read s room).1) w.same
                ∙ ap (λ i. contents m ++ i) (sym (laws.read_none s room e));
          },
        )
        | inr ([], e) ↦ (
          (sock_result total (some 0), ((get_wblk m).1, (k.sys_read s room).1)),
          rw (w.found, e, buf_read_sock) refl,
          record {
            buf = w.buf;
            kept =
                ap (λ c. c ++ laws.incoming (k.sys_read s room).1) w.same
                ∙ ap (λ i. contents m ++ i) (sym (laws.read_some s room [] e).1);
          },
        )
        | inr (c ∷ cs, e) ↦
            let (fits, gave) = laws.read_some s room (c ∷ cs) e in
            let (m', put, (buf, more)) =
              put_bytes-IsBuf (get_wblk m).1 b (c ∷ cs) w.buf w.last fits in
            let s' : S = (k.sys_read s room).1 in
            let (r, eq, q) =
              buf_read_sock-Received f m' s' (total + length (c ∷ cs)) buf
                (omega (arith, ap length gave, length-append (c ∷ cs) (laws.incoming s'))) in
            (
              r,
              rw (w.found, e, put, buf_read_sock) eq,
              record {
                buf = q.buf;
                kept =
                    q.kept
                    ∙ ap (λ x. x ++ laws.incoming s') (more ∙ ap (λ x. x ++ c ∷ cs) w.same)
                    ∙ append_assoc (contents m) (c ∷ cs) (laws.incoming s')
                    ∙ ap (λ i. contents m ++ i) (sym gave);
              },
            )
      ]

  -- What a transfer to the socket leaves.
  pub record Sent (m : Pooled) (s : S) (r : Option ℕ × (Pooled × S)) : Type 0 where
    pub buf : IsBuf r.1.0
    pub kept : laws.outgoing r.1.1 ++ contents r.1.0 ≡ laws.outgoing s ++ contents m
    pub drained : TakesSome k → r.0 ≡ some 0 → contents r.1.0 ≡ []

  pub buf_write_sock-Sent :
      (f : ℕ) (m : Pooled) (s : S) (total : ℕ) (ret : Option ℕ)
      → IsBuf m
      → length (contents m) < f
      → Returns (buf_write_sock k f m s total ret) (λ r. Sent m s r)
  unfolding buf_write_sock
  buf_write_sock-Sent zero m s total ret h fuel = absurd (omega arith)
  buf_write_sock-Sent (suc f) m s total ret h fuel =
      let g = get_rblk-Rblk m h in
      let m1 : Pooled = (get_rblk m).1 in
      elim g.found [
        | inl (is, nothing) ↦ (
          (sock_result total ret, (m1, s)),
          rw (is, buf_write_sock) refl,
          record {
            buf = g.buf;
            kept = ap (λ c. laws.outgoing s ++ c) g.same;
            drained = λ t z. nothing;
          },
        )
        | inr (b, bs, is, first, some_left) ↦
            let l : ℕ = b.widx - b.ridx in
            let t : Taken m1 b l = skip_bytes-Taken m1 b bs l g.buf first (omega arith) in
            let bytes : List ℕ = take l (contents m1) in
            let avail : ltb 0 (b.widx - b.ridx) ≡ true =
              lt→ltb 0 (b.widx - b.ridx) (omega (arith, some_left)) in
            let got : copy_from b.head b.ridx (b.widx - b.ridx) ≡ ok bytes = t.bytes in
            let s' : S = (k.sys_write s bytes).1 in
            elim (Option-cases (k.sys_write s bytes).0) [
              | inl e ↦ (
                (sock_result total none, (m1, s')),
                rw (is, avail, got, e, buf_write_sock) refl,
                record {
                  buf = g.buf;
                  kept =
                      ap (λ o. o ++ contents m1) (laws.write_none s bytes e)
                      ∙ ap (λ c. laws.outgoing s ++ c) g.same;
                  drained = λ t z. absurd (cc (not_zero total none z));
                },
              )
              | inr (n, e) ↦
                  let (fits, took) = laws.write_some s bytes n e in
                  let within : n ≤ b.widx - b.ridx =
                    omega (arith, fits, length-take l (contents m1)) in
                  let u : Taken m1 b n = skip_bytes-Taken m1 b bs n g.buf first within in
                  let same : take n bytes ≡ take n (contents m1) =
                    take-take n (b.widx - b.ridx) (contents m1) within in
                  let kept : laws.outgoing s' ++ drop n (contents m1)
                      ≡ laws.outgoing s ++ contents m =
                    ap (λ o. o ++ drop n (contents m1)) (took ∙ ap (λ x. laws.outgoing s ++ x) same)
                    ∙ append_assoc (laws.outgoing s) (take n (contents m1)) (drop n (contents m1))
                    ∙ ap (λ x. laws.outgoing s ++ x) (take-append-drop n (contents m1) ∙ g.same) in
                  elim (Bool-cases (ltb 0 n)) [
                    | inl c ↦
                        let (r, eq, q) =
                          buf_write_sock-Sent f (skip_bytes m1 b n) s' (total + n) (some n) u.buf (
                            omega (
                              arith,
                              ap length u.left,
                              length-drop n (contents m1),
                              u.enough,
                              ap length g.same,
                              ltb→lt 0 n c,
                            )) in
                        (
                          r,
                          rw (is, avail, got, e, c, buf_write_sock) eq,
                          record {
                            buf = q.buf;
                            kept = q.kept ∙ ap (λ x. laws.outgoing s' ++ x) u.left ∙ kept;
                            drained = q.drained;
                          },
                        )
                    | inr c ↦ (
                      (sock_result total (some n), (m1, s')),
                      rw (is, avail, got, e, c, buf_write_sock) refl,
                      record {
                        buf = g.buf;
                        kept =
                            (let zero_n : 0 ≡ n = ground (arith, c) in
                              ap (λ j. laws.outgoing s' ++ drop j (contents m1)) zero_n ∙ kept);
                        drained = λ tk z. absurd (
                            tk s bytes
                              (omega (arith, length-take l (contents m1), t.enough, some_left))
                              (let zero_n : n ≡ 0 = ground (arith, c) in
                                e ∙ ap (λ j. some j) zero_n));
                      },
                    )
                  ]
            ]
      ]

-- Two sockets, one to read from and one to write to, and a well-formed buffer. Where the bytes that
-- the first peer sends are fewer than `f`, and with those in the buffer fewer than `g`, the two
-- transfers end; and then what was written, what is in the buffer and what is still to be read make
-- up, in this order, what they made up before: no byte is lost, doubled or moved before another.
pub buf_read_sock-buf_write_sock :
    {S T : Type 0} (src : Socket S) (dst : Socket T) (ins : SocketLaws src) (outs : SocketLaws dst)
    (m : Pooled) (s : S) (t : T) (f g : ℕ)
    → IsBuf m
    → length (ins.incoming s) < f
    → length (contents m) + length (ins.incoming s) < g
    → Returns (buf_read_sock src f m s 0) (λ r.
      Returns (buf_write_sock dst g r.1.0 t 0 (some 0)) (λ q.
        IsBuf q.1.0
        × (outs.outgoing q.1.1 ++ (contents q.1.0 ++ ins.incoming r.1.1)
            ≡ outs.outgoing t ++ (contents m ++ ins.incoming s))))
buf_read_sock-buf_write_sock src dst ins outs m s t f g h more less =
    let (r, read, p) = buf_read_sock-Received src ins f m s 0 h more in
    let kept = length-append (contents r.1.0) (ins.incoming r.1.1) in
    let kept' = length-append (contents m) (ins.incoming s) in
    let (q, written, w) =
      buf_write_sock-Sent dst outs g r.1.0 t 0 (some 0) p.buf
        (omega (arith, kept, kept', ap length p.kept, less)) in
    let i : List ℕ = ins.incoming r.1.1 in
    (
      r,
      read,
      (
        q,
        written,
        (
          w.buf,
          sym (append_assoc (outs.outgoing q.1.1) (contents q.1.0) i)
              ∙ ap (λ x. x ++ i) w.kept
              ∙ append_assoc (outs.outgoing t) (contents r.1.0) i
              ∙ ap (λ x. outs.outgoing t ++ x) p.kept,
        ),
      ),
    )
