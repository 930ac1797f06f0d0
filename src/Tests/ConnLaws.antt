-- ===== src/Tests/ConnLaws.antt =====
-- The theorems on connections at inputs that meet their hypotheses, and a run, with blocks of two bytes.
use atm_cache.Base.{
  ℕ, zero, suc, ◌-◌, ◌≤◌, ◌≡◌, refl, ap, ◌∙◌, Bool, true, false, Option, none, some, List, [], ◌∷◌,
  ◌++◌, arith, length, length-take, take, Run, ok, ◌>>=◌, Returns,
}
use atm_cache.Blk.{blk_free, pool_release, blk_reset}
use atm_cache.Buf.{get_rblk, readable, skip_bytes, set_first, copy_from}
use atm_cache.Buf.Valid.{contents, bytes_of, IsBuf}
use atm_cache.Buf.Sock.{Socket, SocketLaws, sock_result, buf_write_sock}
use atm_cache.Buf.Relay.{TakesSome}
use atm_cache.Conn.{Conn, inter_write, yield_write, free_check, yielded, round_end, task_write}
use atm_cache.Conn.Write.{task_write-rests}
use atm_cache.Conn.Free.{ConnRef, free_func, free_func-used}

-- How many bytes the socket still takes, and the bytes it took. Nothing is to be read.
room_write : ℕ × List ℕ → List ℕ → Option ℕ × (ℕ × List ℕ)
room_write (zero, out) bytes = (none, (zero, out))
room_write (suc n, out) bytes = (
  some (length (take (suc n) bytes)),
  (suc n - length (take (suc n) bytes), out ++ take (suc n) bytes),
)

abbrev narrow : Socket (ℕ × List ℕ)
narrow = record { sys_read = λ s n. (none, s); sys_write = room_write }

taken : (n : ℕ) (bytes : List ℕ) → take n bytes ≡ take (length (take n bytes)) bytes
taken zero bytes = refl
taken (suc n) [] = refl
taken (suc n) (b ∷ bs) = ap (λ t. b ∷ t) (taken n bs)

some_is : {A : Type 0} {x y : A} → some x ≡ some y → x ≡ y
some_is e = cc e

room_write-some :
    (s : ℕ × List ℕ) (bytes : List ℕ) (n : ℕ)
    → (room_write s bytes).0 ≡ some n
    → (n ≤ length bytes) × ((room_write s bytes).1.1 ≡ s.1 ++ take n bytes)
unfolding room_write
room_write-some (zero, out) bytes n e = absurd (cc e)
room_write-some (suc m, out) bytes n e = (
  omega (arith, some_is e, length-take (suc m) bytes),
  ap (λ t. out ++ t) (taken (suc m) bytes ∙ ap (λ k. take k bytes) (some_is e)),
)

room_write-none :
    (s : ℕ × List ℕ) (bytes : List ℕ)
    → (room_write s bytes).0 ≡ none
    → (room_write s bytes).1.1 ≡ s.1
unfolding room_write
room_write-none (zero, out) bytes e = refl
room_write-none (suc m, out) bytes e = absurd (cc e)

narrow_laws : SocketLaws narrow
narrow_laws = record {
  incoming = λ s. [];
  outgoing = λ s. s.1;
  read_some = λ s n bytes e. absurd (cc e);
  read_none = λ s n e. refl;
  write_some = room_write-some;
  write_none = room_write-none;
}

narrow-TakesSome : TakesSome narrow
unfolding room_write
narrow-TakesSome (zero, out) bytes h e = absurd (cc e)
narrow-TakesSome (suc m, out) [] h e = absurd (omega arith)
narrow-TakesSome (suc m, out) (b ∷ bs) h e = absurd (cc e)

-- A reply of three bytes waits, and the write event has come.
abbrev reply : Conn
reply = record {
  active = true;
  on_write = true;
  write_reqs = 1;
  w_buf = record {
    pool = some [];
    buf = record {
      aval = 3;
      blks =
          record { size = 2; head = 97 ∷ 98 ∷ []; ridx = 0; widx = 2 }
          ∷ record { size = 2; head = 99 ∷ 0 ∷ []; ridx = 0; widx = 1 }
          ∷ [];
    };
  };
  asked = 0;
  queued = 0;
}

reply-IsBuf : IsBuf reply.w_buf
unfolding bytes_of
reply-IsBuf = record {
  blks = (
    record { room = refl; some_room = omega arith; order = omega arith; bound = omega arith },
    refl,
    (
      record { room = refl; some_room = omega arith; order = omega arith; bound = omega arith },
      refl,
      tt,
      tt,
    ),
  );
  pool = tt;
  counted = refl;
}

abbrev full : ℕ × List ℕ → Bool
full s = true

task_write-rests_example : Returns (task_write narrow full 1 4 reply (1, [])) (λ r.
    (r.0 ≡ true)
    × (r.1.0.on_write ≡ false)
    × (r.1.0.asked ≡ 0)
    × IsBuf r.1.0.w_buf
    × (r.1.1.1 ++ contents r.1.0.w_buf ≡ [] ++ contents reply.w_buf))
unfolding narrow_laws bytes_of
task_write-rests_example =
    task_write-rests narrow full narrow_laws narrow-TakesSome (λ s. refl) reply (1, []) 4 refl
      reply-IsBuf (omega arith)

-- What was sent, what is left, and how often a write event was asked for.
sent_left_asked : Bool × (Conn × (ℕ × List ℕ)) → Run (List ℕ × (List ℕ × ℕ))
sent_left_asked r = ok (r.1.1.1, (contents r.1.0.w_buf, r.1.0.asked))

stalled :
    (task_write narrow full 1 4 reply (1, []) >>= sent_left_asked) ≡ ok (97 ∷ [], (98 ∷ 99 ∷ [], 0))
unfolding blk_free pool_release blk_reset get_rblk readable skip_bytes set_first copy_from bytes_of
    sock_result buf_write_sock inter_write yield_write free_check yielded round_end task_write
    room_write sent_left_asked
stalled = refl

-- The first and the last of three connections are in use.
abbrev three : List ConnRef
three =
    record { addr = 1; on_read = true; on_write = false }
    ∷ record { addr = 2; on_read = false; on_write = false }
    ∷ record { addr = 3; on_read = false; on_write = true }
    ∷ []

free_func-used_example :
    free_func three
    ≡ ok (
      record { addr = 1; on_read = true; on_write = false }
          ∷ record { addr = 3; on_read = false; on_write = true }
          ∷ [],
      2 ∷ [],
    )
free_func-used_example =
    free_func-used three ((omega arith, (omega arith, tt)), ((omega arith, tt), (tt, tt)))
