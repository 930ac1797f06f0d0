-- ===== src/Tests/BufLaws.antt =====
-- The theorems on the buffer at inputs that meet their hypotheses, and a run, with blocks of two bytes.
use atm_cache.Base.{
  inc32, ℕ, ◌+◌, ◌≡◌, refl, sym, ap, ◌∙◌, Option, some, List, [], ◌∷◌, ◌++◌, arith, length,
  length-take, take, drop, take-append-drop, replicate, Run, ok, ◌>>=◌, Returns,
}
use atm_cache.Str.Bytes.{copy_to}
use atm_cache.Blk.{Blk, blk_new, pool_fetch, blk_free, pool_release, blk_reset}
use atm_cache.Buf.{
  Pooled, copy_length, buf_new, buf_write, buf_read, write_loop, read_loop, get_rblk, get_wblk,
  readable, needs_blk, put_bytes, skip_bytes, set_first, set_last, last_of, copy_from, buf_free,
}
use atm_cache.Buf.Valid.{contents, bytes_of, IsBlk, IsBuf}
use atm_cache.Buf.Read.{Read, buf_read-Read}
use atm_cache.Buf.RoundTrip.{buf_write-buf_read}
use atm_cache.Buf.Line.{is_newline, read_line, build_line, scan_blks, scan_blk, scan_byte}
use atm_cache.Buf.Lines.{from_end}
use atm_cache.Buf.NextLine.{IsNext, read_line-IsNext}
use atm_cache.Buf.Sock.{Socket, SocketLaws, buf_read_sock, buf_write_sock}
use atm_cache.Buf.Relay.{buf_read_sock-buf_write_sock}

program : Unit {0}
unfolding blk_new pool_fetch blk_free pool_release blk_reset buf_new buf_write buf_read write_loop
    read_loop get_rblk get_wblk readable needs_blk put_bytes skip_bytes set_first set_last last_of
    copy_from copy_length copy_to is_newline read_line build_line scan_blks scan_blk scan_byte
    buf_free
program = tt

abbrev clean : Blk
clean = record { size = 2; head = 0 ∷ 0 ∷ []; ridx = 0; widx = 0 }

clean-IsBlk : IsBlk clean
clean-IsBlk = record {
  room = refl;
  some_room = omega arith;
  order = omega arith;
  bound = omega arith;
}

-- Nothing is written yet, and the pool has three blocks.
abbrev empty : Pooled
empty = record { pool = some (clean ∷ clean ∷ clean ∷ []); buf = record { aval = 0; blks = [] } }

empty-IsBuf : IsBuf empty
unfolding bytes_of
empty-IsBuf = record {
  blks = tt;
  pool = ((clean-IsBlk, refl, refl), ((clean-IsBlk, refl, refl), ((clean-IsBlk, refl, refl), tt)));
  counted = refl;
}

-- The bytes of `a`, a carriage return, a newline and `b`, in two blocks.
abbrev two_lines : Pooled
two_lines = record {
  pool = some [];
  buf = record {
    aval = 4;
    blks =
        record { size = 2; head = 97 ∷ 13 ∷ []; ridx = 0; widx = 2 }
        ∷ record { size = 2; head = 10 ∷ 98 ∷ []; ridx = 0; widx = 2 }
        ∷ [];
  };
}

two_lines-IsBuf : IsBuf two_lines
unfolding bytes_of
two_lines-IsBuf = record {
  blks = (
    record { room = refl; some_room = omega arith; order = omega arith; bound = omega arith },
    refl,
    (
      record { room = refl; some_room = omega arith; order = omega arith; bound = omega arith },
      refl,
      tt,
      tt,
    ),
  );
  pool = tt;
  counted = refl;
}

abbrev written : List ℕ
written = 1 ∷ 2 ∷ 3 ∷ []

buf_write-buf_read_example :
    Returns
      (buf_write empty written 3 >>= λ w.
        buf_read w.1 (replicate 4 0) (length (contents empty) + 3))
      (λ r.
        (r.0 ≡ length (contents empty) + 3)
        × (r.1.0 ≡ contents empty ++ written ++ drop (length (contents empty) + 3) (replicate 4 0))
        × (contents r.1.1 ≡ [])
        × IsBuf r.1.1)
unfolding bytes_of
buf_write-buf_read_example =
    buf_write-buf_read empty written (replicate 4 0) empty-IsBuf (omega arith) (omega arith)

buf_read-Read_example :
    Returns (buf_read two_lines (0 ∷ 0 ∷ 0 ∷ []) 3) (λ r. Read two_lines [] (0 ∷ 0 ∷ 0 ∷ []) 3 r)
buf_read-Read_example =
    buf_read-Read two_lines (0 ∷ 0 ∷ 0 ∷ []) 3 two_lines-IsBuf (omega arith) (omega arith)

read_line-IsNext_example :
    Returns (read_line two_lines) (λ r. IsNext two_lines r (from_end (contents two_lines)))
unfolding bytes_of
read_line-IsNext_example = read_line-IsNext two_lines two_lines-IsBuf (omega arith)

-- The first byte of the second line stays.
line_and_left : Option (List ℕ) × Pooled → Run (Option (List ℕ) × List ℕ)
line_and_left r = ok (r.0, contents r.1)

line_read : (read_line two_lines >>= line_and_left) ≡ ok (some (97 ∷ 0 ∷ 0 ∷ 0 ∷ []), 98 ∷ [])
unfolding program line_and_left bytes_of inc32
line_read = refl

-- A socket as the bytes on their way: a `read` gives what there is, a `write` takes one byte.
abbrev pipe : Socket (List ℕ)
pipe = record {
  sys_read = λ s n. (some (take n s), drop n s);
  sys_write = λ s bytes. (some (length (take 1 bytes)), s ++ take 1 bytes);
}

some_is : {A : Type 0} {x y : A} → some x ≡ some y → x ≡ y
some_is e = cc e

one_taken : (bytes : List ℕ) → take 1 bytes ≡ take (length (take 1 bytes)) bytes
one_taken [] = refl
one_taken (b ∷ bs) = refl

pipe_laws : SocketLaws pipe
pipe_laws = record {
  incoming = λ s. s;
  outgoing = λ s. s;
  read_some = λ s n bytes e. (
    omega (arith, ap length (some_is e), length-take n s),
    sym (take-append-drop n s) ∙ ap (λ t. t ++ drop n s) (some_is e),
  );
  read_none = λ s n e. absurd (cc e);
  write_some = λ s bytes n e. (
    omega (arith, some_is e, length-take 1 bytes),
    ap (λ t. s ++ t) (one_taken bytes ∙ ap (λ k. take k bytes) (some_is e)),
  );
  write_none = λ s bytes e. absurd (cc e);
}

buf_read_sock-buf_write_sock_example :
    Returns (buf_read_sock pipe 6 two_lines (5 ∷ 6 ∷ 7 ∷ []) 0) (λ r.
      Returns (buf_write_sock pipe 8 r.1.0 [] 0 (some 0)) (λ q.
        IsBuf q.1.0
        × (pipe_laws.outgoing q.1.1 ++ (contents q.1.0 ++ pipe_laws.incoming r.1.1)
            ≡ pipe_laws.outgoing []
              ++ (contents two_lines ++ pipe_laws.incoming (5 ∷ 6 ∷ 7 ∷ [])))))
unfolding pipe_laws bytes_of
buf_read_sock-buf_write_sock_example =
    buf_read_sock-buf_write_sock pipe pipe pipe_laws pipe_laws two_lines (5 ∷ 6 ∷ 7 ∷ []) [] 6 8
      two_lines-IsBuf (omega arith) (omega arith)
