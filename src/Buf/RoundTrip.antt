-- ===== src/Buf/RoundTrip.antt =====
-- A write and a read of a buffer of src/core/atm_buf.c, one after the other.
use atm_cache.Base.{
  ◌<◌, ◌^◌, ℕ, ◌+◌, ◌≤◌, ◌≡◌, ap, sym, ◌∙◌, List, [], ◌++◌, arith, length, length-append, take,
  drop, ◌>>=◌, Returns,
}
use atm_cache.Arr.Memory.{append_nil}
use atm_cache.Str.Cat.{take-front, drop-front}
use atm_cache.Buf.{Pooled, buf_write, buf_read}
use atm_cache.Buf.Valid.{contents, IsBuf}
use atm_cache.Buf.Write.{buf_write-Wrote}
use atm_cache.Buf.Read.{buf_read-Read}

pub take-all : (xs : List ℕ) → take (length xs) xs ≡ xs
take-all xs = ap (λ l. take (length xs) l) (sym (append_nil xs)) ∙ take-front xs []

pub drop-all : (xs : List ℕ) (n : ℕ) → n ≡ length xs → drop n xs ≡ []
drop-all xs n e =
    let k : n ≡ length xs + 0 = omega (arith, e) in
    ap (λ j. drop j xs) k
    ∙ ap (λ l. drop (length xs + 0) l) (sym (append_nil xs))
    ∙ drop-front xs [] 0

-- Bytes that are written to a well-formed buffer are read back in order after the bytes that were
-- there before, whatever blocks they go through, when there is room for all of them at `dest`
-- and they are fewer than 2 ^ 31 in all: the
-- read counts them all, leaves the memory past them as it is, and empties the buffer.
pub buf_write-buf_read :
    (m : Pooled) (src dest : List ℕ)
    → IsBuf m
    → length (contents m) + length src ≤ length dest
    → length (contents m) + length src < 2 ^ 31
    → Returns
        (buf_write m src (length src) >>= λ w. buf_read w.1 dest (length (contents m) + length src))
        (λ r.
          (r.0 ≡ length (contents m) + length src)
          × (r.1.0 ≡ contents m ++ src ++ drop (length (contents m) + length src) dest)
          × (contents r.1.1 ≡ [])
          × IsBuf r.1.1)
buf_write-buf_read m src dest h room small =
    let (w, wrote, p) = buf_write-Wrote m src (length src) h (omega arith) (omega (arith, small)) in
    let n : ℕ = length (contents m) + length src in
    let (r, read, q) = buf_read-Read w.1 dest n p.buf room small in
    let now : contents w.1 ≡ contents m ++ src =
      p.more ∙ ap (λ l. contents m ++ l) (take-all src) in
    let size : n ≡ length (contents w.1) =
      omega (arith, length-append (contents m) src, ap length now) in
    let all : take n (contents w.1) ≡ contents m ++ src =
      ap (λ k. take k (contents w.1)) size ∙ take-all (contents w.1) ∙ now in
    let count : r.0 ≡ n = omega (arith, q.count, ap length all, length-append (contents m) src) in
    let len : length (contents m ++ src) ≡ n = length-append (contents m) src in
    (
      r,
      ap (λ x. x >>= λ w. buf_read w.1 dest n) wrote ∙ read,
      (
        count,
        q.memory
            ∙ ap (λ l. l ++ drop (length l) dest) all
            ∙ ap (λ k. contents m ++ src ++ drop k dest) len,
        q.left ∙ drop-all (contents w.1) n size,
        q.buf,
      ),
    )
