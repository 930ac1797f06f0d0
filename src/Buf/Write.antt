-- ===== src/Buf/Write.antt =====
-- `atm_buf_write` of src/core/atm_buf.c puts the bytes at the end of the buffer.
use atm_cache.Base.{
  ◌^◌, ℕ, zero, suc, ◌+◌, ◌-◌, ◌≤◌, ◌<◌, ◌≡◌, refl, ap, sym, ◌∙◌, true, List, ◌++◌, arith, length,
  length-drop, length-take, take, drop, leb, ltb, min, ok, Returns, Bool-cases, inl, inr, ltb→lt,
  lt→ltb,
}
use atm_cache.Arr.Valid.{append_assoc}
use atm_cache.Blk.{Blk}
use atm_cache.Buf.{Pooled, get_wblk, copy_from, write_loop, buf_write}
use atm_cache.Buf.Valid.{contents, IsBuf}
use atm_cache.Buf.Put.{put_bytes-IsBuf}
use atm_cache.Buf.Wblk.{get_wblk-Wblk, copy_length-fits}
use atm_cache.Buf.Take.{take-add}

-- What a write of the first `n` bytes of `src` returns and leaves, after `total` bytes.
pub record Wrote (m : Pooled) (src : List ℕ) (n total : ℕ) (r : ℕ × Pooled) : Type 0 where
  pub count : r.0 ≡ total + n
  pub buf : IsBuf r.1
  pub more : contents r.1 ≡ contents m ++ take n src

copy_from-start : (src : List ℕ) (l : ℕ) → l ≤ length src → copy_from src 0 l ≡ ok (take l src)
unfolding copy_from
copy_from-start src l h = let e : leb (0 + l) (length src) ≡ true = ground arith in rw e refl

write_loop-Wrote :
    (f : ℕ) (m : Pooled) (src : List ℕ) (rmn total : ℕ)
    → IsBuf m
    → rmn < f
    → rmn ≤ length src
    → rmn < 2 ^ 31
    → Returns (write_loop f m src rmn total) (λ r. Wrote m src rmn total r)
unfolding write_loop
write_loop-Wrote zero m src rmn total h fuel enough small = absurd (omega arith)
write_loop-Wrote (suc f) m src rmn total h fuel enough small =
    let w = get_wblk-Wblk m h in
    let b : Blk = w.blk in
    let l : ℕ = min (b.size - b.widx) rmn in
    let room : ltb 0 (b.size - b.widx) ≡ true =
      lt→ltb 0 (b.size - b.widx) (omega (arith, w.space)) in
    let length_is = copy_length-fits (b.size - b.widx) rmn small in
    let copy = copy_from-start src l (omega arith) in
    let (m', put, (buf, more)) =
      put_bytes-IsBuf (get_wblk m).1 b (take l src) w.buf w.last
        (omega (arith, length-take l src)) in
    elim (Bool-cases (ltb 0 (rmn - l))) [
      | inl e ↦
          let (r, eq, q) =
            write_loop-Wrote f m' (drop l src) (rmn - l) (total + l) buf
              (omega (arith, ltb→lt 0 (rmn - l) e, w.space)) (omega (arith, length-drop l src))
              (omega (arith, small)) in
          let split : take rmn src ≡ take l src ++ take (rmn - l) (drop l src) =
            let n : rmn ≡ l + (rmn - l) = omega arith in
            ap (λ k. take k src) n ∙ take-add l (rmn - l) src in
          (
            r,
            rw (w.found, room, length_is, copy, put, e, write_loop) eq,
            record {
              count = omega (arith, q.count);
              buf = q.buf;
              more =
                  q.more
                  ∙ ap (λ c. c ++ take (rmn - l) (drop l src))
                      (more ∙ ap (λ c. c ++ take l src) w.same)
                  ∙ append_assoc (contents m) (take l src) (take (rmn - l) (drop l src))
                  ∙ ap (λ c. contents m ++ c) (sym split);
            },
          )
      | inr e ↦
          let all : l ≡ rmn = ground arith in
          (
            (total + l, m'),
            rw (w.found, room, length_is, copy, put, e, write_loop) refl,
            record {
              count = omega (arith, all);
              buf = buf;
              more =
                  more ∙ ap (λ c. c ++ take l src) w.same ∙ ap (λ k. contents m ++ take k src) all;
            },
          )
    ]

pub buf_write-Wrote :
    (m : Pooled) (src : List ℕ) (n : ℕ)
    → IsBuf m
    → n ≤ length src
    → n < 2 ^ 31
    → Returns (buf_write m src n) (λ r. Wrote m src n 0 r)
unfolding buf_write
buf_write-Wrote m src n h enough small =
    write_loop-Wrote (suc n) m src n 0 h (omega arith) enough small
