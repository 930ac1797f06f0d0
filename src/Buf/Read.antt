-- ===== src/Buf/Read.antt =====
-- `atm_buf_read` of src/core/atm_buf.c takes bytes from the front of the buffer.
use atm_cache.Base.{
  ◌^◌, ℕ, zero, suc, ◌+◌, ◌-◌, ◌≤◌, ◌<◌, ◌≡◌, refl, ap, sym, ◌∙◌, true, List, [], ◌++◌, arith,
  length, length-append, length-drop, length-take, take, drop, ltb, min, ok, Returns, Bool-cases,
  inl, inr, ltb→lt, lt→ltb,
}
use mathlib.Core.Path.{subst}
use atm_cache.Buf.Wblk.{copy_length-fits}
use atm_cache.Arr.Memory.{copy_to-after, append_nil}
use atm_cache.Arr.Valid.{append_assoc}
use atm_cache.Str.Bytes.{copy_to}
use atm_cache.Buf.{Pooled, get_rblk, skip_bytes, copy_from, read_loop, buf_read}
use atm_cache.Buf.Valid.{contents, IsBuf}
use atm_cache.Buf.Take.{get_rblk-Rblk, skip_bytes-Taken, take-add, drop-drop, take_nil, drop_nil}

-- What a read of at most `n` bytes to the memory `front ++ back`, after `front`, returns and leaves.
pub record Read (m : Pooled) (front back : List ℕ) (n : ℕ) (r : ℕ × (List ℕ × Pooled))
    : Type 0 where
  pub count : r.0 ≡ length front + length (take n (contents m))
  pub memory : r.1.0 ≡ front ++ take n (contents m) ++ drop (length (take n (contents m))) back
  pub buf : IsBuf r.1.1
  pub left : contents r.1.1 ≡ drop n (contents m)

no_bytes-Read :
    (m m' : Pooled) (front back : List ℕ) (n total : ℕ)
    → IsBuf m'
    → contents m' ≡ contents m
    → contents m' ≡ []
    → total ≡ length front
    → Read m front back n (total, (front ++ back, m'))
no_bytes-Read m m' front back n total h same e t =
    let none : contents m ≡ [] = sym same ∙ e in
    record {
      count = rw (none, take_nil n) (omega (arith, t));
      memory = rw (none, take_nil n, append_nil front) refl;
      buf = h;
      left = e ∙ sym (ap (λ c. drop n c) none ∙ drop_nil n);
    }

-- A read after `l` bytes were read.
further :
    (m m' : Pooled) (front back : List ℕ) (l n : ℕ) (r : ℕ × (List ℕ × Pooled))
    → l ≤ n
    → length (take l (contents m)) ≡ l
    → contents m' ≡ drop l (contents m)
    → Read m' (front ++ take l (contents m)) (drop l back) (n - l) r
    → Read m front back n r
further m m' front back l n r h size left q =
    let c = contents m in
    let sum : n ≡ l + (n - l) = omega arith in
    let split : take n c ≡ take l c ++ take (n - l) (contents m') =
      ap (λ k. take k c) sum
      ∙ take-add l (n - l) c
      ∙ ap (λ d. take l c ++ take (n - l) d) (sym left) in
    let both = length-append (take l c) (take (n - l) (contents m')) in
    let k' : ℕ = length (take (n - l) (contents m')) in
    let lens : l + k' ≡ length (take n c) = omega (arith, both, size, ap length split) in
    record {
      count = omega (arith, q.count, length-append front (take l c), ap length split, both);
      memory =
          q.memory
          ∙ ap (λ x. x ++ drop k' (drop l back))
              (append_assoc front (take l c) (take (n - l) (contents m'))
                ∙ ap (λ x. front ++ x) (sym split))
          ∙ ap (λ x. front ++ take n c ++ x)
              (sym (drop-drop l k' back) ∙ ap (λ k. drop k back) lens);
      buf = q.buf;
      left =
          q.left
          ∙ ap (λ d. drop (n - l) d) left
          ∙ sym (drop-drop l (n - l) c)
          ∙ ap (λ k. drop k c) (sym sum);
    }

-- The last round.
finished :
    (m m' : Pooled) (front back : List ℕ) (l n total : ℕ)
    → l ≡ n
    → length (take l (contents m)) ≡ l
    → total ≡ length front
    → contents m' ≡ drop l (contents m)
    → IsBuf m'
    → Read m front back n (total + l, (front ++ take l (contents m) ++ drop l back, m'))
finished m m' front back l n total all size t left h =
    subst (λ k. Read m front back k (total + l, (front ++ take l (contents m) ++ drop l back, m')))
      all (record { count = omega (arith, t, size); memory = rw size refl; buf = h; left = left })

read_loop-Read :
    (f : ℕ) (m : Pooled) (front back : List ℕ) (rmn total : ℕ)
    → IsBuf m
    → rmn < f
    → rmn ≤ length back
    → rmn < 2 ^ 31
    → total ≡ length front
    → Returns (read_loop f m (front ++ back) rmn total) (λ r. Read m front back rmn r)
unfolding read_loop
read_loop-Read zero m front back rmn total h fuel room small t = absurd (omega arith)
read_loop-Read (suc f) m front back rmn total h fuel room small t =
    let g = get_rblk-Rblk m h in
    elim g.found [
      | inl none ↦ (
        (total, (front ++ back, (get_rblk m).1)),
        rw (none.0, read_loop) refl,
        no_bytes-Read m (get_rblk m).1 front back rmn total g.buf g.same none.1 t,
      )
      | inr (b, bs, is, first, some) ↦
          let l : ℕ = min (b.widx - b.ridx) rmn in
          let avail : ltb 0 (b.widx - b.ridx) ≡ true =
            lt→ltb 0 (b.widx - b.ridx) (omega (arith, some)) in
          let length_is = copy_length-fits (b.widx - b.ridx) rmn small in
          let k = skip_bytes-Taken (get_rblk m).1 b bs l g.buf first (omega arith) in
          let got : copy_from b.head b.ridx l ≡ ok (take l (contents m)) =
            k.bytes ∙ ap (λ c. ok (take l c)) g.same in
          let size : length (take l (contents m)) ≡ l =
            omega (arith, length-take l (contents m), k.enough, ap length g.same) in
          let copy : copy_to (front ++ back) total (take l (contents m))
              ≡ ok (front ++ take l (contents m) ++ drop l back) =
            rw t (
              copy_to-after front back (take l (contents m)) (omega (arith, size))
              ∙ ap (λ n. ok (front ++ take l (contents m) ++ drop n back)) size) in
          let left : contents (skip_bytes (get_rblk m).1 b l) ≡ drop l (contents m) =
            k.left ∙ ap (λ c. drop l c) g.same in
          elim (Bool-cases (ltb 0 (rmn - l))) [
            | inl e ↦
                let (r, eq, q) =
                  read_loop-Read f (skip_bytes (get_rblk m).1 b l) (front ++ take l (contents m))
                    (drop l back) (rmn - l) (total + l) k.buf
                    (omega (arith, ltb→lt 0 (rmn - l) e, some)) (omega (arith, length-drop l back))
                    (omega (arith, small))
                    (omega (arith, length-append front (take l (contents m)), size, t)) in
                (
                  r,
                  rw (is, avail, length_is, got, copy, e, read_loop) eq,
                  further m (skip_bytes (get_rblk m).1 b l) front back l rmn r (omega arith) size
                      left q,
                )
            | inr e ↦
                let all : l ≡ rmn = ground arith in
                (
                  (
                    total + l,
                    (front ++ take l (contents m) ++ drop l back, skip_bytes (get_rblk m).1 b l),
                  ),
                  rw (is, avail, length_is, got, copy, e, read_loop) refl,
                  finished m (skip_bytes (get_rblk m).1 b l) front back l rmn total all size t left
                      k.buf,
                )
          ]
    ]

-- On a well-formed buffer a read of at most `n` bytes, fewer than 2 ^ 31, to memory that has room
-- for them, ends normally within the bounds of every block: it counts and copies the first `n` bytes of the buffer,
-- or all of them if there are fewer, takes these from the buffer, and keeps it well formed.
pub buf_read-Read :
    (m : Pooled) (dest : List ℕ) (n : ℕ)
    → IsBuf m
    → n ≤ length dest
    → n < 2 ^ 31
    → Returns (buf_read m dest n) (λ r. Read m [] dest n r)
unfolding buf_read
buf_read-Read m dest n h room small =
    read_loop-Read (suc n) m [] dest n 0 h (omega arith) room small refl
