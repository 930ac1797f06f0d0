-- ===== src/Buf/NextLine.antt =====
-- `atm_buf_read_line` of src/core/atm_buf.c gives the next line of the bytes in the buffer.
use atm_cache.Base.{
  inc32, inc32_small, ◌<◌, ◌^◌, ℕ, suc, ◌+◌, ◌-◌, ◌≡◌, refl, ap, sym, ◌∙◌, true, Option, none, some,
  List, [], ◌∷◌, ◌++◌, arith, length, length-append, length-replicate, take, drop, replicate, ltb,
  ◌>>=◌, ok, Returns, lt→ltb, Bool-cases, inl, inr,
}
use atm_cache.Arr.Memory.{copy_to-after}
use atm_cache.Arr.Valid.{append_assoc}
use atm_cache.Str.Bytes.{copy_to}
use atm_cache.Str.Cat.{take-front, drop-front, drop-replicate}
use atm_cache.Buf.{Pooled, buf_read}
use atm_cache.Buf.Valid.{contents, IsBuf}
use atm_cache.Buf.Read.{buf_read-Read}
use atm_cache.Buf.Line.{is_newline, scan_blks, scan_start, build_line, read_line}
use atm_cache.Buf.Lines.{
  before_end, from_end, ends, after_ends, before_end-from_end, ends-after_ends, from_end-first,
}
use atm_cache.Buf.Scan.{at_end, scan_blks-at_end}

-- What a call returns and leaves, where the bytes from the first newline character on are these.
abbrev pub IsNext : Pooled → Option (List ℕ) × Pooled → List ℕ → Type 0
IsNext m r [] = r ≡ (none, m)
IsNext m r (c ∷ cs) =
    (r.0 ≡ some (before_end (contents m) ++ replicate (length (ends (c ∷ cs))) 0 ++ 0 ∷ []))
    × IsBuf r.1
    × (contents r.1 ≡ after_ends (c ∷ cs))

no_line :
    (m : Pooled) (n : ℕ)
    → scan_blks m.buf.blks scan_start ≡ ok (at_end n n [])
    → read_line m ≡ ok (none, m)
unfolding read_line build_line
no_line m n e =
    ap (λ s. s >>= λ t. build_line m t) e
    ∙ elim (Bool-cases (ltb 0 n)) [ inl t ↦ rw t refl | inr t ↦ rw t refl ]

some_line :
    (m : Pooled) (l n : ℕ) (r : ℕ × (List ℕ × Pooled)) (line : List ℕ)
    → scan_blks m.buf.blks scan_start ≡ ok (record { len = l; strlen = n; find_end = true })
    → ltb 0 l ≡ true
    → inc32 l ≡ l + 1
    → buf_read m (replicate (l + 1) 0) l ≡ ok r
    → copy_to (r.1.0) n (replicate (l - n) 0) ≡ ok line
    → read_line m ≡ ok (some line, r.1.1)
unfolding read_line build_line
some_line m l n r line scan t room read over =
    ap (λ s. s >>= λ t. build_line m t) scan ∙ rw (t, room, read, over) refl

-- The memory of a line of which the newline characters are overwritten.
overwritten :
    (line nl : List ℕ)
    → copy_to (line ++ nl ++ 0 ∷ []) (length line) (replicate (length nl) 0)
      ≡ ok (line ++ replicate (length nl) 0 ++ 0 ∷ [])
overwritten line nl =
    let zeros = length-replicate {A = ℕ} (length nl) 0 in
    let over =
      copy_to-after line (nl ++ 0 ∷ []) (replicate (length nl) 0)
        (omega (arith, zeros, length-append nl (0 ∷ []))) in
    let past : drop (length {A = ℕ} (replicate (length nl) 0)) (nl ++ 0 ∷ []) ≡ 0 ∷ [] =
      let n : length {A = ℕ} (replicate (length nl) 0) ≡ length nl + 0 = omega (arith, zeros) in
      ap (λ k. drop k (nl ++ 0 ∷ [])) n ∙ drop-front nl (0 ∷ []) 0 in
    ap (λ b. copy_to b (length line) (replicate (length nl) 0)) (append_assoc line nl (0 ∷ []))
    ∙ over
    ∙ ap (λ d. ok (line ++ replicate (length nl) 0 ++ d)) past

module _ (m : Pooled) (h : IsBuf m) (line nl rest : List ℕ)
    (split : contents m ≡ line ++ nl ++ rest) where
  taken : take (length line + length nl) (contents m) ≡ line ++ nl
  taken =
      ap (λ c. take (length line + length nl) c) split
      ∙ ap (λ k. take k (line ++ nl ++ rest)) (sym (length-append line nl))
      ∙ take-front (line ++ nl) rest

  dropped : drop (length line + length nl) (contents m) ≡ rest
  dropped =
      let n : length line + length nl ≡ length (line ++ nl) + 0 =
        omega (arith, length-append line nl) in
      ap (λ c. drop (length line + length nl) c) split
      ∙ ap (λ k. drop k (line ++ nl ++ rest)) n
      ∙ drop-front (line ++ nl) rest 0

  -- The line is read to a block of its own.
  one_line :
      (l : ℕ)
      → l ≡ length line + length nl
      → l < 2 ^ 31
      → Returns
          (buf_read m (replicate (l + 1) 0) l)
          (λ r. (r.1.0 ≡ line ++ nl ++ 0 ∷ []) × IsBuf r.1.1 × (contents r.1.1 ≡ rest))
  one_line l e small =
      let (r, eq, q) =
        buf_read-Read m (replicate (l + 1) 0) l h
          (omega (arith, length-replicate {A = ℕ} (l + 1) 0)) small in
      let took : take l (contents m) ≡ line ++ nl = ap (λ k. take k (contents m)) e ∙ taken in
      let (k, d, left) =
        drop-replicate (length (line ++ nl)) (l + 1) (omega (arith, length-append line nl, e)) in
      let last : drop {A = ℕ} (length (line ++ nl)) (replicate (l + 1) 0) ≡ 0 ∷ [] =
        (let none : k ≡ 0 = omega (arith, left, length-append line nl, e) in
          d ∙ ap (λ z. 0 ∷ replicate z 0) none) in
      let memory : r.1.0 ≡ line ++ nl ++ 0 ∷ [] =
        q.memory
        ∙ ap (λ t. t ++ drop {A = ℕ} (length t) (replicate (l + 1) 0)) took
        ∙ ap (λ z. line ++ nl ++ z) last in
      (r, eq, (memory, q.buf, q.left ∙ ap (λ k. drop k (contents m)) e ∙ dropped))

some_ends :
    (c : ℕ) (cs : List ℕ) → is_newline c ≡ true → length (ends (c ∷ cs)) ≡ suc (length (ends cs))
some_ends c cs e = rw e refl

-- For a buffer of fewer than 2 ^ 31 bytes, where a line ends at a newline, a carriage return or a NUL:
-- a call gives the bytes before the first of these, NULs in place of the run of them there, and takes
-- all these from the buffer; where there is none it gives NULL and takes nothing.
pub read_line-IsNext :
    (m : Pooled)
    → IsBuf m
    → length (contents m) < 2 ^ 31
    → Returns (read_line m) (λ r. IsNext m r (from_end (contents m)))
read_line-IsNext m h small = go (from_end (contents m)) refl
  where
    go : (d : List ℕ) → from_end (contents m) ≡ d → Returns (read_line m) (λ r. IsNext m r d)
    go [] e =
        let n : ℕ = length (before_end (contents m)) in
        (
          (none, m),
          no_line m n (
              scan_blks-at_end m.buf.blks h.blks (omega (arith, small))
              ∙ ap (λ d. ok (at_end n n d)) e),
          refl,
        )
    go (c ∷ cs) e =
        let n : ℕ = length (before_end (contents m)) in
        let l : ℕ = n + suc (length (ends cs)) in
        let nl : List ℕ = ends (c ∷ cs) in
        let all : length nl ≡ suc (length (ends cs)) =
          some_ends c cs (from_end-first (contents m) c cs e) in
        let split : contents m ≡ before_end (contents m) ++ nl ++ after_ends (c ∷ cs) =
          sym (before_end-from_end (contents m))
          ∙ ap (λ d. before_end (contents m) ++ d) (e ∙ sym (ends-after_ends (c ∷ cs)))
          ∙ sym (append_assoc (before_end (contents m)) nl (after_ends (c ∷ cs))) in
        let fits : l < 2 ^ 31 = omega (
          arith,
          small,
          all,
          ap length split,
          length-append (before_end (contents m) ++ nl) (after_ends (c ∷ cs)),
          length-append (before_end (contents m)) nl,
        ) in
        let (r, read, (mem, buf, left)) =
          one_line m h (before_end (contents m)) nl (after_ends (c ∷ cs)) split l
            (omega (arith, all)) fits in
        let gap : l - n ≡ length nl = omega (arith, all) in
        let over : copy_to r.1.0 n (replicate (l - n) 0)
            ≡ ok (before_end (contents m) ++ replicate (length nl) 0 ++ 0 ∷ []) =
          ap (λ k. copy_to r.1.0 n (replicate k 0)) gap
          ∙ ap (λ b. copy_to b n (replicate (length nl) 0)) mem
          ∙ overwritten (before_end (contents m)) nl in
        (
          (some (before_end (contents m) ++ replicate (length nl) 0 ++ 0 ∷ []), r.1.1),
          some_line m l n r (before_end (contents m) ++ replicate (length nl) 0 ++ 0 ∷ [])
              (scan_blks-at_end m.buf.blks h.blks (omega (arith, small))
                ∙ ap (λ d. ok (at_end n n d)) e)
              (lt→ltb 0 l (omega arith)) (omega (arith, inc32_small l (omega (arith, fits)))) read
              over,
          (refl, buf, left),
        )
