-- ===== src/Buf/Line.antt =====
-- `atm_buf_read_line` of src/core/atm_buf.c against the lines of the bytes in the buffer.
use atm_cache.Base.{
  inc32, ℕ, zero, suc, ◌-◌, Bool, true, false, ◌&&◌, ◌||◌, Option, none, some, List, [], ◌∷◌,
  get_elem?, replicate, ltb, ◌==◌, ok, stop, out_of_bounds, Run, ◌>>=◌, if◌then◌else◌,
}
use atm_cache.Str.Bytes.{copy_to}
use atm_cache.Blk.{Blk}
use atm_cache.Buf.{Pooled, buf_read}

-- `strchr("\r\n", c)`: the standard library's `strchr` finds the terminator too.
unfoldable pub is_newline : ℕ → Bool
is_newline c = (c == 13) || (c == 10) || (c == 0)

-- `len` and `strlen` are 32-bit words.
pub record Scan : Type 0 where
  pub len : ℕ
  pub strlen : ℕ
  pub find_end : Bool

-- The body of the two loops on a byte; `none` is the jump to `start_build`.
unfoldable pub scan_byte : Scan → ℕ → Option Scan
scan_byte s c = elim s.find_end [
  | false ↦
      if is_newline c
      then some (record s { find_end = true; len = inc32 s.len })
      else some (record s { strlen = inc32 s.strlen; len = inc32 s.len })
  | true ↦ if is_newline c then some (record s { len = inc32 s.len }) else none
]

-- The inner loop over the `k` bytes of a block from an index, and whether it jumped.
unfoldable pub scan_blk : ℕ → Blk → ℕ → Scan → Run (Bool × Scan)
scan_blk zero b i s = ok (false, s)
scan_blk (suc k) b i s = elim (get_elem? b.head i) [
  | none ↦ stop out_of_bounds
  | some c ↦ elim (scan_byte s c) [ none ↦ ok (true, s) | some s' ↦ scan_blk k b (suc i) s' ]
]

unfoldable pub scan_blks : List Blk → Scan → Run Scan
scan_blks [] s = ok s
scan_blks (b ∷ bs) s = do
  r ← scan_blk (b.widx - b.ridx) b b.ridx s
  elim (r.0) [ true ↦ ok (r.1) | false ↦ scan_blks bs (r.1) ]

abbrev pub scan_start : Scan
scan_start = record { len = 0; strlen = 0; find_end = false }

-- The code at `start_build`: the line with its newline characters overwritten by NULs, in a block of
-- its own, or NULL.
unfoldable pub build_line : Pooled → Scan → Run (Option (List ℕ) × Pooled)
build_line m s =
    if ltb 0 s.len && s.find_end
    then (do
      r ← buf_read m (replicate (inc32 s.len) 0) s.len
      line ← copy_to (r.1.0) s.strlen (replicate (s.len - s.strlen) 0)
      ok (some line, r.1.1))
    else ok (none, m)

unfoldable pub read_line : Pooled → Run (Option (List ℕ) × Pooled)
read_line m = do s ← scan_blks m.buf.blks scan_start; build_line m s
