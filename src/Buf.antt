-- ===== src/Buf.antt =====
-- The buffer of src/core/atm_buf.c: a queue of bytes over a list of blocks, read from the first block
-- and written to the last. A pointer to a block of the list is that block, and a write through it
-- changes the block where it stands in the list. A call is made by one thread.
pub mod Valid
pub mod Fill
pub mod Put
pub mod Wblk
pub mod Take
pub mod Write
pub mod Read
pub mod Line
pub mod Lines
pub mod Scan
pub mod NextLine
pub mod RoundTrip
pub mod Sock
pub mod Relay
use atm_cache.Base.{
  ℕ, zero, suc, ◌+◌, ◌-◌, ◌%◌, ◌^◌, min, Bool, true, false, ◌&&◌, Option, none, some, List, [], ◌∷◌,
  ◌++◌, if◌then◌else◌, ltb, leb, ◌==◌, length, take, drop, replicate, Run, ok, stop, ◌>>=◌,
  out_of_bounds, null_dereference, out_of_fuel,
}
use atm_cache.LinkedList.Spec.{push_last, first, others}
use atm_cache.Blk.{Blk, blk_new, blk_free}
use atm_cache.Str.Bytes.{copy_to}

pub record Buf : Type 0 where
  pub aval : ℕ
  pub blks : List Blk

-- A buffer with the pool that its blocks come from and go to.
pub record Pooled : Type 0 where
  pub pool : Option (List Blk)
  pub buf : Buf

abbrev pub u64_mod : ℕ
u64_mod = 2 ^ 64

-- `atm_atomic_fetch_add` of a count, and of `-1 * n`.
abbrev pub add64 : ℕ → ℕ → ℕ
add64 a n = (a + n) % u64_mod

abbrev pub sub64 : ℕ → ℕ → ℕ
sub64 a n = (a + (u64_mod - n % u64_mod)) % u64_mod

-- `memcpy` from a block at an offset.
unfoldable pub copy_from : List ℕ → ℕ → ℕ → Run (List ℕ)
copy_from block off n =
    if leb (off + n) (length block) then ok (take n (drop off block)) else stop out_of_bounds

-- What `atm_list_rpeek` returns.
unfoldable pub last_of : List Blk → Option Blk
last_of [] = none
last_of (b ∷ []) = some b
last_of (b ∷ c ∷ bs) = last_of (c ∷ bs)

-- Writes through the pointers that `atm_list_lpeek` and `atm_list_rpeek` return.
unfoldable pub set_first : List Blk → Blk → List Blk
set_first [] b' = []
set_first (b ∷ bs) b' = b' ∷ bs

unfoldable pub set_last : List Blk → Blk → List Blk
set_last [] b' = []
set_last (b ∷ []) b' = b' ∷ []
set_last (b ∷ c ∷ bs) b' = b ∷ set_last (c ∷ bs) b'

unfoldable pub buf_new : Buf
buf_new = record { aval = 0; blks = [] }

-- `atm_list_free` of a deep list gives each block to `atm_blk_free`.
unfoldable pub buf_free : Option (List Blk) → List Blk → Option (List Blk)
unfolding blk_free
buf_free pool [] = pool
buf_free pool (b ∷ bs) = buf_free (blk_free pool b) bs

unfoldable pub with_blks : Pooled → List Blk → Pooled
with_blks m bs = record m { buf = record (m.buf) { blks = bs } }

-- Whether `atm_buf_get_rblk` returns the block that it looks at.
unfoldable pub readable : Option Blk → Option Blk
readable none = none
readable (some b) = if ltb b.ridx b.widx then some b else none

unfoldable pub get_rblk : Pooled → Option Blk × Pooled
unfolding readable blk_free with_blks
get_rblk m = elim (first m.buf.blks) [
  | none ↦ (none, m)
  | some b ↦
      if (b.ridx == b.widx) && (b.widx == b.size)
      then (
        readable (first (others m.buf.blks)),
        record m { pool = blk_free m.pool b; buf = record (m.buf) { blks = others m.buf.blks } },
      )
      else (readable (some b), m)
]

unfoldable pub needs_blk : Option Blk → Bool
needs_blk none = true
needs_blk (some b) = b.size == b.widx

unfoldable pub get_wblk : Pooled → Option Blk × Pooled
unfolding last_of needs_blk blk_new push_last
get_wblk m =
    let fresh = blk_new m.pool in
    let more = push_last m.buf.blks fresh.0 in
    if needs_blk (last_of m.buf.blks)
    then (last_of more, record { pool = fresh.1; buf = record (m.buf) { blks = more } })
    else (last_of m.buf.blks, m)

-- The bytes go to the last block after what was written there, and are counted.
unfoldable pub put_bytes : Pooled → Blk → List ℕ → Run Pooled
unfolding copy_to set_last
put_bytes m b bytes = do
  h ← copy_to b.head b.widx bytes
  ok (record m {
    buf = record {
      aval = add64 m.buf.aval (length bytes);
      blks = set_last m.buf.blks (record b { head = h; widx = b.widx + length bytes });
    };
  })

-- The next `n` bytes of the first block are taken, and no longer counted.
unfoldable pub skip_bytes : Pooled → Blk → ℕ → Pooled
unfolding set_first
skip_bytes m b n = record m {
  buf = record {
    aval = sub64 m.buf.aval n;
    blks = set_first m.buf.blks (record b { ridx = b.ridx + n });
  };
}

-- How many bytes a round copies. `rmn` is a signed word: from `2 ^ 31` on it is below 0, and then
-- `memcpy` is given a length of about `2 ^ 64`.
unfoldable pub copy_length : ℕ → ℕ → Run ℕ
copy_length avl rmn = if ltb rmn (2 ^ 31) then ok (min avl rmn) else stop out_of_bounds

-- The loop of `atm_buf_write`; `total` is counted up to what is left of `nbyte`.
unfoldable pub write_loop : ℕ → Pooled → List ℕ → ℕ → ℕ → Run (ℕ × Pooled)
write_loop zero m src rmn total = stop out_of_fuel
write_loop (suc f) m src rmn total =
    let found = get_wblk m in
    elim found.0 [
      | none ↦ stop null_dereference
      | some b ↦ elim (ltb 0 (b.size - b.widx)) [
        | false ↦ ok (total, found.1)
        | true ↦ do
          l ← copy_length (b.size - b.widx) rmn
          bytes ← copy_from src 0 l
          m' ← put_bytes found.1 b bytes
          elim (ltb 0 (rmn - l)) [
            | true ↦ write_loop f m' (drop l src) (rmn - l) (total + l)
            | false ↦ ok (total + l, m')
          ]
      ]
    ]

-- A round that goes on has written a byte.
unfoldable pub buf_write : Pooled → List ℕ → ℕ → Run (ℕ × Pooled)
buf_write m src nbyte = write_loop (suc nbyte) m src nbyte 0

-- The loop of `atm_buf_read`, with the memory at `dest` and how far it is filled.
unfoldable pub read_loop : ℕ → Pooled → List ℕ → ℕ → ℕ → Run (ℕ × (List ℕ × Pooled))
read_loop zero m dest rmn total = stop out_of_fuel
read_loop (suc f) m dest rmn total =
    let found = get_rblk m in
    elim found.0 [
      | none ↦ ok (total, (dest, found.1))
      | some b ↦ elim (ltb 0 (b.widx - b.ridx)) [
        | false ↦ ok (total, (dest, found.1))
        | true ↦ do
          l ← copy_length (b.widx - b.ridx) rmn
          bytes ← copy_from b.head b.ridx l
          dest' ← copy_to dest total bytes
          elim (ltb 0 (rmn - l)) [
            | true ↦ read_loop f (skip_bytes found.1 b l) dest' (rmn - l) (total + l)
            | false ↦ ok (total + l, (dest', skip_bytes found.1 b l))
          ]
      ]
    ]

unfoldable pub buf_read : Pooled → List ℕ → ℕ → Run (ℕ × (List ℕ × Pooled))
buf_read m dest nbyte = read_loop (suc nbyte) m dest nbyte 0
