-- ===== src/Blk.antt =====
-- The blocks of src/core/atm_blk.c and their pool. A block is given with its memory, which has one
-- owner at a time: the pool or the list of a buffer. The pool is `none` where the pointer to its list
-- is NULL, before `atm_blk_init`. Its lock is held over each call.
use atm_cache.Base.{
  ℕ, Bool, true, false, Option, none, some, List, [], ◌∷◌, if◌then◌else◌, ltb, length, replicate,
}
use atm_cache.LinkedList.Spec.{push_last}

pub record Blk : Type 0 where
  pub size : ℕ
  pub head : List ℕ
  pub ridx : ℕ
  pub widx : ℕ

abbrev pub blk_dft_len : ℕ
blk_dft_len = 65536

abbrev pub blk_pool_threshold : ℕ
blk_pool_threshold = 64

unfoldable pub blk_reset : Blk → Blk
blk_reset b = record b { ridx = 0; widx = 0 }

-- Whether the pool took the block, and the pool after.
unfoldable pub pool_release : Option (List Blk) → Blk → Bool × Option (List Blk)
unfolding blk_reset push_last
pool_release none b = (false, none)
pool_release (some pool) b =
    if ltb (length pool) blk_pool_threshold
    then (true, some (push_last pool (blk_reset b)))
    else (false, some pool)

unfoldable pub pool_fetch : Option (List Blk) → Option Blk × Option (List Blk)
pool_fetch none = (none, none)
pool_fetch (some []) = (none, some [])
pool_fetch (some (b ∷ pool)) = (some b, some pool)

-- `atm_alloc` fills what it returns with zeros.
unfoldable pub blk_new_raw : Blk
blk_new_raw = record { size = blk_dft_len; head = replicate blk_dft_len 0; ridx = 0; widx = 0 }

unfoldable pub blk_init : Option (List Blk)
blk_init = some []

unfoldable pub blk_new : Option (List Blk) → Blk × Option (List Blk)
unfolding pool_fetch
blk_new pool =
    let (o, after) = pool_fetch pool in elim o [ some b ↦ (b, after) | none ↦ (blk_new_raw, after) ]

-- A block that the pool does not take goes back to the allocator.
unfoldable pub blk_free : Option (List Blk) → Blk → Option (List Blk)
unfolding pool_release
blk_free pool b = (pool_release pool b).1
