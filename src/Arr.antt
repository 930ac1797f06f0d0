-- ===== src/Arr.antt =====
-- The growable array of src/core/atm_arr.c: `length` elements of `tsize` bytes in a block with room
-- for `capacity` of them. A pointer to an element is the offset in the block. `atm_realloc` takes the
-- new block while the old one is still there, so the test that it is another one never fails.
pub mod Memory
pub mod Valid
pub mod Add
pub mod Delete
use atm_cache.Base.{
  ℕ, zero, suc, ◌+◌, ◌-◌, ◌*◌, ◌/◌, Bool, true, false, ◌&&◌, Option, none, some, List, [], ◌∷◌,
  ◌++◌, if◌then◌else◌, ltb, leb, ◌==◌, length, take, drop, replicate, min, inc32, mul32, Run, ok,
  stop, ◌>>=◌,
}
use atm_cache.Str.Bytes.{add32, sub32, copy_to}

-- `vals` is the block `_vals`, and `len` the field `length`.
pub record Arr : Type 0 where
  pub vals : List ℕ
  pub capacity : ℕ
  pub len : ℕ
  pub tsize : ℕ

abbrev pub arr_initial_len : ℕ
arr_initial_len = 32

unfoldable pub arr_new : ℕ → Option Arr
arr_new tsize =
    if tsize == 0
    then none
    else some (record {
      vals = replicate (arr_initial_len * tsize) 0;
      capacity = arr_initial_len;
      len = 0;
      tsize = tsize;
    })

-- `atm_realloc` of `block` from `osz` to `nsz` bytes.
unfoldable pub realloc : List ℕ → ℕ → ℕ → Run (List ℕ)
realloc block osz nsz = copy_to (replicate nsz 0) 0 (take (min osz nsz) block)

-- The first part of `atm_arr_add`: the block is made twice as large when it is two thirds full.
unfoldable pub arr_reserve : Arr → Run Arr
arr_reserve a =
    if ltb a.capacity (add32 (mul32 a.len 3 / 2) 1)
    then (do
      v ← realloc a.vals (mul32 a.capacity a.tsize) (mul32 (mul32 a.capacity a.tsize) 2)
      ok (record a { vals = v; capacity = mul32 a.capacity 2 }))
    else ok a

-- `atm_arr_add`, with the `tsize` bytes that the pointer leads to; the pointer NULL adds nothing.
unfoldable pub arr_add : Arr → Option (List ℕ) → Run (ℕ × Arr)
arr_add a none = ok (0, a)
arr_add a (some v) = do
  b ← arr_reserve a
  w ← copy_to b.vals (mul32 b.tsize b.len) v
  ok (sub32 (inc32 b.len) 1, record b { vals = w; len = inc32 b.len })

unfoldable pub arr_get : Arr → ℕ → Option ℕ
arr_get a i = if ltb i a.len then some (mul32 a.tsize i) else none

-- `atm_arr_set`, and whether it returned `ATM_OK`.
unfoldable pub arr_set : Arr → ℕ → List ℕ → Run (Bool × Arr)
arr_set a i v =
    if ltb i a.len
    then (do w ← copy_to a.vals (mul32 i a.tsize) v; ok (true, record a { vals = w }))
    else ok (false, a)

-- `if (l > 0) memcpy(d, s, l)`.
unfoldable pub copy_some : ℕ → List ℕ → ℕ → List ℕ → Run (List ℕ)
copy_some l block off src = if l == 0 then ok block else copy_to block off (take l src)

abbrev pub new_capacity : Arr → ℕ
new_capacity a =
    if ltb (mul32 a.len 4) a.capacity && leb (mul32 arr_initial_len 2) a.capacity
    then a.capacity / 2
    else a.capacity

-- `atm_arr_del`, and whether it returned `ATM_OK`.
unfoldable pub arr_del : Arr → ℕ → Run (Bool × Arr)
arr_del a i =
    if ltb i a.len
    then (do
      v ← copy_some (mul32 i a.tsize) (replicate (new_capacity a * a.tsize) 0) 0 a.vals
      w ←
          copy_some (mul32 (sub32 (sub32 a.len 1) i) a.tsize) v (mul32 i a.tsize)
            (drop (mul32 (inc32 i) a.tsize) a.vals)
      ok (true, record a { vals = w; len = sub32 a.len 1; capacity = new_capacity a }))
    else ok (false, a)
