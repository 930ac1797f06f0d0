-- ===== src/Str/Compare.antt =====
-- The comparison and the hash of src/core/atm_str.c on strings in memory: the lengths are those that
-- the headers say, `strcmp` stops at the first NUL, and the hash reads as many bytes as the header says.
use atm_cache.Base.{
  ℕ, Bool, List, if◌then◌else◌, ltb, leb, length, take, Run, ok, stop, ◌>>=◌, out_of_bounds,
}
use atm_cache.Siphash.{siphash}
use atm_cache.Str.{Cmp, cmp_lt, cmp_gt, strcmp, is_eq}
use atm_cache.Str.Bytes.{StrHdr, c_string}

-- `strcmp` of two blocks.
unfoldable pub block_cmp : List ℕ → List ℕ → Run Cmp
unfolding strcmp
block_cmp s t = do a ← c_string s; b ← c_string t; ok (strcmp a b)

-- Two strings at different addresses; the same pointer twice is equal.
unfoldable pub str_cmp : StrHdr → StrHdr → Run Cmp
str_cmp s t =
    let bytes = block_cmp s.val t.val in
    if ltb t.len s.len then ok cmp_gt else if ltb s.len t.len then ok cmp_lt else bytes

unfoldable pub str_eq : StrHdr → StrHdr → Run Bool
str_eq s t = do c ← str_cmp s t; ok (is_eq c)

unfoldable pub str_match : StrHdr → StrHdr → Run Bool
str_match s t = str_eq s t

unfoldable pub str_hash : List ℕ → StrHdr → Run ℕ
str_hash seed s =
    if leb s.len (length s.val) then ok (siphash seed (take s.len s.val)) else stop out_of_bounds
