-- ===== src/Tests/DictRuns.antt =====
-- Runs of the dictionary: the states are those that the C code passes through.
use atm_cache.Base.{
  shallow, ℕ, zero, suc, ◌≡◌, refl, some, Run, ok, stop, null_dereference, use_after_free, ◌>>=◌,
}
use atm_cache.Dict.Table.{table_get, table_set, table_del, table_contains}
use atm_cache.Dict.Ops.{
  Dict, dict_new, dict_set, dict_get, dict_del, dict_size, dict_clear, dict_free, dict_str, unlink,
  rehash,
}
use atm_cache.Tests.Words.{word_key}

program : Unit {0}
unfolding table_get table_set table_del table_contains dict_new dict_set dict_get dict_del dict_size
    dict_clear dict_free dict_str unlink rehash
program = tt

-- The keys `0, 1, …, n - 1`, each with itself for a value.
fill : ℕ → Run (Dict ℕ ℕ)
unfolding program
fill zero = ok (dict_new shallow)
fill (suc n) = do d ← fill n; dict_set d n (some n)

get_after_fill : (fill 20 >>= λ d. dict_get d 17) ≡ ok (some 17)
unfolding program fill
get_after_fill = refl

-- The bucket table of the first 256 entries is full with the last of them.
size_after_growth : (fill 260 >>= λ d. ok (dict_size d)) ≡ ok 260
unfolding program fill
size_after_growth = refl

-- A write in the middle of a rehash is not seen.
stale_read : (fill 257 >>= λ d. dict_set d 200 (some 7) >>= λ d'. dict_get d' 200) ≡ ok (some 200)
unfolding program fill
stale_read = refl

-- A bucket past the first eighth of the bucket table is read after it was freed.
read_after_clear : (fill 100 >>= λ d. dict_clear d >>= λ d'. dict_get d' 50) ≡ stop use_after_free
unfolding program fill
read_after_clear = refl

-- So is it freed a second time with the dictionary.
free_after_clear : (fill 100 >>= λ d. dict_clear d >>= dict_free) ≡ stop use_after_free
unfolding program fill
free_after_clear = refl

-- `atm_dict_str` of a dictionary with one table.
str_of_new : (fill 0 >>= dict_str) ≡ stop null_dereference
unfolding program fill
str_of_new = refl
