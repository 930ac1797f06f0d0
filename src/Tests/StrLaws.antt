-- ===== src/Tests/StrLaws.antt =====
-- The theorems on strings and on hashes at inputs that meet their hypotheses, and runs.
use atm_cache.Base.{
  ◌↔◌, true, ℕ, ◌+◌, ◌*◌, ◌≡◌, refl, some, Option, List, [], ◌∷◌, ◌++◌, arith, replicate, length,
  Run, ok, stop, out_of_bounds, ◌>>=◌, Returns,
}
use atm_cache.Siphash.{siphash, siphash_nocase}
use atm_cache.Str.{Cmp, cmp_lt, cmp_eq, strcmp, str_tolower}
use atm_cache.Str.Order.{flip, siphash_nocase-tolower}
use atm_cache.Str.Compare.{block_cmp, str_cmp, str_eq, str_match, str_hash}
use atm_cache.Str.Sorted.{str_cmp-IsTotal, str_hash-match}
use atm_cache.Str.Bytes.{
  c_string, StrHdr, str_new, str_cats, str_grow, grow_some, strcat, copy_to, strlen,
}
use atm_cache.Str.Cat.{IsStr, Holds, NoNul}
use atm_cache.Str.New.{str_new-IsStr}
use atm_cache.Str.Growth.{str_cats-fits, str_cats-grows, str_cats-overflows}

-- "GET" and "get".
abbrev upper : List ℕ
upper = 71 ∷ 69 ∷ 84 ∷ []

abbrev lower : List ℕ
lower = 103 ∷ 101 ∷ 116 ∷ []

abbrev seed : List ℕ
seed = replicate 16 48

siphash_nocase-tolower_example : siphash_nocase seed upper ≡ siphash_nocase seed lower
unfolding str_tolower
siphash_nocase-tolower_example = siphash_nocase-tolower seed upper lower refl

lower-NoNul : NoNul lower
lower-NoNul = (ground arith, (ground arith, (ground arith, tt)))

str_new-IsStr_example : Returns (str_new lower) (λ t. IsStr t lower)
str_new-IsStr_example = str_new-IsStr lower lower-NoNul (omega arith)

-- The string "get" as `atm_str_new` makes it.
abbrev get_string : StrHdr
get_string = record { cap = 7; len = 3; val = lower ++ replicate 5 0 }

get_string-IsStr : IsStr get_string lower
get_string-IsStr = (
  record {
    rest = replicate 4 0;
    shape = refl;
    clean = lower-NoNul;
    room = refl;
    word = omega arith;
  },
  refl,
)

abbrev other_get : StrHdr
other_get = record { cap = 15; len = 3; val = lower ++ replicate 13 0 }

other_get-IsStr : IsStr other_get lower
other_get-IsStr = (
  record {
    rest = replicate 12 0;
    shape = refl;
    clean = lower-NoNul;
    room = refl;
    word = omega arith;
  },
  refl,
)

str_cmp-IsTotal_example :
    (c : Cmp) × (str_cmp get_string other_get ≡ ok c)
    × (str_cmp other_get get_string ≡ ok (flip c))
    × ((c ≡ cmp_eq) ↔ (lower ≡ lower))
    × (str_cmp get_string other_get ≡ ok cmp_lt
        → str_cmp other_get get_string ≡ ok cmp_lt
        → str_cmp get_string get_string ≡ ok cmp_lt)
str_cmp-IsTotal_example =
    str_cmp-IsTotal get_string other_get get_string lower lower lower get_string-IsStr
      other_get-IsStr get_string-IsStr

they_match : str_match get_string other_get ≡ ok true
unfolding str_match str_eq str_cmp block_cmp c_string strcmp
they_match = refl

str_hash-match_example :
    (str_hash seed get_string ≡ ok (siphash seed lower))
    × (str_hash seed other_get ≡ ok (siphash seed lower))
str_hash-match_example =
    str_hash-match seed get_string other_get lower lower get_string-IsStr other_get-IsStr they_match

str_cats-fits_example :
    (t : StrHdr) × (str_cats (some get_string) upper ≡ ok (some t)) × IsStr t (lower ++ upper)
str_cats-fits_example =
    str_cats-fits get_string lower upper get_string-IsStr
      (ground arith, (ground arith, (ground arith, tt))) (omega arith)

abbrev five : List ℕ
five = replicate 5 65

five-NoNul : NoNul five
five-NoNul = (ground arith, (ground arith, (ground arith, (ground arith, (ground arith, tt)))))

str_cats-grows_example :
    (t : StrHdr) × (str_cats (some get_string) five ≡ ok (some t))
    × Holds t (lower ++ five)
    × (t.len ≡ length lower + 2 * length five)
str_cats-grows_example =
    str_cats-grows get_string lower five get_string-IsStr five-NoNul (omega arith) (omega arith)

-- A string with a capacity of 7 whose length says 13.
abbrev long_string : StrHdr
long_string = record get_string { len = 13 }

str_cats-overflows_example : str_cats (some long_string) five ≡ stop out_of_bounds
str_cats-overflows_example =
    str_cats-overflows long_string lower five
      (record {
        rest = replicate 4 0;
        shape = refl;
        clean = lower-NoNul;
        room = refl;
        word = omega arith;
      })
      (omega arith) (omega arith) (omega arith)

program : Unit {0}
unfolding str_new str_cats str_grow grow_some strcat copy_to strlen
program = tt

-- After a growth by ten bytes the length is 23 where 13 bytes stand, above the capacity of 15; the
-- next ten bytes are written past the end.
twice : Run (Option StrHdr)
twice = do s ← str_new lower; t ← str_cats (some s) (replicate 10 65); str_cats t (replicate 10 66)

twice_overflows : twice ≡ stop out_of_bounds
unfolding program twice
twice_overflows = refl
