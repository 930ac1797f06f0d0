-- ===== src/Str/Bytes.antt =====
-- The strings of src/core/atm_str.c in memory: a header with the capacity and the length, and the
-- bytes after it, one more than the capacity for the NUL. A C string argument is the list of its
-- bytes before the NUL.
use atm_cache.Base.{
  ℕ, zero, suc, ◌+◌, ◌-◌, ◌%◌, Option, none, some, List, [], ◌∷◌, ◌++◌, if◌then◌else◌, ltb, leb,
  ◌==◌, length, take, drop, replicate, u32_mod, Run, ok, stop, out_of_bounds, null_dereference,
  ◌>>=◌,
}

pub record StrHdr : Type 0 where
  pub cap : ℕ
  pub len : ℕ
  pub val : List ℕ

abbrev pub wordlen : ℕ
wordlen = 8

-- `sizeof(atm_str_hdr_t)`: two 32-bit words.
abbrev pub hdrlen : ℕ
hdrlen = 8

abbrev pub add32 : ℕ → ℕ → ℕ
add32 a b = (a + b) % u32_mod

abbrev pub sub32 : ℕ → ℕ → ℕ
sub32 a b = (a + u32_mod - b) % u32_mod

-- `memcpy` to a block at an offset.
unfoldable pub copy_to : List ℕ → ℕ → List ℕ → Run (List ℕ)
copy_to block off src =
    if leb (off + length src) (length block)
    then ok (take off block ++ src ++ drop (off + length src) block)
    else stop out_of_bounds

-- The standard library's `strlen`.
unfoldable pub strlen : List ℕ → Run ℕ
strlen [] = stop out_of_bounds
strlen (c ∷ t) = let rest = strlen t in if c == 0 then ok 0 else rest >>= λ n. ok (suc n)

-- The standard library's `strcat` to a block.
unfoldable pub strcat : List ℕ → List ℕ → Run (List ℕ)
strcat block src = do n ← strlen block; copy_to block n (src ++ 0 ∷ [])

unfoldable pub str_size : ℕ → ℕ
str_size slen = if slen == 0 then 0 else (slen - slen % wordlen + wordlen) % u32_mod

unfoldable pub str_new : List ℕ → Run StrHdr
unfolding str_size
str_new s =
    let size = str_size (add32 (add32 hdrlen (length s)) 1) in
    let zeros = replicate (size - hdrlen) 0 in
    do
      v ← if length s == 0 then ok zeros else copy_to zeros 0 s
      ok (record { cap = sub32 (sub32 size hdrlen) 1; len = length s; val = v })

unfoldable pub str_dup : Option StrHdr → Option StrHdr
str_dup none = none
str_dup (some s) = some s

-- The part of `atm_str_grow` for a string that is there, with `need` above 0.
unfoldable pub grow_some : StrHdr → ℕ → Run StrHdr
unfolding str_size
grow_some s need =
    if ltb (sub32 s.cap s.len) need
    then (let newlen = add32 s.len need in
        let newsz = str_size (add32 (add32 hdrlen newlen) 1) in
        do
          v ← copy_to (replicate (newsz - hdrlen) 0) 0 (take s.len s.val)
          ok (record { cap = sub32 (sub32 newsz hdrlen) 1; len = newlen; val = v }))
    else ok s

unfoldable pub str_grow : Option StrHdr → ℕ → Run (Option StrHdr)
str_grow o zero = ok o
str_grow (some s) (suc n) = grow_some s (suc n) >>= λ t. ok (some t)
str_grow none (suc n) = do s ← str_new []; t ← grow_some s (suc n); ok (some t)

-- `atm_str_cats` with a C string that is there; the argument NULL leaves `dest` as it is.
unfoldable pub str_cats : Option StrHdr → List ℕ → Run (Option StrHdr)
str_cats dest src = do
  d ← str_grow dest (length src)
  elim d [
    | none ↦ stop null_dereference
    | some s ↦ do
      v ← strcat s.val src
      ok (some (record s { len = add32 s.len (length src); val = v }))
  ]

unfoldable pub str_cats_dup : Option StrHdr → List ℕ → Run (Option StrHdr)
unfolding str_dup
str_cats_dup dest src = str_cats (str_dup dest) src

unfoldable pub str_setlen : StrHdr → ℕ → StrHdr
str_setlen s n = record s { len = n }

-- The bytes of a block up to the first NUL.
unfoldable pub c_string : List ℕ → Run (List ℕ)
c_string [] = stop out_of_bounds
c_string (c ∷ cs) = if c == 0 then ok [] else (c_string cs >>= λ s. ok (c ∷ s))
