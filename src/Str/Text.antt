-- ===== src/Str/Text.antt =====
-- Further operations of src/core/atm_str.c on strings in memory.
use atm_cache.Base.{
  ℕ, Bool, true, ◌&&◌, ◌||◌, Option, none, some, List, [], ◌∷◌, if◌then◌else◌, ltb, ◌==◌, length,
  take, Run, ok, stop, ◌>>=◌, null_dereference,
}
use atm_cache.Str.{is_eq, strcmp}
use atm_cache.Str.Compare.{str_cmp}
use atm_cache.Str.Bytes.{str_new, StrHdr, add32, copy_to, strcat, str_grow, str_dup, c_string}

unfoldable pub str_len : Option StrHdr → ℕ
str_len none = 0
str_len (some s) = s.len

-- `atm_str_cat` with a string that is there; the argument NULL leaves `dest` as it is.
unfoldable pub str_cat : Option StrHdr → StrHdr → Run (Option StrHdr)
unfolding str_grow strcat
str_cat dest src = do
  d ← str_grow dest src.len
  elim d [
    | none ↦ stop null_dereference
    | some s ↦ do
      b ← c_string src.val
      v ← strcat s.val b
      ok (some (record s { len = add32 s.len src.len; val = v }))
  ]

unfoldable pub str_cat_dup : Option StrHdr → StrHdr → Run (Option StrHdr)
unfolding str_dup str_cat
str_cat_dup dest src = str_cat (str_dup dest) src

-- Against a string that is made of the C string for this.
unfoldable pub str_eqs : StrHdr → List ℕ → Run Bool
str_eqs s t = do made ← str_new t; c ← str_cmp s made; ok (is_eq c)

-- A pair of quotes counts as empty.
unfoldable pub str_isempty : Option StrHdr → Run Bool
unfolding strcmp
str_isempty none = ok true
str_isempty (some s) =
    if ltb 0 s.len
    then (c_string s.val >>= λ b.
        ok (is_eq (strcmp b (34 ∷ 34 ∷ [])) || is_eq (strcmp b (39 ∷ 39 ∷ []))))
    else ok true

-- `strchr(cset, c)`, which finds the terminator too.
unfoldable pub in_set : List ℕ → ℕ → Bool
in_set [] c = c == 0
in_set (d ∷ cset) c = (c == d) || in_set cset c

-- The loop that moves `sp`, and the one that moves `ep`, which stops at `sp`.
unfoldable pub trim_start : List ℕ → List ℕ → List ℕ
unfolding in_set
trim_start cset [] = []
trim_start cset (c ∷ cs) = if in_set cset c then trim_start cset cs else c ∷ cs

unfoldable pub trim_end : List ℕ → List ℕ → List ℕ
unfolding in_set
trim_end cset [] = []
trim_end cset (c ∷ cs) =
    let rest = trim_end cset cs in if (length rest == 0) && in_set cset c then [] else c ∷ rest

unfoldable pub trim_bytes : List ℕ → List ℕ → List ℕ
unfolding trim_start trim_end
trim_bytes cset s = elim (trim_start cset s) [ [] ↦ [] | c ∷ cs ↦ c ∷ trim_end cset cs ]

-- The bytes move to the start of the block, with a NUL after them.
unfoldable pub str_trim : StrHdr → List ℕ → Run StrHdr
unfolding trim_bytes copy_to
str_trim s cset =
    let t = trim_bytes cset (take s.len s.val) in
    do
      v ← copy_to s.val 0 t
      v' ← copy_to v (length t) (0 ∷ [])
      ok (record s { len = length t; val = v' })
