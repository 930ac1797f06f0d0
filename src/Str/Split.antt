-- ===== src/Str/Split.antt =====
-- `atm_str_split` of src/core/atm_str.c. The token `t` is the list of its bytes: no NUL is written to
-- it, and the block of `len + 1` bytes is zero past them, so `strlen(t)` is the number of these. Each
-- token that is kept gets a block of its own, so no two pointers of `sl` are the same.
use atm_cache.Base.{
  u32_mod, ◌*◌, ◌/◌, ◌%◌, ◌^◌, ℕ, suc, ◌-◌, Bool, true, false, not, ◌&&◌, ◌||◌, Option, none, some,
  List, [], ◌∷◌, if◌then◌else◌, ltb, leb, ◌==◌, length, Run, ok, stop, ◌>>=◌, out_of_bounds,
}
use atm_cache.LinkedList.Spec.{push_last}
use atm_cache.Str.Bytes.{StrHdr, str_new}

abbrev pub double_quote : ℕ
double_quote = 34

abbrev pub single_quote : ℕ
single_quote = 39

-- The tokens `sl`, the token `t`, the kind of the innermost quote, how many quotes are open, and
-- whether separators are being trimmed.
pub record Split : Type 0 where
  pub tokens : List (List ℕ)
  pub token : List ℕ
  pub qty : ℕ
  pub inq : ℕ
  pub trb : Bool

-- A quote inside a quote, of the same kind or of the other one.
unfoldable pub close_quote : Split → ℕ → Split
close_quote s outer = record s { inq = s.inq - 1; qty = if ltb 0 (s.inq - 1) then outer else 0 }

unfoldable pub nest_quote : Split → ℕ → Split
nest_quote s c = record s { inq = suc s.inq; qty = c }

unfoldable pub quoted_byte : Split → ℕ → Split
unfolding close_quote nest_quote
quoted_byte s c =
    if c == double_quote
    then (if s.qty == double_quote
        then close_quote s single_quote
        else if s.qty == single_quote
        then nest_quote s c
        else s)
    else if c == single_quote
    then (if s.qty == double_quote
        then nest_quote s c
        else if s.qty == single_quote
        then close_quote s double_quote
        else s)
    else s

-- A quote that opens.
unfoldable pub open_quote : Split → ℕ → Split
open_quote s c =
    if (c == double_quote) || (c == single_quote) then record s { qty = c; inq = suc s.inq } else s

-- The token is kept, if it is one, and another one started.
unfoldable pub end_token : Split → Split
end_token s =
    if not s.trb && ltb 0 (length s.token)
    then record s { tokens = push_last s.tokens s.token; token = []; trb = true }
    else record s { trb = true }

unfoldable pub add_byte : Split → ℕ → Split
add_byte s c = record s { token = push_last s.token c }

unfoldable pub split_byte : ℕ → Split → ℕ → Split
split_byte sep s c =
    if c == 0
    then s
    else if ltb 0 s.inq
    then add_byte (quoted_byte s c) c
    else if c == sep
    then end_token (open_quote s c)
    else add_byte (record (open_quote s c) { trb = false }) c

-- The pointers that `sl` has room for: `atm_alloc` takes its size in bytes as a 32-bit word.
abbrev pub slots : ℕ → ℕ
slots len = 8 * len % u32_mod / 8

-- The loop; `t` has room for `len` bytes and the NUL.
unfoldable pub split_loop : ℕ → ℕ → List ℕ → Split → Run Split
split_loop sep len [] s = ok s
split_loop sep len (c ∷ cs) s =
    let s' = split_byte sep s c in
    let rest = split_loop sep len cs s' in
    if leb (length s'.token) len && leb (length s'.tokens) (slots len)
    then rest
    else stop out_of_bounds

-- The last token.
unfoldable pub add_final : ℕ → Split → Run (List (List ℕ))
add_final len s =
    if ltb 0 (length s.token)
    then (if ltb (length s.tokens) (slots len)
        then ok (push_last s.tokens s.token)
        else stop out_of_bounds)
    else ok s.tokens

-- `atm_str_mtrim` copies its argument and trims nothing.
unfoldable pub str_mtrim : List ℕ → List ℕ
str_mtrim s = s

unfoldable pub new_all : List (List ℕ) → Run (List StrHdr)
unfolding str_mtrim
new_all [] = ok []
new_all (t ∷ ts) = do s ← str_new (str_mtrim t); rest ← new_all ts; ok (s ∷ rest)

abbrev pub split_start : Split
split_start = record { tokens = []; token = []; qty = 0; inq = 0; trb = false }

-- The array of strings, with NULL at its end, or NULL where there is no token.
unfoldable pub build_argv : List (List ℕ) → Run (Option (List StrHdr))
build_argv [] = ok none
build_argv (t ∷ ts) = do all ← new_all (t ∷ ts); ok (some all)

-- The bytes at `s`, of which there are `len`, an `int`: from `2 ^ 31` on it is below 0, and the loop is
-- not entered.
unfoldable pub str_split : List ℕ → ℕ → Run (Option (List StrHdr))
str_split s sep = do
  r ← split_loop sep (length s) (if ltb (length s) (2 ^ 31) then s else []) split_start
  ts ← add_final (length s) r
  build_argv ts

-- The strings before the NULL at the end.
unfoldable pub split_size : Option (List StrHdr) → ℕ
split_size none = 0
split_size (some argv) = length argv
