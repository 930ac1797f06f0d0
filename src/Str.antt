-- ===== src/Str.antt =====
-- The strings of src/core/atm_str.c. Str.Bytes has them in memory and Str.Compare the comparison and
-- the hash of these; here is what these are on the bytes of strings, none of which is a NUL.
pub mod Order
pub mod Bytes
pub mod Compare
pub mod Sorted
pub mod Cat
pub mod Growth
pub mod New
pub mod Split
pub mod Tokens
pub mod Words
pub mod Join
pub mod Argv
pub mod Text
use atm_cache.Base.{
  ℕ, zero, suc, ◌+◌, ◌-◌, Bool, true, false, ◌&&◌, not, List, [], ◌∷◌, if◌then◌else◌, ltb, leb,
  ◌==◌, length, map,
}
use atm_cache.Siphash.{siphash}

-- `ATM_CMP_LT`, `ATM_CMP_EQ` and `ATM_CMP_GT`, or the sign of what `strcmp` returns.
pub data Cmp : Type 0 where
  cmp_lt cmp_eq cmp_gt : Cmp

-- The standard library's `strcmp`.
unfoldable pub strcmp : List ℕ → List ℕ → Cmp
strcmp [] [] = cmp_eq
strcmp [] (d ∷ t) = cmp_lt
strcmp (c ∷ s) [] = cmp_gt
strcmp (c ∷ s) (d ∷ t) = if ltb c d then cmp_lt else if ltb d c then cmp_gt else strcmp s t

-- Shorter strings first, and then the order of the bytes.
unfoldable pub bytes_cmp : List ℕ → List ℕ → Cmp
bytes_cmp s t =
    if ltb (length t) (length s)
    then cmp_gt
    else if ltb (length s) (length t)
    then cmp_lt
    else strcmp s t

abbrev pub is_eq : Cmp → Bool
is_eq cmp_eq = true
is_eq _ = false

unfoldable pub bytes_eq : List ℕ → List ℕ → Bool
bytes_eq s t = is_eq (bytes_cmp s t)

unfoldable pub bytes_match : List ℕ → List ℕ → Bool
bytes_match s t = bytes_eq s t

-- The hash of the bytes, with its seed.
unfoldable pub bytes_hash : List ℕ → List ℕ → ℕ
bytes_hash seed s = siphash seed s

abbrev tolower_byte : ℕ → ℕ
tolower_byte c = if leb 65 c && leb c 90 then c + (97 - 65) else c

abbrev toupper_byte : ℕ → ℕ
toupper_byte c = if leb 97 c && leb c 122 then c - (97 - 65) else c

unfoldable pub str_tolower : List ℕ → List ℕ
str_tolower s = map tolower_byte s

unfoldable pub str_toupper : List ℕ → List ℕ
str_toupper s = map toupper_byte s
