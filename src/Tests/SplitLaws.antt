-- ===== src/Tests/SplitLaws.antt =====
-- The theorem on the split of a line at an input that meets its hypotheses, and runs.
use atm_cache.Base.{ℕ, false, ◌≡◌, refl, List, [], ◌∷◌, Run, ok, ◌>>=◌}
use atm_cache.LinkedList.Spec.{push_last}
use atm_cache.Str.Bytes.{copy_to}
use atm_cache.Str.Split.{
  str_split, split_loop, split_byte, quoted_byte, close_quote, nest_quote, open_quote, end_token,
  add_byte, add_final, new_all, str_mtrim, build_argv,
}
use atm_cache.Str.Text.{str_trim, trim_bytes, trim_start, trim_end, in_set}

abbrev space : ℕ
space = 32

-- "set", then a key with a space in single quotes, then "v".
abbrev line : List (List ℕ × ℕ)
line = (115 ∷ 101 ∷ 116 ∷ [], 1) ∷ (39 ∷ 97 ∷ 32 ∷ 98 ∷ 39 ∷ [], 2) ∷ (118 ∷ [], 0) ∷ []

program : Unit {0}
unfolding str_split split_loop split_byte quoted_byte close_quote nest_quote open_quote end_token
    add_byte add_final new_all str_mtrim build_argv
program = tt

tokens_of : List ℕ → Run (List (List ℕ))
unfolding program
tokens_of s =
    split_loop space 20 s (record { tokens = []; token = []; qty = 0; inq = 0; trb = false })
    >>= λ r. add_final 20 r

-- An apostrophe between double quotes opens a quote of its own, so the rest of the line is one token.
apostrophe : tokens_of (34 ∷ 39 ∷ 34 ∷ 32 ∷ 97 ∷ []) ≡ ok ((34 ∷ 39 ∷ 34 ∷ 32 ∷ 97 ∷ []) ∷ [])
unfolding program tokens_of push_last
apostrophe = refl

trimmed : Unit {0}
unfolding str_trim trim_bytes trim_start trim_end in_set copy_to
trimmed = tt

-- Blanks at both ends of "  a ".
trim_blanks :
    str_trim (record { cap = 7; len = 4; val = 32 ∷ 32 ∷ 97 ∷ 32 ∷ 0 ∷ [] }) (32 ∷ [])
    ≡ ok (record { cap = 7; len = 1; val = 97 ∷ 0 ∷ 97 ∷ 32 ∷ 0 ∷ [] })
unfolding trimmed
trim_blanks = refl
