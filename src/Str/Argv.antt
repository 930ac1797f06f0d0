-- ===== src/Str/Argv.antt =====
-- `atm_str_split` of src/core/atm_str.c takes apart what was put together from words.
use atm_cache.Base.{
  ◌<◌, ◌^◌, if◌then◌else◌, ℕ, ◌+◌, ◌*◌, ◌≤◌, ◌≡◌, ◌≢◌, refl, ap, ◌∙◌, true, false, Option, none,
  some, List, [], ◌∷◌, ◌++◌, arith, ltb, lt→ltb, ltb→lt, length, replicate, Bool-cases, inl, inr,
  ok, ◌>>=◌, Returns,
}
use atm_cache.Str.Bytes.{StrHdr}
use atm_cache.Str.Cat.{NoNul, IsStr}
use atm_cache.Str.New.{str_new-IsStr}
use atm_cache.Str.Split.{
  slots, split_loop, Split, add_final, new_all, str_mtrim, str_split, build_argv, split_start,
  double_quote, single_quote,
}
use atm_cache.Str.Tokens.{slots-all, split_run, split_loop-split_run}
use atm_cache.Str.Words.{IsPlain, IsWord, split_run-append}
use atm_cache.Str.Join.{
  text, words_of, AreWords, finish, first-IsWord, more_words, before_words, words_kept,
}

-- The strings stand for the words.
abbrev pub AreStrs : List StrHdr → List (List ℕ) → Type 0
AreStrs [] [] = Unit {0}
AreStrs [] (w ∷ ws) = ⊥
AreStrs (s ∷ ss) [] = ⊥
AreStrs (s ∷ ss) (w ∷ ws) = IsStr s w × AreStrs ss ws

abbrev pub AreArgs : Option (List StrHdr) → List (List ℕ) → Type 0
AreArgs none ws = ws ≡ []
AreArgs (some argv) ws = AreStrs argv ws

NoNul-plain : (sep : ℕ) (w : List ℕ) → IsPlain sep w → NoNul w
NoNul-plain sep [] h = tt
NoNul-plain sep (c ∷ w) h = (h.0.0, NoNul-plain sep w h.1)

NoNul-append : (xs ys : List ℕ) → NoNul xs → NoNul ys → NoNul (xs ++ ys)
NoNul-append [] ys p q = q
NoNul-append (x ∷ xs) ys p q = (p.0, NoNul-append xs ys p.1 q)

pub NoNul-word : (sep : ℕ) (w : List ℕ) → IsWord sep w → NoNul w
NoNul-word sep w (inl h) = NoNul-plain sep w h.0
NoNul-word sep w (inr h) =
    let not_nul : h.quote ≢ 0 = λ e. elim h.kind [
      | inl k ↦ absurd (omega (arith, k, e))
      | inr k ↦ absurd (omega (arith, k, e))
    ] in
    rw h.shape
      (not_nul, NoNul-append h.body (h.quote ∷ []) (NoNul-plain 0 h.body h.plain) (not_nul, tt))

new_all-AreStrs :
    (sep : ℕ) (ps : List (List ℕ × ℕ))
    → AreWords sep ps
    → Returns (new_all (words_of ps)) (λ ss. AreStrs ss (words_of ps))
unfolding new_all str_mtrim
new_all-AreStrs sep [] h = ([], refl, tt)
new_all-AreStrs sep (p ∷ ps) h =
    let (word, short) = first-IsWord sep p ps h in
    let (s, made, is) = str_new-IsStr p.0 (NoNul-word sep p.0 word) (omega (arith, short)) in
    let (ss, rest, are) = new_all-AreStrs sep ps (more_words sep p ps h) in
    (s ∷ ss, rw (made, rest, new_all) refl, (is, are))

build_argv-AreArgs :
    (sep : ℕ) (ps : List (List ℕ × ℕ))
    → AreWords sep ps
    → Returns (build_argv (words_of ps)) (λ r. AreArgs r (words_of ps))
unfolding build_argv
build_argv-AreArgs sep [] h = (none, refl, refl)
build_argv-AreArgs sep (p ∷ ps) h =
    let (ss, made, are) = new_all-AreStrs sep (p ∷ ps) h in
    (some ss, ap (λ r. r >>= λ all. ok (some all)) made, are)

add_final-finish :
    (len : ℕ) (s : Split)
    → 2 * length s.tokens + length s.token ≤ len
    → len < 2 ^ 29
    → add_final len s ≡ ok (finish s)
unfolding add_final finish
add_final-finish len s h small = elim (Bool-cases (ltb 0 (length s.token))) [
  | inl e ↦
      let few : ltb (length s.tokens) (slots len) ≡ true =
        lt→ltb (length s.tokens) (slots len)
          (omega (arith, slots-all len small, h, ltb→lt 0 (length s.token) e)) in
      rw (e, few) refl
  | inr e ↦ rw e refl
]

whole : (line : List ℕ) (n : ℕ) → n < 2 ^ 29 → (if ltb n (2 ^ 31) then line else []) ≡ line
whole line n small = rw (lt→ltb n (2 ^ 31) (omega arith)) refl

pub str_split-AreArgs :
    (sep lead : ℕ) (ps : List (List ℕ × ℕ))
    → sep ≢ 0
    → sep ≢ double_quote
    → sep ≢ single_quote
    → AreWords sep ps
    → length (replicate lead sep ++ text sep ps) < 2 ^ 29
    → Returns (str_split (replicate lead sep ++ text sep ps) sep) (λ r. AreArgs r (words_of ps))
unfolding str_split
str_split-AreArgs sep lead ps s0 s1 s2 h small =
    let line : List ℕ = replicate lead sep ++ text sep ps in
    let (run, spent) =
      split_loop-split_run sep (length line) line split_start 0 (omega arith) (omega arith) small in
    let (b, start) = before_words sep s0 s1 s2 lead false in
    let kept : finish (split_run sep line split_start) ≡ words_of ps =
      ap finish (
        split_run-append sep (replicate lead sep) (text sep ps) split_start
        ∙ ap (λ s. split_run sep (text sep ps) s) start)
      ∙ words_kept sep s0 s1 s2 ps h [] b in
    let final =
      add_final-finish (length line) (split_run sep line split_start) (omega (arith, spent)) small
      ∙ ap (λ ts. ok ts) kept in
    let (r, made, are) = build_argv-AreArgs sep ps h in
    (
      r,
      ap
            (λ l. split_loop sep (length line) l split_start >>= λ s.
              add_final (length line) s >>= λ ts. build_argv ts)
            (whole line (length line) small)
          ∙ ap (λ x. x >>= λ s. add_final (length line) s >>= λ ts. build_argv ts) run
          ∙ ap (λ x. x >>= λ ts. build_argv ts) final
          ∙ made,
      are,
    )
