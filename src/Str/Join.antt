-- ===== src/Str/Join.antt =====
-- The tokens that the loop of `atm_str_split` in src/core/atm_str.c finds in words with separators.
use atm_cache.Base.{
  ◌^◌, ℕ, zero, suc, ◌+◌, ◌<◌, ◌≡◌, ◌≢◌, refl, ap, sym, ◌∙◌, Bool, true, false, List, [], ◌∷◌, ◌++◌,
  map, arith, ltb, lt→ltb, length, replicate, if◌then◌else◌,
}
use mathlib.Core.Path.{subst}
use atm_cache.LinkedList.Spec.{push_last}
use atm_cache.Str.Split.{Split, double_quote, single_quote}
use atm_cache.Str.Tokens.{split_run}
use atm_cache.Str.Words.{
  IsWord, outside, split_run-append, word_run, sep_after, sep_trimmed, seps_trimmed,
}

-- Words with the number of separators after each.
abbrev pub text : ℕ → List (List ℕ × ℕ) → List ℕ
text sep [] = []
text sep (p ∷ ps) = p.0 ++ (replicate p.1 sep ++ text sep ps)

abbrev pub words_of : List (List ℕ × ℕ) → List (List ℕ)
words_of ps = map (λ p. p.0) ps

-- There is a separator after each word but the last, and none of the strings is too long.
abbrev pub AreWords : ℕ → List (List ℕ × ℕ) → Type 0
AreWords sep [] = Unit {0}
AreWords sep (p ∷ []) = IsWord sep p.0 × (length p.0 + 17 < 2 ^ 29)
AreWords sep (p ∷ q ∷ ps) =
    (IsWord sep p.0 × (length p.0 + 17 < 2 ^ 29)) × (0 < p.1) × AreWords sep (q ∷ ps)

-- The tokens at the end of the loop, with the last one.
unfoldable pub finish : Split → List (List ℕ)
finish s = if ltb 0 (length s.token) then push_last s.tokens s.token else s.tokens

push_all :
    (toks : List (List ℕ)) (w : List ℕ) (ws : List (List ℕ))
    → push_last toks w ++ ws ≡ toks ++ w ∷ ws
unfolding push_last
push_all [] w ws = refl
push_all (t ∷ toks) w ws = ap (λ l. t ∷ l) (push_all toks w ws)

all_kept : (toks : List (List ℕ)) → toks ++ [] ≡ toks
all_kept [] = refl
all_kept (t ∷ toks) = ap (λ l. t ∷ l) (all_kept toks)

pub first-IsWord :
    (sep : ℕ) (p : List ℕ × ℕ) (ps : List (List ℕ × ℕ))
    → AreWords sep (p ∷ ps)
    → IsWord sep p.0 × (length p.0 + 17 < 2 ^ 29)
first-IsWord sep p [] h = h
first-IsWord sep p (q ∷ ps) h = h.0

pub more_words :
    (sep : ℕ) (p : List ℕ × ℕ) (ps : List (List ℕ × ℕ)) → AreWords sep (p ∷ ps) → AreWords sep ps
more_words sep p [] h = tt
more_words sep p (q ∷ ps) h = h.2

last_word :
    (sep : ℕ) (p : List ℕ × ℕ) (ps : List (List ℕ × ℕ)) → AreWords sep (p ∷ ps) → p.1 ≡ 0 → ps ≡ []
last_word sep p [] h e = refl
last_word sep p (q ∷ ps) h e = absurd (omega (arith, h.1, e))

module _ (sep : ℕ) (s0 : sep ≢ 0) (s1 : sep ≢ double_quote) (s2 : sep ≢ single_quote) where
  -- The separators after a word end it.
  after_word :
      (n : ℕ) (toks : List (List ℕ)) (w : List ℕ)
      → 0 < length w
      → split_run sep (replicate (suc n) sep) (outside toks w false)
        ≡ outside (push_last toks w) [] true
  unfolding split_run
  after_word n toks w h =
      ap (λ s. split_run sep (replicate n sep) s) (sep_after sep toks s0 s1 s2 w h)
      ∙ seps_trimmed sep (push_last toks w) s0 s1 s2 n

  pub before_words :
      (n : ℕ) (b : Bool)
      → (b' : Bool) × (split_run sep (replicate n sep) (outside [] [] b) ≡ outside [] [] b')
  unfolding split_run
  before_words zero b = (b, refl)
  before_words (suc n) b = (
    true,
    ap (λ s. split_run sep (replicate n sep) s) (sep_trimmed sep [] s0 s1 s2 b)
        ∙ seps_trimmed sep [] s0 s1 s2 n,
  )

  last_kept :
      (toks : List (List ℕ)) (w : List ℕ)
      → 0 < length w
      → finish (outside toks w false) ≡ toks ++ w ∷ []
  unfolding finish push_last
  last_kept toks w h =
      let some_bytes : ltb 0 (length w) ≡ true = lt→ltb 0 (length w) h in rw some_bytes refl

  after_run :
      (w : List ℕ) (n : ℕ) (ps : List (List ℕ × ℕ)) (toks : List (List ℕ))
      → 0 < length w
      → (n ≡ 0 → ps ≡ [])
      → ((ts : List (List ℕ)) (b : Bool)
          → finish (split_run sep (text sep ps) (outside ts [] b)) ≡ ts ++ words_of ps)
      → finish (split_run sep (replicate n sep ++ text sep ps) (outside toks w false))
        ≡ toks ++ w ∷ words_of ps
  unfolding split_run
  after_run w zero ps toks some_bytes last rest =
      subst
        (λ qs.
          finish (split_run sep (text sep qs) (outside toks w false)) ≡ toks ++ w ∷ words_of qs)
        (sym (last refl)) (last_kept toks w some_bytes)
  after_run w (suc n) ps toks some_bytes last rest =
      ap finish (
        split_run-append sep (replicate (suc n) sep) (text sep ps) (outside toks w false)
        ∙ ap (λ s. split_run sep (text sep ps) s) (after_word n toks w some_bytes))
      ∙ rest (push_last toks w) true
      ∙ push_all toks w (words_of ps)

  pub words_kept :
      (ps : List (List ℕ × ℕ))
      → AreWords sep ps
      → (toks : List (List ℕ)) (b : Bool)
      → finish (split_run sep (text sep ps) (outside toks [] b)) ≡ toks ++ words_of ps
  unfolding split_run finish
  words_kept [] h toks b = sym (all_kept toks)
  words_kept (p ∷ ps) h toks b =
      let (run, some_bytes) = word_run sep toks p.0 b s1 s2 (first-IsWord sep p ps h).0 in
      let word =
        split_run-append sep p.0 (replicate p.1 sep ++ text sep ps) (outside toks [] b)
        ∙ ap (λ s. split_run sep (replicate p.1 sep ++ text sep ps) s) run in
      ap finish word
      ∙ after_run p.0 p.1 ps toks some_bytes (last_word sep p ps h)
          (words_kept ps (more_words sep p ps h))
