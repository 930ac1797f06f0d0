-- ===== src/Str/Words.antt =====
-- The bytes of words with separators between them, as `atm_str_split` of src/core/atm_str.c reads
-- them.
use atm_cache.Base.{
  ℕ, zero, suc, ◌<◌, ◌≡◌, ◌≢◌, ◌⊎◌, refl, ap, sym, ◌∙◌, Bool, true, false, List, [], ◌∷◌, ◌++◌,
  arith, length, replicate, inl, inr,
}
use atm_cache.LinkedList.Spec.{push_last}
use atm_cache.Arr.Memory.{append_nil}
use atm_cache.Arr.Valid.{append_assoc}
use atm_cache.Str.Split.{
  Split, split_byte, quoted_byte, close_quote, nest_quote, open_quote, end_token, add_byte,
  double_quote, single_quote,
}
use atm_cache.Str.Tokens.{split_run}

-- No byte is a NUL, a quote or the separator.
abbrev pub IsPlain : ℕ → List ℕ → Type 0
IsPlain sep [] = Unit {0}
IsPlain sep (c ∷ cs) =
    ((c ≢ 0) × (c ≢ sep) × (c ≢ double_quote) × (c ≢ single_quote)) × IsPlain sep cs

-- The bytes between two quotes of one kind, which can be separators.
pub record IsQuoted (w : List ℕ) : Type 0 where
  pub quote : ℕ
  pub body : List ℕ
  pub shape : w ≡ quote ∷ (body ++ quote ∷ [])
  pub kind : (quote ≡ double_quote) ⊎ (quote ≡ single_quote)
  pub plain : IsPlain 0 body

abbrev pub IsWord : ℕ → List ℕ → Type 0
IsWord sep w = (IsPlain sep w × (0 < length w)) ⊎ IsQuoted w

-- Outside of quotes, and inside one quote.
abbrev pub outside : List (List ℕ) → List ℕ → Bool → Split
outside toks t b = record { tokens = toks; token = t; qty = 0; inq = 0; trb = b }

abbrev inside : List (List ℕ) → List ℕ → ℕ → Split
inside toks t q = record { tokens = toks; token = t; qty = q; inq = 1; trb = false }

pub split_run-append :
    (sep : ℕ) (xs ys : List ℕ) (s : Split)
    → split_run sep (xs ++ ys) s ≡ split_run sep ys (split_run sep xs s)
unfolding split_run
split_run-append sep [] ys s = refl
split_run-append sep (x ∷ xs) ys s = split_run-append sep xs ys (split_byte sep s x)

module _ (sep : ℕ) (toks : List (List ℕ)) where
  plain_byte :
      (t : List ℕ) (b : Bool) (c : ℕ)
      → c ≢ 0
      → c ≢ sep
      → c ≢ double_quote
      → c ≢ single_quote
      → split_byte sep (outside toks t b) c ≡ outside toks (push_last t c) false
  unfolding split_byte open_quote end_token add_byte
  plain_byte t b c h1 h2 h3 h4 = ground arith

  opening :
      (t : List ℕ) (b : Bool) (q : ℕ)
      → (q ≡ double_quote) ⊎ (q ≡ single_quote)
      → q ≢ sep
      → split_byte sep (outside toks t b) q ≡ inside toks (push_last t q) q
  unfolding split_byte open_quote end_token add_byte
  opening t b q h n = ground arith

  body_byte :
      (t : List ℕ) (q c : ℕ)
      → c ≢ 0
      → c ≢ double_quote
      → c ≢ single_quote
      → split_byte sep (inside toks t q) c ≡ inside toks (push_last t c) q
  unfolding split_byte quoted_byte add_byte
  body_byte t q c h1 h2 h3 = ground arith

  closing :
      (t : List ℕ) (q : ℕ)
      → (q ≡ double_quote) ⊎ (q ≡ single_quote)
      → split_byte sep (inside toks t q) q ≡ outside toks (push_last t q) false
  unfolding split_byte quoted_byte close_quote nest_quote add_byte
  closing t q h = ground arith

  module _ (s1 : sep ≢ 0) (s2 : sep ≢ double_quote) (s3 : sep ≢ single_quote) where
    pub sep_trimmed : (b : Bool) → split_byte sep (outside toks [] b) sep ≡ outside toks [] true
    unfolding split_byte open_quote end_token
    sep_trimmed b = ground arith

    pub sep_after :
        (t : List ℕ)
        → 0 < length t
        → split_byte sep (outside toks t false) sep ≡ outside (push_last toks t) [] true
    unfolding split_byte open_quote end_token
    sep_after t h = ground arith

    pub seps_trimmed :
        (n : ℕ) → split_run sep (replicate n sep) (outside toks [] true) ≡ outside toks [] true
    unfolding split_run
    seps_trimmed zero = refl
    seps_trimmed (suc n) =
        ap (λ s. split_run sep (replicate n sep) s) (sep_trimmed true) ∙ seps_trimmed n

push_more : (t : List ℕ) (c : ℕ) (cs : List ℕ) → push_last t c ++ cs ≡ t ++ c ∷ cs
unfolding push_last
push_more t c cs = append_assoc t (c ∷ []) cs

module _ (sep : ℕ) (toks : List (List ℕ)) where
  plain_run :
      (w t : List ℕ)
      → IsPlain sep w
      → split_run sep w (outside toks t false) ≡ outside toks (t ++ w) false
  unfolding split_run
  plain_run [] t h = ap (λ u. outside toks u false) (sym (append_nil t))
  plain_run (c ∷ w) t h =
      ap (λ s. split_run sep w s) (plain_byte sep toks t false c h.0.0 h.0.1 h.0.2 h.0.3)
      ∙ plain_run w (push_last t c) h.1
      ∙ ap (λ u. outside toks u false) (push_more t c w)

  body_run :
      (w t : List ℕ) (q : ℕ)
      → IsPlain 0 w
      → split_run sep w (inside toks t q) ≡ inside toks (t ++ w) q
  unfolding split_run
  body_run [] t q h = ap (λ u. inside toks u q) (sym (append_nil t))
  body_run (c ∷ w) t q h =
      ap (λ s. split_run sep w s) (body_byte sep toks t q c h.0.0 h.0.2 h.0.3)
      ∙ body_run w (push_last t c) q h.1
      ∙ ap (λ u. inside toks u q) (push_more t c w)

  quoted_run :
      (q : ℕ) (body : List ℕ) (b : Bool)
      → (q ≡ double_quote) ⊎ (q ≡ single_quote)
      → q ≢ sep
      → IsPlain 0 body
      → split_run sep (q ∷ (body ++ q ∷ [])) (outside toks [] b)
        ≡ outside toks (q ∷ (body ++ q ∷ [])) false
  unfolding split_run push_last
  quoted_run q body b kind ne h =
      ap (λ s. split_run sep (body ++ q ∷ []) s) (opening sep toks [] b q kind ne)
      ∙ split_run-append sep body (q ∷ []) (inside toks (q ∷ []) q)
      ∙ ap (λ s. split_run sep (q ∷ []) s) (body_run body (q ∷ []) q h)
      ∙ closing sep toks (q ∷ body) q kind

  pub word_run :
      (w : List ℕ) (b : Bool)
      → sep ≢ double_quote
      → sep ≢ single_quote
      → IsWord sep w
      → (split_run sep w (outside toks [] b) ≡ outside toks w false) × (0 < length w)
  unfolding split_run push_last
  word_run [] b n1 n2 (inl h) = absurd (omega (arith, h.1))
  word_run (c ∷ w) b n1 n2 (inl h) = (
    ap (λ s. split_run sep w s) (plain_byte sep toks [] b c h.0.0.0 h.0.0.1 h.0.0.2 h.0.0.3)
        ∙ plain_run w (c ∷ []) h.0.1,
    omega arith,
  )
  word_run w b n1 n2 (inr h) =
      let ne : h.quote ≢ sep =
        λ e. elim h.kind [ inl k ↦ n1 (sym e ∙ k) | inr k ↦ n2 (sym e ∙ k) ] in
      rw h.shape (quoted_run h.quote h.body b h.kind ne h.plain, omega arith)
