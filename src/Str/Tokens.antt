-- ===== src/Str/Tokens.antt =====
-- The loop of `atm_str_split` in src/core/atm_str.c stays within its blocks, for any bytes.
use atm_cache.Base.{
  ◌<◌, ◌^◌, ap, ◌∙◌, ℕ, suc, ◌+◌, ◌*◌, ◌≤◌, ◌<◌, ◌≡◌, refl, Bool, true, false, not, ◌&&◌, List, [],
  ◌∷◌, arith, ltb, leb, ◌==◌, length, length-append, ok, Bool-cases, inl, inr,
}
use atm_cache.LinkedList.Spec.{push_last}
use atm_cache.Str.Split.{
  slots, Split, split_byte, split_loop, quoted_byte, close_quote, nest_quote, open_quote, end_token,
  add_byte,
}

-- The loop with no look at the bounds.
unfoldable pub split_run : ℕ → List ℕ → Split → Split
split_run sep [] s = s
split_run sep (c ∷ cs) s = split_run sep cs (split_byte sep s c)

-- Each token that is kept took two bytes at least, itself and a separator.
abbrev Spent : Split → ℕ → Type 0
Spent s i = 2 * length s.tokens + length s.token ≤ i

quoted_byte-same :
    (s : Split) (c : ℕ)
    → ((quoted_byte s c).tokens ≡ s.tokens) × ((quoted_byte s c).token ≡ s.token)
unfolding quoted_byte close_quote nest_quote
quoted_byte-same s c = ground (arith)

open_quote-same :
    (s : Split) (c : ℕ) → ((open_quote s c).tokens ≡ s.tokens) × ((open_quote s c).token ≡ s.token)
unfolding open_quote
open_quote-same s c = ground (arith)

length-push_last : {A : Type 0} (xs : List A) (x : A) → length (push_last xs x) ≡ length xs + 1
unfolding push_last
length-push_last xs x = length-append xs (x ∷ [])

add_byte-Spent : (s : Split) (c i : ℕ) → Spent s i → Spent (add_byte s c) (suc i)
unfolding add_byte
add_byte-Spent s c i h = omega (arith, length-push_last s.token c)

end_token-Spent : (s : Split) (i : ℕ) → Spent s i → Spent (end_token s) (suc i)
unfolding end_token
end_token-Spent s i h = elim (Bool-cases (not s.trb && ltb 0 (length s.token))) [
  | inl e ↦
      let some_bytes : 0 < length s.token = ground (arith, e) in
      rw e (omega (arith, length-push_last s.tokens s.token, some_bytes))
  | inr e ↦ rw e (omega arith)
]

Spent-same :
    (s s' : Split) (i : ℕ) → s'.tokens ≡ s.tokens → s'.token ≡ s.token → Spent s i → Spent s' i
Spent-same s s' i e f h = rw (e, f) h

split_byte-Spent : (sep : ℕ) (s : Split) (c i : ℕ) → Spent s i → Spent (split_byte sep s c) (suc i)
unfolding split_byte
split_byte-Spent sep s c i h =
    let (q, q') = quoted_byte-same s c in
    let (o, o') = open_quote-same s c in
    let in_quote = add_byte-Spent (quoted_byte s c) c i (Spent-same s (quoted_byte s c) i q q' h) in
    let at_sep = end_token-Spent (open_quote s c) i (Spent-same s (open_quote s c) i o o' h) in
    let in_word =
      add_byte-Spent (record (open_quote s c) { trb = false }) c i
        (Spent-same s (record (open_quote s c) { trb = false }) i o o' h) in
    elim (Bool-cases (c == 0)) [
      | inl e ↦ rw e (omega (arith, h))
      | inr e ↦ elim (Bool-cases (ltb 0 s.inq)) [
        | inl f ↦ rw (e, f) in_quote
        | inr f ↦ elim (Bool-cases (c == sep)) [
          | inl g ↦ rw (e, f, g) at_sep
          | inr g ↦ rw (e, f, g) in_word
        ]
      ]
    ]

pub slots-all : (len : ℕ) → len < 2 ^ 29 → slots len ≡ len
slots-all len small = omega arith

both_true : {a b : Bool} → a ≡ true → b ≡ true → (a && b) ≡ true
both_true e f = rw (e, f) refl

pub split_loop-split_run :
    (sep len : ℕ) (cs : List ℕ) (s : Split) (i : ℕ)
    → Spent s i
    → i + length cs ≤ len
    → len < 2 ^ 29
    → (split_loop sep len cs s ≡ ok (split_run sep cs s))
      × Spent (split_run sep cs s) (i + length cs)
unfolding split_loop split_run
split_loop-split_run sep len [] s i h fits small = (refl, omega (arith, h))
split_loop-split_run sep len (c ∷ cs) s i h fits small =
    let h' = split_byte-Spent sep s c i h in
    let (run, spent) =
      split_loop-split_run sep len cs (split_byte sep s c) (suc i) h' (omega (arith, fits)) small in
    let short : leb (length (split_byte sep s c).token) len ≡ true = ground (arith, h') in
    let few : leb (length (split_byte sep s c).tokens) (slots len) ≡ true =
      ap (λ n. leb (length (split_byte sep s c).tokens) n) (slots-all len small)
      ∙ ground (arith, h') in
    let inside : (leb (length (split_byte sep s c).token) len
          && leb (length (split_byte sep s c).tokens) (slots len))
        ≡ true =
      both_true short few in
    (rw inside run, omega (arith, spent))
