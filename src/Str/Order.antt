-- ===== src/Str/Order.antt =====
-- `atm_str_cmp` orders the strings of src/core/atm_str.c, and they can be keys of a dictionary.
use atm_cache.Base.{ℕ, ◌≡◌, refl, ap, sym, ◌∙◌, true, ◌↔◌, List, [], ◌∷◌, arith, map}
use atm_cache.Str.{
  Cmp, cmp_lt, cmp_eq, cmp_gt, strcmp, bytes_cmp, bytes_eq, bytes_match, bytes_hash, str_tolower,
}
use atm_cache.Siphash.{siphash, siphash_nocase, siptlw}
use atm_cache.Siphash.NoCase.{siphash_nocase-lower}
use atm_cache.Dict.Key.{KeyType}

abbrev pub flip : Cmp → Cmp
flip cmp_lt = cmp_gt
flip cmp_eq = cmp_eq
flip cmp_gt = cmp_lt

strcmp-flip : (s t : List ℕ) → strcmp t s ≡ flip (strcmp s t)
unfolding strcmp
strcmp-flip [] [] = refl
strcmp-flip [] (d ∷ t) = refl
strcmp-flip (c ∷ s) [] = refl
strcmp-flip (c ∷ s) (d ∷ t) = ground (arith, strcmp-flip s t)

strcmp_same : (s : List ℕ) → strcmp s s ≡ cmp_eq
unfolding strcmp
strcmp_same [] = refl
strcmp_same (c ∷ s) = ground (arith, strcmp_same s)

eq_of_strcmp : (s t : List ℕ) → strcmp s t ≡ cmp_eq → s ≡ t
unfolding strcmp
eq_of_strcmp [] [] e = refl
eq_of_strcmp [] (d ∷ t) e = cc
eq_of_strcmp (c ∷ s) [] e = cc
eq_of_strcmp (c ∷ s) (d ∷ t) e =
    let head : c ≡ d = ground arith in
    let rest : s ≡ t = eq_of_strcmp s t (ground arith) in rw (head, rest)

strcmp_trans : (s t u : List ℕ) → strcmp s t ≡ cmp_lt → strcmp t u ≡ cmp_lt → strcmp s u ≡ cmp_lt
unfolding strcmp
strcmp_trans [] [] [] p q = p
strcmp_trans [] (d ∷ t) [] p q = cc
strcmp_trans [] t (b ∷ u) p q = refl
strcmp_trans (c ∷ s) [] u p q = cc
strcmp_trans (c ∷ s) (d ∷ t) [] p q = cc
strcmp_trans (c ∷ s) (d ∷ t) (b ∷ u) p q = ground (arith, strcmp_trans s t u)

-- What an order by `cmp_lt`, `cmp_eq` and `cmp_gt` is.
pub record IsOrder {A : Type 0} (cmp : A → A → Cmp) : Type 0 where
  pub flips : (s t : A) → cmp t s ≡ flip (cmp s t)
  pub equal : (s t : A) → (cmp s t ≡ cmp_eq) ↔ (s ≡ t)
  pub trans : (s t u : A) → cmp s t ≡ cmp_lt → cmp t u ≡ cmp_lt → cmp s u ≡ cmp_lt

bytes_cmp_same : (s : List ℕ) → bytes_cmp s s ≡ cmp_eq
unfolding bytes_cmp
bytes_cmp_same s = ground (arith, strcmp_same s)

bytes_cmp-flip : (s t : List ℕ) → bytes_cmp t s ≡ flip (bytes_cmp s t)
unfolding bytes_cmp
bytes_cmp-flip s t = ground (arith, strcmp-flip s t)

eq_of_bytes_cmp : (s t : List ℕ) → bytes_cmp s t ≡ cmp_eq → s ≡ t
unfolding bytes_cmp
eq_of_bytes_cmp s t e = eq_of_strcmp s t (ground arith)

bytes_cmp_trans :
    (s t u : List ℕ) → bytes_cmp s t ≡ cmp_lt → bytes_cmp t u ≡ cmp_lt → bytes_cmp s u ≡ cmp_lt
unfolding bytes_cmp
bytes_cmp_trans s t u p q = ground (arith, strcmp_trans s t u)

-- `atm_str_cmp` is a total order, in which only equal strings compare as equal.
pub bytes_cmp-IsOrder : IsOrder bytes_cmp
bytes_cmp-IsOrder = record {
  flips = bytes_cmp-flip;
  equal = λ s t. (eq_of_bytes_cmp s t, λ e. ap (bytes_cmp s) (sym e) ∙ bytes_cmp_same s);
  trans = bytes_cmp_trans;
}

eq_of_match : (s t : List ℕ) → bytes_match s t ≡ true → s ≡ t
unfolding bytes_match bytes_eq
eq_of_match s t e = eq_of_bytes_cmp s t (ground arith)

pub match_same : (s : List ℕ) → bytes_match s s ≡ true
unfolding bytes_match bytes_eq
match_same s = rw (bytes_cmp_same s)

pub match_symm : (s t : List ℕ) → bytes_match s t ≡ bytes_match t s
unfolding bytes_match bytes_eq
match_symm s t = ground (arith, bytes_cmp-flip s t)

pub match_trans :
    (s t u : List ℕ) → bytes_match s t ≡ true → bytes_match t u ≡ true → bytes_match s u ≡ true
match_trans s t u p q = rw (eq_of_match s t p) q

-- Strings that match have the same hash, for every seed.
pub bytes_hash-match :
    (seed s t : List ℕ) → bytes_match s t ≡ true → bytes_hash seed s ≡ bytes_hash seed t
bytes_hash-match seed s t e = ap (bytes_hash seed) (eq_of_match s t e)

-- The callbacks of `ATM_STR_T` are what a dictionary asks of a key type.
abbrev pub str_key : List ℕ → KeyType (List ℕ)
str_key seed = record {
  match = bytes_match;
  hash = bytes_hash seed;
  match_refl = match_same;
  match_symm = match_symm;
  match_trans = match_trans;
  hash-match = bytes_hash-match seed;
}

lower_map : (s : List ℕ) → str_tolower s ≡ map siptlw s
unfolding str_tolower siptlw
lower_map s = refl

-- Strings that `atm_str_tolower` makes the same have the same hash without case, for every seed.
pub siphash_nocase-tolower :
    (seed s t : List ℕ)
    → str_tolower s ≡ str_tolower t
    → siphash_nocase seed s ≡ siphash_nocase seed t
siphash_nocase-tolower seed s t e =
    siphash_nocase-lower seed s
    ∙ ap (siphash seed) (sym (lower_map s) ∙ e ∙ lower_map t)
    ∙ sym (siphash_nocase-lower seed t)
