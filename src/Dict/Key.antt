-- ===== src/Dict/Key.antt =====
-- The callbacks `match` and `hash` of a key's `atm_T_t` (src/core/atm_core.h), with what a hashed
-- container asks of them. Keys that match need not be the same value.
use atm_cache.Base.{ℕ, ◌≡◌, Bool, true, arith}

pub record KeyType (K : Type 0) : Type 0 where
  pub match : K → K → Bool
  pub hash : K → ℕ
  pub match_refl : (a : K) → match a a ≡ true
  pub match_symm : (a b : K) → match a b ≡ match b a
  pub match_trans : (a b c : K) → match a b ≡ true → match b c ≡ true → match a c ≡ true
  pub hash-match : (a b : K) → match a b ≡ true → hash a ≡ hash b

module _ {K : Type 0} ⦃key : KeyType K⦄ where
  infix 50 ◌~◌
  abbrev pub ◌~◌ : K → K → Bool
  a ~ b = key.match a b

  pub ~_congr_left : (a b c : K) → (a ~ b) ≡ true → a ~ c ≡ b ~ c
  ~_congr_left a b c e =
      ground (arith, key.match_symm a b, key.match_trans a b c, key.match_trans b a c)

  pub ~_congr_right : (a b c : K) → (b ~ c) ≡ true → a ~ b ≡ a ~ c
  ~_congr_right a b c e = ground (arith, key.match_symm a b, key.match_symm a c, ~_congr_left b c a)
