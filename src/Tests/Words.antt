-- ===== src/Tests/Words.antt =====
-- Keys that are numbers, compared and hashed by themselves, as the callbacks of an `atm_T_t`.
use atm_cache.Base.{ℕ, ◌≡◌, ◌==◌, true, arith}
use atm_cache.Dict.Key.{KeyType}

pub word_symm : (a b : ℕ) → a == b ≡ b == a
word_symm a b = ground arith

pub word_trans : (a b c : ℕ) → (a == b) ≡ true → (b == c) ≡ true → (a == c) ≡ true
word_trans a b c p q = ground arith

pub word_refl : (a : ℕ) → (a == a) ≡ true
word_refl a = ground arith

pub word_hash : (a b : ℕ) → (a == b) ≡ true → a ≡ b
word_hash a b p = ground arith

instance abbrev pub word_key : KeyType ℕ
word_key = record {
  match = ◌==◌;
  hash = λ a. a;
  match_refl = word_refl;
  match_symm = word_symm;
  match_trans = word_trans;
  hash-match = word_hash;
}
