-- ===== src/Str/New.antt =====
-- `atm_str_new` of src/core/atm_str.c makes the string of the bytes that it is given.
use atm_cache.Base.{
  ℕ, suc, ◌+◌, ◌-◌, ◌<◌, ◌≡◌, refl, true, false, ◌==◌, ap, ◌∙◌, List, [], ◌∷◌, ◌++◌, arith, leb,
  length, length-append, length-replicate, drop, replicate, u32_mod, Returns,
}
use atm_cache.Str.Bytes.{StrHdr, hdrlen, add32, sub32, copy_to, str_size, str_new}
use atm_cache.Str.Cat.{NoNul, IsStr, drop-replicate, str_size-bounds, from_zero}

-- A new string has room for one byte more.
abbrev pub IsRoomy : StrHdr → List ℕ → Type 0
IsRoomy t s = IsStr t s × (length s < t.cap)

pub str_new-IsRoomy :
    (s : List ℕ) → NoNul s → length s + 17 < u32_mod → Returns (str_new s) (λ t. IsRoomy t s)
unfolding str_new copy_to str_size
str_new-IsRoomy [] c small = (
  record { cap = 7; len = 0; val = replicate 8 0 },
  refl,
  (
    (
      record { rest = replicate 7 0; shape = refl; clean = tt; room = refl; word = omega arith },
      refl,
    ),
    omega arith,
  ),
)
str_new-IsRoomy (b ∷ s) c small =
    let size : ℕ = str_size (add32 (add32 hdrlen (suc (length s))) 1) in
    let is : add32 (add32 hdrlen (suc (length s))) 1 ≡ length s + 10 = omega (arith, small) in
    let (lo, hi) =
      str_size-bounds (add32 (add32 hdrlen (suc (length s))) 1) (omega (arith, is))
        (omega (arith, is, small)) in
    let (k, d, left) = drop-replicate (suc (length s)) (size - hdrlen) (omega (arith, is, lo)) in
    let test : (length (b ∷ s) == 0) ≡ false = ground arith in
    let zeros = length-replicate {A = ℕ} (size - hdrlen) 0 in
    let inside : leb (0 + suc (length s)) (length {A = ℕ} (replicate (size - hdrlen) 0)) ≡ true =
      ground (arith, zeros, lo, is) in
    let d' : drop {A = ℕ} (0 + suc (length s)) (replicate (size - hdrlen) 0) ≡ 0 ∷ replicate k 0 =
      ap (λ m. drop {A = ℕ} m (replicate (size - hdrlen) 0)) (from_zero (suc (length s))) ∙ d in
    (
      record {
        cap = sub32 (sub32 size hdrlen) 1;
        len = suc (length s);
        val = (b ∷ s) ++ 0 ∷ replicate k 0;
      },
      rw (test, inside, d'),
      (
        (
          record {
            rest = replicate k 0;
            shape = refl;
            clean = c;
            room = omega (
              arith,
              length-append s (0 ∷ replicate k 0),
              length-replicate {A = ℕ} k 0,
              left,
              lo,
              hi,
              is,
              small,
            );
            word = omega (arith, lo, hi, is, small);
          },
          refl,
        ),
        omega (arith, lo, hi, is, small),
      ),
    )

-- A C string of fewer than 2 ^ 32 - 17 bytes: the call ends normally with its string.
pub str_new-IsStr :
    (s : List ℕ) → NoNul s → length s + 17 < u32_mod → Returns (str_new s) (λ t. IsStr t s)
str_new-IsStr s c small = let (t, made, roomy) = str_new-IsRoomy s c small in (t, made, roomy.0)
