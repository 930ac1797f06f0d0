-- ===== src/Arr/Memory.antt =====
-- What a copy to a block does where the block is put together from parts.
use atm_cache.Base.{
  ℕ, ◌+◌, ◌≤◌, ◌≡◌, refl, true, false, ap, List, [], ◌∷◌, ◌++◌, arith, leb, ◌==◌, length,
  length-append, drop, ok,
}
use atm_cache.Str.Bytes.{copy_to}
use atm_cache.Str.Cat.{take-front, drop-front}
use atm_cache.Arr.{copy_some}

-- A copy to the place after `front`.
pub copy_to-after :
    (front back src : List ℕ)
    → length src ≤ length back
    → copy_to (front ++ back) (length front) src ≡ ok (front ++ src ++ drop (length src) back)
unfolding copy_to
copy_to-after front back src fits =
    let inside : leb (length front + length src) (length (front ++ back)) ≡ true =
      ground (arith, length-append front back, fits) in
    rw (inside, take-front front back, drop-front front back (length src))

pub append_nil : (xs : List ℕ) → xs ++ [] ≡ xs
append_nil [] = refl
append_nil (x ∷ xs) = ap (λ l. x ∷ l) (append_nil xs)

pub copy_some-after :
    (front back src more : List ℕ)
    → length src ≤ length back
    → copy_some (length src) (front ++ back) (length front) (src ++ more)
      ≡ ok (front ++ src ++ drop (length src) back)
unfolding copy_some
copy_some-after front back [] more fits = rw (append_nil front)
copy_some-after front back (b ∷ src) more fits =
    let test : (length (b ∷ src) == 0) ≡ false = ground arith in
    rw (test, ap (λ l. b ∷ l) (take-front src more)) (copy_to-after front back (b ∷ src) fits)
