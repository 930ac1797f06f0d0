-- ===== src/Arr/Delete.antt =====
-- `atm_arr_set` and `atm_arr_del` of src/core/atm_arr.c at the index of an element that is there.
use native.Mathlib.Nat.{mul-le-mul_right, mul_comm}
use atm_cache.Base.{
  ℕ, ◌+◌, ◌*◌, ◌/◌, ◌≤◌, ◌<◌, ◌≡◌, refl, true, ap, sym, ◌∙◌, List, [], ◌∷◌, ◌++◌, arith, length,
  length-append, length-replicate, length-drop, drop, replicate, u32_mod, mul32, mul32_small, inc32,
  inc32_small, ltb, ok, Returns,
}
use atm_cache.Str.Bytes.{sub32, copy_to}
use atm_cache.Str.Cat.{drop-front}
use atm_cache.Arr.{Arr, arr_initial_len, arr_set, arr_del, copy_some, new_capacity}
use atm_cache.Arr.Memory.{copy_to-after, copy_some-after}
use atm_cache.Arr.Valid.{
  flat, Sized, IsArr, append_assoc, block_parts, flat-append, length-flat, Sized-append,
  Sized-parts, offset, elements-append, shape-at, index-lt,
}

add_mul : (n m t : ℕ) → (n + m) * t ≡ n * t + m * t
add_mul n m t = omega (arith, mul_comm (n + m) t, mul_comm n t, mul_comm m t)

from_left : (n : ℕ) → n ≡ n + 0
from_left n = omega arith

-- Room `c` after a deletion: half of what it was when the elements, the deleted one counted, took less
-- than a quarter of room for 64 elements or more, and as it was otherwise.
abbrev pub IsShrunk : Arr → ℕ → Type 0
IsShrunk a c =
    (4 * a.len < a.capacity → 64 ≤ a.capacity → c ≡ a.capacity / 2)
    × (a.capacity ≤ 4 * a.len → c ≡ a.capacity)
    × (a.capacity < 64 → c ≡ a.capacity)

module _ (a : Arr) (xs : List (List ℕ)) (x : List ℕ) (ys : List (List ℕ))
    (h : IsArr a (xs ++ x ∷ ys)) where
  before : Sized a.tsize xs
  before = (Sized-parts a.tsize xs x ys h.sized).0

  after : Sized a.tsize ys
  after = (Sized-parts a.tsize xs x ys h.sized).2

  size_x : length x ≡ a.tsize
  size_x = (Sized-parts a.tsize xs x ys h.sized).1

  there : ltb (length xs) a.len ≡ true
  there = ground (arith, (index-lt a xs x ys h).0)

  place-at : mul32 (length xs) a.tsize ≡ length (flat xs)
  place-at =
      offset h (length xs) (omega (arith, (index-lt a xs x ys h).1))
      ∙ sym (length-flat a.tsize xs before)

  past : (n : ℕ) → n ≡ length x → drop n (x ++ (flat ys ++ h.rest)) ≡ flat ys ++ h.rest
  past n e =
      ap (λ m. drop m (x ++ (flat ys ++ h.rest))) (e ∙ from_left (length x))
      ∙ drop-front x (flat ys ++ h.rest) 0

  module _ (v : List ℕ) (size : length v ≡ a.tsize) where
    same_place :
        copy_to a.vals (mul32 (length xs) a.tsize) v ≡ ok (flat xs ++ v ++ (flat ys ++ h.rest))
    same_place =
        rw (place-at, shape-at a xs x ys h)
          (copy_to-after (flat xs) (x ++ (flat ys ++ h.rest)) v
              (omega (arith, size, size_x, length-append x (flat ys ++ h.rest)))
            ∙ ap (λ l. ok (flat xs ++ v ++ l)) (past (length v) (size ∙ sym size_x)))

    -- An array that stands for `xs`, `x` and `ys`: a write at the index of `x` ends normally and
    -- returns `ATM_OK`, and the array then has the new bytes in place of `x`.
    pub arr_set-IsArr :
        Returns (arr_set a (length xs) v) (λ r. (r.0 ≡ true) × IsArr r.1 (xs ++ v ∷ ys))
    unfolding arr_set
    arr_set-IsArr = (
      (true, record a { vals = flat xs ++ v ++ (flat ys ++ h.rest) }),
      rw (there, same_place),
      (
        refl,
        record {
          rest = h.rest;
          shape = append_assoc (flat xs) v (flat ys ++ h.rest) ∙ sym (block_parts xs v ys h.rest);
          sized = Sized-append a.tsize xs (v ∷ ys) before (size, after);
          counted = h.counted ∙ elements-append xs (x ∷ ys) ∙ sym (elements-append xs (v ∷ ys));
          fits = omega (arith, h.fits, elements-append xs (x ∷ ys), elements-append xs (v ∷ ys));
          room = omega (
            arith,
            length-append (flat xs ++ v) (flat ys ++ h.rest),
            length-append (flat xs) v,
            length-append (flat xs) (x ++ (flat ys ++ h.rest)),
            length-append x (flat ys ++ h.rest),
            ap length (shape-at a xs x ys h),
            h.room,
            size,
            size_x,
          );
          some_room = h.some_room;
          some_size = h.some_size;
          word = h.word;
        },
      ),
    )

  module _ (small : 4 * a.capacity < u32_mod) where
    -- The block that the others go to.
    zeros : List ℕ
    zeros = replicate (new_capacity a * a.tsize) 0

    kept_len : a.len ≡ length xs + 1 + length ys
    kept_len = (index-lt a xs x ys h).2

    in_capacity : length xs + 1 + length ys ≤ a.capacity
    in_capacity = omega (arith, h.fits, h.counted, kept_len)

    quarter : mul32 a.len 4 ≡ a.len * 4
    quarter = mul32_small a.len 4 (omega (arith, kept_len, in_capacity, small))

    capacity_enough :
        (length xs + length ys ≤ new_capacity a)
        × (arr_initial_len ≤ new_capacity a)
        × (new_capacity a ≤ a.capacity)
    capacity_enough = (
      ground (arith, quarter, kept_len, in_capacity),
      ground (arith, quarter, h.some_room, mul32_small arr_initial_len 2 (omega arith)),
      ground arith,
    )

    shrinks : IsShrunk a (new_capacity a)
    shrinks = (
      λ p q. ground (arith, quarter, mul32_small arr_initial_len 2 (omega arith)),
      λ p. ground (arith, quarter),
      λ p. ground (arith, mul32_small arr_initial_len 2 (omega arith)),
    )

    zeros-length : length zeros ≡ new_capacity a * a.tsize
    unfolding zeros
    zeros-length = length-replicate {A = ℕ} (new_capacity a * a.tsize) 0

    enough : length (flat xs) + length (flat ys) ≤ length zeros
    enough = omega (
      arith,
      zeros-length,
      length-flat a.tsize xs before,
      length-flat a.tsize ys after,
      mul-le-mul_right a.tsize capacity_enough.0,
      add_mul (length xs) (length ys) a.tsize,
    )

    head_copied :
        copy_some (mul32 (length xs) a.tsize) zeros 0 a.vals
        ≡ ok (flat xs ++ drop (length (flat xs)) zeros)
    head_copied =
        rw (place-at, shape-at a xs x ys h)
          (copy_some-after [] zeros (flat xs) (x ++ (flat ys ++ h.rest)) (omega (arith, enough)))

    tail_length : mul32 (sub32 (sub32 a.len 1) (length xs)) a.tsize ≡ length (flat ys)
    tail_length =
        let is : sub32 (sub32 a.len 1) (length xs) ≡ length ys =
          omega (arith, kept_len, in_capacity, small) in
        ap (λ n. mul32 n a.tsize) is
        ∙ offset h (length ys) (omega (arith, in_capacity))
        ∙ sym (length-flat a.tsize ys after)

    tail_source : drop (mul32 (inc32 (length xs)) a.tsize) a.vals ≡ flat ys ++ h.rest
    tail_source =
        let next : inc32 (length xs) ≡ length xs + 1 =
          inc32_small (length xs) (omega (arith, in_capacity, small)) in
        let place : mul32 (inc32 (length xs)) a.tsize ≡ length (flat xs) + length x =
          ap (λ n. mul32 n a.tsize) next
          ∙ offset h (length xs + 1) (omega (arith, in_capacity))
          ∙ omega (arith, add_mul (length xs) 1 a.tsize, length-flat a.tsize xs before, size_x) in
        rw (place, shape-at a xs x ys h)
          (drop-front (flat xs) (x ++ (flat ys ++ h.rest)) (length x) ∙ past (length x) refl)

    tail_copied :
        copy_some
          (mul32 (sub32 (sub32 a.len 1) (length xs)) a.tsize)
          (flat xs ++ drop (length (flat xs)) zeros)
          (mul32 (length xs) a.tsize)
          (drop (mul32 (inc32 (length xs)) a.tsize) a.vals)
        ≡ ok (flat xs ++ flat ys ++ drop (length (flat ys)) (drop (length (flat xs)) zeros))
    tail_copied =
        rw (place-at, tail_length, tail_source)
          (copy_some-after (flat xs) (drop (length (flat xs)) zeros) (flat ys) h.rest
            (omega (arith, enough, length-drop (length (flat xs)) zeros)))

    -- An array with room for fewer than 2 ^ 30 elements that stands for `xs`, `x` and `ys`: a deletion at the
    -- index of `x` ends normally and returns `ATM_OK`, and the array then stands for `xs` and `ys`. Its
    -- room is half of what it was if that was for 64 elements or more and the elements took less than
    -- a quarter of it, and as it was otherwise.
    pub arr_del-IsArr :
        Returns
          (arr_del a (length xs))
          (λ r. (r.0 ≡ true) × IsArr r.1 (xs ++ ys) × IsShrunk a r.1.capacity)
    unfolding arr_del zeros
    arr_del-IsArr =
        let left : List ℕ = drop (length (flat ys)) (drop (length (flat xs)) zeros) in
        (
          (
            true,
            record a {
              vals = flat xs ++ flat ys ++ left;
              len = sub32 a.len 1;
              capacity = new_capacity a;
            },
          ),
          rw (there, head_copied, tail_copied),
          (
            refl,
            record {
              rest = left;
              shape = ap (λ l. l ++ left) (sym (flat-append xs ys));
              sized = Sized-append a.tsize xs ys before after;
              counted = omega (arith, kept_len, in_capacity, small, elements-append xs ys);
              fits = omega (arith, capacity_enough.0, elements-append xs ys);
              room = omega (
                arith,
                length-append (flat xs ++ flat ys) left,
                length-append (flat xs) (flat ys),
                length-drop (length (flat ys)) (drop (length (flat xs)) zeros),
                length-drop (length (flat xs)) zeros,
                enough,
                zeros-length,
              );
              some_room = capacity_enough.1;
              some_size = h.some_size;
              word = omega (arith, mul-le-mul_right a.tsize capacity_enough.2, h.word);
            },
            shrinks,
          ),
        )
