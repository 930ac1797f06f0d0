-- ===== src/Arr/Add.antt =====
-- `atm_arr_add` of src/core/atm_arr.c puts an element at the end, and makes room for it first.
use native.Mathlib.Nat.{mul-le-mul_right, mul_comm}
use atm_cache.Base.{
  ℕ, suc, ◌+◌, ◌*◌, ◌/◌, ◌≤◌, ◌<◌, ◌≡◌, refl, Bool-cases, inl, inr, ap, sym, ◌∙◌, List, [], ◌∷◌,
  ◌++◌, arith, length, length-append, length-replicate, length-drop, take, drop, replicate, min,
  u32_mod, mul32, mul32_small, inc32, inc32_small, some, ltb, ok, Returns,
}
use atm_cache.Str.Bytes.{add32, sub32, copy_to}
use atm_cache.Arr.{Arr, realloc, arr_reserve, arr_add}
use atm_cache.Arr.Memory.{copy_to-after, append_nil}
use atm_cache.Arr.Valid.{
  flat, IsArr, append_assoc, flat-append, length-flat, Sized-append, rest_length, offset,
  offset_left, capacity_word, elements-append,
}

take_all : (v : List ℕ) → take (length v) v ≡ v
take_all [] = refl
take_all (b ∷ v) = ap (λ l. b ∷ l) (take_all v)

double : (n : ℕ) → n * 2 ≡ n + n
double n = omega arith

sum_mul : (c t : ℕ) → (c + c) * t ≡ 2 * (c * t)
sum_mul c t = omega (arith, mul_comm (c + c) t, mul_comm c t)

-- An array with room for one more element at least.
pub record Roomy (xs : List (List ℕ)) (t : ℕ) (a : Arr) : Type 0 where
  pub valid : IsArr a xs
  pub more : length xs < a.capacity
  pub same_size : a.tsize ≡ t

suc_mul : (n t : ℕ) → suc n * t ≡ n * t + t
suc_mul n t = omega (arith, mul_comm (suc n) t, mul_comm n t)

-- The element `v` after the others.
module _ (b : Arr) (xs : List (List ℕ)) (t : ℕ) (r : Roomy xs t b) (v : List ℕ)
    (size : length v ≡ t) where
  free : length v ≤ length r.valid.rest
  free = omega (
    arith,
    rest_length r.valid,
    mul-le-mul_right b.tsize r.more,
    suc_mul (length xs) b.tsize,
    size,
    r.same_size,
  )

  place-last : mul32 b.tsize b.len ≡ length (flat xs)
  place-last =
      rw (r.valid.counted) (offset_left r.valid (length xs) r.valid.fits)
      ∙ sym (length-flat b.tsize xs r.valid.sized)

  copied :
      copy_to b.vals (mul32 b.tsize b.len) v ≡ ok (flat xs ++ v ++ drop (length v) r.valid.rest)
  copied = rw (place-last, r.valid.shape) (copy_to-after (flat xs) r.valid.rest v free)

  added : Arr
  added = record b { vals = flat xs ++ v ++ drop (length v) r.valid.rest; len = inc32 b.len }

  added_len : inc32 b.len ≡ length xs + 1
  added_len =
      inc32_small b.len (omega (arith, r.valid.counted, r.more, capacity_word r.valid))
      ∙ ap (λ n. n + 1) r.valid.counted

  added_valid : IsArr added (xs ++ v ∷ [])
  unfolding added
  added_valid =
      let after : List ℕ = drop (length v) r.valid.rest in
      let total = length-append xs (v ∷ []) in
      record {
        rest = after;
        shape =
            ap (λ l. l ++ after)
              (ap (λ l. flat xs ++ l) (sym (append_nil v)) ∙ sym (flat-append xs (v ∷ [])));
        sized = Sized-append b.tsize xs (v ∷ []) r.valid.sized (size ∙ sym r.same_size, tt);
        counted = added_len ∙ sym (elements-append xs (v ∷ []));
        fits = omega (arith, r.more, elements-append xs (v ∷ []));
        room = omega (
          arith,
          length-append (flat xs ++ v) after,
          length-append (flat xs) v,
          length-drop (length v) r.valid.rest,
          free,
          rest_length r.valid,
          length-flat b.tsize xs r.valid.sized,
        );
        some_room = r.valid.some_room;
        some_size = r.valid.some_size;
        word = r.valid.word;
      }

module _ (a : Arr) (xs : List (List ℕ)) (h : IsArr a xs)
    (word : 2 * (a.capacity * a.tsize) < u32_mod) (small : 3 * a.capacity < u32_mod) where
  doubled : mul32 a.capacity 2 ≡ a.capacity + a.capacity
  doubled = mul32_small a.capacity 2 (omega (arith, small)) ∙ double a.capacity

  block : ℕ
  block = a.capacity * a.tsize

  realloc-vals :
      realloc a.vals (mul32 a.capacity a.tsize) (mul32 (mul32 a.capacity a.tsize) 2)
      ≡ ok (a.vals ++ drop (length a.vals) (replicate (2 * block) 0))
  unfolding realloc block
  realloc-vals =
      let small_block : mul32 a.capacity a.tsize ≡ block = offset h a.capacity (omega arith) in
      let big_block : mul32 block 2 ≡ 2 * block =
        mul32_small block 2 (omega (arith, word)) ∙ mul_comm block 2 in
      let least : min block (2 * block) ≡ length a.vals = omega (arith, h.room) in
      let zeros = length-replicate {A = ℕ} (2 * block) 0 in
      rw (small_block, big_block, least, take_all a.vals)
        (copy_to-after [] (replicate (2 * block) 0) a.vals (omega (arith, zeros, h.room)))

  grown_valid :
      IsArr
        (record a {
          vals = a.vals ++ drop (length a.vals) (replicate (2 * block) 0);
          capacity = mul32 a.capacity 2;
        })
        xs
  unfolding block
  grown_valid =
      let zeros = length-replicate {A = ℕ} (2 * block) 0 in
      let twice : mul32 a.capacity 2 ≡ a.capacity + a.capacity = doubled in
      let bytes : mul32 a.capacity 2 * a.tsize ≡ 2 * block =
        ap (λ c. c * a.tsize) twice ∙ sum_mul a.capacity a.tsize in
      record {
        rest = h.rest ++ drop (length a.vals) (replicate (2 * block) 0);
        shape =
            ap (λ l. l ++ drop (length a.vals) (replicate (2 * block) 0)) h.shape
            ∙ append_assoc (flat xs) h.rest (drop (length a.vals) (replicate (2 * block) 0));
        sized = h.sized;
        counted = h.counted;
        fits = omega (arith, h.fits, twice);
        room = omega (
          arith,
          length-append a.vals (drop (length a.vals) (replicate {A = ℕ} (2 * block) 0)),
          length-drop (length a.vals) (replicate {A = ℕ} (2 * block) 0),
          zeros,
          h.room,
          bytes,
        );
        some_room = omega (arith, h.some_room, twice);
        some_size = h.some_size;
        word = omega (arith, bytes, word);
      }

  arr_reserve-Roomy : Returns (arr_reserve a) (Roomy xs a.tsize)
  unfolding arr_reserve
  arr_reserve-Roomy =
      let third : mul32 a.len 3 ≡ a.len * 3 =
        mul32_small a.len 3 (omega (arith, h.counted, h.fits, small)) in
      elim (Bool-cases (ltb a.capacity (add32 (mul32 a.len 3 / 2) 1))) [
        | inl full ↦ (
          record a {
            vals = a.vals ++ drop (length a.vals) (replicate (2 * block) 0);
            capacity = mul32 a.capacity 2;
          },
          rw (full, realloc-vals),
          record {
            valid = grown_valid;
            more = omega (arith, doubled, h.fits, h.some_room);
            same_size = refl;
          },
        )
        | inr room ↦ (
          a,
          rw room,
          record {
            valid = h;
            more = ground (arith, third, h.counted, h.fits, small);
            same_size = refl;
          },
        )
      ]

  -- An array of fewer than 2 ^ 31 bytes and 2 ^ 32 / 3 elements that stands for `xs`: the call ends
  -- normally with the index of the new element, and the array then stands for `xs` with the element
  -- at the end.
  pub arr_add-IsArr :
      (v : List ℕ)
      → length v ≡ a.tsize
      → Returns (arr_add a (some v)) (λ r. (r.0 ≡ length xs) × IsArr r.1 (xs ++ v ∷ []))
  unfolding arr_add added
  arr_add-IsArr v size =
      let (b, run, r) = arr_reserve-Roomy in
      (
        (sub32 (inc32 b.len) 1, added b xs a.tsize r v size),
        rw (run, copied b xs a.tsize r v size),
        (
          omega (arith, added_len b xs a.tsize r v size, r.more, capacity_word r.valid),
          added_valid b xs a.tsize r v size,
        ),
      )
