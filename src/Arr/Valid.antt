-- ===== src/Arr/Valid.antt =====
-- When an array of src/core/atm_arr.c stands for a sequence of elements.
use native.Mathlib.Nat.{mul-le-mul_right, mul_comm}
use atm_cache.Base.{
  ℕ, ◌+◌, ◌*◌, ◌≤◌, ◌<◌, ◌≡◌, refl, true, false, ap, sym, ◌∙◌, List, [], ◌∷◌, ◌++◌, arith, length,
  length-append, length-replicate, take, drop, replicate, u32_mod, mul32, mul32_small, some, ltb,
  ◌==◌,
}
use atm_cache.Str.Cat.{take-front, drop-front}
use atm_cache.Arr.{Arr, arr_initial_len, arr_new, arr_get}

abbrev pub flat : List (List ℕ) → List ℕ
flat [] = []
flat (x ∷ xs) = x ++ flat xs

-- Every element has `t` bytes.
abbrev pub Sized : ℕ → List (List ℕ) → Type 0
Sized t [] = Unit {0}
Sized t (x ∷ xs) = (length x ≡ t) × Sized t xs

pub append_assoc : (xs ys zs : List ℕ) → (xs ++ ys) ++ zs ≡ xs ++ (ys ++ zs)
append_assoc [] ys zs = refl
append_assoc (x ∷ xs) ys zs = ap (λ l. x ∷ l) (append_assoc xs ys zs)

pub flat-append : (xs ys : List (List ℕ)) → flat (xs ++ ys) ≡ flat xs ++ flat ys
flat-append [] ys = refl
flat-append (x ∷ xs) ys =
    ap (λ l. x ++ l) (flat-append xs ys) ∙ sym (append_assoc x (flat xs) (flat ys))

pub length-flat : (t : ℕ) (xs : List (List ℕ)) → Sized t xs → length (flat xs) ≡ length xs * t
length-flat t [] s = omega arith
length-flat t (x ∷ xs) s = omega (arith, length-append x (flat xs), s.0, length-flat t xs s.1)

pub Sized-append : (t : ℕ) (xs ys : List (List ℕ)) → Sized t xs → Sized t ys → Sized t (xs ++ ys)
Sized-append t [] ys p q = q
Sized-append t (x ∷ xs) ys p q = (p.0, Sized-append t xs ys p.1 q)

pub Sized-parts :
    (t : ℕ) (xs : List (List ℕ)) (x : List ℕ) (ys : List (List ℕ))
    → Sized t (xs ++ x ∷ ys)
    → Sized t xs × (length x ≡ t) × Sized t ys
Sized-parts t [] x ys s = (tt, s.0, s.1)
Sized-parts t (w ∷ xs) x ys s = let (a, b, c) = Sized-parts t xs x ys s.1 in ((s.0, a), b, c)

-- The elements `xs` stand at the start of the block.
pub record IsArr (a : Arr) (xs : List (List ℕ)) : Type 0 where
  pub rest : List ℕ
  pub shape : a.vals ≡ flat xs ++ rest
  pub sized : Sized a.tsize xs
  pub counted : a.len ≡ length xs
  pub fits : length xs ≤ a.capacity
  pub room : length a.vals ≡ a.capacity * a.tsize
  pub some_room : arr_initial_len ≤ a.capacity
  pub some_size : 0 < a.tsize
  pub word : a.capacity * a.tsize < u32_mod

module _ {a : Arr} {xs : List (List ℕ)} (h : IsArr a xs) where
  pub rest_length : length xs * a.tsize + length h.rest ≡ a.capacity * a.tsize
  rest_length = omega (
    arith,
    ap length h.shape,
    length-append (flat xs) h.rest,
    length-flat a.tsize xs h.sized,
    h.room,
  )

  -- The offset of an element does not wrap.
  pub offset : (n : ℕ) → n ≤ a.capacity → mul32 n a.tsize ≡ n * a.tsize
  offset n le = mul32_small n a.tsize (omega (arith, mul-le-mul_right a.tsize le, h.word))

  pub offset_left : (n : ℕ) → n ≤ a.capacity → mul32 a.tsize n ≡ n * a.tsize
  offset_left n le =
      mul32_small a.tsize n (omega (arith, mul-le-mul_right a.tsize le, h.word, mul_comm a.tsize n))
      ∙ mul_comm a.tsize n

  pub capacity_word : a.capacity < u32_mod
  capacity_word =
      omega (arith, mul-le-mul_right a.capacity h.some_size, mul_comm a.capacity a.tsize, h.word)

-- A new array of elements of at least one byte has none.
pub arr_new-IsArr :
    (t : ℕ) → 0 < t → arr_initial_len * t < u32_mod → (a : Arr) × (arr_new t ≡ some a) × IsArr a []
unfolding arr_new
arr_new-IsArr t pos word =
    let test : (t == 0) ≡ false = ground arith in
    (
      record {
        vals = replicate (arr_initial_len * t) 0;
        capacity = arr_initial_len;
        len = 0;
        tsize = t;
      },
      rw test,
      record {
        rest = replicate (arr_initial_len * t) 0;
        shape = refl;
        sized = tt;
        counted = refl;
        fits = omega arith;
        room = length-replicate (arr_initial_len * t) 0;
        some_room = omega arith;
        some_size = pos;
        word = word;
      },
    )

pub elements-append : (xs ys : List (List ℕ)) → length (xs ++ ys) ≡ length xs + length ys
elements-append xs ys = length-append xs ys

pub block_parts :
    (xs : List (List ℕ)) (x : List ℕ) (ys : List (List ℕ)) (rest : List ℕ)
    → flat (xs ++ x ∷ ys) ++ rest ≡ flat xs ++ (x ++ (flat ys ++ rest))
block_parts xs x ys rest =
    ap (λ l. l ++ rest) (flat-append xs (x ∷ ys))
    ∙ append_assoc (flat xs) (x ++ flat ys) rest
    ∙ ap (λ l. flat xs ++ l) (append_assoc x (flat ys) rest)

-- The block around an element.
pub shape-at :
    (a : Arr) (xs : List (List ℕ)) (x : List ℕ) (ys : List (List ℕ)) (h : IsArr a (xs ++ x ∷ ys))
    → a.vals ≡ flat xs ++ (x ++ (flat ys ++ h.rest))
shape-at a xs x ys h = h.shape ∙ block_parts xs x ys h.rest

pub index-lt :
    (a : Arr) (xs : List (List ℕ)) (x : List ℕ) (ys : List (List ℕ))
    → IsArr a (xs ++ x ∷ ys)
    → (length xs < a.len) × (length xs < a.capacity) × (a.len ≡ length xs + 1 + length ys)
index-lt a xs x ys h =
    let total = elements-append xs (x ∷ ys) in
    (omega (arith, total, h.counted), omega (arith, total, h.fits), omega (arith, total, h.counted))

-- On an array that stands for `xs`, `x` and `ys`, a read at the index of `x` gives an offset at which
-- the bytes of `x` stand.
pub arr_get-element :
    (a : Arr) (xs : List (List ℕ)) (x : List ℕ) (ys : List (List ℕ))
    → IsArr a (xs ++ x ∷ ys)
    → (p : ℕ) × (arr_get a (length xs) ≡ some p) × (take a.tsize (drop p a.vals) ≡ x)
unfolding arr_get
arr_get-element a xs x ys h =
    let (inside, in_capacity, _) = index-lt a xs x ys h in
    let test : ltb (length xs) a.len ≡ true = ground (arith, inside) in
    let (before, size, _) = Sized-parts a.tsize xs x ys h.sized in
    let p : ℕ = mul32 a.tsize (length xs) in
    let at : p ≡ length (flat xs) + 0 = omega (
      arith,
      offset_left h (length xs) (omega (arith, in_capacity)),
      length-flat a.tsize xs before,
    ) in
    let found : drop p a.vals ≡ x ++ (flat ys ++ h.rest) =
      rw (at, shape-at a xs x ys h) (drop-front (flat xs) (x ++ (flat ys ++ h.rest)) 0) in
    (p, rw test, rw (found, sym size) (take-front x (flat ys ++ h.rest)))
