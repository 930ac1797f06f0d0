-- ===== src/Str/Cat.antt =====
-- What `atm_str_cats` of src/core/atm_str.c does to the bytes and to the length.
use atm_cache.Base.{
  ℕ, zero, suc, ◌+◌, ◌-◌, ◌≤◌, ◌<◌, ◌≡◌, ◌≢◌, refl, true, false, ap, ◌∙◌, List, [], ◌∷◌, ◌++◌,
  arith, ltb, leb, length, length-append, length-replicate, length-drop, take, drop, replicate,
  u32_mod, ok, stop, out_of_bounds, Returns,
}
use atm_cache.Str.Bytes.{StrHdr, hdrlen, add32, sub32, copy_to, strlen, strcat, str_size, grow_some}

abbrev pub NoNul : List ℕ → Type 0
NoNul [] = Unit {0}
NoNul (c ∷ s) = (c ≢ 0) × NoNul s

-- The bytes `xs` stand in the block with a NUL after them, and the length may say something else.
pub record Holds (s : StrHdr) (xs : List ℕ) : Type 0 where
  pub rest : List ℕ
  pub shape : s.val ≡ xs ++ 0 ∷ rest
  pub clean : NoNul xs
  pub room : length s.val ≡ s.cap + 1
  pub word : s.cap + 9 < u32_mod

-- The string is `xs`, and its length says so.
abbrev pub IsStr : StrHdr → List ℕ → Type 0
IsStr s xs = Holds s xs × (s.len ≡ length xs)

pub strlen-shape : (xs r : List ℕ) → NoNul xs → strlen (xs ++ 0 ∷ r) ≡ ok (length xs)
unfolding strlen
strlen-shape [] r c = refl
strlen-shape (x ∷ xs) r c = rw (strlen-shape xs r c.1) (ground (arith, c.0))

pub take-front : (xs r : List ℕ) → take (length xs) (xs ++ r) ≡ xs
take-front [] r = refl
take-front (x ∷ xs) r = ap (λ l. x ∷ l) (take-front xs r)

pub drop-front : (xs r : List ℕ) (n : ℕ) → drop (length xs + n) (xs ++ r) ≡ drop n r
drop-front [] r n = let e : 0 + n ≡ n = omega arith in ap (λ m. drop m r) e
drop-front (x ∷ xs) r n =
    let e : suc (length xs) + n ≡ suc (length xs + n) = omega arith in
    ap (λ m. drop m (x ∷ (xs ++ r))) e ∙ drop-front xs r n

NoNul-append : (xs ys : List ℕ) → NoNul xs → NoNul ys → NoNul (xs ++ ys)
NoNul-append [] ys p q = q
NoNul-append (x ∷ xs) ys p q = (p.0, NoNul-append xs ys p.1 q)

pub from_zero : (n : ℕ) → 0 + n ≡ n
from_zero n = omega arith

one_more : (n : ℕ) → n + 1 ≡ suc n
one_more n = omega arith

-- `strcat` where the block has room.
pub strcat-room :
    (xs r src : List ℕ)
    → NoNul xs
    → length src ≤ length r
    → strcat (xs ++ 0 ∷ r) src ≡ ok (xs ++ (src ++ 0 ∷ []) ++ drop (length src) r)
unfolding strcat copy_to
strcat-room xs r src c fits =
    let total = length-append xs (0 ∷ r) in
    let added = length-append src (0 ∷ []) in
    let inside : leb (length xs + length (src ++ 0 ∷ [])) (length (xs ++ 0 ∷ r)) ≡ true =
      ground (arith, total, added) in
    let past : drop (length xs + length (src ++ 0 ∷ [])) (xs ++ 0 ∷ r) ≡ drop (length src) r =
      drop-front xs (0 ∷ r) (length (src ++ 0 ∷ []))
      ∙ ap (λ m. drop m (0 ∷ r)) (added ∙ one_more (length src)) in
    rw (strlen-shape xs r c, inside, take-front xs (0 ∷ r), past)

-- The block after `strcat` holds both.
joined : (xs src r : List ℕ) → xs ++ (src ++ 0 ∷ []) ++ r ≡ (xs ++ src) ++ 0 ∷ r
joined [] [] r = refl
joined [] (c ∷ src) r = ap (λ l. c ∷ l) (joined [] src r)
joined (x ∷ xs) src r = ap (λ l. x ∷ l) (joined xs src r)

pub catenated :
    (s : StrHdr) (xs src : List ℕ)
    → Holds s xs
    → NoNul src
    → length xs + length src ≤ s.cap
    → Returns (strcat s.val src) (λ v. (n : ℕ) → Holds (record s { val = v; len = n }) (xs ++ src))
catenated s xs src h c fits =
    let total = length-append xs (0 ∷ h.rest) in
    let long : length src ≤ length h.rest = omega (arith, ap length h.shape, h.room, total, fits) in
    (
      xs ++ (src ++ 0 ∷ []) ++ drop (length src) h.rest,
      rw h.shape (strcat-room xs h.rest src h.clean long),
      λ n. record {
        rest = drop (length src) h.rest;
        shape = joined xs src (drop (length src) h.rest);
        clean = NoNul-append xs src h.clean c;
        room = rw (joined xs src (drop (length src) h.rest)) (
            omega (
              arith,
              length-append (xs ++ src) (0 ∷ drop (length src) h.rest),
              length-append xs src,
              length-drop (length src) h.rest,
              total,
              ap length h.shape,
              h.room,
              long,
            ));
        word = h.word;
      },
    )

pub drop-replicate :
    (n m : ℕ)
    → n < m
    → (k : ℕ) × (drop {A = ℕ} n (replicate m 0) ≡ 0 ∷ replicate k 0) × (n + 1 + k ≡ m)
drop-replicate n zero h = absurd (omega arith)
drop-replicate zero (suc m) h = (m, refl, omega arith)
drop-replicate (suc n) (suc m) h =
    let (k, d, e) = drop-replicate n m (omega arith) in (k, d, omega (arith, e))

pub str_size-bounds : (n : ℕ) → 0 < n → n + 8 < u32_mod → (n < str_size n) × (str_size n ≤ n + 8)
unfolding str_size
str_size-bounds n p h = (ground arith, ground arith)

module _ (s : StrHdr) (xs : List ℕ) (h : IsStr s xs) (n : ℕ)
    (small : length xs + n + 17 < u32_mod) where
  grown_size : ℕ
  grown_size = str_size (add32 (add32 hdrlen (add32 s.len n)) 1)

  size_in : (length xs + n + 9 < grown_size) × (grown_size ≤ length xs + n + 17)
  unfolding grown_size
  size_in =
      let is : add32 (add32 hdrlen (add32 s.len n)) 1 ≡ length xs + n + 9 = omega (arith, h.1) in
      let (lo, hi) = str_size-bounds (length xs + n + 9) (omega arith) (omega (arith, small)) in
      rw is (omega (arith, lo), omega (arith, hi))

  -- What a growth by `n` makes of the string.
  pub record Grown (t : StrHdr) : Type 0 where
    pub holds : Holds t xs
    pub len_is : t.len ≡ length xs + n
    pub fits : length xs + n ≤ t.cap

  pub grow_some-Grown : s.cap < length xs + n → Returns (grow_some s n) Grown
  unfolding grow_some copy_to grown_size
  grow_some-Grown full =
      let (lo, hi) = size_in in
      let space : ℕ = grown_size - hdrlen in
      let total = length-append xs (0 ∷ h.0.rest) in
      let inside : s.len ≤ s.cap = omega (arith, h.1, total, ap length h.0.shape, h.0.room) in
      let test : ltb (sub32 s.cap s.len) n ≡ true = ground (arith, h.1, h.0.word, inside, full) in
      let taken : take s.len s.val ≡ xs = rw (h.1, h.0.shape) (take-front xs (0 ∷ h.0.rest)) in
      let zeros = length-replicate {A = ℕ} space 0 in
      let long : length xs + 1 < space = omega (arith, lo) in
      let room : leb (0 + length xs) (length {A = ℕ} (replicate space 0)) ≡ true =
        ground (arith, zeros, long) in
      let (k, d, left) = drop-replicate (length xs) space (omega (arith, long)) in
      let d' : drop {A = ℕ} (0 + length xs) (replicate space 0) ≡ 0 ∷ replicate k 0 =
        ap (λ m. drop {A = ℕ} m (replicate space 0)) (from_zero (length xs)) ∙ d in
      (
        record {
          cap = sub32 (sub32 grown_size hdrlen) 1;
          len = add32 s.len n;
          val = xs ++ 0 ∷ replicate k 0;
        },
        rw (test, taken, room, d'),
        record {
          holds = record {
            rest = replicate k 0;
            shape = refl;
            clean = h.0.clean;
            room = omega (
              arith,
              length-append xs (0 ∷ replicate k 0),
              length-replicate {A = ℕ} k 0,
              left,
              lo,
              hi,
              small,
            );
            word = omega (arith, lo, hi, small);
          };
          len_is = omega (arith, h.1, small);
          fits = omega (arith, lo, hi, small);
        },
      )

pub length-le-cap : (s : StrHdr) (xs : List ℕ) → Holds s xs → length xs ≤ s.cap
length-le-cap s xs h = omega (arith, length-append xs (0 ∷ h.rest), ap length h.shape, h.room)

pub grow_some-fits :
    (s : StrHdr) (n : ℕ)
    → s.len < u32_mod
    → s.cap < u32_mod
    → n ≤ sub32 s.cap s.len
    → grow_some s n ≡ ok s
unfolding grow_some
grow_some-fits s n len cap fits =
    let test : ltb (sub32 s.cap s.len) n ≡ false = ground (arith, fits) in rw test

-- `strcat` where the block has no room.
pub strcat-full :
    (s : StrHdr) (xs src : List ℕ)
    → Holds s xs
    → s.cap < length xs + length src
    → strcat s.val src ≡ stop out_of_bounds
unfolding strcat copy_to
strcat-full s xs src h full =
    let added = length-append src (0 ∷ []) in
    let counted : strlen s.val ≡ ok (length xs) = rw h.shape (strlen-shape xs h.rest h.clean) in
    let outside : leb (length xs + length (src ++ 0 ∷ [])) (length s.val) ≡ false =
      ground (arith, h.room, added, full) in
    rw (counted, outside)
