-- ===== src/Str/Sorted.antt =====
-- Strings of src/core/atm_str.c whose length says how many bytes they have are compared and hashed by
-- these bytes.
use atm_cache.Base.{
  ℕ, ◌≡◌, refl, ap, sym, ◌∙◌, ◌↔◌, Bool, true, false, List, [], ◌∷◌, ◌++◌, arith, ltb, leb, length,
  length-append, take, Run, ok, ◌>>=◌, if◌then◌else◌,
}
use atm_cache.Str.{
  Cmp, cmp_lt, cmp_eq, cmp_gt, strcmp, is_eq, bytes_cmp, bytes_eq, bytes_match, bytes_hash,
}
use atm_cache.Siphash.{siphash}
use atm_cache.Str.Order.{flip, bytes_cmp-IsOrder, bytes_hash-match}
use atm_cache.Str.Bytes.{StrHdr, c_string}
use atm_cache.Str.Cat.{NoNul, IsStr, take-front}
use atm_cache.Str.Compare.{block_cmp, str_cmp, str_eq, str_match, str_hash}

stops : (xs r : List ℕ) → NoNul xs → c_string (xs ++ 0 ∷ r) ≡ ok xs
unfolding c_string
stops [] r h = refl
stops (x ∷ xs) r h = rw (stops xs r h.1) (ground (arith, h.0))

block_of : (s : StrHdr) (xs : List ℕ) → IsStr s xs → c_string s.val ≡ ok xs
block_of s xs h = ap c_string h.0.shape ∙ stops xs h.0.rest h.0.clean

tests :
    (a b : Bool) (c : Cmp)
    → (if a then ok cmp_gt else if b then ok cmp_lt else ok c)
      ≡ ok (if a then cmp_gt else if b then cmp_lt else c)
tests true b c = refl
tests false true c = refl
tests false false c = refl

-- For strings whose length says how many bytes they have.
pub str_cmp-bytes_cmp :
    (s t : StrHdr) (xs ys : List ℕ) → IsStr s xs → IsStr t ys → str_cmp s t ≡ ok (bytes_cmp xs ys)
unfolding str_cmp block_cmp bytes_cmp
str_cmp-bytes_cmp s t xs ys h g =
    let bytes : block_cmp s.val t.val ≡ ok (strcmp xs ys) =
      rw (block_of s xs h, block_of t ys g) refl in
    rw (h.1, g.1, bytes)
      (tests (ltb (length ys) (length xs)) (ltb (length xs) (length ys)) (strcmp xs ys))

str_match-bytes_match :
    (s t : StrHdr) (xs ys : List ℕ)
    → IsStr s xs
    → IsStr t ys
    → str_match s t ≡ ok (bytes_match xs ys)
unfolding str_match str_eq bytes_match bytes_eq
str_match-bytes_match s t xs ys h g =
    ap (λ r. r >>= λ c. ok (is_eq c)) (str_cmp-bytes_cmp s t xs ys h g)

pub str_hash-bytes_hash :
    (seed : List ℕ) (s : StrHdr) (xs : List ℕ)
    → IsStr s xs
    → str_hash seed s ≡ ok (bytes_hash seed xs)
unfolding str_hash bytes_hash
str_hash-bytes_hash seed s xs h =
    let inside : leb s.len (length s.val) ≡ true =
      ground (arith, h.1, ap length h.0.shape, length-append xs (0 ∷ h.0.rest)) in
    let bytes : take s.len s.val ≡ xs =
      ap (λ n. take n s.val) h.1
      ∙ ap (λ v. take (length xs) v) h.0.shape
      ∙ take-front xs (0 ∷ h.0.rest) in
    rw (inside, bytes) refl

same_result : {A : Type 0} {a b : A} (r : Run A) → r ≡ ok a → r ≡ ok b → a ≡ b
same_result r p q = cc (p, q)

-- For three strings whose length says how many bytes they have: a comparison ends normally, its two
-- directions agree, it is transitive, and two strings compare as equal if and only if their bytes are.
pub str_cmp-IsTotal :
    (s t u : StrHdr) (xs ys zs : List ℕ)
    → IsStr s xs
    → IsStr t ys
    → IsStr u zs
    → (c : Cmp) × (str_cmp s t ≡ ok c)
      × (str_cmp t s ≡ ok (flip c))
      × ((c ≡ cmp_eq) ↔ (xs ≡ ys))
      × (str_cmp s t ≡ ok cmp_lt → str_cmp t u ≡ ok cmp_lt → str_cmp s u ≡ ok cmp_lt)
str_cmp-IsTotal s t u xs ys zs h g k =
    let st = str_cmp-bytes_cmp s t xs ys h g in
    let tu = str_cmp-bytes_cmp t u ys zs g k in
    let o = bytes_cmp-IsOrder in
    (
      bytes_cmp xs ys,
      st,
      str_cmp-bytes_cmp t s ys xs g h ∙ ap (λ c. ok c) (o.flips xs ys),
      o.equal xs ys,
      λ p q.
          str_cmp-bytes_cmp s u xs zs h k
          ∙ ap (λ c. ok c)
              (o.trans xs ys zs (same_result (str_cmp s t) st p) (same_result (str_cmp t u) tu q)),
    )

-- Two strings whose length says how many bytes they have, and which match: both hashes end normally,
-- within the block, with the hash of the bytes of either, for every seed.
pub str_hash-match :
    (seed : List ℕ) (s t : StrHdr) (xs ys : List ℕ)
    → IsStr s xs
    → IsStr t ys
    → str_match s t ≡ ok true
    → (str_hash seed s ≡ ok (siphash seed ys)) × (str_hash seed t ≡ ok (siphash seed xs))
unfolding bytes_hash
str_hash-match seed s t xs ys h g e =
    let same : bytes_hash seed xs ≡ bytes_hash seed ys =
      bytes_hash-match seed xs ys
        (same_result (str_match s t) (str_match-bytes_match s t xs ys h g) e) in
    (
      str_hash-bytes_hash seed s xs h ∙ ap (λ n. ok n) same,
      str_hash-bytes_hash seed t ys g ∙ ap (λ n. ok n) (sym same),
    )
