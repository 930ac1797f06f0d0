-- ===== src/Buf/Take.antt =====
-- What a round of the reading loops of src/core/atm_buf.c takes from a buffer.
use atm_cache.Base.{
  ℕ, zero, suc, ◌+◌, ◌-◌, ◌%◌, ◌≤◌, ◌<◌, ◌≡◌, refl, ap, sym, ◌∙◌, true, Option, none, some, List,
  [], ◌∷◌, ◌++◌, ◌&&◌, arith, length, length-append, length-drop, take, drop, leb, ltb, ltb→lt, ok,
  Bool-cases, ◌⊎◌, inl, inr, ◌==◌,
}
use mathlib.Core.Path.{subst}
use atm_cache.Blk.{Blk}
use atm_cache.LinkedList.Spec.{first}
use atm_cache.Buf.{Pooled, u64_mod, readable, get_rblk, skip_bytes, set_first, copy_from}
use atm_cache.Buf.Valid.{
  blk_bytes, bytes_of, contents, IsBlk, FullBefore, AreLater, AreBlks, IsBuf, blk_free-IsPool,
  blk_bytes-none, length-blk_bytes,
}
use atm_cache.Buf.Fill.{drop-append}

pub take_nil : (n : ℕ) → take {A = ℕ} n [] ≡ []
take_nil zero = refl
take_nil (suc n) = refl

pub drop_nil : (n : ℕ) → drop {A = ℕ} n [] ≡ []
drop_nil zero = refl
drop_nil (suc n) = refl

pub drop-drop : (r n : ℕ) (xs : List ℕ) → drop (r + n) xs ≡ drop n (drop r xs)
drop-drop zero n xs = let e : 0 + n ≡ n = omega arith in ap (λ k. drop k xs) e
drop-drop (suc r) n [] = drop_nil (suc r + n) ∙ sym (drop_nil n)
drop-drop (suc r) n (x ∷ xs) =
    let e : suc r + n ≡ suc (r + n) = omega arith in ap (λ k. drop k (x ∷ xs)) e ∙ drop-drop r n xs

pub take-add : (l k : ℕ) (xs : List ℕ) → take (l + k) xs ≡ take l xs ++ take k (drop l xs)
take-add zero k xs = let e : 0 + k ≡ k = omega arith in ap (λ n. take n xs) e
take-add (suc l) k [] = take_nil (suc l + k) ∙ sym (take_nil k)
take-add (suc l) k (x ∷ xs) =
    let e : suc l + k ≡ suc (l + k) = omega arith in
    ap (λ n. take n (x ∷ xs)) e ∙ ap (λ t. x ∷ t) (take-add l k xs)

pub take-append : (n : ℕ) (xs ys : List ℕ) → n ≤ length xs → take n (xs ++ ys) ≡ take n xs
take-append zero xs ys h = refl
take-append (suc n) [] ys h = absurd (omega arith)
take-append (suc n) (x ∷ xs) ys h = ap (λ t. x ∷ t) (take-append n xs ys (omega arith))

pub take-take : (n k : ℕ) (xs : List ℕ) → n ≤ k → take n (take k xs) ≡ take n xs
take-take zero k xs h = refl
take-take (suc n) zero xs h = absurd (omega arith)
take-take (suc n) (suc k) [] h = refl
take-take (suc n) (suc k) (x ∷ xs) h = ap (λ t. x ∷ t) (take-take n k xs (omega arith))

drop-take : (n k : ℕ) (xs : List ℕ) → drop n (take k xs) ≡ take (k - n) (drop n xs)
drop-take zero k xs = let e : k ≡ k - 0 = omega arith in ap (λ m. take m xs) e
drop-take (suc n) zero xs =
    let e : 0 ≡ 0 - suc n = omega arith in ap (λ m. take m (drop (suc n) xs)) e
drop-take (suc n) (suc k) [] = sym (take_nil (suc k - suc n))
drop-take (suc n) (suc k) (x ∷ xs) =
    let e : k - n ≡ suc k - suc n = omega arith in drop-take n k xs ∙ ap (λ m. take m (drop n xs)) e

-- What the block for a read is: the first one, with bytes to read, or NULL, and there are none.
pub record Rblk (m : Pooled) (o : Option Blk) (m' : Pooled) : Type 0 where
  pub buf : IsBuf m'
  pub same : contents m' ≡ contents m
  pub found :
      ((o ≡ none) × (contents m' ≡ []))
      ⊎ ((b : Blk) × (bs : List Blk) × (o ≡ some b) × (m'.buf.blks ≡ b ∷ bs) × (b.ridx < b.widx))

-- The first block is not one to recycle.
abbrev NotSpent : List Blk → Type 0
NotSpent [] = Unit {0}
NotSpent (b ∷ bs) = b.ridx ≡ b.widx → b.widx < b.size

AreLater-AreBlks : (bs : List Blk) → AreLater bs → AreBlks bs × NotSpent bs
AreLater-AreBlks [] h = (tt, tt)
AreLater-AreBlks (b ∷ bs) h = ((h.0, h.2, h.3), λ e. omega (arith, h.1, h.0.some_room, e))

nothing :
    (b : Blk) (bs : List Blk)
    → FullBefore b bs
    → b.widx < b.size
    → b.widx - b.ridx ≡ 0
    → bytes_of (b ∷ bs) ≡ []
unfolding bytes_of
nothing b [] h full e = rw (blk_bytes-none b e) refl
nothing b (c ∷ bs) h full e = absurd (omega (arith, h, full))

readable-cases :
    (bs : List Blk)
    → AreBlks bs
    → NotSpent bs
    → ((readable (first bs) ≡ none) × (bytes_of bs ≡ []))
      ⊎ ((b : Blk) × (cs : List Blk) × (readable (first bs) ≡ some b)
          × (bs ≡ b ∷ cs)
          × (b.ridx < b.widx))
unfolding readable bytes_of
readable-cases [] h n = inl (refl, refl)
readable-cases (b ∷ bs) h n = elim (Bool-cases (ltb b.ridx b.widx)) [
  | inl e ↦ inr (b, bs, rw e refl, refl, ltb→lt b.ridx b.widx e)
  | inr e ↦
      let same : b.ridx ≡ b.widx = ground (arith, h.0.order) in
      inl (rw e refl, nothing b bs h.1 (n same) (omega (arith, same)))
]

module _ (p : Option (List Blk)) (a : ℕ) (b : Blk) (bs : List Blk) where
  at_first : Pooled
  at_first = record { pool = p; buf = record { aval = a; blks = b ∷ bs } }

  get_rblk-at_first : IsBuf at_first → Rblk at_first (get_rblk at_first).0 (get_rblk at_first).1
  unfolding get_rblk at_first bytes_of
  get_rblk-at_first h = elim (Bool-cases ((b.ridx == b.widx) && (b.widx == b.size))) [
    | inl e ↦
        let empty : blk_bytes b ≡ [] = blk_bytes-none b (ground arith) in
        let (blks, n) = AreLater-AreBlks bs h.blks.2 in
        rw e (record {
          buf = record {
            blks = blks;
            pool = blk_free-IsPool p b h.pool h.blks.0;
            counted = h.counted ∙ ap (λ l. length (l ++ bytes_of bs) % u64_mod) empty;
          };
          same = sym (ap (λ l. l ++ bytes_of bs) empty);
          found = readable-cases bs blks n;
        })
    | inr e ↦
        let n : NotSpent (b ∷ bs) = λ q. ground (arith, h.blks.0.bound) in
        rw e (record { buf = h; same = refl; found = readable-cases (b ∷ bs) h.blks n })
  ]

with_blks_at : Option (List Blk) → ℕ → List Blk → Pooled
with_blks_at p a bs = record { pool = p; buf = record { aval = a; blks = bs } }

get_rblk-any :
    (p : Option (List Blk)) (a : ℕ) (bs : List Blk)
    → IsBuf (with_blks_at p a bs)
    → Rblk
        (with_blks_at p a bs)
        (get_rblk (with_blks_at p a bs)).0
        (get_rblk (with_blks_at p a bs)).1
unfolding get_rblk at_first with_blks_at bytes_of
get_rblk-any p a [] h = record { buf = h; same = refl; found = inl (refl, refl) }
get_rblk-any p a (b ∷ bs) h = get_rblk-at_first p a b bs h

pub get_rblk-Rblk : (m : Pooled) → IsBuf m → Rblk m (get_rblk m).0 (get_rblk m).1
unfolding with_blks_at
get_rblk-Rblk m h = get_rblk-any m.pool m.buf.aval m.buf.blks h

-- What a read of `n` bytes of the first block takes and leaves.
pub record Taken (m : Pooled) (b : Blk) (n : ℕ) : Type 0 where
  pub bytes : copy_from b.head b.ridx n ≡ ok (take n (contents m))
  pub enough : n ≤ length (contents m)
  pub buf : IsBuf (skip_bytes m b n)
  pub left : contents (skip_bytes m b n) ≡ drop n (contents m)

module _ (p : Option (List Blk)) (a : ℕ) (b : Blk) (bs : List Blk) (n : ℕ) where
  skip_bytes-at_first :
      IsBuf (at_first p a b bs) → n ≤ b.widx - b.ridx → Taken (at_first p a b bs) b n
  unfolding skip_bytes at_first bytes_of blk_bytes set_first copy_from
  skip_bytes-at_first h fits =
      let k : IsBlk b = h.blks.0 in
      let len = length-blk_bytes b k in
      let all = length-append (blk_bytes b) (bytes_of bs) in
      let inside : leb (b.ridx + n) (length b.head) ≡ true =
        ground (arith, k.room, k.order, k.bound) in
      let left = drop-append n (blk_bytes b) (bytes_of bs) (omega (arith, len)) in
      let rest : drop n (blk_bytes b) ≡ take (b.widx - (b.ridx + n)) (drop (b.ridx + n) b.head) =
        let e : b.widx - b.ridx - n ≡ b.widx - (b.ridx + n) = omega arith in
        drop-take n (b.widx - b.ridx) (drop b.ridx b.head)
        ∙ ap (λ w. take w (drop n (drop b.ridx b.head))) e
        ∙ ap (λ l. take (b.widx - (b.ridx + n)) l) (sym (drop-drop b.ridx n b.head)) in
      let moved = left ∙ ap (λ l. l ++ bytes_of bs) rest in
      let first_len : n ≤ length (blk_bytes b) = omega (arith, len) in
      record {
        bytes = rw inside (
            ap (λ l. ok l)
              (sym (
                take-append n (blk_bytes b) (bytes_of bs) first_len
                ∙ take-take n (b.widx - b.ridx) (drop b.ridx b.head) fits)));
        enough = omega (arith, all, len);
        buf = record {
          blks = (
            record {
              room = k.room;
              some_room = k.some_room;
              order = omega (arith, k.order);
              bound = k.bound;
            },
            h.blks.1,
            h.blks.2,
          );
          pool = h.pool;
          counted = rw (sym moved) (
              omega (arith, h.counted, length-drop n (blk_bytes b ++ bytes_of bs), first_len, all));
        };
        left = sym moved;
      }

pub skip_bytes-Taken :
    (m : Pooled) (b : Blk) (bs : List Blk) (n : ℕ)
    → IsBuf m
    → m.buf.blks ≡ b ∷ bs
    → n ≤ b.widx - b.ridx
    → Taken m b n
unfolding at_first
skip_bytes-Taken m b bs n h e fits =
    subst
      (λ cs.
        IsBuf (record { pool = m.pool; buf = record { aval = m.buf.aval; blks = cs } })
        → Taken (record { pool = m.pool; buf = record { aval = m.buf.aval; blks = cs } }) b n)
      (sym e) (λ g. skip_bytes-at_first m.pool m.buf.aval b bs n g fits) h
