-- ===== src/Buf/Valid.antt =====
-- When the blocks of a buffer of src/core/atm_buf.c are well formed, and which bytes they hold.
use atm_cache.Base.{
  ℕ, zero, suc, ◌-◌, ◌%◌, ◌≤◌, ◌<◌, ◌≡◌, refl, Option, none, some, List, [], ◌∷◌, ◌++◌, arith,
  length, length-take, length-drop, take, drop, length-replicate, ltb, Bool-cases, inl, inr,
}
use atm_cache.LinkedList.Spec.{push_last}
use atm_cache.Blk.{Blk, blk_new, blk_new_raw, blk_free, pool_fetch, pool_release, blk_reset}
use atm_cache.Buf.{Pooled, u64_mod}

-- The bytes written to a block and not read yet.
unfoldable pub blk_bytes : Blk → List ℕ
blk_bytes b = take (b.widx - b.ridx) (drop b.ridx b.head)

unfoldable pub bytes_of : List Blk → List ℕ
unfolding blk_bytes
bytes_of [] = []
bytes_of (b ∷ bs) = blk_bytes b ++ bytes_of bs

abbrev pub contents : Pooled → List ℕ
contents m = bytes_of m.buf.blks

pub record IsBlk (b : Blk) : Type 0 where
  pub room : length b.head ≡ b.size
  pub some_room : 0 < b.size
  pub order : b.ridx ≤ b.widx
  pub bound : b.widx ≤ b.size

-- A block with another after it is full.
abbrev pub FullBefore : Blk → List Blk → Type 0
FullBefore b [] = Unit {0}
FullBefore b (c ∷ bs) = b.widx ≡ b.size

-- A block with another before it was not read from.
abbrev pub AreLater : List Blk → Type 0
AreLater [] = Unit {0}
AreLater (b ∷ bs) = IsBlk b × (b.ridx ≡ 0) × FullBefore b bs × AreLater bs

abbrev pub AreBlks : List Blk → Type 0
AreBlks [] = Unit {0}
AreBlks (b ∷ bs) = IsBlk b × FullBefore b bs × AreLater bs

-- A block that can be handed out: both indices are 0.
abbrev pub IsFresh : Blk → Type 0
IsFresh b = IsBlk b × (b.ridx ≡ 0) × (b.widx ≡ 0)

abbrev pub AreFresh : List Blk → Type 0
AreFresh [] = Unit {0}
AreFresh (b ∷ bs) = IsFresh b × AreFresh bs

abbrev pub IsPool : Option (List Blk) → Type 0
IsPool none = Unit {0}
IsPool (some pool) = AreFresh pool

pub record IsBuf (m : Pooled) : Type 0 where
  pub blks : AreBlks m.buf.blks
  pub pool : IsPool m.pool
  pub counted : m.buf.aval ≡ length (contents m) % u64_mod

pub blk_new_raw-IsFresh : IsFresh blk_new_raw
unfolding blk_new_raw
blk_new_raw-IsFresh = (
  record {
    room = length-replicate {A = ℕ} 65536 0;
    some_room = omega arith;
    order = omega arith;
    bound = omega arith;
  },
  refl,
  refl,
)

pub blk_new-IsFresh :
    (pool : Option (List Blk)) → IsPool pool → IsFresh (blk_new pool).0 × IsPool (blk_new pool).1
unfolding blk_new pool_fetch
blk_new-IsFresh none h = (blk_new_raw-IsFresh, tt)
blk_new-IsFresh (some []) h = (blk_new_raw-IsFresh, tt)
blk_new-IsFresh (some (b ∷ pool)) h = h

AreFresh-push_last :
    (pool : List Blk) (b : Blk) → AreFresh pool → IsFresh b → AreFresh (push_last pool b)
unfolding push_last
AreFresh-push_last [] b h f = (f, tt)
AreFresh-push_last (c ∷ pool) b h f = (h.0, AreFresh-push_last pool b h.1 f)

pub blk_free-IsPool :
    (pool : Option (List Blk)) (b : Blk) → IsPool pool → IsBlk b → IsPool (blk_free pool b)
unfolding blk_free pool_release blk_reset
blk_free-IsPool none b h k = tt
blk_free-IsPool (some pool) b h k =
    let reset : IsFresh (record b { ridx = 0; widx = 0 }) = (
      record { room = k.room; some_room = k.some_room; order = omega arith; bound = omega arith },
      refl,
      refl,
    ) in
    elim (Bool-cases (ltb (length pool) 64)) [
      | inl e ↦ rw (e, IsPool) (AreFresh-push_last pool (record b { ridx = 0; widx = 0 }) h reset)
      | inr e ↦ rw (e, IsPool) h
    ]

pub take-none : (n : ℕ) (xs : List ℕ) → n ≡ 0 → take n xs ≡ []
take-none zero xs e = refl
take-none (suc n) xs e = absurd (omega arith)

-- A block with nothing to read.
pub blk_bytes-none : (b : Blk) → b.widx - b.ridx ≡ 0 → blk_bytes b ≡ []
unfolding blk_bytes
blk_bytes-none b e = take-none (b.widx - b.ridx) (drop b.ridx b.head) e

pub length-blk_bytes : (b : Blk) → IsBlk b → length (blk_bytes b) ≡ b.widx - b.ridx
unfolding blk_bytes
length-blk_bytes b h = omega (
  arith,
  length-take (b.widx - b.ridx) (drop b.ridx b.head),
  length-drop b.ridx b.head,
  h.room,
  h.order,
  h.bound,
)
