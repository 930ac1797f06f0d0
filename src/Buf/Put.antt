-- ===== src/Buf/Put.antt =====
-- A write through the pointer to the last block of a buffer of src/core/atm_buf.c.
use mathlib.Core.Path.{subst}
use atm_cache.Base.{
  ℕ, ◌-◌, ◌≤◌, ◌≡◌, ap, sym, ◌∙◌, some, List, [], ◌∷◌, ◌++◌, arith, length, length-append, Returns,
}
use atm_cache.Arr.Memory.{append_nil}
use atm_cache.Arr.Valid.{append_assoc}
use atm_cache.Blk.{Blk}
use atm_cache.Buf.{Pooled, add64, last_of, set_last, put_bytes}
use atm_cache.Buf.Valid.{blk_bytes, bytes_of, contents, IsBlk, FullBefore, AreLater, AreBlks, IsBuf}
use atm_cache.Buf.Fill.{Grown, filled, filled-Grown, copied}

FullBefore-set_last :
    (a b b' : Blk) (bs : List Blk) → FullBefore a (b ∷ bs) → FullBefore a (set_last (b ∷ bs) b')
unfolding set_last
FullBefore-set_last a b b' [] h = h
FullBefore-set_last a b b' (c ∷ bs) h = h

module _ (b b' : Blk) (bytes : List ℕ) (g : Grown b b' bytes) where
  set_last-AreLater :
      (bs : List Blk)
      → AreLater bs
      → last_of bs ≡ some b
      → AreLater (set_last bs b') × (bytes_of (set_last bs b') ≡ bytes_of bs ++ bytes)
  unfolding set_last last_of bytes_of
  set_last-AreLater [] h e = absurd (cc e)
  set_last-AreLater (c ∷ []) h e =
      let is : c ≡ b = cc e in
      (
        (g.blk, g.start ∙ (sym (ap (λ x. x.ridx) is) ∙ h.1), tt, tt),
        rw (append_nil (blk_bytes b'), append_nil (blk_bytes c), is) g.more,
      )
  set_last-AreLater (c ∷ d ∷ bs) h e =
      let (later, eq) = set_last-AreLater (d ∷ bs) h.3 e in
      (
        (h.0, h.1, FullBefore-set_last c d b' bs h.2, later),
        ap (λ l. blk_bytes c ++ l) eq ∙ sym (append_assoc (blk_bytes c) (bytes_of (d ∷ bs)) bytes),
      )

  set_last-AreBlks :
      (bs : List Blk)
      → AreBlks bs
      → last_of bs ≡ some b
      → AreBlks (set_last bs b') × (bytes_of (set_last bs b') ≡ bytes_of bs ++ bytes)
  unfolding set_last last_of bytes_of
  set_last-AreBlks [] h e = absurd (cc e)
  set_last-AreBlks (c ∷ []) h e =
      let is : c ≡ b = cc e in
      ((g.blk, tt, tt), rw (append_nil (blk_bytes b'), append_nil (blk_bytes c), is) g.more)
  set_last-AreBlks (c ∷ d ∷ bs) h e =
      let (later, eq) = set_last-AreLater (d ∷ bs) h.2 e in
      (
        (h.0, FullBefore-set_last c d b' bs h.1, later),
        ap (λ l. blk_bytes c ++ l) eq ∙ sym (append_assoc (blk_bytes c) (bytes_of (d ∷ bs)) bytes),
      )

last_of-AreLater : (bs : List Blk) (b : Blk) → AreLater bs → last_of bs ≡ some b → IsBlk b
unfolding last_of
last_of-AreLater [] b h e = absurd (cc e)
last_of-AreLater (c ∷ []) b h e = let is : c ≡ b = cc e in subst (λ x. IsBlk x) is h.0
last_of-AreLater (c ∷ d ∷ bs) b h e = last_of-AreLater (d ∷ bs) b h.3 e

pub last_of-IsBlk : (bs : List Blk) (b : Blk) → AreBlks bs → last_of bs ≡ some b → IsBlk b
unfolding last_of
last_of-IsBlk [] b h e = absurd (cc e)
last_of-IsBlk (c ∷ []) b h e = let is : c ≡ b = cc e in subst (λ x. IsBlk x) is h.0
last_of-IsBlk (c ∷ d ∷ bs) b h e = last_of-AreLater (d ∷ bs) b h.2 e

-- The bytes are put at the end of the buffer.
pub put_bytes-IsBuf :
    (m : Pooled) (b : Blk) (bytes : List ℕ)
    → IsBuf m
    → last_of m.buf.blks ≡ some b
    → length bytes ≤ b.size - b.widx
    → Returns (put_bytes m b bytes) (λ m'. IsBuf m' × (contents m' ≡ contents m ++ bytes))
unfolding put_bytes filled
put_bytes-IsBuf m b bytes h e fits =
    let k : IsBlk b = last_of-IsBlk m.buf.blks b h.blks e in
    let (blks, eq) =
      set_last-AreBlks b (filled b bytes) bytes (filled-Grown b bytes k fits) m.buf.blks h.blks e in
    (
      record m {
        buf = record {
          aval = add64 m.buf.aval (length bytes);
          blks = set_last m.buf.blks (filled b bytes);
        };
      },
      rw (copied b bytes k fits),
      (
        record {
          blks = blks;
          pool = h.pool;
          counted = rw eq (omega (arith, length-append (contents m) bytes, h.counted));
        },
        eq,
      ),
    )
