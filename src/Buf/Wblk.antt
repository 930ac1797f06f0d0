-- ===== src/Buf/Wblk.antt =====
-- Which block of a buffer of src/core/atm_buf.c takes the next bytes.
use atm_cache.Base.{
  ℕ, ◌<◌, ◌^◌, min, lt→ltb, arith, ok, ◌<◌, ◌≡◌, refl, ap, sym, ◌∙◌, true, false, Option, none,
  some, List, [], ◌∷◌, ◌++◌, arith, ==_iff, Bool-cases, inl, inr, ◌==◌,
}
use atm_cache.LinkedList.Spec.{push_last}
use atm_cache.Arr.Memory.{append_nil}
use atm_cache.Arr.Valid.{append_assoc}
use atm_cache.Blk.{Blk, blk_new}
use atm_cache.Buf.{copy_length, Pooled, last_of, needs_blk, get_wblk}
use atm_cache.Buf.Valid.{
  blk_bytes, bytes_of, contents, IsBlk, FullBefore, AreLater, AreBlks, IsFresh, IsBuf,
  blk_new-IsFresh, blk_bytes-none,
}
use atm_cache.Buf.Put.{last_of-IsBlk}

bytes_of-append : (bs cs : List Blk) → bytes_of (bs ++ cs) ≡ bytes_of bs ++ bytes_of cs
unfolding bytes_of
bytes_of-append [] cs = refl
bytes_of-append (b ∷ bs) cs =
    ap (λ l. blk_bytes b ++ l) (bytes_of-append bs cs)
    ∙ sym (append_assoc (blk_bytes b) (bytes_of bs) (bytes_of cs))

last_of-push_last : (bs : List Blk) (b : Blk) → last_of (push_last bs b) ≡ some b
unfolding last_of push_last
last_of-push_last [] b = refl
last_of-push_last (c ∷ []) b = refl
last_of-push_last (c ∷ d ∷ bs) b = last_of-push_last (d ∷ bs) b

bytes_of-push_last : (bs : List Blk) (b : Blk) → IsFresh b → bytes_of (push_last bs b) ≡ bytes_of bs
unfolding push_last bytes_of
bytes_of-push_last bs b f =
    bytes_of-append bs (b ∷ [])
    ∙ rw (blk_bytes-none b (omega (arith, f.2))) (append_nil (bytes_of bs))

full_is : (b : Blk) → needs_blk (some b) ≡ true → b.widx ≡ b.size
unfolding needs_blk
full_is b e = omega (arith, (==_iff b.size b.widx).0 e)

FullBefore-push_last :
    (a b c : Blk) (bs : List Blk) → FullBefore a (b ∷ bs) → FullBefore a (push_last (b ∷ bs) c)
unfolding push_last
FullBefore-push_last a b c bs h = h

push_last-AreLater :
    (bs : List Blk) (b : Blk)
    → AreLater bs
    → IsFresh b
    → needs_blk (last_of bs) ≡ true
    → AreLater (push_last bs b)
unfolding push_last last_of
push_last-AreLater [] b h f e = (f.0, f.1, tt, tt)
push_last-AreLater (c ∷ []) b h f e = (h.0, h.1, full_is c e, (f.0, f.1, tt, tt))
push_last-AreLater (c ∷ d ∷ bs) b h f e = (h.0, h.1, h.2, push_last-AreLater (d ∷ bs) b h.3 f e)

push_last-AreBlks :
    (bs : List Blk) (b : Blk)
    → AreBlks bs
    → IsFresh b
    → needs_blk (last_of bs) ≡ true
    → AreBlks (push_last bs b)
unfolding push_last last_of
push_last-AreBlks [] b h f e = (f.0, tt, tt)
push_last-AreBlks (c ∷ []) b h f e = (h.0, full_is c e, (f.0, f.1, tt, tt))
push_last-AreBlks (c ∷ d ∷ bs) b h f e = (h.0, h.1, push_last-AreLater (d ∷ bs) b h.2 f e)

-- What the block for a write is.
pub record Wblk (m : Pooled) (o : Option Blk) (m' : Pooled) : Type 0 where
  pub blk : Blk
  pub found : o ≡ some blk
  pub last : last_of m'.buf.blks ≡ some blk
  pub buf : IsBuf m'
  pub same : contents m' ≡ contents m
  pub space : blk.widx < blk.size

not_full :
    (o : Option Blk) → needs_blk o ≡ false → (b : Blk) × (o ≡ some b) × ((b.size == b.widx) ≡ false)
unfolding needs_blk
not_full none e = absurd (cc e)
not_full (some b) e = (b, refl, e)

pub get_wblk-Wblk : (m : Pooled) → IsBuf m → Wblk m (get_wblk m).0 (get_wblk m).1
unfolding get_wblk
get_wblk-Wblk m h = elim (Bool-cases (needs_blk (last_of m.buf.blks))) [
  | inl e ↦
      let (f, pool) = blk_new-IsFresh m.pool h.pool in
      let b = (blk_new m.pool).0 in
      let same = bytes_of-push_last m.buf.blks b f in
      rw e (record {
        blk = b;
        found = last_of-push_last m.buf.blks b;
        last = last_of-push_last m.buf.blks b;
        buf = record {
          blks = push_last-AreBlks m.buf.blks b h.blks f e;
          pool = pool;
          counted = rw same (h.counted);
        };
        same = same;
        space = omega (arith, f.2, f.0.some_room);
      })
  | inr e ↦
      let (b, is, ne) = not_full (last_of m.buf.blks) e in
      let k : IsBlk b = last_of-IsBlk m.buf.blks b h.blks is in
      rw e (record {
        blk = b;
        found = is;
        last = is;
        buf = h;
        same = refl;
        space = ground (arith, ne, k.bound);
      })
]

pub copy_length-fits : (avl rmn : ℕ) → rmn < 2 ^ 31 → copy_length avl rmn ≡ ok (min avl rmn)
unfolding copy_length
copy_length-fits avl rmn small = rw (lt→ltb rmn (2 ^ 31) small) refl
