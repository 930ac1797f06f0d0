-- ===== src/Buf/Fill.antt =====
-- What bytes written to a block of src/core/atm_blk.c make of it.
use mathlib.Core.Path.{subst}
use atm_cache.Str.Bytes.{copy_to}
use atm_cache.Base.{
  ℕ, zero, suc, ◌+◌, ◌-◌, ◌≤◌, ◌≡◌, refl, ap, sym, ◌∙◌, List, [], ◌∷◌, ◌++◌, arith, length,
  length-append, length-take, length-drop, take, drop, take-append-drop, ok,
}
use atm_cache.Arr.Memory.{copy_to-after}
use atm_cache.Str.Cat.{take-front}
use atm_cache.Blk.{Blk}
use atm_cache.Buf.Valid.{blk_bytes, IsBlk}

pub drop-append : (r : ℕ) (xs ys : List ℕ) → r ≤ length xs → drop r (xs ++ ys) ≡ drop r xs ++ ys
drop-append zero xs ys h = refl
drop-append (suc r) [] ys h = absurd (omega arith)
drop-append (suc r) (x ∷ xs) ys h = drop-append r xs ys (omega arith)

pub slice-append :
    (r w : ℕ) (xs ys : List ℕ)
    → r ≤ w
    → w ≡ length xs
    → take (w - r) (drop r (xs ++ ys)) ≡ drop r xs
slice-append r w xs ys h e =
    let n : w - r ≡ length (drop r xs) = omega (arith, length-drop r xs, h, e) in
    rw (drop-append r xs ys (omega arith), n) (take-front (drop r xs) ys)

-- The memory of a block, up to the write index and past it.
abbrev pub front : Blk → List ℕ
front b = take b.widx b.head

abbrev pub back : Blk → List ℕ
back b = drop b.widx b.head

length-front : (b : Blk) → IsBlk b → length (front b) ≡ b.widx
length-front b h = omega (arith, length-take b.widx b.head, h.room, h.bound)

blk_bytes-front : (b : Blk) → IsBlk b → blk_bytes b ≡ drop b.ridx (front b)
unfolding blk_bytes
blk_bytes-front b h =
    subst (λ hd. take (b.widx - b.ridx) (drop b.ridx hd) ≡ drop b.ridx (front b))
      (take-append-drop b.widx b.head)
      (slice-append b.ridx b.widx (front b) (back b) h.order (sym (length-front b h)))

-- What a write through the pointer to a block makes of it.
pub record Grown (b b' : Blk) (bytes : List ℕ) : Type 0 where
  pub blk : IsBlk b'
  pub start : b'.ridx ≡ b.ridx
  pub more : blk_bytes b' ≡ blk_bytes b ++ bytes

unfoldable pub filled : Blk → List ℕ → Blk
filled b bytes = record b {
  head = front b ++ bytes ++ drop (length bytes) (back b);
  widx = b.widx + length bytes;
}

pub filled-Grown :
    (b : Blk) (bytes : List ℕ)
    → IsBlk b
    → length bytes ≤ b.size - b.widx
    → Grown b (filled b bytes) bytes
unfolding filled blk_bytes
filled-Grown b bytes h fits =
    let len = length-front b h in
    let rest = drop (length bytes) (back b) in
    let both = length-append (front b) bytes in
    record {
      blk = record {
        room = omega (
          arith,
          length-append (front b ++ bytes) rest,
          both,
          len,
          length-drop (length bytes) (back b),
          length-drop b.widx b.head,
          h.room,
          h.bound,
          fits,
        );
        some_room = h.some_room;
        order = omega (arith, h.order);
        bound = omega (arith, h.bound, fits);
      };
      start = refl;
      more =
          slice-append b.ridx (b.widx + length bytes) (front b ++ bytes) rest
            (omega (arith, h.order)) (omega (arith, both, len))
          ∙ drop-append b.ridx (front b) bytes (omega (arith, len, h.order))
          ∙ ap (λ l. l ++ bytes) (sym (blk_bytes-front b h));
    }

pub copied :
    (b : Blk) (bytes : List ℕ)
    → IsBlk b
    → length bytes ≤ b.size - b.widx
    → copy_to b.head b.widx bytes ≡ ok (front b ++ bytes ++ drop (length bytes) (back b))
copied b bytes h fits =
    let len = length-front b h in
    let at_end : copy_to (front b ++ back b) (length (front b)) bytes
        ≡ ok (front b ++ bytes ++ drop (length bytes) (back b)) =
      copy_to-after (front b) (back b) bytes
        (omega (arith, length-drop b.widx b.head, h.room, fits)) in
    subst (λ hd. copy_to hd b.widx bytes ≡ ok (front b ++ bytes ++ drop (length bytes) (back b)))
      (take-append-drop b.widx b.head)
      (subst
        (λ n.
          copy_to (front b ++ back b) n bytes
          ≡ ok (front b ++ bytes ++ drop (length bytes) (back b)))
        len at_end)
