-- ===== src/Buf/Scan.antt =====
-- What a scan for the end of a line in src/core/atm_buf.c counts, on the bytes of the buffer.
use atm_cache.Base.{
  inc32, inc32_small, u32_mod, ℕ, zero, suc, ◌+◌, ◌-◌, ◌≤◌, ◌<◌, ◌≡◌, refl, ap, sym, ◌∙◌, Bool,
  true, false, none, some, List, [], ◌∷◌, ◌++◌, arith, length, get_elem?, take, drop, ok,
  Bool-cases, Option-cases, inl, inr, if◌then◌else◌,
}
use mathlib.Core.Path.{subst}
use atm_cache.Blk.{Blk}
use atm_cache.Buf.Valid.{blk_bytes, bytes_of, IsBlk, AreLater, AreBlks}
use atm_cache.Buf.Line.{is_newline, Scan, scan_byte, scan_blk, scan_blks, scan_start}
use atm_cache.Buf.Lines.{before_end, from_end, ends}

-- The loops on a sequence of bytes.
scan_run : List ℕ → Scan → Bool × Scan
scan_run [] s = (false, s)
scan_run (c ∷ cs) s = elim (scan_byte s c) [ none ↦ (true, s) | some s' ↦ scan_run cs s' ]

get_elem?-drop :
    (i : ℕ) (xs : List ℕ)
    → i < length xs
    → (x : ℕ) × (get_elem? xs i ≡ some x) × (drop i xs ≡ x ∷ drop (suc i) xs)
get_elem?-drop i [] h = absurd (omega arith)
get_elem?-drop zero (x ∷ xs) h = (x, refl, refl)
get_elem?-drop (suc i) (x ∷ xs) h = get_elem?-drop i xs (omega arith)

scan_blk-scan_run :
    (k : ℕ) (b : Blk) (i : ℕ) (s : Scan)
    → i + k ≤ length b.head
    → scan_blk k b i s ≡ ok (scan_run (take k (drop i b.head)) s)
unfolding scan_blk scan_run
scan_blk-scan_run zero b i s h = refl
scan_blk-scan_run (suc k) b i s h =
    let (x, e, d) = get_elem?-drop i b.head (omega arith) in
    elim (Option-cases (scan_byte s x)) [
      | inl n ↦ rw (e, d, n, scan_blk, scan_run) refl
      | inr (s', n) ↦
          rw (e, d, n, scan_blk, scan_run) (scan_blk-scan_run k b (suc i) s' (omega arith))
    ]

in_blk :
    (b : Blk) (s : Scan)
    → IsBlk b
    → scan_blk (b.widx - b.ridx) b b.ridx s ≡ ok (scan_run (blk_bytes b) s)
unfolding blk_bytes
in_blk b s h =
    scan_blk-scan_run (b.widx - b.ridx) b b.ridx s (omega (arith, h.room, h.order, h.bound))

scan_run-append :
    (xs ys : List ℕ) (s : Scan)
    → (scan_run (xs ++ ys) s).1
      ≡ (if (scan_run xs s).0 then (scan_run xs s).1 else (scan_run ys (scan_run xs s).1).1)
unfolding scan_run
scan_run-append [] ys s = refl
scan_run-append (x ∷ xs) ys s = elim (Option-cases (scan_byte s x)) [
  | inl n ↦ rw (n, scan_run) refl
  | inr (s', n) ↦ rw (n, scan_run) (scan_run-append xs ys s')
]

abbrev AllBlk : List Blk → Type 0
AllBlk [] = Unit {0}
AllBlk (b ∷ bs) = IsBlk b × AllBlk bs

AreLater-AllBlk : (bs : List Blk) → AreLater bs → AllBlk bs
AreLater-AllBlk [] h = tt
AreLater-AllBlk (b ∷ bs) h = (h.0, AreLater-AllBlk bs h.3)

AreBlks-AllBlk : (bs : List Blk) → AreBlks bs → AllBlk bs
AreBlks-AllBlk [] h = tt
AreBlks-AllBlk (b ∷ bs) h = (h.0, AreLater-AllBlk bs h.2)

chosen : {q : Bool} (x y : Scan) → q ≡ true → (if q then x else y) ≡ x
chosen x y e = rw e refl

other : {q : Bool} (x y : Scan) → q ≡ false → (if q then x else y) ≡ y
other x y e = rw e refl

module _ (b : Blk) (bs : List Blk) (s s' : Scan) where
  jumped : scan_blk (b.widx - b.ridx) b b.ridx s ≡ ok (true, s') → scan_blks (b ∷ bs) s ≡ ok s'
  unfolding scan_blks
  jumped e = rw (e, scan_blks) refl

  passed :
      scan_blk (b.widx - b.ridx) b b.ridx s ≡ ok (false, s')
      → scan_blks (b ∷ bs) s ≡ scan_blks bs s'
  unfolding scan_blks
  passed e = rw (e, scan_blks) refl

all_scanned :
    (bs : List Blk) (s : Scan) → AllBlk bs → scan_blks bs s ≡ ok ((scan_run (bytes_of bs) s).1)
unfolding scan_blks bytes_of scan_run
all_scanned [] s h = refl
all_scanned (b ∷ bs) s h =
    let s' : Scan = (scan_run (blk_bytes b) s).1 in
    let one = in_blk b s h.0 in
    let all = scan_run-append (blk_bytes b) (bytes_of bs) s in
    elim (Bool-cases ((scan_run (blk_bytes b) s).0)) [
      | inl e ↦
          jumped b bs s s' (one ∙ ap (λ j. ok (j, s')) e)
          ∙ ap (λ c. ok c) (sym (all ∙ chosen s' (scan_run (bytes_of bs) s').1 e))
      | inr e ↦
          passed b bs s s' (one ∙ ap (λ j. ok (j, s')) e)
          ∙ all_scanned bs s' h.1
          ∙ ap (λ c. ok c) (sym (all ∙ other s' (scan_run (bytes_of bs) s').1 e))
    ]

module _ (c : ℕ) (cs : List ℕ) (s : Scan) where
  scan_run-some :
      (s' : Scan) → scan_byte s c ≡ some s' → (scan_run (c ∷ cs) s).1 ≡ (scan_run cs s').1
  unfolding scan_run
  scan_run-some s' e = rw (e, scan_run) refl

  scan_run-none : scan_byte s c ≡ none → (scan_run (c ∷ cs) s).1 ≡ s
  unfolding scan_run
  scan_run-none e = rw (e, scan_run) refl

abbrev found : ℕ → ℕ → Scan
found l n = record { len = l; strlen = n; find_end = true }

abbrev not_found : ℕ → ℕ → Scan
not_found l n = record { len = l; strlen = n; find_end = false }

module _ (c l n : ℕ) (small : suc l < u32_mod) where
  counted : inc32 l ≡ suc l
  counted = omega (arith, inc32_small l (omega (arith, small)))

  newline_again : is_newline c ≡ true → scan_byte (found l n) c ≡ some (found (suc l) n)
  unfolding scan_byte
  newline_again e = rw (e, counted) refl

  newline_first : is_newline c ≡ true → scan_byte (not_found l n) c ≡ some (found (suc l) n)
  unfolding scan_byte
  newline_first e = rw (e, counted) refl

  newline_later :
      n ≤ l → is_newline c ≡ false → scan_byte (not_found l n) c ≡ some (not_found (suc l) (suc n))
  unfolding scan_byte
  newline_later below e =
      let m : inc32 n ≡ suc n = omega (arith, inc32_small n (omega (arith, small))) in
      rw (e, counted, m) refl

newline_over : (c l n : ℕ) → is_newline c ≡ false → scan_byte (found l n) c ≡ none
unfolding scan_byte
newline_over c l n e = rw e refl

seen :
    (cs : List ℕ) (l n : ℕ)
    → l + length cs < u32_mod
    → (scan_run cs (found l n)).1 ≡ found (l + length (ends cs)) n
unfolding scan_run
seen [] l n small = let e : l ≡ l + 0 = omega arith in ap (λ k. found k n) e
seen (c ∷ cs) l n small = elim (Bool-cases (is_newline c)) [
  | inl e ↦
      let k : suc l + length (ends cs) ≡ l + suc (length (ends cs)) = omega arith in
      let run =
        scan_run-some c cs (found l n) (found (suc l) n) (newline_again c l n (omega arith) e)
        ∙ seen cs (suc l) n (omega arith)
        ∙ ap (λ m. found m n) k in
      subst
        (λ q.
          (scan_run (c ∷ cs) (found l n)).1 ≡ found (l + length (if q then c ∷ ends cs else [])) n)
        (sym e) run
  | inr e ↦
      let k : l ≡ l + 0 = omega arith in
      let run = scan_run-none c cs (found l n) (newline_over c l n e) ∙ ap (λ m. found m n) k in
      subst
        (λ q.
          (scan_run (c ∷ cs) (found l n)).1 ≡ found (l + length (if q then c ∷ ends cs else [])) n)
        (sym e) run
]

-- What the loops count from a newline character on.
abbrev pub at_end : ℕ → ℕ → List ℕ → Scan
at_end l n [] = record { len = l; strlen = n; find_end = false }
at_end l n (c ∷ cs) = record { len = l + suc (length (ends cs)); strlen = n; find_end = true }

from_newline : (c : ℕ) (cs : List ℕ) → ℕ → ℕ → Scan
from_newline c cs l n =
    at_end (l + length (before_end (c ∷ cs))) (n + length (before_end (c ∷ cs))) (from_end (c ∷ cs))

shape_first :
    (c : ℕ) (cs : List ℕ) (l n : ℕ)
    → is_newline c ≡ true
    → from_newline c cs l n ≡ found (l + 0 + suc (length (ends cs))) (n + 0)
unfolding from_newline
shape_first c cs l n e = rw e refl

shape_later :
    (c : ℕ) (cs : List ℕ) (l n : ℕ)
    → is_newline c ≡ false
    → from_newline c cs l n
      ≡ at_end (l + suc (length (before_end cs))) (n + suc (length (before_end cs))) (from_end cs)
unfolding from_newline
shape_later c cs l n e = rw e refl

looking :
    (cs : List ℕ) (l n : ℕ)
    → l + length cs < u32_mod
    → n ≤ l
    → (scan_run cs (not_found l n)).1
      ≡ at_end (l + length (before_end cs)) (n + length (before_end cs)) (from_end cs)
unfolding scan_run from_newline
looking [] l n small below =
    let (e, k) : (l ≡ l + 0) × (n ≡ n + 0) = (omega arith, omega arith) in
    ap (λ m. not_found m n) e ∙ ap (λ m. not_found (l + 0) m) k
looking (c ∷ cs) l n small below =
    let b : List ℕ = before_end cs in
    elim (Bool-cases (is_newline c)) [
      | inl e ↦
          let k : suc l + length (ends cs) ≡ l + 0 + suc (length (ends cs)) = omega arith in
          let z : n ≡ n + 0 = omega arith in
          let run =
            scan_run-some c cs (not_found l n) (found (suc l) n)
              (newline_first c l n (omega arith) e)
            ∙ seen cs (suc l) n (omega arith)
            ∙ ap (λ m. found m n) k
            ∙ ap (λ m. found (l + 0 + suc (length (ends cs))) m) z in
          run ∙ sym (shape_first c cs l n e)
      | inr e ↦
          let k : suc l + length b ≡ l + suc (length b) = omega arith in
          let z : suc n + length b ≡ n + suc (length b) = omega arith in
          let run =
            scan_run-some c cs (not_found l n) (not_found (suc l) (suc n))
              (newline_later c l n (omega arith) below e)
            ∙ looking cs (suc l) (suc n) (omega arith) (omega arith)
            ∙ ap (λ m. at_end m (suc n + length b) (from_end cs)) k
            ∙ ap (λ m. at_end (l + suc (length b)) m (from_end cs)) z in
          run ∙ sym (shape_later c cs l n e)
    ]

-- The two loops on all the blocks of a buffer.
pub scan_blks-at_end :
    (bs : List Blk)
    → AreBlks bs
    → length (bytes_of bs) < u32_mod
    → scan_blks bs scan_start
      ≡ ok (
          at_end
            (length (before_end (bytes_of bs)))
            (length (before_end (bytes_of bs)))
            (from_end (bytes_of bs)))
scan_blks-at_end bs h small =
    let z : 0 + length (before_end (bytes_of bs)) ≡ length (before_end (bytes_of bs)) =
      omega arith in
    all_scanned bs scan_start (AreBlks-AllBlk bs h)
    ∙ ap (λ s. ok s)
        (looking (bytes_of bs) 0 0 (omega (arith, small)) (omega arith)
          ∙ ap (λ k. at_end k k (from_end (bytes_of bs))) z)
