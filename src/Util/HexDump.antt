-- ===== src/Util/HexDump.antt =====
-- `atm_util_hexdump` of src/core/atm_util.c: the two digits of each byte after "0x".
use Prim.Native.Nat.{bit_and}
use atm_cache.Base.{
  ℕ, zero, suc, ◌+◌, ◌*◌, ◌/◌, ◌^◌, ◌<◌, ◌≡◌, refl, ap, ◌∙◌, Bool, true, false, not, ◌&&◌, List, [],
  ◌∷◌, ◌++◌, arith, ◌==◌, if◌then◌else◌, length, length-append, replicate, get_or, Run, ok, stop,
  out_of_bounds, ◌>>=◌, Returns,
}
use atm_cache.Str.Bytes.{copy_to, strlen}
use atm_cache.Arr.Memory.{copy_to-after}
use atm_cache.Arr.Valid.{append_assoc}
use atm_cache.Str.Cat.{NoNul}

-- The codes of the digits.
abbrev pub hexdict : List ℕ
hexdict = 48 ∷ 49 ∷ 50 ∷ 51 ∷ 52 ∷ 53 ∷ 54 ∷ 55 ∷ 56 ∷ 57 ∷ 97 ∷ 98 ∷ 99 ∷ 100 ∷ 101 ∷ 102 ∷ []

abbrev pub high_digit : ℕ → ℕ
high_digit b = get_or hexdict (bit_and b 0xf0 / 2 ^ 4) 0

abbrev pub low_digit : ℕ → ℕ
low_digit b = get_or hexdict (bit_and b 0x0f) 0

-- The loop over the bytes, with `s` as an offset.
unfoldable pub hexdump_loop : List ℕ → List ℕ → ℕ → Run (List ℕ)
hexdump_loop [] res s = ok res
hexdump_loop (b ∷ p) res s = do
  res' ← copy_to res s (high_digit b ∷ low_digit b ∷ [])
  hexdump_loop p res' (s + 2)

unfoldable pub hexdump : List ℕ → Run (List ℕ)
hexdump p = do
  res ← copy_to (replicate (length p * 2 + 2) 0) 0 (48 ∷ 120 ∷ [])
  hexdump_loop p res 2

abbrev pub digits_of : List ℕ → List ℕ
digits_of [] = []
digits_of (b ∷ p) = high_digit b ∷ low_digit b ∷ digits_of p

hexdump_loop-digits :
    (p done : List ℕ) (s : ℕ)
    → s ≡ length done
    → hexdump_loop p (done ++ replicate (length p * 2) 0) s ≡ ok (done ++ digits_of p)
unfolding hexdump_loop
hexdump_loop-digits [] done s e = refl
hexdump_loop-digits (b ∷ p) done s e =
    let two : List ℕ = high_digit b ∷ low_digit b ∷ [] in
    let rest : List ℕ = replicate (length p * 2) 0 in
    let more : suc (length p) * 2 ≡ suc (suc (length p * 2)) = omega arith in
    let copied : copy_to (done ++ 0 ∷ 0 ∷ rest) (length done) two ≡ ok (done ++ two ++ rest) =
      copy_to-after done (0 ∷ 0 ∷ rest) two (omega arith) in
    let place : length done + 2 ≡ length (done ++ two) = omega (arith, length-append done two) in
    rw (more, e, copied)
      (hexdump_loop-digits p (done ++ two) (length done + 2) place
        ∙ ap ok (append_assoc done two (digits_of p)))

-- The block holds "0x" and the digits, and is full.
pub hexdump-digits : (p : List ℕ) → hexdump p ≡ ok (48 ∷ 120 ∷ digits_of p)
unfolding hexdump
hexdump-digits p =
    let size : length p * 2 + 2 ≡ suc (suc (length p * 2)) = omega arith in
    let copied : copy_to (0 ∷ 0 ∷ replicate (length p * 2) 0) 0 (48 ∷ 120 ∷ [])
        ≡ ok (48 ∷ 120 ∷ replicate (length p * 2) 0) =
      copy_to-after [] (0 ∷ 0 ∷ replicate (length p * 2) 0) (48 ∷ 120 ∷ []) (omega arith) in
    rw (size, copied) (hexdump_loop-digits p (48 ∷ 120 ∷ []) 2 refl)

every_below : ℕ → (ℕ → Bool) → Bool
every_below zero f = true
every_below (suc n) f = if f n then every_below n f else false

of_every : (n : ℕ) (f : ℕ → Bool) (b : ℕ) → every_below n f ≡ true → b < n → f b ≡ true
unfolding every_below
of_every zero f b h lt = absurd (omega arith)
of_every (suc n) f b h lt = ground (arith, of_every n f b)

abbrev digits_there : ℕ → Bool
digits_there b = not (high_digit b == 0) && not (low_digit b == 0)

table : every_below 256 digits_there ≡ true
unfolding every_below
table = refl

abbrev pub Bytes : List ℕ → Type 0
Bytes [] = Unit {0}
Bytes (b ∷ p) = (b < 256) × Bytes p

strlen-full : (s : List ℕ) → NoNul s → strlen s ≡ stop out_of_bounds
unfolding strlen
strlen-full [] c = refl
strlen-full (b ∷ s) c = rw (strlen-full s c.1) (ground (arith, c.0))

digits_of-NoNul : (p : List ℕ) → Bytes p → NoNul (digits_of p)
digits_of-NoNul [] h = tt
digits_of-NoNul (b ∷ p) h =
    let there = of_every 256 digits_there b table h.0 in
    (ground (arith, there), (ground (arith, there), digits_of-NoNul p h.1))

-- The call ends normally with a block that holds "0x" and two digits for each byte, and no NUL: the
-- end of the string is looked for past the end of the block.
pub hexdump-unterminated :
    (p : List ℕ)
    → Bytes p
    → Returns (hexdump p) (λ s. (s ≡ 48 ∷ 120 ∷ digits_of p) × (strlen s ≡ stop out_of_bounds))
hexdump-unterminated p h = (
  48 ∷ 120 ∷ digits_of p,
  hexdump-digits p,
  (refl, strlen-full (48 ∷ 120 ∷ digits_of p) (ground arith, (ground arith, digits_of-NoNul p h))),
)
