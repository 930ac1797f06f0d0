-- ===== src/Siphash/NoCase.antt =====
-- The hash without case of src/core/atm_siphash.c is the other one on the lower-case input.
use atm_cache.Base.{ℕ, zero, suc, ◌/◌, ◌%◌, ◌≡◌, refl, List, [], ◌∷◌, map, length, length-map, drop}
use atm_cache.Siphash.{
  SipState, siptlw, byte, u8to64_le, u8to64_le_nocase, sip_loop, sip_loop_nocase, sip_tail,
  sip_tail_nocase, siphash, siphash_nocase,
}

byte-lower : (p : List ℕ) (i : ℕ) → byte (map siptlw p) i ≡ siptlw (byte p i)
unfolding siptlw
byte-lower [] i = refl
byte-lower (c ∷ p) zero = refl
byte-lower (c ∷ p) (suc i) = byte-lower p i

drop-lower : (n : ℕ) (p : List ℕ) → drop n (map siptlw p) ≡ map siptlw (drop n p)
drop-lower zero p = refl
drop-lower (suc n) [] = refl
drop-lower (suc n) (c ∷ p) = drop-lower n p

u8to64_le-lower : (p : List ℕ) → u8to64_le_nocase p ≡ u8to64_le (map siptlw p)
unfolding u8to64_le u8to64_le_nocase
u8to64_le-lower p = rw (
  byte-lower p 0,
  byte-lower p 1,
  byte-lower p 2,
  byte-lower p 3,
  byte-lower p 4,
  byte-lower p 5,
  byte-lower p 6,
  byte-lower p 7,
)

sip_loop-lower :
    (n : ℕ) (p : List ℕ) (s : SipState)
    → sip_loop n (map siptlw p) s
      ≡ ((sip_loop_nocase n p s).0, map siptlw (sip_loop_nocase n p s).1)
unfolding sip_loop sip_loop_nocase
sip_loop-lower zero p s = refl
sip_loop-lower (suc n) p s =
    rw (← u8to64_le-lower p, drop-lower 8 p) (sip_loop-lower n (drop 8 p) _)

sip_tail-lower : (n : ℕ) (p : List ℕ) (b : ℕ) → sip_tail n (map siptlw p) b ≡ sip_tail_nocase n p b
unfolding sip_tail sip_tail_nocase
sip_tail-lower zero p b = refl
sip_tail-lower (suc i) p b = rw (byte-lower p i) (sip_tail-lower i p _)

-- For every seed, `atm_siphash_nocase` is `atm_siphash` of the input with the letters A to Z made
-- lower case.
pub siphash_nocase-lower :
    (k input : List ℕ) → siphash_nocase k input ≡ siphash k (map siptlw input)
unfolding siphash siphash_nocase
siphash_nocase-lower k input =
    rw (length-map input siptlw, sip_loop-lower (length input / 8) input _)
      (rw (sip_tail-lower (length input % 8) (sip_loop_nocase (length input / 8) input _).1 _))
