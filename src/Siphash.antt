-- ===== src/Siphash.antt =====
-- The hash functions of src/core/atm_siphash.c over 64-bit words. A byte is a number below 256; an
-- input is the list of the `inlen` bytes that the pointer leads to. A load of eight bytes is modelled
-- as the macros write it for a CPU that is not known to be little-endian; on the others the same
-- value is read at once.
pub mod NoCase
use Prim.Native.Nat.{bit_or, bit_xor}
use atm_cache.Base.{
  ℕ, zero, suc, ◌+◌, ◌-◌, ◌*◌, ◌/◌, ◌%◌, ◌^◌, Bool, ◌&&◌, List, [], ◌∷◌, if◌then◌else◌, leb, length,
  get_or, drop,
}

abbrev pub u64_mod : ℕ
u64_mod = 2 ^ 64

-- `siptlw`, with the codes of 'A', 'Z' and 'a'.
unfoldable pub siptlw : ℕ → ℕ
siptlw c = if leb 65 c && leb c 90 then c + (97 - 65) else c

unfoldable pub shift_left : ℕ → ℕ → ℕ
shift_left x b = x * 2 ^ b % u64_mod

unfoldable pub rotl : ℕ → ℕ → ℕ
unfolding shift_left
rotl x b = bit_or (shift_left x b) (x / 2 ^ (64 - b))

-- `p[i]`.
abbrev pub byte : List ℕ → ℕ → ℕ
byte p i = get_or p i 0

unfoldable pub u8to64_le : List ℕ → ℕ
unfolding shift_left
u8to64_le p =
    bit_or
      (bit_or
        (bit_or
          (bit_or
            (bit_or
              (bit_or (bit_or (byte p 0) (shift_left (byte p 1) 8)) (shift_left (byte p 2) 16))
              (shift_left (byte p 3) 24))
            (shift_left (byte p 4) 32))
          (shift_left (byte p 5) 40))
        (shift_left (byte p 6) 48))
      (shift_left (byte p 7) 56)

unfoldable pub u8to64_le_nocase : List ℕ → ℕ
unfolding shift_left siptlw
u8to64_le_nocase p =
    bit_or
      (bit_or
        (bit_or
          (bit_or
            (bit_or
              (bit_or (bit_or (siptlw (byte p 0)) (shift_left (siptlw (byte p 1)) 8))
                (shift_left (siptlw (byte p 2)) 16))
              (shift_left (siptlw (byte p 3)) 24))
            (shift_left (siptlw (byte p 4)) 32))
          (shift_left (siptlw (byte p 5)) 40))
        (shift_left (siptlw (byte p 6)) 48))
      (shift_left (siptlw (byte p 7)) 56)

pub record SipState : Type 0 where
  pub v0 : ℕ
  pub v1 : ℕ
  pub v2 : ℕ
  pub v3 : ℕ

abbrev pub add64 : ℕ → ℕ → ℕ
add64 a b = (a + b) % u64_mod

-- `SIPROUND`, one assignment after the other.
unfoldable pub sipround : SipState → SipState
unfolding rotl
sipround s =
    let a0 = add64 s.v0 s.v1 in
    let a1 = bit_xor (rotl s.v1 13) a0 in
    let b0 = rotl a0 32 in
    let a2 = add64 s.v2 s.v3 in
    let a3 = bit_xor (rotl s.v3 16) a2 in
    let c0 = add64 b0 a3 in
    let b3 = bit_xor (rotl a3 21) c0 in
    let b2 = add64 a2 a1 in
    let b1 = bit_xor (rotl a1 17) b2 in record { v0 = c0; v1 = b1; v2 = rotl b2 32; v3 = b3 }

-- One word `m` of the input.
unfoldable pub absorb : SipState → ℕ → SipState
absorb s m = let t = sipround (record s { v3 = bit_xor s.v3 m }) in record t { v0 = bit_xor t.v0 m }

-- The four constants with the seed `k` on them.
unfoldable pub sip_start : List ℕ → SipState
sip_start k =
    let k0 = u8to64_le k in
    let k1 = u8to64_le (drop 8 k) in
    record {
      v0 = bit_xor 0x736f6d6570736575 k0;
      v1 = bit_xor 0x646f72616e646f6d k1;
      v2 = bit_xor 0x6c7967656e657261 k0;
      v3 = bit_xor 0x7465646279746573 k1;
    }

-- The loop over the words: `blocks` is how far `in` is from `end`. The rest of the input is left.
unfoldable pub sip_loop : ℕ → List ℕ → SipState → SipState × List ℕ
sip_loop zero p s = (s, p)
sip_loop (suc blocks) p s = sip_loop blocks (drop 8 p) (absorb s (u8to64_le p))

unfoldable pub sip_loop_nocase : ℕ → List ℕ → SipState → SipState × List ℕ
sip_loop_nocase zero p s = (s, p)
sip_loop_nocase (suc blocks) p s = sip_loop_nocase blocks (drop 8 p) (absorb s (u8to64_le_nocase p))

-- The switch on `left`: case `i + 1` takes `in[i]` and falls through to the case below.
unfoldable pub sip_tail : ℕ → List ℕ → ℕ → ℕ
unfolding shift_left
sip_tail zero p b = b
sip_tail (suc i) p b = sip_tail i p (bit_or b (shift_left (byte p i) (8 * i)))

unfoldable pub sip_tail_nocase : ℕ → List ℕ → ℕ → ℕ
unfolding shift_left siptlw
sip_tail_nocase zero p b = b
sip_tail_nocase (suc i) p b =
    sip_tail_nocase i p (bit_or b (shift_left (siptlw (byte p i)) (8 * i)))

-- The last word, two more rounds, and the four words on each other.
unfoldable pub sip_finish : SipState → ℕ → ℕ
sip_finish s b =
    let t = absorb s b in
    let u = sipround (sipround (record t { v2 = bit_xor t.v2 0xff })) in
    bit_xor (bit_xor (bit_xor u.v0 u.v1) u.v2) u.v3

-- `atm_siphash` with the seed `k`.
unfoldable pub siphash : List ℕ → List ℕ → ℕ
siphash k input =
    let inlen = length input in
    let (s, rest) = sip_loop (inlen / 8) input (sip_start k) in
    sip_finish s (sip_tail (inlen % 8) rest (shift_left inlen 56))

-- `atm_siphash_nocase` with the seed `k`.
unfoldable pub siphash_nocase : List ℕ → List ℕ → ℕ
siphash_nocase k input =
    let inlen = length input in
    let (s, rest) = sip_loop_nocase (inlen / 8) input (sip_start k) in
    sip_finish s (sip_tail_nocase (inlen % 8) rest (shift_left inlen 56))
