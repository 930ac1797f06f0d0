-- ===== src/Base/Word.antt =====
-- `atm_uint_t`, a 32-bit word: a number below `2 ^ 32` with its wrap-around written out.
use Prim.Native.Nat.{ℕ, ◌+◌, ◌-◌, ◌*◌, ◌%◌, ◌^◌, ◌<◌}
use mathlib.Core.Path.{◌≡◌}
use native.Mathlib.Omega.{arith}

abbrev pub u32_mod : ℕ
u32_mod = 2 ^ 32

unfoldable pub inc32 : ℕ → ℕ
inc32 n = (n + 1) % u32_mod

unfoldable pub dec32 : ℕ → ℕ
dec32 n = (n + u32_mod - 1) % u32_mod

unfoldable pub mul32 : ℕ → ℕ → ℕ
mul32 a b = a * b % u32_mod

pub inc32_small : (n : ℕ) → n + 1 < u32_mod → inc32 n ≡ n + 1
unfolding inc32
inc32_small n h = omega arith

pub dec32_small : (n : ℕ) → 0 < n → n < u32_mod → dec32 n ≡ n - 1
unfolding dec32
dec32_small n p h = omega arith

pub mul32_small : (a b : ℕ) → a * b < u32_mod → mul32 a b ≡ a * b
unfolding mul32
mul32_small a b h = omega arith
