-- ===== src/Util.antt =====
-- Numeric helpers of src/core/atm_util.c.
pub mod NextPower
pub mod HexDump
use atm_cache.Base.{
  ℕ, zero, suc, ◌*◌, ◌%◌, ◌^◌, Option, none, some, leb, if◌then◌else◌, mul32, arith, ◌≤◌, ◌<◌, ◌≡◌,
  ◌-◌, ◌+◌, Bool-cases, inl, inr, leb→le, refl, true, false,
}

abbrev pub power_init_size : ℕ
power_init_size = 4

-- `while (1) { if (res >= num) return res; res *= 2; }` over a 32-bit `res`. `none` means that the
-- fuel ran out.
unfoldable pub next_power_loop : ℕ → ℕ → ℕ → Option ℕ
unfolding mul32
next_power_loop zero num res = none
next_power_loop (suc f) num res =
    let rest = next_power_loop f num (mul32 res 2) in if leb num res then some res else rest

-- From 4 the loop passes through 30 words before `res` wraps to 0, where it stays.
unfoldable pub next_power : ℕ → Option ℕ
unfolding next_power_loop
next_power num = next_power_loop 31 num power_init_size
