-- ===== src/Util/NextPower.antt =====
-- `atm_util_next_power` finds the least power of two from 4 on that is not below its argument, and
-- runs forever above `2 ^ 31`.
use atm_cache.Base.{
  ℕ, zero, suc, ◌+◌, ◌*◌, ◌^◌, Option, none, some, leb, arith, ◌≤◌, ◌<◌, ◌≡◌, Bool-cases, inl, inr,
  ◌⊎◌, refl, false, mul32, leb→le, u32_mod,
}
use native.Mathlib.Decide.{dec_lt}
use native.Mathlib.Nat.{pow-suc, pow-le-pow_right}
use atm_cache.Util.{next_power_loop, next_power, power_init_size}

double_power : (k : ℕ) → 2 ^ k * 2 ≡ 2 ^ suc k
double_power k = omega (arith, pow-suc 2 k)

-- A power below `2 ^ 31` doubles with no wrap.
mul32_power : (k : ℕ) → k < 31 → mul32 (2 ^ k) 2 ≡ 2 ^ suc k
unfolding mul32
mul32_power k h =
    let bound : 2 ^ suc k ≤ 2 ^ 31 = pow-le-pow_right (omega arith) h in
    omega (arith, double_power k)

-- The loop from `2 ^ k` to the first power that is large enough.
record LoopResult (num k : ℕ) (o : Option ℕ) : Type 0 where
  exponent : ℕ
  run : o ≡ some (2 ^ exponent)
  above : k ≤ exponent
  enough : num ≤ 2 ^ exponent
  tight : (exponent ≡ k) ⊎ (2 ^ exponent < 2 * num)

next_power_loop_lem :
    (f k num : ℕ)
    → k ≤ 31
    → num ≤ 2 ^ 31
    → 31 < k + f
    → LoopResult num k (next_power_loop f num (2 ^ k))
unfolding next_power_loop
next_power_loop_lem zero k num small fits fuel = absurd (omega arith)
next_power_loop_lem (suc f) k num small fits fuel = elim (Bool-cases (leb num (2 ^ k))) [
  | inl done ↦ record {
    exponent = k;
    run = rw done;
    above = omega arith;
    enough = leb→le _ _ done;
    tight = inl refl;
  }
  | inr more ↦
      let short : 2 ^ k < num = ground arith in
      let room : k < 31 = elim (dec_lt k 31) [
        | yes p ↦ p
        | no n ↦
            absurd
              (omega (arith, pow-le-pow_right {n = 2} (omega arith) {i = 31} {j = k} (omega arith)))
      ] in
      let r = next_power_loop_lem f (suc k) num room fits (omega arith) in
      record {
        exponent = r.exponent;
        run = rw (more, mul32_power k room) r.run;
        above = omega (arith, r.above);
        enough = r.enough;
        tight = elim r.tight [ inl e ↦ inr (rw e (omega (arith, double_power k))) | inr l ↦ inr l ];
      }
]

-- `r` is the least power of two from the initial size on that is not below `num`.
pub record IsNextPower (num : ℕ) (r : ℕ) : Type 0 where
  pub exponent : ℕ
  pub power : r ≡ 2 ^ exponent
  pub enough : num ≤ r
  pub initial : power_init_size ≤ r
  pub least : (m : ℕ) → num ≤ 2 ^ m → power_init_size ≤ 2 ^ m → r ≤ 2 ^ m
  pub word : r < u32_mod

tight-least :
    (num e : ℕ)
    → (e ≡ 2) ⊎ (2 ^ e < 2 * num)
    → (m : ℕ) → num ≤ 2 ^ m
    → power_init_size ≤ 2 ^ m
    → 2 ^ e ≤ 2 ^ m
tight-least num e (inl same) m enough initial = rw same initial
tight-least num e (inr tight) m enough initial = elim (dec_lt m e) [
  | yes p ↦
      let up : 2 ^ suc m ≤ 2 ^ e = pow-le-pow_right (omega arith) p in
      absurd (omega (arith, double_power m))
  | no n ↦ pow-le-pow_right (omega arith) (omega arith)
]

-- Up to `2 ^ 31` the loop ends with the least power of two that is at least 4 and at least `num`.
pub next_power_lem :
    (num : ℕ) → num ≤ 2 ^ 31 → (r : ℕ) × (next_power num ≡ some r) × IsNextPower num r
unfolding next_power
next_power_lem num fits =
    let r = next_power_loop_lem 31 2 num (omega arith) fits (omega arith) in
    (
      2 ^ r.exponent,
      r.run,
      record {
        exponent = r.exponent;
        power = refl;
        enough = r.enough;
        initial = pow-le-pow_right (omega arith) r.above;
        least = tight-least num r.exponent r.tight;
        word = omega (arith, tight-least num r.exponent r.tight 31);
      },
    )

-- At 0 the loop stays.
zero_stuck : (f num : ℕ) → 0 < num → next_power_loop f num 0 ≡ none
unfolding next_power_loop mul32
zero_stuck zero num h = refl
zero_stuck (suc f) num h = ground (arith, zero_stuck f num)

power_stuck : (f j k num : ℕ) → k + j ≡ 31 → 2 ^ 31 < num → next_power_loop f num (2 ^ k) ≡ none
unfolding next_power_loop
power_stuck zero j k num e h = refl
power_stuck (suc f) zero k num e h =
    let top : k ≡ 31 = omega arith in
    let small : leb num (2 ^ 31) ≡ false = ground arith in
    rw (top, small) (zero_stuck f num (omega arith))
power_stuck (suc f) (suc j) k num e h =
    let below : 2 ^ k ≤ 2 ^ 31 =
      pow-le-pow_right {n = 2} (omega arith) {i = k} {j = 31} (omega arith) in
    let small : leb num (2 ^ k) ≡ false = ground arith in
    rw (small, mul32_power k (omega arith)) (power_stuck f j (suc k) num (omega arith) h)

-- Above `2 ^ 31` the loop never ends, however many rounds it is given: `res` wraps to 0.
pub next_power_diverges :
    (fuel num : ℕ) → 2 ^ 31 < num → next_power_loop fuel num power_init_size ≡ none
next_power_diverges fuel num h = power_stuck fuel 29 2 num refl h
