-- ===== src/Tests/UtilLaws.antt =====
-- The theorems on the numeric helpers at inputs that meet their hypotheses.
use atm_cache.Base.{ℕ, ◌≡◌, none, some, refl, [], ◌∷◌, arith, Returns, stop, out_of_bounds}
use atm_cache.Str.Bytes.{strlen}
use atm_cache.Util.HexDump.{hexdump, hexdump-unterminated}
use atm_cache.Util.{next_power, next_power_loop, power_init_size}
use atm_cache.Util.NextPower.{IsNextPower, next_power_lem, next_power_diverges}
use atm_cache.Base.{arith}

next_power_lem_example : (r : ℕ) × (next_power 600 ≡ some r) × IsNextPower 600 r
next_power_lem_example = next_power_lem 600 (omega arith)

next_power_diverges_example : next_power_loop 1000 3000000000 power_init_size ≡ none
next_power_diverges_example = next_power_diverges 1000 3000000000 (omega arith)

next_power_of_600 : next_power 600 ≡ some 1024
unfolding next_power
next_power_of_600 = refl

hexdump-unterminated_example :
    Returns
      (hexdump (10 ∷ 255 ∷ []))
      (λ s. (s ≡ 48 ∷ 120 ∷ 48 ∷ 97 ∷ 102 ∷ 102 ∷ []) × (strlen s ≡ stop out_of_bounds))
hexdump-unterminated_example = hexdump-unterminated (10 ∷ 255 ∷ []) (omega arith, (omega arith, tt))
