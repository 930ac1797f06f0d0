-- ===== src/Dict/Table/Counts.antt =====
-- Facts on the buckets of a table: which are counted, where they stand, what they hold.
use atm_cache.Base.{
  ltb, ℕ, zero, suc, ◌≤◌, ◌<◌, ◌≡◌, refl, true, false, List, [], ◌∷◌, arith, drop, Returns, length,
  get_or, replicate,
}
use atm_cache.Dict.Table.{Slot, null, live, freed, free_buckets}
use atm_cache.Dict.Table.Buckets.{entries, is_live, is_freed, live_count, total}
use atm_cache.Dict.Table.Reads.{is_hollow}

module _ {K V : Type 0} where
  pub free_buckets-ok :
      (ss : List (Slot K V))
      → ((i : ℕ) → is_freed (get_or ss i null) ≡ false)
      → Returns (free_buckets ss) (λ _. Unit {0})
  unfolding free_buckets
  free_buckets-ok [] sound = ([], refl, tt)
  free_buckets-ok (null ∷ ss) sound =
      let (r, run, _) = free_buckets-ok ss (λ i. sound (suc i)) in (null ∷ r, rw run, tt)
  free_buckets-ok (live l ∷ ss) sound =
      let (r, run, _) = free_buckets-ok ss (λ i. sound (suc i)) in (freed ∷ r, rw run, tt)
  free_buckets-ok (freed ∷ ss) sound = cc (sound 0)

  pub inside_of_live : (ss : List (Slot K V)) (i : ℕ) → 0 < live_count (drop i ss) → i < length ss
  unfolding live_count
  inside_of_live [] zero p = absurd (omega arith)
  inside_of_live [] (suc i) p = absurd (omega arith)
  inside_of_live (s ∷ ss) zero p = omega arith
  inside_of_live (s ∷ ss) (suc i) p = omega (arith, inside_of_live ss i p)

  -- A bucket that is counted from `i` on stands at some index from `i` on.
  pub live_from :
      (ss : List (Slot K V)) (i : ℕ)
      → 0 < live_count (drop i ss)
      → (j : ℕ) × (i ≤ j) × (is_live (get_or ss j null) ≡ true)
  unfolding live_count
  live_from [] zero p = absurd (omega arith)
  live_from [] (suc i) p = absurd (omega arith)
  live_from (live l ∷ ss) zero p = (0, omega arith, refl)
  live_from (null ∷ ss) zero p =
      let (j, b, e) = live_from ss zero (omega arith) in (suc j, omega arith, e)
  live_from (freed ∷ ss) zero p =
      let (j, b, e) = live_from ss zero (omega arith) in (suc j, omega arith, e)
  live_from (s ∷ ss) (suc i) p = let (j, b, e) = live_from ss i p in (suc j, omega arith, e)

  pub length-le-total :
      (ss : List (Slot K V)) (i : ℕ) → length (entries (get_or ss i null)) ≤ total ss
  unfolding total
  length-le-total [] i = omega arith
  length-le-total (s ∷ ss) zero = omega arith
  length-le-total (s ∷ ss) (suc i) = omega (arith, length-le-total ss i)

  pub hollow_of_live :
      (s : Slot K V) → is_live s ≡ true → length (entries s) ≡ 0 → is_hollow s ≡ true
  hollow_of_live (live []) l e = refl
  hollow_of_live (live (x ∷ es)) l e = absurd (omega arith)
  hollow_of_live null l e = cc
  hollow_of_live freed l e = cc

  pub get_or-replicate : (n i : ℕ) → get_or {A = Slot K V} (replicate n null) i null ≡ null
  get_or-replicate zero i = refl
  get_or-replicate (suc n) zero = refl
  get_or-replicate (suc n) (suc i) = get_or-replicate n i

pub not_short : (n m : ℕ) → n ≡ m → ltb n m ≡ false
not_short n m e = ground (arith, e)
