-- ===== src/Dict/Table/Reads.antt =====
-- Searches in a well-formed table, and when a table takes new entries.
use atm_cache.Base.{
  ℕ, ◌≤◌, ◌<◌, ◌≡◌, refl, Bool, true, false, Option, none, some, List, [], ◌∷◌, ◌++◌, arith, length,
  ok, u32_mod,
}
use atm_cache.LinkedList.Spec.{find_first}
use atm_cache.Dict.Key.{KeyType}
use atm_cache.Dict.Table.{Entry, Slot, null, live, freed, Table, table_contains, table_get}
use atm_cache.Dict.Table.Chain.{has_key, find-assoc}
use atm_cache.Dict.Table.Buckets.{entries, live_count, slot, place_chain, view, IsTable, entry-find}

-- A value pointer that was found, or NULL.
abbrev pub join {ℓ} : {A : Type ℓ} → Option (Option A) → Option A
join none = none
join (some v) = v

abbrev pub is_some {ℓ} : {A : Type ℓ} → Option A → Bool
is_some none = false
is_some (some _) = true

module _ {K V : Type 0} where
  pub live_count-le : (ss : List (Slot K V)) → live_count ss ≤ length ss
  unfolding live_count
  live_count-le [] = omega arith
  live_count-le (null ∷ ss) = omega (arith, live_count-le ss)
  live_count-le (live l ∷ ss) = omega (arith, live_count-le ss)
  live_count-le (freed ∷ ss) = omega (arith, live_count-le ss)

  -- A bucket with no entry, as deletion leaves it.
  abbrev pub is_hollow : Slot K V → Bool
  is_hollow (live []) = true
  is_hollow _ = false

  abbrev pub NoHollow : Table K V → Type 0
  NoHollow t = (i : ℕ) → is_hollow (slot t i) ≡ false

  pub not_hollow : (xs : List (Entry K V)) (e : Entry K V) → is_hollow (live (xs ++ e ∷ [])) ≡ false
  not_hollow [] e = refl
  not_hollow (x ∷ xs) e = refl

module _ {K V : Type 0} ⦃key : KeyType K⦄ where
  -- A table that takes new entries: all its buckets are counted.
  pub record IsOpen (t : Table K V) : Type 0 where
    pub table : IsTable t
    pub used : t.bktab_used ≡ live_count t.bktab
    pub small : t.bktab_size < u32_mod

  pub table_get-view :
      {t : Table K V} (h : IsTable t) (k : K) → table_get t k ≡ ok (join (view t k))
  unfolding table_get view
  table_get-view {t} h k = rw (entry-find h k, find-assoc k (place_chain t k)) (ground arith)

  pub table_contains-view :
      {t : Table K V} (h : IsTable t) (k : K) → table_contains t k ≡ ok (is_some (view t k))
  unfolding table_contains view
  table_contains-view {t} h k = rw (entry-find h k, find-assoc k (place_chain t k)) (ground arith)

  pub view-find :
      (t : Table K V) (k : K)
      → view t k
        ≡ elim (find_first (has_key k) (place_chain t k)) [ none ↦ none | some e ↦ some e.val ]
  unfolding view
  view-find t k = find-assoc k (place_chain t k)

  -- A bucket in which something is found is there.
  pub live_of_find :
      (k : K) (s : Slot K V) (e : Entry K V)
      → find_first (has_key k) (entries s) ≡ some e
      → s ≡ live (entries s)
  unfolding find_first
  live_of_find k null e h = ground arith
  live_of_find k (live l) e h = refl
  live_of_find k freed e h = ground arith
