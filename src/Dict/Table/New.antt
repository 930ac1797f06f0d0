-- ===== src/Dict/Table/New.antt =====
-- A new table, `atm_dict_table_new`, and a table without entries.
use atm_cache.Base.{
  ℕ, zero, suc, ◌*◌, ◌/◌, ◌%◌, ◌^◌, ◌<◌, ◌≡◌, refl, none, List, [], ◌∷◌, arith, u32_mod, length,
  sym, replicate, length-replicate,
}
use atm_cache.Dict.Key.{KeyType}
use atm_cache.Dict.Table.{Entry, Table, null, table_new}
use atm_cache.Dict.Table.Chain.{count, assoc}
use atm_cache.Dict.Table.Buckets.{place, live_count, total, view, IsTable}
use atm_cache.Dict.Table.Reads.{IsOpen, NoHollow}
use atm_cache.Dict.Table.Counts.{length-le-total, get_or-replicate}

totals-replicate :
    (K V : Type 0) (n : ℕ)
    → (total {K = K} {V = V} (replicate n null) ≡ 0)
      × (live_count {K = K} {V = V} (replicate n null) ≡ 0)
unfolding total live_count
totals-replicate K V zero = (refl, refl)
totals-replicate K V (suc n) =
    let r = totals-replicate K V n in (omega (arith, r.0), omega (arith, r.1))

-- The size in bytes of so many buckets is a word.
allocated : (n : ℕ) → n < 2 ^ 29 → 8 * n % u32_mod / 8 ≡ n
allocated n small = omega arith

module _ {K V : Type 0} ⦃key : KeyType K⦄ where
  assoc_of_empty : (q : K) (es : List (Entry K V)) → length es ≡ 0 → assoc q es ≡ none
  unfolding assoc
  assoc_of_empty q [] e = refl
  assoc_of_empty q (x ∷ es) e = absurd (omega arith)

  pub view_empty : {t : Table K V} → IsTable t → t.size ≡ 0 → (q : K) → view t q ≡ none
  unfolding view assoc
  view_empty {t} h e q =
      assoc_of_empty q _ (omega (arith, h.counted, length-le-total t.bktab (place q t.bktab_size)))

  pub table_new-IsOpen : (n : ℕ) → 0 < n → n < 2 ^ 29 → IsOpen {K = K} {V = V} (table_new n)
  unfolding table_new count
  table_new-IsOpen n p small = rw (allocated n small) (record {
    table = record {
      pos = p;
      width = length-replicate n null;
      counted = sym (totals-replicate K V n).0;
      fits = omega arith;
      sound = λ i. rw (get_or-replicate n i);
      once = λ q i. rw (get_or-replicate n i) (omega arith);
      placed = λ q i m. rw (get_or-replicate n i);
    };
    used = sym (totals-replicate K V n).1;
    small = omega arith;
  })

  pub view-table_new : (n : ℕ) (q : K) → view {V = V} (table_new n) q ≡ none
  unfolding view table_new assoc
  view-table_new n q = rw (get_or-replicate (8 * n % u32_mod / 8) (place q n))

pub table_new-NoHollow : (K V : Type 0) (n : ℕ) → NoHollow {K = K} {V = V} (table_new n)
unfolding table_new
table_new-NoHollow K V n i = rw (get_or-replicate (8 * n % u32_mod / 8) i)
