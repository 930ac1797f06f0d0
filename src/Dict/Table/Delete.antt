-- ===== src/Dict/Table/Delete.antt =====
-- `atm_dict_table_del` on a well-formed table.
use atm_cache.Base.{
  ℕ, ◌+◌, ◌-◌, ◌<◌, ◌≡◌, refl, Option, none, some, List, [], arith, if◌then◌else◌, ok, Returns,
  dec32_small, Option-cases, inl, inr,
}
use atm_cache.LinkedList.Spec.{find_first, delete_first}
use atm_cache.Dict.Key.{KeyType, ◌~◌}
use atm_cache.Dict.Table.{Entry, live, Table, table_del}
use atm_cache.Dict.Table.Chain.{
  bit, has_key, find-has_key, count-eq-zero, assoc-eq-none, count-delete-le, assoc-delete,
  delete_congr, length-delete, length-pos,
}
use atm_cache.Dict.Table.Buckets.{
  is_live, slot, chain, place, place_chain, place_congr, view, IsTable, hkey-place, at-place,
  list-place, entry-find, written, slot-written, written-IsTable, view-written, chain-le-size,
}
use atm_cache.Dict.Table.Reads.{is_some, view-find, live_of_find}

module _ {K V : Type 0} ⦃key : KeyType K⦄ where
  -- What `table_del` returns.
  pub record Deleted (t : Table K V) (k : K) (r : Option (Entry K V) × Table K V) : Type 0 where
    pub table : IsTable r.1
    pub same_size : r.1.bktab_size ≡ t.bktab_size
    pub same_used : r.1.bktab_used ≡ t.bktab_used
    pub counted : r.1.size + bit (is_some (view t k)) ≡ t.size
    pub gone : view t k ≡ elim r.0 [ none ↦ none | some e ↦ some e.val ]
    pub reads : (q : K) → view r.1 q ≡ (if k ~ q then none else view t q)
    pub alive : (i : ℕ) → is_live (slot r.1 i) ≡ is_live (slot t i)
    pub emptied : (i : ℕ) → chain t i ≡ [] → chain r.1 i ≡ []

  module _ {t : Table K V} (h : IsTable t) (k : K) where
    abbrev old : List (Entry K V)
    old = place_chain t k

    absent_congr : view t k ≡ none → (q : K) → view t q ≡ (if k ~ q then none else view t q)
    unfolding view
    absent_congr e q =
        ground (arith, place_congr k q t.bktab_size, count-eq-zero q k old, assoc-eq-none q old)

    module _ (e : Entry K V) (found : find_first (has_key k) (place_chain t k) ≡ some e) where
      at_live : slot t (place k t.bktab_size) ≡ live (place_chain t k)
      at_live = live_of_find k (slot t (place k t.bktab_size)) e found

      size_pos : 0 < t.size
      size_pos = omega (arith, chain-le-size h k [], length-pos k (place_chain t k) e found)

      view-some : view t k ≡ some e.val
      view-some = rw (view-find, found)

      deleted : Deleted t k (
        some e,
        written t k (delete_first (has_key k) (place_chain t k)) t.bktab_used (t.size - 1),
      )
      unfolding view
      deleted = record {
        table =
            written-IsTable h k _ t.bktab_used (t.size - 1)
              (omega (arith, size_pos, length-delete k (place_chain t k) e found))
              (omega (arith, h.fits))
              (λ q.
                omega
                  (arith, count-delete-le k q (place_chain t k), h.once q (place k t.bktab_size)))
              (λ q n. omega (
                arith,
                count-delete-le k q (place_chain t k),
                h.placed q (place k t.bktab_size) n,
              ));
        same_size = refl;
        same_used = refl;
        counted = rw view-some (omega (arith, size_pos));
        gone = view-some;
        reads = λ q.
            view-written h k _ t.bktab_used (t.size - 1) q none
              (λ same. assoc-delete k q (place_chain t k) (h.once q _));
        alive = λ i.
            rw
              (slot-written h k (delete_first (has_key k) (place_chain t k)) t.bktab_used
                (t.size - 1) i)
              (ground (arith, at_live));
        emptied = λ i n.
            rw
              (slot-written h k (delete_first (has_key k) (place_chain t k)) t.bktab_used
                (t.size - 1) i)
              (ground (arith, length-pos k (place_chain t k) e));
      }

      table_del-run :
          table_del t k
          ≡ ok (
            some e,
            written t k (delete_first (has_key k) (place_chain t k)) t.bktab_used (t.size - 1),
          )
      unfolding table_del
      table_del-run =
          rw (entry-find h k, found, hkey-place h k, at-place h k, list-place h k)
            (rw (
              at_live,
              delete_congr e.key k (place_chain t k) (find-has_key k (place_chain t k) e found),
              dec32_small t.size size_pos h.fits,
            ))

    absent-Deleted : find_first (has_key k) (place_chain t k) ≡ none → Deleted t k (none, t)
    absent-Deleted e =
        let absent : view t k ≡ none = rw (view-find, e) in
        record {
          table = h;
          same_size = refl;
          same_used = refl;
          counted = rw absent (omega arith);
          gone = absent;
          reads = absent_congr absent;
          alive = λ i. refl;
          emptied = λ i n. n;
        }

    pub table_del-Deleted : Returns (table_del t k) (Deleted t k)
    unfolding table_del
    table_del-Deleted = elim (Option-cases (find_first (has_key k) (place_chain t k))) [
      | inl e ↦ ((none, t), rw (entry-find h k, e), absent-Deleted e)
      | inr (e, found) ↦ (_, table_del-run e found, deleted e found)
    ]
