-- ===== src/Dict/Table/Store.antt =====
-- `atm_dict_table_set` on an open table.
use atm_cache.Base.{
  ◌+◌, ◌<◌, ◌≡◌, refl, false, Option, none, some, List, [], ◌∷◌, arith, if◌then◌else◌, ok, Returns,
  ap, u32_mod, Option-cases, inl, inr,
}
use atm_cache.LinkedList.Spec.{find_first, modify_first}
use atm_cache.Dict.Key.{KeyType, ◌~◌}
use atm_cache.Dict.Table.{Entry, live, Table, entry_new, table_set}
use atm_cache.Dict.Table.Chain.{bit, has_key, assoc-modify, count-modify, length-modify}
use atm_cache.Dict.Table.Buckets.{
  is_live, slot, place, place_chain, view, hkey-place, at-place, list-place, entry-find, written,
  slot-written, written-IsTable, view-written, live_count-written,
}
use atm_cache.Dict.Table.Reads.{is_some, is_hollow, NoHollow, IsOpen, view-find, live_of_find}
use atm_cache.Dict.Table.Push.{table_push_entry-Pushed}

module _ {K V : Type 0} ⦃key : KeyType K⦄ where
  modify-not_hollow :
      (k : K) (v : Option V) (es : List (Entry K V)) (e : Entry K V)
      → find_first (has_key k) es ≡ some e
      → is_hollow (live (modify_first (has_key k) (λ x. record x { val = v }) es)) ≡ false
  unfolding find_first modify_first
  modify-not_hollow k v [] e h = ground arith
  modify-not_hollow k v (x ∷ es) e h = ground arith

  -- What `table_set` makes of an open table.
  pub record Stored (t : Table K V) (k : K) (v : Option V) (t' : Table K V) : Type 0 where
    pub is_open : IsOpen t'
    pub same_size : t'.bktab_size ≡ t.bktab_size
    pub counted : t'.size + bit (is_some (view t k)) ≡ t.size + 1
    pub reads : (q : K) → view t' q ≡ (if k ~ q then some v else view t q)
    pub full : NoHollow t → NoHollow t'

  module _ {t : Table K V} (h : IsOpen t) (k : K) (v : Option V) (room : t.size + 1 < u32_mod) where
    module _ (e : Entry K V) (found : find_first (has_key k) (place_chain t k) ≡ some e) where
      at_live : slot t (place k t.bktab_size) ≡ live (place_chain t k)
      at_live = live_of_find k (slot t (place k t.bktab_size)) e found

      view-some : view t k ≡ some e.val
      view-some = rw (view-find, found)

      abbrev changed : List (Entry K V)
      changed = modify_first (has_key k) (λ x. record x { val = v }) (place_chain t k)

      replaced : Stored t k v (written t k changed t.bktab_used t.size)
      replaced = record {
        is_open = record {
          table =
              written-IsTable h.table k changed t.bktab_used t.size
                (omega (arith, length-modify k v (place_chain t k))) h.table.fits
                (λ q. rw (count-modify k q v (place_chain t k)) (h.table.once q _))
                (λ q n. rw (count-modify k q v (place_chain t k)) (h.table.placed q _ n));
          used = omega (
            arith,
            h.used,
            live_count-written h.table k changed,
            ap (λ x. bit (is_live x)) at_live,
          );
          small = h.small;
        };
        same_size = refl;
        counted = rw view-some;
        reads = λ q.
            view-written h.table k changed t.bktab_used t.size q (some v)
              (λ same. assoc-modify k q v (place_chain t k) e found);
        full = λ nh i.
            rw (slot-written h.table k changed t.bktab_used t.size i)
              (ground (arith, nh i, modify-not_hollow k v (place_chain t k) e found));
      }

      table_set-run : table_set t k v ≡ ok (written t k changed t.bktab_used t.size)
      unfolding table_set
      table_set-run =
          rw
            (
              entry-find h.table k,
              found,
              hkey-place h.table k,
              at-place h.table k,
              list-place h.table k,
            )
            (rw at_live)

    pub table_set-Stored : Returns (table_set t k v) (Stored t k v)
    unfolding table_set
    table_set-Stored = elim (Option-cases (find_first (has_key k) (place_chain t k))) [
      | inl e ↦
          let absent : view t k ≡ none = rw (view-find, e) in
          let (t', run, p) = table_push_entry-Pushed h (entry_new k v) absent room in
          (
            t',
            rw (entry-find h.table k, e) run,
            record {
              is_open = p.is_open;
              same_size = p.same_size;
              counted = rw absent (omega (arith, p.counted));
              reads = p.reads;
              full = p.full;
            },
          )
      | inr (e, found) ↦ (_, table_set-run e found, replaced e found)
    ]
