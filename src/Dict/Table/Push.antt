-- ===== src/Dict/Table/Push.antt =====
-- `atm_dict_table_push_entry` on an open table that lacks the entry's key.
use atm_cache.Base.{
  ℕ, ◌+◌, ◌<◌, ◌≡◌, refl, none, some, [], arith, if◌then◌else◌, length-append, length-set, set,
  Returns, ap, inc32_small, u32_mod, inl, inr,
}
use atm_cache.LinkedList.Spec.{push_last}
use atm_cache.Dict.Key.{KeyType, ◌~◌}
use atm_cache.Dict.Table.{Entry, Slot, null, live, Table, table_push_entry}
use atm_cache.Dict.Table.Chain.{
  assoc, count, bit, count-eq-zero, assoc-eq-none, assoc-append, count-append,
}
use atm_cache.Dict.Table.Buckets.{
  Slot-cases, entries, is_live, slot, place, place_congr, view, hkey-place, at-place, list-place,
  written, slot-written, written-IsTable, view-written, live_count-written,
}
use atm_cache.Dict.Table.Reads.{live_count-le, NoHollow, not_hollow, IsOpen}

module _ {K V : Type 0} ⦃key : KeyType K⦄ where
  -- What `table_push_entry` makes of an open table.
  pub record Pushed (t : Table K V) (e : Entry K V) (t' : Table K V) : Type 0 where
    pub is_open : IsOpen t'
    pub same_size : t'.bktab_size ≡ t.bktab_size
    pub counted : t'.size ≡ t.size + 1
    pub reads : (q : K) → view t' q ≡ (if e.key ~ q then some e.val else view t q)
    pub full : NoHollow t → NoHollow t'

  module _ {t : Table K V} (h : IsOpen t) (e : Entry K V) (absent : view t e.key ≡ none)
      (room : t.size + 1 < u32_mod) where
    push_at :
        (s : Slot K V)
        → slot t (place e.key t.bktab_size) ≡ s
        → (used : ℕ) → used + bit (is_live s) ≡ t.bktab_used + 1
        → Pushed t e (written t e.key (push_last (entries s) e) used (t.size + 1))
    unfolding push_last view count assoc
    push_at s at used counts = record {
      is_open = record {
        table =
            written-IsTable h.table e.key _ used (t.size + 1) (rw (length-append, at) (omega arith))
              room
              (λ q. rw count-append (
                ground (
                  arith,
                  count-eq-zero q e.key (entries s),
                  h.table.once q (place e.key t.bktab_size),
                )))
              (λ q n. rw count-append (
                ground (
                  arith,
                  count-eq-zero q e.key (entries s),
                  h.table.placed q (place e.key t.bktab_size),
                  place_congr e.key q t.bktab_size,
                )));
        used = omega (
          arith,
          h.used,
          live_count-written h.table e.key (push_last (entries s) e),
          ap (λ x. bit (is_live x)) at,
        );
        small = h.small;
      };
      same_size = refl;
      counted = refl;
      reads = λ q. view-written h.table e.key _ used (t.size + 1) q (some e.val) (λ same.
          rw assoc-append
            (ground (arith, count-eq-zero q e.key (entries s), assoc-eq-none q (entries s))));
      full = λ nh i.
          rw (slot-written h.table e.key (push_last (entries s) e) used (t.size + 1) i)
            (ground (arith, nh i, not_hollow (entries s) e));
    }

    used_room : slot t (place e.key t.bktab_size) ≡ null → t.bktab_used + 1 < u32_mod
    used_room at = omega (
      arith,
      h.used,
      h.small,
      h.table.width,
      live_count-written h.table e.key [],
      live_count-le (set t.bktab (place e.key t.bktab_size) (live [])),
      length-set t.bktab (place e.key t.bktab_size) (live []),
      ap (λ x. bit (is_live x)) at,
    )

    pub table_push_entry-Pushed : Returns (table_push_entry t e) (Pushed t e)
    unfolding table_push_entry
    table_push_entry-Pushed =
        rw (hkey-place h.table e.key, at-place h.table e.key, list-place h.table e.key)
          (elim (Slot-cases (slot t (place e.key t.bktab_size)) (h.table.sound _)) [
            | inl at ↦ (
              written t e.key (push_last [] e) (t.bktab_used + 1) (t.size + 1),
              rw (at, inc32_small t.size room, inc32_small t.bktab_used (used_room at)),
              push_at null at (t.bktab_used + 1) (omega arith),
            )
            | inr (l, at) ↦ (
              written t e.key (push_last l e) t.bktab_used (t.size + 1),
              rw (at, inc32_small t.size room),
              push_at (live l) at t.bktab_used (omega arith),
            )
          ])
