-- ===== src/Dict/Stale.antt =====
-- `atm_dict_set` during a rehash writes to the new table without a look at the old one, which
-- `atm_dict_get` asks first: a key that has not moved keeps its old value.
use atm_cache.Base.{
  FreeType, ℕ, ◌+◌, ◌-◌, ◌<◌, ◌≡◌, ◌≢◌, Bool, true, false, Option, some, List, arith, ok, inl, inr,
  Bool-cases, Returns, ◌==◌, ltb, length, ap,
}
use atm_cache.Dict.Key.{KeyType}
use atm_cache.Dict.Ops.{
  dict_set, dict_get, rehash, rehash_tables, rehash_loop, rehash_needed, rehash_finish,
}
use atm_cache.Dict.Table.{Entry, Table, live}
use atm_cache.Dict.Table.Chain.{count}
use atm_cache.Dict.Table.Buckets.{view, place, place_congr, slot, entries, Slot-cases, IsTable}
use atm_cache.Dict.Table.Reads.{table_get-view}
use atm_cache.Dict.Table.Store.{table_set-Stored, Stored}
use atm_cache.Dict.Table.New.{view_empty}
use atm_cache.Dict.Valid.{dict_of, IsDict, max_moving}
use atm_cache.Dict.Rehash.{inside}
use atm_cache.Dict.Move.{move_entries-Moved}
use atm_cache.Dict.Drain.{emptied, emptied-IsDraining, view-emptied, length-le-size}
use atm_cache.Dict.Round.{loop_skip, loop_move, absent_in_target}

module _ {K V : Type 0} ⦃key : KeyType K⦄ where
  module _ (f : FreeType) (act bak : Table K V) (resize : Bool) (i : ℕ) (k : K) (v : Option V)
      (w : V) (h : IsDict (dict_of f act (some bak) resize i))
      (room : act.size + bak.size < max_moving) (stands : view act k ≡ some (some w))
      (away : place k act.bktab_size ≢ i) where
    inside_table : i < act.bktab_size
    inside_table = inside (dict_of f act (some bak) resize i) bak h.0 h.1 (omega arith)

    -- The loop's result: the old table still has the entry.
    record Remains (r : Table K V × Table K V × ℕ) : Type 0 where
      table : IsTable r.0
      there : view r.0 k ≡ some (some w)

    here :
        (es : List (Entry K V))
        → slot act i ≡ live es
        → view (emptied act i (act.bktab_used - 1) (act.size - length es)) k ≡ some (some w)
    here es at = ground (arith, view-emptied h.0.draining inside_table es at k)

    remains : (bak' : Table K V) → Stored bak k v bak' → Returns (rehash_loop 1 act bak' i) Remains
    remains bak' s = elim (Slot-cases (slot act i) (h.0.draining.table.sound i)) [
      | inl at ↦ (
        _,
        loop_skip h.0.draining inside_table bak' h.1 at,
        record { table = h.0.draining.table; there = stands },
      )
      | inr (es, at) ↦
          let (r, run, m) =
            move_entries-Moved es bak' act.size s.is_open
              (λ q. omega (arith, h.0.draining.table.once q i, ap (λ x. count q (entries x)) at))
              (λ q c. ground (
                arith,
                s.reads q,
                place_congr k q act.bktab_size,
                h.0.draining.table.placed q i,
                absent_in_target h.0 inside_table (omega arith) es at q,
                ap (λ x. count q (entries x)) at,
              ))
              (length-le-size h.0.draining inside_table es at) (omega (arith, s.counted)) in
          (
            _,
            loop_move h.0.draining inside_table bak' h.1 es at r run m.left,
            record {
              table = (emptied-IsDraining h.0.draining inside_table es at).table;
              there = here es at;
            },
          )
    ]

    still_used : (t : Table K V) → IsTable t → view t k ≡ some (some w) → (t.size == 0) ≡ false
    still_used t is there = elim (Bool-cases (t.size == 0)) [
      | inl e ↦ absurd (cc (view_empty is (ground arith) k, there))
      | inr e ↦ e
    ]

    step :
        (bak' : Table K V)
        → Stored bak k v bak'
        → Returns (rehash (dict_of f act (some bak') resize i)) (λ d'. dict_get d' k ≡ ok (some w))
    unfolding rehash rehash_needed rehash_tables rehash_finish dict_get
    step bak' s =
        let (r, run, p) = remains bak' s in
        let begins : ltb i act.bktab_size ≡ true = ground (arith, inside_table) in
        let more : (r.0.size == 0) ≡ false = still_used r.0 p.table p.there in
        (
          dict_of f r.0 (some r.1) resize r.2,
          rw (begins, run, more),
          rw (table_get-view p.table k, p.there),
        )

    -- During a rehash of a well-formed dictionary with fewer than 2 ^ 30 entries, a write to a key
    -- that is in the old table with a value other than NULL, outside the bucket that moves next, ends
    -- normally, and the key then still reads as its old value.
    pub dict_set_stale :
        Returns
          (dict_set (dict_of f act (some bak) resize i) k v)
          (λ d'. dict_get d' k ≡ ok (some w))
    unfolding dict_set
    dict_set_stale =
        let (bak', run, s) = table_set-Stored h.0.target k v (omega arith) in
        let (d', done, p) = step bak' s in (d', rw run done, p)
