-- ===== src/Dict/Rehash.antt =====
-- One step of `atm_dict_rehash`: it keeps the map, or it ends the process where a deletion left an
-- empty bucket behind.
use atm_cache.Base.{
  ◌^◌, FreeType, ℕ, zero, suc, ◌+◌, ◌*◌, ◌/◌, ◌≤◌, ◌<◌, ◌≡◌, refl, Bool, true, false, Option, none,
  some, arith, u32_mod, Run, stop, exit_error, Returns, sym, ◌==◌, ltb, leb, inl, inr, Bool-cases,
  ◌⊎◌, mul32_small, leb→le,
}
use mathlib.Core.Path.{subst}
use atm_cache.Util.NextPower.{next_power_lem}
use atm_cache.Dict.Key.{KeyType}
use atm_cache.Dict.Ops.{
  Dict, rehash, rehash_tables, rehash_finish, rehash_needed, force_resize_ratio,
}
use atm_cache.Dict.Table.{Table, table_new}
use atm_cache.Dict.Table.Buckets.{slot}
use atm_cache.Dict.Table.Reads.{IsOpen, is_hollow}
use atm_cache.Dict.Valid.{
  IsRehashing, IsIdle, Phase, IsDict, IsDense, dict_view, tables_size, entry_count, max_entries,
}
use atm_cache.Dict.Drain.{used_pos_of_size}
use atm_cache.Dict.Round.{Stepped, rehash_loop-Stepped}
use atm_cache.Dict.Table.Counts.{
  not_short, free_buckets-ok, inside_of_live, live_from, length-le-total, hollow_of_live,
}
use atm_cache.Dict.Table.New.{view_empty, table_new-IsOpen, view-table_new, table_new-NoHollow}

pos_of_ratio : (size n : ℕ) → force_resize_ratio ≤ size / n → 0 < size
pos_of_ratio zero n h = omega arith
pos_of_ratio (suc s) n h = omega arith

module _ {K V : Type 0} ⦃key : KeyType K⦄ where
  -- The same map, in a well-formed dictionary, which is dense if the old one was.
  pub record Kept (d d' : Dict K V) : Type 0 where
    pub valid : IsDict d'
    pub reads : (q : K) → dict_view d' q ≡ dict_view d q
    pub counted : entry_count d' ≡ entry_count d
    pub dense : IsDense d → IsDense d'

  -- The end of the process, and the bucket without entries that caused it.
  pub record Exits (d : Dict K V) (r : Run (Dict K V)) : Type 0 where
    pub run : r ≡ stop exit_error
    pub bucket : ℕ
    pub to_move : d.rehash_index ≤ bucket
    pub hollow : is_hollow (slot d.ht_active bucket) ≡ true

  abbrev pub Outcome : Dict K V → Run (Dict K V) → Type 0
  Outcome d r = Returns r (Kept d) ⊎ Exits d r

  module _ (d : Dict K V) (bak : Table K V) (h : IsRehashing d.ht_active bak d.rehash_index)
      (some_left : 0 < d.ht_active.size) (room : d.ht_active.size + bak.size < u32_mod) where
    pub inside : d.rehash_index < d.ht_active.bktab_size
    inside = omega (
      arith,
      h.draining.table.width,
      h.draining.left,
      used_pos_of_size h.draining some_left,
      inside_of_live d.ht_active.bktab d.rehash_index,
    )

    zero_size : (t : Table K V) → (t.size == 0) ≡ true → t.size ≡ 0
    zero_size t e = ground arith

    -- The old table is empty, and a bucket of it is still counted.
    left_behind :
        (r : Table K V × Table K V × ℕ)
        → Stepped d.ht_active bak d.rehash_index r
        → r.0.size ≡ 0
        → 0 < r.0.bktab_used
        → rehash_finish d r.0 r.1 r.2 ≡ stop exit_error
        → Exits (record d { ht_backup = some bak }) (rehash_finish d r.0 r.1 r.2)
    left_behind r s over unclean run =
        let (j, above, l) = live_from r.0.bktab r.2 (omega (arith, s.rehashing.draining.left)) in
        record {
          run = run;
          bucket = j;
          to_move = omega (arith, s.next);
          hollow = rw (← s.kept j (omega (arith, s.next))) (
              hollow_of_live (slot r.0 j) l
                (omega (arith, s.rehashing.draining.table.counted, length-le-total r.0.bktab j)));
        }

    -- What `rehash_tables` returns, or why it ends the process.
    finish :
        (r : Table K V × Table K V × ℕ)
        → Stepped d.ht_active bak d.rehash_index r
        → Outcome (record d { ht_backup = some bak }) (rehash_finish d r.0 r.1 r.2)
    unfolding rehash_finish dict_view entry_count
    finish r s =
        let past : ltb r.0.bktab_size r.2 ≡ false = ground (arith, s.next, s.same_size, inside) in
        elim (Bool-cases (r.0.size == 0)) [
          | inr more ↦ inl (
            record d { ht_active = r.0; ht_backup = some r.1; rehash_index = r.2 },
            rw more,
            record {
              valid = (s.rehashing, ground arith);
              reads = s.reads;
              counted = s.counted;
              dense = λ p. (
                λ j l. rw (s.kept j (omega (arith, s.next))) (p.0 j (omega (arith, s.next))),
                s.full p.1,
              );
            },
          )
          | inl over ↦ elim (Bool-cases (r.0.bktab_used == 0)) [
            | inl clean ↦
                let (ss, run, _) = free_buckets-ok r.0.bktab s.rehashing.draining.table.sound in
                let short = not_short _ _ s.rehashing.draining.table.width in
                inl (
                  record d { ht_active = r.1; ht_backup = none; rehash_index = 0 },
                  rw (over, past, clean, short, run),
                  record {
                    valid = record { is_open = s.rehashing.target; start = refl };
                    reads = λ q. ground (
                      arith,
                      s.reads q,
                      view_empty s.rehashing.draining.table (zero_size r.0 over) q,
                    );
                    counted = ground (arith, s.counted);
                    dense = λ p. s.full p.1;
                  },
                )
            | inr unclean ↦
                inr (left_behind r s (zero_size r.0 over) (ground arith) (rw (over, past, unclean)))
          ]
        ]

    rehash_tables-Outcome :
        Outcome (record d { ht_backup = some bak }) (rehash_tables d d.ht_active bak)
    unfolding rehash_tables
    rehash_tables-Outcome =
        let (r, run, s) = rehash_loop-Stepped h inside room some_left in
        let begins : ltb d.rehash_index d.ht_active.bktab_size ≡ true = ground (arith, inside) in
        rw (begins, run) (finish r s)

  module _ (f : FreeType) (act : Table K V) (resize : Bool) where
    abbrev with_tables : Option (Table K V) → ℕ → Dict K V
    with_tables b i = record {
      free_type = f;
      ht_active = act;
      ht_backup = b;
      enable_resize = resize;
      rehash_index = i;
    }

    -- The test whether a rehash is to begin; it begins on a table that holds something.
    needed :
        (i : ℕ)
        → 0 < act.bktab_size
        → Returns (rehash_needed (with_tables none i)) (λ b. b ≡ true → 0 < act.size)
    unfolding rehash_needed
    needed i pos = elim (Bool-cases resize) [
      | inl on ↦ (leb act.bktab_size act.size, rw on, λ e. ground arith)
      | inr off ↦ (
        leb force_resize_ratio (act.size / act.bktab_size),
        rw off (ground arith),
        λ e. pos_of_ratio act.size act.bktab_size (leb→le _ _ e),
      )
    ]

    begun : (n : ℕ) → 0 < n → n < 2 ^ 29 → IsIdle act 0 → IsRehashing act (table_new n) 0
    begun n pos small h = record {
      draining = record {
        table = h.is_open.table;
        moved = λ j l. elim l [ ];
        left = h.is_open.used;
        small = h.is_open.small;
      };
      target = table_new-IsOpen n pos small;
      apart = λ q _. view-table_new n q;
    }

    start :
        (n : ℕ)
        → 0 < n
        → n < 2 ^ 29
        → IsIdle act 0
        → 0 < act.size
        → act.size ≤ max_entries
        → Outcome (with_tables none 0) (rehash_tables (with_tables none 0) act (table_new n))
    unfolding dict_view entry_count table_new
    start n pos small h some_left room =
        elim (rehash_tables-Outcome (with_tables none 0) (table_new n) (begun n pos small h)
          some_left (omega arith)) [
            | inl (d', run, k) ↦ inl (
              d',
              run,
              record {
                valid = k.valid;
                reads = λ q. ground (arith, k.reads q, view-table_new {V = V} n q);
                counted = omega (arith, k.counted);
                dense = λ nh. k.dense (λ j l. nh j, table_new-NoHollow K V n);
              },
            )
            | inr x ↦
                inr (record {
                  run = x.run;
                  bucket = x.bucket;
                  to_move = x.to_move;
                  hollow = x.hollow;
                })
          ]

    Outcome-idle :
        IsOpen act
        → act.size ≤ max_entries
        → Outcome (with_tables none 0) (rehash (with_tables none 0))
    unfolding rehash
    Outcome-idle h room =
        let idle : IsIdle act 0 = record { is_open = h; start = refl } in
        let (b, run, p) = needed 0 h.table.pos in
        elim (Bool-cases b) [
          | inr off ↦ inl (
            with_tables none 0,
            rw (run, off),
            record { valid = idle; reads = λ q. refl; counted = refl; dense = λ nh. nh },
          )
          | inl on ↦
              let (n, power, is) = next_power_lem (act.size * 2) (omega arith) in
              rw (run, on, mul32_small act.size 2 (omega arith), power)
                (start n (omega (arith, is.initial))
                  (omega (arith, is.least 28 (omega arith) (omega arith))) idle (p on) room)
        ]

    outcome :
        (b : Option (Table K V)) (i : ℕ)
        → Phase act b i
        → tables_size act b ≤ max_entries
        → Outcome (with_tables b i) (rehash (with_tables b i))
    unfolding rehash rehash_needed
    outcome (some bak) i h room =
        rehash_tables-Outcome (with_tables (some bak) i) bak h.0 h.1 (omega arith)
    outcome none i h room =
        subst (λ j. Outcome (with_tables none j) (rehash (with_tables none j))) (sym h.start)
          (Outcome-idle h.is_open room)

  -- On a well-formed dictionary with at most 2 ^ 27 entries a rehash step keeps the map, the count
  -- and well-formedness, or it ends the process and some bucket still to move has no entry.
  pub rehash-Outcome :
      (d : Dict K V) → IsDict d → entry_count d ≤ max_entries → Outcome d (rehash d)
  unfolding entry_count
  rehash-Outcome d h room =
      outcome d.free_type d.ht_active d.enable_resize d.ht_backup d.rehash_index h room
