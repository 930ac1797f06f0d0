-- ===== src/Dict/Round.antt =====
-- One round of the loop of `atm_dict_rehash`.
use atm_cache.Base.{
  dec32, ok, ℕ, suc, ◌+◌, ◌-◌, ◌<◌, ◌≡◌, ◌≢◌, refl, false, none, List, arith, u32_mod, Returns,
  length, inc32, inc32_small, dec32_small, ap, ◌==◌, inl, inr, Bool-cases, Option-cases, ◌⊎◌,
}
use atm_cache.Dict.Key.{KeyType}
use atm_cache.Dict.Ops.{move_entries, rehash_loop}
use atm_cache.Dict.Table.{Entry, Table, null, live, bucket_list}
use atm_cache.Dict.Table.Chain.{or_else, count, count-eq-zero}
use atm_cache.Dict.Table.Buckets.{entries, slot, place, view, Slot-cases, at-get_or}
use atm_cache.Dict.Table.Reads.{NoHollow}
use atm_cache.Dict.Valid.{IsDraining, IsRehashing}
use atm_cache.Dict.Move.{Moved, move_entries-Moved}
use atm_cache.Dict.Drain.{
  live_count-le, emptied, used_pos_of_size, in_bktab, skip-IsDraining, slot-emptied, length-le-size,
  emptied-IsDraining, view-emptied, assoc-bucket,
}

module _ {K V : Type 0} ⦃key : KeyType K⦄ where
  -- What one round makes of the two tables and the index.
  pub record Stepped (act bak : Table K V) (i : ℕ) (r : Table K V × Table K V × ℕ) : Type 0 where
    pub rehashing : IsRehashing r.0 r.1 r.2
    pub next : r.2 ≡ suc i
    pub same_size : r.0.bktab_size ≡ act.bktab_size
    pub counted : r.0.size + r.1.size ≡ act.size + bak.size
    pub reads : (q : K) → or_else (view r.0 q) (view r.1 q) ≡ or_else (view act q) (view bak q)
    pub kept : (j : ℕ) → i < j → slot r.0 j ≡ slot act j
    pub full : NoHollow bak → NoHollow r.1

  -- The two runs of the loop's body: no bucket at `i`, or one with the entries `es`.
  module _ {act : Table K V} {i : ℕ} (d : IsDraining act i) (inside : i < act.bktab_size)
      (bak : Table K V) (some_left : 0 < act.size) where
    next_index : inc32 i ≡ suc i
    next_index = omega (arith, d.small, inc32_small i)

    not_end : (i == act.bktab_size) ≡ false
    not_end = ground arith

    not_unused : (act.bktab_used == 0) ≡ false
    not_unused = ground (arith, used_pos_of_size d some_left)

    not_empty : (act.size == 0) ≡ false
    not_empty = ground arith

    one_less : dec32 act.bktab_used ≡ act.bktab_used - 1
    one_less =
        dec32_small act.bktab_used (used_pos_of_size d some_left)
          (omega (arith, d.left, live_count-le act.bktab i, d.table.width, d.small))

    pub loop_skip : slot act i ≡ null → rehash_loop 1 act bak i ≡ ok (act, bak, suc i)
    unfolding rehash_loop
    loop_skip at =
        rw (
          not_end,
          not_unused,
          not_empty,
          at-get_or act.bktab i (in_bktab d inside),
          at,
          next_index,
        )

    pub loop_move :
        (es : List (Entry K V))
        → slot act i ≡ live es
        → (r : Table K V × ℕ) → move_entries es bak act.size ≡ ok r
        → r.1 ≡ act.size - length es
        → rehash_loop 1 act bak i
          ≡ ok (emptied act i (act.bktab_used - 1) (act.size - length es), r.0, suc i)
    unfolding rehash_loop
    loop_move es at r run left = rw (
      not_end,
      not_unused,
      not_empty,
      at-get_or act.bktab i (in_bktab d inside),
      at,
      bucket_list,
      run,
      next_index,
      one_less,
      left,
    )

  module _ {act bak : Table K V} {i : ℕ} (h : IsRehashing act bak i) (inside : i < act.bktab_size)
      (room : act.size + bak.size < u32_mod) where
    -- An entry that is to move is not in the new table.
    pub absent_in_target :
        (es : List (Entry K V))
        → slot act i ≡ live es
        → (q : K) → 0 < count q es
        → view bak q ≡ none
    absent_in_target es at q c = h.apart q λ e.
        ground
          (arith, assoc-bucket h.draining inside es at q, key.match_refl q, count-eq-zero q q es)

    absent_of_view : (q : K) → view act q ≡ none ⊎ (view bak q ≡ none)
    absent_of_view q = elim (Option-cases (view act q)) [
      | inl e ↦ inl e
      | inr (v, e) ↦ inr (h.apart q (λ n. ground arith))
    ]

    left_in_target :
        (es : List (Entry K V)) (at : slot act i ≡ live es) (r : Table K V × ℕ)
        → Moved es bak act.size r
        → (q : K) → view (emptied act i (act.bktab_used - 1) (act.size - length es)) q ≢ none
        → view r.0 q ≡ none
    left_in_target es at r m q n = elim (absent_of_view q) [
      | inl e ↦ absurd (n (ground (arith, view-emptied h.draining inside es at q)))
      | inr e ↦ elim (Bool-cases (i == place q act.bktab_size)) [
        | inl here ↦ absurd (n (ground (arith, view-emptied h.draining inside es at q)))
        | inr away ↦ ground (arith, m.reads q, assoc-bucket h.draining inside es at q)
      ]
    ]

    skip-Stepped : slot act i ≡ null → Stepped act bak i (act, bak, suc i)
    skip-Stepped at = record {
      rehashing = record {
        draining = skip-IsDraining h.draining inside at;
        target = h.target;
        apart = h.apart;
      };
      next = refl;
      same_size = refl;
      counted = refl;
      reads = λ q. refl;
      kept = λ j l. refl;
      full = λ n. n;
    }

    move-Stepped :
        (es : List (Entry K V)) (at : slot act i ≡ live es) (r : Table K V × ℕ)
        → Moved es bak act.size r
        → Stepped act bak i (emptied act i (act.bktab_used - 1) (act.size - length es), r.0, suc i)
    move-Stepped es at r m = record {
      rehashing = record {
        draining = emptied-IsDraining h.draining inside es at;
        target = m.target;
        apart = λ q n. left_in_target es at r m q n;
      };
      next = refl;
      same_size = refl;
      counted = omega (arith, m.counted, length-le-size h.draining inside es at);
      reads = λ q. ground (
        arith,
        m.reads q,
        view-emptied h.draining inside es at q,
        assoc-bucket h.draining inside es at q,
        absent_of_view q,
      );
      kept = λ j l.
          rw (slot-emptied h.draining inside (act.bktab_used - 1) (act.size - length es) j)
            (ground arith);
      full = m.full;
    }

    pub rehash_loop-Stepped : 0 < act.size → Returns (rehash_loop 1 act bak i) (Stepped act bak i)
    rehash_loop-Stepped some_left = elim (Slot-cases (slot act i) (h.draining.table.sound i)) [
      | inl at ↦ (_, loop_skip h.draining inside bak some_left at, skip-Stepped at)
      | inr (es, at) ↦
          let (r, run, m) =
            move_entries-Moved es bak act.size h.target
              (λ q. omega (arith, h.draining.table.once q i, ap (λ x. count q (entries x)) at))
              (absent_in_target es at) (length-le-size h.draining inside es at) room in
          (_, loop_move h.draining inside bak some_left es at r run m.left, move-Stepped es at r m)
    ]
