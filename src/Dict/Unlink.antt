-- ===== src/Dict/Unlink.antt =====
-- The first half of `atm_dict_del`: an entry is unlinked from the table that holds it.
use atm_cache.Base.{
  FreeType, ℕ, zero, suc, ◌+◌, ◌≡◌, refl, Bool, Option, none, some, List, [], ◌∷◌, arith, ok, inl,
  inr, Returns, if◌then◌else◌, drop, length, get_or,
}
use atm_cache.Dict.Key.{KeyType, ◌~◌}
use atm_cache.Dict.Ops.{Dict, unlink}
use atm_cache.Dict.Table.{Entry, Slot, null, Table, table_del}
use atm_cache.Dict.Table.Chain.{bit}
use atm_cache.Dict.Table.Buckets.{view, view_congr, is_live, live_count}
use atm_cache.Dict.Table.Reads.{is_some, IsOpen}
use atm_cache.Dict.Table.Delete.{Deleted, table_del-Deleted}
use atm_cache.Dict.Valid.{
  dict_of, IsDraining, IsRehashing, IsIdle, dict_view, entry_count, apart-cases,
}

module _ {K V : Type 0} where
  live_count_congr :
      (ss ss' : List (Slot K V))
      → ((i : ℕ) → is_live (get_or ss' i null) ≡ is_live (get_or ss i null))
      → length ss ≡ length ss'
      → (i : ℕ) → live_count (drop i ss') ≡ live_count (drop i ss)
  unfolding live_count
  live_count_congr [] [] same e i = refl
  live_count_congr [] (s ∷ ss) same e i = absurd (omega arith)
  live_count_congr (s ∷ ss) [] same e i = absurd (omega arith)
  live_count_congr (s ∷ ss) (s' ∷ ss') same e zero =
      ground (arith, same 0, live_count_congr ss ss' (λ i. same (suc i)) (omega arith) 0)
  live_count_congr (s ∷ ss) (s' ∷ ss') same e (suc i) =
      live_count_congr ss ss' (λ i. same (suc i)) (omega arith) i

module _ {K V : Type 0} ⦃key : KeyType K⦄ where
  -- The map of `d` without `k`, and the entry that was unlinked.
  pub record Unlinked (d : Dict K V) (k : K) (r : Option (Entry K V) × Dict K V) : Type 0 where
    pub reads : (q : K) → dict_view r.1 q ≡ (if k ~ q then none else dict_view d q)
    pub counted : entry_count r.1 + bit (is_some (dict_view d k)) ≡ entry_count d
    pub gone : dict_view d k ≡ elim r.0 [ none ↦ none | some e ↦ some e.val ]

  -- Deletion keeps the invariants of a table that is being drained, and of one that is not.
  Deleted-IsDraining :
      {t : Table K V} {k : K} {i : ℕ} {r : Option (Entry K V) × Table K V}
      → IsDraining t i
      → Deleted t k r
      → IsDraining r.1 i
  Deleted-IsDraining {t} {i} {r} h d =
      let same_length : length t.bktab ≡ length r.1.bktab =
        omega (arith, h.table.width, d.table.width, d.same_size) in
      record {
        table = d.table;
        moved = λ j l. d.emptied j (h.moved j l);
        left =
            omega (
              arith,
              d.same_used,
              h.left,
              live_count_congr t.bktab r.1.bktab d.alive same_length i,
            );
        small = omega (arith, d.same_size, h.small);
      }

  Deleted-IsOpen :
      {t : Table K V} {k : K} {r : Option (Entry K V) × Table K V}
      → IsOpen t
      → Deleted t k r
      → IsOpen r.1
  Deleted-IsOpen {t} {r} h d =
      let same_length : length t.bktab ≡ length r.1.bktab =
        omega (arith, h.table.width, d.table.width, d.same_size) in
      record {
        table = d.table;
        used =
            omega (
              arith,
              d.same_used,
              h.used,
              live_count_congr t.bktab r.1.bktab d.alive same_length 0,
            );
        small = omega (arith, d.same_size, h.small);
      }

  -- The invariant between the unlinking and the rehash step: the old table may be empty.
  abbrev pub Loose : Table K V → Option (Table K V) → ℕ → Type 0
  Loose act none i = IsIdle act i
  Loose act (some bak) i = IsRehashing act bak i

  module _ (f : FreeType) (act : Table K V) (resize : Bool) (i : ℕ) (k : K) where
    -- What `unlink` makes of a well-formed dictionary.
    pub record Step (b : Option (Table K V)) (r : Option (Entry K V) × Dict K V) : Type 0 where
      pub act' : Table K V
      pub b' : Option (Table K V)
      pub is : r.1 ≡ dict_of f act' b' resize i
      pub loose : Loose act' b' i
      pub unlinked : Unlinked (dict_of f act b resize i) k (r.0, dict_of f act' b' resize i)
      pub same_size : act'.bktab_size ≡ act.bktab_size
      pub same_used : act'.bktab_used ≡ act.bktab_used
      pub act_counted : act'.size + bit (is_some (view act k)) ≡ act.size
      pub same_phase : is_some b' ≡ is_some b

    idle-Step :
        (gone : Option (Entry K V)) (a' : Table K V)
        → IsIdle act i
        → table_del act k ≡ ok (gone, a')
        → Deleted act k (gone, a')
        → Returns (unlink (dict_of f act none resize i) k) (Step none)
    unfolding unlink dict_view entry_count
    idle-Step none a' h run p = (
      (none, dict_of f a' none resize i),
      rw run,
      record {
        act' = a';
        b' = none;
        is = refl;
        loose = record { is_open = Deleted-IsOpen h.is_open p; start = h.start };
        unlinked = record { reads = p.reads; counted = p.counted; gone = p.gone };
        same_size = p.same_size;
        same_used = p.same_used;
        act_counted = p.counted;
        same_phase = refl;
      },
    )
    idle-Step (some e) a' h run p = (
      (some e, dict_of f a' none resize i),
      rw run,
      record {
        act' = a';
        b' = none;
        is = refl;
        loose = record { is_open = Deleted-IsOpen h.is_open p; start = h.start };
        unlinked = record { reads = p.reads; counted = p.counted; gone = p.gone };
        same_size = p.same_size;
        same_used = p.same_used;
        act_counted = p.counted;
        same_phase = refl;
      },
    )

    module _ (bak : Table K V) (h : IsRehashing act bak i) where
      -- The entry was in the old table.
      old-Step :
          (e : Entry K V) (a' : Table K V)
          → table_del act k ≡ ok (some e, a')
          → Deleted act k (some e, a')
          → Returns (unlink (dict_of f act (some bak) resize i) k) (Step (some bak))
      unfolding unlink dict_view entry_count
      old-Step e a' run p =
          let out : view bak k ≡ none = h.apart k (λ n. ground (arith, p.gone)) in
          (
            (some e, dict_of f a' (some bak) resize i),
            rw run,
            record {
              act' = a';
              b' = some bak;
              is = refl;
              loose = record {
                draining = Deleted-IsDraining h.draining p;
                target = h.target;
                apart = λ q n. elim (apart-cases h q) [
                  | inl missing ↦ absurd (n (ground (arith, p.reads q)))
                  | inr missing ↦ missing
                ];
              };
              unlinked = record {
                reads = λ q. ground (arith, p.reads q, view_congr bak k q);
                counted = ground (arith, p.counted, p.gone);
                gone = ground (arith, p.gone);
              };
              same_size = p.same_size;
              same_used = p.same_used;
              act_counted = p.counted;
              same_phase = refl;
            },
          )

      -- The old table does not have the key, and the new one is asked.
      new-Step :
          (a' : Table K V) (r : Option (Entry K V) × Table K V)
          → table_del act k ≡ ok (none, a')
          → Deleted act k (none, a')
          → table_del bak k ≡ ok r
          → Deleted bak k r
          → Returns (unlink (dict_of f act (some bak) resize i) k) (Step (some bak))
      unfolding unlink dict_view entry_count
      new-Step a' r run p run' p' = (
        (r.0, dict_of f a' (some r.1) resize i),
        rw (run, run'),
        record {
          act' = a';
          b' = some r.1;
          is = refl;
          loose = record {
            draining = Deleted-IsDraining h.draining p;
            target = Deleted-IsOpen h.target p';
            apart = λ q n. elim (apart-cases h q) [
              | inl missing ↦ absurd (n (ground (arith, p.reads q)))
              | inr missing ↦ ground (arith, p'.reads q)
            ];
          };
          unlinked = record {
            reads = λ q. ground (arith, p.reads q, p'.reads q);
            counted = ground (arith, p.counted, p'.counted, p.gone);
            gone = ground (arith, p.gone, p'.gone);
          };
          same_size = p.same_size;
          same_used = p.same_used;
          act_counted = p.counted;
          same_phase = refl;
        },
      )

      old_or_new :
          (gone : Option (Entry K V)) (a' : Table K V)
          → table_del act k ≡ ok (gone, a')
          → Deleted act k (gone, a')
          → Returns (unlink (dict_of f act (some bak) resize i) k) (Step (some bak))
      old_or_new (some e) a' run p = old-Step e a' run p
      old_or_new none a' run p =
          let (r, run', p') = table_del-Deleted h.target.table k in new-Step a' r run p run' p'

    -- `unlink` on the phases of a dictionary.
    pub unlink_tables :
        (b : Option (Table K V))
        → Loose act b i
        → Returns (unlink (dict_of f act b resize i) k) (Step b)
    unlink_tables none h =
        let (r, run, p) = table_del-Deleted h.is_open.table k in idle-Step r.0 r.1 h run p
    unlink_tables (some bak) h =
        let (r, run, p) = table_del-Deleted h.draining.table k in old_or_new bak h r.0 r.1 run p
