-- ===== src/Dict/Update.antt =====
-- `atm_dict_set`: the map changes at the key.
use atm_cache.Base.{
  FreeType, ℕ, ◌+◌, ◌≤◌, ◌<◌, ◌≡◌, Bool, true, Option, none, some, arith, Run, stop, exit_error,
  inl, inr, ◌∙◌, ◌⊎◌, Returns, if◌then◌else◌,
}
use atm_cache.Dict.Key.{KeyType, ◌~◌}
use atm_cache.Dict.Ops.{Dict, dict_set, rehash}
use atm_cache.Dict.Table.{Table}
use atm_cache.Dict.Table.Chain.{bit}
use atm_cache.Dict.Table.Buckets.{view, view_congr, slot}
use atm_cache.Dict.Table.Reads.{is_some, is_hollow}
use atm_cache.Dict.Table.Store.{table_set-Stored}
use atm_cache.Dict.Valid.{
  dict_of, Phase, IsDict, IsDense, Dense, tables_size, dict_view, entry_count, apart-cases,
  max_entries,
}
use atm_cache.Dict.Rehash.{Kept, Exits, rehash-Outcome}

module _ {K V : Type 0} ⦃key : KeyType K⦄ where
  -- The old table of a rehash does not hold the key.
  abbrev pub NotInOld : Table K V → Option (Table K V) → K → Type 0
  NotInOld act none k = Unit {0}
  NotInOld act (some bak) k = view act k ≡ none

  -- The map of `d` with `v` under `k`.
  pub record Updated (d : Dict K V) (k : K) (v : Option V) (d' : Dict K V) : Type 0 where
    pub valid : IsDict d'
    pub reads : (q : K) → dict_view d' q ≡ (if k ~ q then some v else dict_view d q)
    pub counted : entry_count d' + bit (is_some (dict_view d k)) ≡ entry_count d + 1
    pub dense : IsDense d → IsDense d'

  -- A dense dictionary does not end the process.
  Dense-tables :
      (act : Table K V) (b : Option (Table K V)) (i j : ℕ)
      → Dense act b i
      → i ≤ j
      → is_hollow (slot act j) ≡ true
      → ⊥
  Dense-tables act none i j n l h = cc (n j)
  Dense-tables act (some bak) i j n l h = cc (n.0 j l)

  pub dense_stays : (d : Dict K V) {r : Run (Dict K V)} → IsDense d → Exits d r → ⊥
  dense_stays d n x =
      Dense-tables d.ht_active d.ht_backup d.rehash_index x.bucket n x.to_move x.hollow

  module _ (f : FreeType) (act : Table K V) (resize : Bool) (i : ℕ) (k : K) (v : Option V) where
    -- The dictionary between the write and the rehash step.
    stored_tables :
        (b : Option (Table K V))
        → Phase act b i
        → tables_size act b < max_entries
        → NotInOld act b k
        → (act' : Table K V) × (b' : Option (Table K V)) × (dict_set (dict_of f act b resize i) k v
            ≡ rehash (dict_of f act' b' resize i))
          × Updated (dict_of f act b resize i) k v (dict_of f act' b' resize i)
    unfolding dict_set dict_view entry_count
    stored_tables none h room out =
        let (act', run, s) = table_set-Stored h.is_open k v (omega arith) in
        (
          act',
          none,
          rw run,
          record {
            valid = record { is_open = s.is_open; start = h.start };
            reads = s.reads;
            counted = s.counted;
            dense = s.full;
          },
        )
    stored_tables (some bak) h room out =
        let (bak', run, s) = table_set-Stored h.0.target k v (omega arith) in
        (
          act,
          some bak',
          rw run,
          record {
            valid = (
              record {
                draining = h.0.draining;
                target = s.is_open;
                apart = λ q n. elim (apart-cases h.0 q) [
                  | inl e ↦ absurd (n e)
                  | inr e ↦ ground (arith, s.reads q, view_congr act k q)
                ];
              },
              h.1,
            );
            reads = λ q. ground (arith, s.reads q, view_congr act k q);
            counted = rw out (omega (arith, s.counted));
            dense = λ p. (p.0, s.full p.1);
          },
        )

  module _ (d : Dict K V) (k : K) (v : Option V) (h : IsDict d) (room : entry_count d < max_entries)
      (out : NotInOld d.ht_active d.ht_backup k) where
    set_step : (d' : Dict K V) × (dict_set d k v ≡ rehash d') × Updated d k v d'
    unfolding entry_count
    set_step =
        let (act', b', run, u) =
          stored_tables d.free_type d.ht_active d.enable_resize d.rehash_index k v d.ht_backup h
            room out in
        (dict_of d.free_type act' b' d.enable_resize d.rehash_index, run, u)

    Kept-update : {d' d'' : Dict K V} → Updated d k v d' → Kept d' d'' → Updated d k v d''
    Kept-update u p = record {
      valid = p.valid;
      reads = λ q. p.reads q ∙ u.reads q;
      counted = omega (arith, u.counted, p.counted);
      dense = λ n. p.dense (u.dense n);
    }

    -- On a well-formed dictionary with fewer than 2 ^ 27 entries, `atm_dict_set` of a key that is not
    -- in the old table of a rehash puts the value under the key and leaves the rest of the map, or
    -- else ends the process.
    pub dict_set-Updated :
        Returns (dict_set d k v) (Updated d k v) ⊎ (dict_set d k v ≡ stop exit_error)
    dict_set-Updated =
        let (d', run, u) = set_step in
        elim (rehash-Outcome d' u.valid (omega (arith, u.counted))) [
          | inl (d'', done, p) ↦ inl (d'', run ∙ done, Kept-update u p)
          | inr x ↦ inr (run ∙ x.run)
        ]

    -- Under the same conditions, where also no bucket that is still to move is there without an
    -- entry, `atm_dict_set` ends normally, puts the value under the key and leaves the rest of the map.
    pub dict_set-Updated_dense : IsDense d → Returns (dict_set d k v) (Updated d k v)
    dict_set-Updated_dense n =
        let (d', run, u) = set_step in
        elim (rehash-Outcome d' u.valid (omega (arith, u.counted))) [
          | inl (d'', done, p) ↦ (d'', run ∙ done, Kept-update u p)
          | inr x ↦ absurd (dense_stays d' (u.dense n) x)
        ]
