-- ===== src/Dict/Fill.antt =====
-- From `atm_dict_new` on, through any number of rehashes.
use atm_cache.Base.{
  FreeType, ◌+◌, ◌≤◌, ◌<◌, ◌≡◌, refl, Option, none, some, List, [], ◌∷◌, arith, Run, ok, ◌>>=◌,
  Returns, length,
}
use atm_cache.Dict.Key.{KeyType}
use atm_cache.Dict.Ops.{Dict, dict_new, dict_set, dict_initial_bucket_size}
use atm_cache.Dict.Table.{Entry, Table, table_new}
use atm_cache.Dict.Table.Chain.{or_else, assoc, count}
use atm_cache.Dict.Table.New.{table_new-IsOpen, view-table_new, table_new-NoHollow}
use atm_cache.Dict.Valid.{IsDict, IsDense, dict_view, tables_view, entry_count, max_entries}
use atm_cache.Dict.Update.{NotInOld, dict_set-Updated_dense}

module _ {K V : Type 0} ⦃key : KeyType K⦄ where
  -- A new dictionary is well formed, dense and empty.
  pub record IsEmpty (d : Dict K V) : Type 0 where
    pub valid : IsDict d
    pub dense : IsDense d
    pub reads : (q : K) → dict_view d q ≡ none
    pub counted : entry_count d ≡ 0

  pub dict_new-IsEmpty : (f : FreeType) → IsEmpty (dict_new f)
  unfolding dict_new dict_view entry_count table_new
  dict_new-IsEmpty f = record {
    valid = record {
      is_open = table_new-IsOpen dict_initial_bucket_size (omega arith) (omega arith);
      start = refl;
    };
    dense = table_new-NoHollow K V dict_initial_bucket_size;
    reads = λ q. view-table_new dict_initial_bucket_size q;
    counted = refl;
  }

  -- Calls of `atm_dict_set` in a row.
  pub set_all : List (Entry K V) → Dict K V → Run (Dict K V)
  set_all [] d = ok d
  set_all (e ∷ es) d = do d' ← dict_set d e.key e.val; set_all es d'

  -- The map of `d` with the entries `es`.
  pub record Filled (d : Dict K V) (es : List (Entry K V)) (d' : Dict K V) : Type 0 where
    pub valid : IsDict d'
    pub dense : IsDense d'
    pub reads : (q : K) → dict_view d' q ≡ or_else (dict_view d q) (assoc q es)
    pub counted : entry_count d' ≡ entry_count d + length es

  not_in_old :
      (act : Table K V) (b : Option (Table K V)) (k : K)
      → tables_view act b k ≡ none
      → NotInOld act b k
  not_in_old act none k e = tt
  not_in_old act (some bak) k e = ground arith

  set_all-Filled :
      (es : List (Entry K V)) (d : Dict K V)
      → IsDict d
      → IsDense d
      → entry_count d + length es ≤ max_entries
      → ((q : K) → count q es ≤ 1)
      → ((q : K) → 0 < count q es → dict_view d q ≡ none)
      → Returns (set_all es d) (Filled d es)
  unfolding set_all count assoc
  set_all-Filled [] d h n room once fresh =
      (d, refl, record { valid = h; dense = n; reads = λ q. ground arith; counted = omega arith })
  set_all-Filled (e ∷ es) d h n room once fresh =
      let absent : dict_view d e.key ≡ none = fresh e.key (rw key.match_refl (omega arith)) in
      let out = not_in_old d.ht_active d.ht_backup e.key (unfold dict_view in absent) in
      let (d', run, u) = dict_set-Updated_dense d e.key e.val h (omega arith) out n in
      let count' : entry_count d' ≡ entry_count d + 1 = ground (arith, u.counted, absent) in
      let (d'', run', p) =
        set_all-Filled es d' u.valid (u.dense n) (omega arith) (λ q. omega (arith, once q))
          (λ q c. ground (arith, u.reads q, once q, fresh q)) in
      (
        d'',
        rw (run, run'),
        record {
          valid = p.valid;
          dense = p.dense;
          reads = λ q. ground (arith, p.reads q, u.reads q, fresh q);
          counted = omega (arith, p.counted);
        },
      )

  -- Up to 2 ^ 27 entries under keys of which no two match can be put into a new dictionary one after
  -- the other: no call ends the process, and in the end the dictionary is well formed, each key reads
  -- as its entry says, no other key reads as anything, and the count is right.
  pub dict_new-set_all :
      (f : FreeType) (es : List (Entry K V))
      → ((q : K) → count q es ≤ 1)
      → length es ≤ max_entries
      → Returns
          (set_all es (dict_new f))
          (λ d'. IsDict d' × ((q : K) → dict_view d' q ≡ assoc q es) × (entry_count d' ≡ length es))
  dict_new-set_all f es once room =
      let e = dict_new-IsEmpty f in
      let (d', run, p) =
        set_all-Filled es (dict_new f) e.valid e.dense (omega (arith, e.counted)) once
          (λ q c. e.reads q) in
      (
        d',
        run,
        (p.valid, λ q. ground (arith, p.reads q, e.reads q), omega (arith, p.counted, e.counted)),
      )
