-- ===== src/Dict/Ops.antt =====
-- The dictionary of src/core/atm_dict.c over its two tables. Each operation that takes the lock
-- holds it throughout, so it is one step here. A dictionary is passed as a value, which leaves out
-- the guards against a NULL dictionary; no code makes `ht_active` NULL.
use atm_cache.Base.{
  ℕ, zero, suc, ◌+◌, ◌/◌, ◌%◌, Bool, true, false, Option, none, some, List, [], ◌∷◌, if◌then◌else◌,
  ltb, leb, not, set, ◌==◌, FreeType, shallow, deep, Run, ok, stop, exit_error, out_of_fuel,
  null_dereference, division_by_zero, ◌>>=◌, inc32, dec32, mul32, u32_mod,
}
use atm_cache.Util.{next_power}
use atm_cache.Dict.Key.{KeyType}
use atm_cache.Dict.Table.{
  Entry, Table, live, at, bucket_list, table_new, table_clear, table_free, table_contains,
  table_get, table_del, table_push_entry, table_set,
}

pub record Dict (K V : Type 0) : Type 0 where
  pub free_type : FreeType
  pub ht_active : Table K V
  pub ht_backup : Option (Table K V)
  pub enable_resize : Bool
  pub rehash_index : ℕ

abbrev pub dict_initial_bucket_size : ℕ
dict_initial_bucket_size = 256

abbrev pub force_resize_ratio : ℕ
force_resize_ratio = 5

abbrev pub rehash_loop_time : ℕ
rehash_loop_time = 1

module _ {K V : Type 0} where
  unfoldable pub dict_new : FreeType → Dict K V
  unfolding table_new
  dict_new f = record {
    free_type = f;
    ht_active = table_new dict_initial_bucket_size;
    ht_backup = none;
    enable_resize = true;
    rehash_index = 0;
  }

  unfoldable pub dict_size : Dict K V → ℕ
  dict_size d = elim d.ht_backup [
    | none ↦ (0 + d.ht_active.size) % u32_mod
    | some b ↦ ((0 + d.ht_active.size) % u32_mod + b.size) % u32_mod
  ]

  -- The numbers that `atm_dict_str` prints: it reads the backup table's size with no test for NULL.
  unfoldable pub dict_str : Dict K V → Run (FreeType × ℕ × ℕ × ℕ)
  unfolding dict_size
  dict_str d = elim d.ht_backup [
    | none ↦ stop null_dereference
    | some b ↦ ok (d.free_type, d.ht_active.bktab_size, b.bktab_size, dict_size d)
  ]

  unfoldable pub resize_enable : Dict K V → Dict K V
  resize_enable d = record d { enable_resize = true }

  unfoldable pub resize_disable : Dict K V → Dict K V
  resize_disable d = record d { enable_resize = false }

  unfoldable pub rehash_needed : Dict K V → Run Bool
  rehash_needed d =
      let act = d.ht_active in
      elim d.ht_backup [
        | some _ ↦ ok true
        | none ↦
            if d.enable_resize
            then ok (leb act.bktab_size act.size)
            else if act.bktab_size == 0
            then stop division_by_zero
            else ok (leb force_resize_ratio (act.size / act.bktab_size))
      ]

  -- What `atm_dict_entry_free` hands to the callbacks `free` of the key and value types.
  unfoldable pub entry_free : FreeType → Entry K V → List (Entry K V)
  entry_free deep e = e ∷ []
  entry_free shallow e = []

  -- The end of `atm_dict_rehash`: when the old table is empty the new one takes its place.
  unfoldable pub rehash_finish : Dict K V → Table K V → Table K V → ℕ → Run (Dict K V)
  unfolding table_free
  rehash_finish d act bak i =
      if act.size == 0
      then if ltb act.bktab_size i
        then stop exit_error
        else if not (act.bktab_used == 0)
        then stop exit_error
        else (table_free act >>= λ _.
            ok (record d { ht_active = bak; ht_backup = none; rehash_index = 0 }))
      else ok (record d { ht_active = act; ht_backup = some bak; rehash_index = i })

  -- `atm_dict_clear`.
  unfoldable pub dict_clear : Dict K V → Run (Dict K V)
  unfolding table_clear table_free
  dict_clear d = do
    act ← table_clear d.ht_active
    elim d.ht_backup [
      | none ↦ ok (record d { ht_active = act; ht_backup = none; rehash_index = 0 })
      | some b ↦ do
        b' ← table_clear b
        _ ← table_free b'
        ok (record d { ht_active = act; ht_backup = none; rehash_index = 0 })
    ]

  -- `atm_dict_free` gives both tables back; what counts is whether the run ends normally.
  unfoldable pub dict_free : Dict K V → Run (Unit {0})
  unfolding table_free
  dict_free d = do
    _ ← table_free d.ht_active
    elim d.ht_backup [ none ↦ ok tt | some b ↦ do _ ← table_free b; ok tt ]

module _ {K V : Type 0} ⦃key : KeyType K⦄ where
  -- `while ((e = atm_list_lpop(bl)) != NULL)`: the entries of a bucket go to the backup table, and
  -- the old table's `size` counts down.
  unfoldable pub move_entries : List (Entry K V) → Table K V → ℕ → Run (Table K V × ℕ)
  unfolding table_push_entry
  move_entries [] bak size = ok (bak, size)
  move_entries (e ∷ es) bak size = do
    bak' ← table_push_entry bak e
    move_entries es bak' (dec32 size)

  -- `while (loop_time--)` over the old table, the new one and `rehash_index`.
  unfoldable pub rehash_loop : ℕ → Table K V → Table K V → ℕ → Run (Table K V × Table K V × ℕ)
  unfolding move_entries at bucket_list inc32 dec32
  rehash_loop zero act bak i = ok (act, bak, i)
  rehash_loop (suc n) act bak i =
      if i == act.bktab_size
      then ok (act, bak, i)
      else if act.bktab_used == 0
      then (if act.size == 0 then ok (act, bak, i) else stop exit_error)
      else if act.size == 0
      then (if act.bktab_size == 0 then ok (act, bak, i) else stop exit_error)
      else (do
        s ← at act.bktab i
        l ← bucket_list s
        elim l [
          | none ↦ rehash_loop n act bak (inc32 i)
          | some es ↦ do
            (bak', size) ← move_entries es bak act.size
            rehash_loop n
                (record act {
                  bktab = set act.bktab i (live []);
                  bktab_used = dec32 act.bktab_used;
                  size = size;
                })
                bak' (inc32 i)
        ])

  -- The step with both tables in place.
  unfoldable pub rehash_tables : Dict K V → Table K V → Table K V → Run (Dict K V)
  unfolding rehash_loop rehash_finish
  rehash_tables d act bak =
      if ltb d.rehash_index act.bktab_size
      then (do
        (act', bak', i) ← rehash_loop rehash_loop_time act bak d.rehash_index
        rehash_finish d act' bak' i)
      else stop exit_error

  unfoldable pub rehash : Dict K V → Run (Dict K V)
  unfolding rehash_needed next_power rehash_tables table_new mul32
  rehash d = do
    needed ← rehash_needed d
    if needed
        then elim d.ht_backup [
          | some bak ↦ rehash_tables d d.ht_active bak
          | none ↦
              if d.rehash_index == 0
              then elim (next_power (mul32 d.ht_active.size 2)) [
                | none ↦ stop out_of_fuel
                | some bsz ↦ rehash_tables d d.ht_active (table_new bsz)
              ]
              else stop exit_error
        ]
        else ok d

  unfoldable pub dict_contains : Dict K V → K → Run Bool
  dict_contains d k = do
    res ← table_contains d.ht_active k
    if res then ok true else elim d.ht_backup [ none ↦ ok false | some b ↦ table_contains b k ]

  unfoldable pub dict_get : Dict K V → K → Run (Option V)
  dict_get d k = do
    res ← table_get d.ht_active k
    elim res [
      | some v ↦ ok (some v)
      | none ↦ elim d.ht_backup [ none ↦ ok none | some b ↦ table_get b k ]
    ]

  unfoldable pub dict_set : Dict K V → K → Option V → Run (Dict K V)
  dict_set d k v = elim d.ht_backup [
    | some b ↦ do b' ← table_set b k v; rehash (record d { ht_backup = some b' })
    | none ↦ do a' ← table_set d.ht_active k v; rehash (record d { ht_active = a' })
  ]

  -- The part of `atm_dict_del` before the rehash step: the entry that was unlinked and the
  -- dictionary without it.
  unfoldable pub unlink : Dict K V → K → Run (Option (Entry K V) × Dict K V)
  unlink d k = do
    (gone, a') ← table_del d.ht_active k
    elim gone [
      | some e ↦ ok (some e, record d { ht_active = a' })
      | none ↦ elim d.ht_backup [
        | none ↦ ok (none, record d { ht_active = a' })
        | some b ↦ do
          (gone', b') ← table_del b k
          ok (gone', record d { ht_active = a'; ht_backup = some b' })
      ]
    ]

  -- What the callbacks `free` were given comes back with the dictionary.
  unfoldable pub dict_del : Dict K V → K → Run (List (Entry K V) × Dict K V)
  dict_del d k = do
    (gone, d') ← unlink d k
    d'' ← rehash d'
    ok (elim gone [ none ↦ [] | some e ↦ entry_free d.free_type e ], d'')
