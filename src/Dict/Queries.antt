-- ===== src/Dict/Queries.antt =====
-- What `atm_dict_get`, `atm_dict_contains` and `atm_dict_size` read of the map.
use atm_cache.Base.{
  FreeType, ℕ, ◌<◌, ◌≡◌, Bool, Option, none, some, arith, u32_mod, ok, inl, inr, Option-cases,
}
use atm_cache.Dict.Key.{KeyType}
use atm_cache.Dict.Ops.{Dict, dict_get, dict_contains, dict_size}
use atm_cache.Dict.Table.{Table}
use atm_cache.Dict.Table.Buckets.{view}
use atm_cache.Dict.Table.Reads.{join, is_some, table_get-view, table_contains-view}
use atm_cache.Dict.Valid.{
  dict_of, Phase, IsDict, tables_view, dict_view, entry_count, active_table, apart-cases,
}

module _ {K V : Type 0} ⦃key : KeyType K⦄ where
  module _ (f : FreeType) (act : Table K V) (resize : Bool) (i : ℕ) (k : K) where
    get_tables :
        (b : Option (Table K V))
        → Phase act b i
        → dict_get (dict_of f act b resize i) k ≡ ok (join (tables_view act b k))
    unfolding dict_get
    get_tables none h = rw (table_get-view (active_table act none i h) k) (ground arith)
    get_tables (some bak) h = elim (Option-cases (join (view act k))) [
      | inl e ↦
          rw (table_get-view h.0.draining.table k, e, table_get-view h.0.target.table k)
            (elim (apart-cases h.0 k) [ inl n ↦ rw n | inr n ↦ ground arith ])
      | inr (v, e) ↦ rw (table_get-view h.0.draining.table k, e) (ground arith)
    ]

    contains_tables :
        (b : Option (Table K V))
        → Phase act b i
        → dict_contains (dict_of f act b resize i) k ≡ ok (is_some (tables_view act b k))
    unfolding dict_contains
    contains_tables none h = rw (table_contains-view (active_table act none i h) k) (ground arith)
    contains_tables (some bak) h =
        rw (table_contains-view h.0.draining.table k, table_contains-view h.0.target.table k)
          (ground arith)

  module _ (d : Dict K V) (h : IsDict d) where
    -- On a well-formed dictionary `atm_dict_get` ends normally, with the value that the map has
    -- under the key, and NULL if it has none.
    pub dict_get-view : (k : K) → dict_get d k ≡ ok (join (dict_view d k))
    unfolding dict_view
    dict_get-view k =
        get_tables d.free_type d.ht_active d.enable_resize d.rehash_index k d.ht_backup h

    -- On a well-formed dictionary `atm_dict_contains` ends normally, and says whether the map has an
    -- entry under the key, a NULL value included.
    pub dict_contains-view : (k : K) → dict_contains d k ≡ ok (is_some (dict_view d k))
    unfolding dict_view
    dict_contains-view k =
        contains_tables d.free_type d.ht_active d.enable_resize d.rehash_index k d.ht_backup h

  size_tables :
      (act : Table K V) (b : Option (Table K V)) (f : FreeType) (resize : Bool) (i : ℕ)
      → entry_count (dict_of f act b resize i) < u32_mod
      → dict_size (dict_of f act b resize i) ≡ entry_count (dict_of f act b resize i)
  unfolding dict_size entry_count
  size_tables act none f resize i h = omega arith
  size_tables act (some bak) f resize i h = omega arith

  -- `atm_dict_size` is the number of entries in both tables.
  pub dict_size-entry_count : (d : Dict K V) → entry_count d < u32_mod → dict_size d ≡ entry_count d
  dict_size-entry_count d h =
      size_tables d.ht_active d.ht_backup d.free_type d.enable_resize d.rehash_index h
