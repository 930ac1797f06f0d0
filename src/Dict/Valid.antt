-- ===== src/Dict/Valid.antt =====
-- When a dictionary is well formed, and the map that it stands for.
use atm_cache.Base.{
  FreeType, ℕ, ◌+◌, ◌≤◌, ◌<◌, ◌≡◌, ◌≢◌, Bool, false, Option, none, some, [], arith, drop,
  Option-cases, inl, inr, ◌⊎◌, u32_mod, ◌^◌,
}
use atm_cache.Dict.Key.{KeyType}
use atm_cache.Dict.Ops.{Dict}
use atm_cache.Dict.Table.{Table}
use atm_cache.Dict.Table.Chain.{or_else}
use atm_cache.Dict.Table.Buckets.{live_count, slot, chain, view, IsTable}
use atm_cache.Dict.Table.Reads.{IsOpen, NoHollow, is_hollow}

-- A bound under which no counter wraps and a larger table can be asked for.
-- A rehash of more entries asks for `2 ^ 29` pointers of 8 bytes, whose size `atm_alloc` takes as 0.
abbrev pub max_entries : ℕ
max_entries = 2 ^ 27

-- The same while a rehash is under way, which makes no new table.
abbrev pub max_moving : ℕ
max_moving = 2 ^ 30

module _ {K V : Type 0} where
  -- A dictionary from its fields, to split on the second table.
  abbrev pub dict_of : FreeType → Table K V → Option (Table K V) → Bool → ℕ → Dict K V
  dict_of f act b resize i = record {
    free_type = f;
    ht_active = act;
    ht_backup = b;
    enable_resize = resize;
    rehash_index = i;
  }

module _ {K V : Type 0} ⦃key : KeyType K⦄ where
  -- The old table of a rehash under way: the buckets below `i` are empty, some entry is left, and
  -- `bktab_used` counts the buckets from `i` on.
  pub record IsDraining (t : Table K V) (i : ℕ) : Type 0 where
    pub table : IsTable t
    pub moved : (j : ℕ) → j < i → chain t j ≡ []
    pub left : t.bktab_used ≡ live_count (drop i t.bktab)
    pub small : t.bktab_size < u32_mod

  -- Both tables of a rehash under way: no key is in both.
  pub record IsRehashing (act bak : Table K V) (i : ℕ) : Type 0 where
    pub draining : IsDraining act i
    pub target : IsOpen bak
    pub apart : (q : K) → view act q ≢ none → view bak q ≡ none

  pub record IsIdle (act : Table K V) (i : ℕ) : Type 0 where
    pub is_open : IsOpen act
    pub start : i ≡ 0

  -- A rehash under way has entries left to move.
  abbrev pub Phase : Table K V → Option (Table K V) → ℕ → Type 0
  Phase act none i = IsIdle act i
  Phase act (some bak) i = IsRehashing act bak i × (0 < act.size)

  abbrev pub IsDict : Dict K V → Type 0
  IsDict d = Phase d.ht_active d.ht_backup d.rehash_index

  -- No bucket that is still to move was emptied by a deletion.
  abbrev pub NoHollowFrom : ℕ → Table K V → Type 0
  NoHollowFrom i t = (j : ℕ) → i ≤ j → is_hollow (slot t j) ≡ false

  abbrev pub Dense : Table K V → Option (Table K V) → ℕ → Type 0
  Dense act none i = NoHollow act
  Dense act (some bak) i = NoHollowFrom i act × NoHollow bak

  abbrev pub IsDense : Dict K V → Type 0
  IsDense d = Dense d.ht_active d.ht_backup d.rehash_index

  -- The map: the old table is asked first. `none` is no entry, `some none` a NULL value.
  abbrev pub tables_view : Table K V → Option (Table K V) → K → Option (Option V)
  tables_view act none q = view act q
  tables_view act (some bak) q = or_else (view act q) (view bak q)

  unfoldable pub dict_view : Dict K V → K → Option (Option V)
  dict_view d q = tables_view d.ht_active d.ht_backup q

  -- The entries of both tables.
  abbrev pub tables_size : Table K V → Option (Table K V) → ℕ
  tables_size act none = act.size
  tables_size act (some bak) = act.size + bak.size

  unfoldable pub entry_count : Dict K V → ℕ
  entry_count d = tables_size d.ht_active d.ht_backup

  pub active_table :
      (act : Table K V) (b : Option (Table K V)) (i : ℕ) → Phase act b i → IsTable act
  active_table act none i h = h.is_open.table
  active_table act (some bak) i h = h.0.draining.table

  -- A key that the old table holds is not in the new one.
  pub apart-cases :
      {act bak : Table K V} {i : ℕ}
      → IsRehashing act bak i
      → (q : K) → (view act q ≡ none) ⊎ (view bak q ≡ none)
  apart-cases {act} h q = elim (Option-cases (view act q)) [
    | inl e ↦ inl e
    | inr (v, e) ↦ inr (h.apart q (λ n. ground arith))
  ]
