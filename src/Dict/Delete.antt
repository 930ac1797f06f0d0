-- ===== src/Dict/Delete.antt =====
-- `atm_dict_del`: the map loses the key, or the process ends.
use atm_cache.Base.{
  FreeType, ℕ, ◌+◌, ◌≤◌, ◌<◌, ◌≡◌, ◌≢◌, refl, Bool, true, false, Option, none, some, List, [],
  arith, ok, stop, exit_error, inl, inr, ◌∙◌, ◌⊎◌, Returns, if◌then◌else◌, ◌==◌, ltb, ap,
}
use atm_cache.Dict.Key.{KeyType, ◌~◌}
use atm_cache.Dict.Ops.{
  Dict, dict_del, unlink, rehash, rehash_tables, rehash_loop, rehash_needed, entry_free,
}
use atm_cache.Dict.Table.{Entry, Table}
use atm_cache.Dict.Table.Chain.{bit}
use atm_cache.Dict.Table.Buckets.{view}
use atm_cache.Dict.Table.Reads.{is_some}
use atm_cache.Dict.Valid.{dict_of, Phase, IsDict, dict_view, entry_count, max_entries, max_moving}
use atm_cache.Dict.Rehash.{rehash-Outcome, inside}
use atm_cache.Dict.Drain.{used_pos_of_size}
use atm_cache.Dict.Unlink.{Unlinked, Step, unlink_tables}

held_of {ℓ} : {A : Type ℓ} (o : Option A) → o ≢ none → is_some o ≡ true
held_of none n = absurd (n refl)
held_of (some v) n = refl

module _ {K V : Type 0} ⦃key : KeyType K⦄ where
  -- The entries that the callbacks `free` see.
  abbrev pub released : FreeType → Option (Entry K V) → List (Entry K V)
  released f gone = elim gone [ none ↦ [] | some e ↦ entry_free f e ]

  -- What `atm_dict_del` returns: the map without the key, and the entry that was released.
  pub record Removed (d : Dict K V) (k : K) (r : List (Entry K V) × Dict K V) : Type 0 where
    pub valid : IsDict r.1
    pub reads : (q : K) → dict_view r.1 q ≡ (if k ~ q then none else dict_view d q)
    pub counted : entry_count r.1 + bit (is_some (dict_view d k)) ≡ entry_count d
    pub gone : Option (Entry K V)
    pub found : dict_view d k ≡ elim gone [ none ↦ none | some e ↦ some e.val ]
    pub freed : r.0 ≡ released d.free_type gone

  -- The old table of a rehash was emptied by the deletion: the loop finds it so and gives up.
  module _ (f : FreeType) (act bak : Table K V) (resize : Bool) (i : ℕ) where
    rehash_drained :
        i < act.bktab_size
        → 0 < act.bktab_used
        → act.size ≡ 0
        → rehash (dict_of f act (some bak) resize i) ≡ stop exit_error
    unfolding rehash rehash_needed rehash_tables rehash_loop
    rehash_drained inside used empty =
        let begins : ltb i act.bktab_size ≡ true = ground arith in
        let not_end : (i == act.bktab_size) ≡ false = ground arith in
        let not_unused : (act.bktab_used == 0) ≡ false = ground arith in
        let is_empty : (act.size == 0) ≡ true = ground arith in
        let not_none : (act.bktab_size == 0) ≡ false = ground arith in
        rw (begins, not_end, not_unused, is_empty, not_none)

  module _ (d : Dict K V) (k : K) (h : IsDict d) (room : entry_count d ≤ max_entries) where
    -- The rehash step after the deletion.
    finish :
        (gone : Option (Entry K V)) (d' : Dict K V)
        → unlink d k ≡ ok (gone, d')
        → Unlinked d k (gone, d')
        → IsDict d'
        → Returns (dict_del d k) (Removed d k) ⊎ (dict_del d k ≡ stop exit_error)
    unfolding dict_del
    finish gone d' run u v = elim (rehash-Outcome d' v (omega (arith, u.counted))) [
      | inl (d'', done, p) ↦ inl (
        (released d.free_type gone, d''),
        rw (run, done),
        record {
          valid = p.valid;
          reads = λ q. p.reads q ∙ u.reads q;
          counted = omega (arith, p.counted, u.counted);
          gone = gone;
          found = u.gone;
          freed = refl;
        },
      )
      | inr x ↦ inr (rw (run, x.run))
    ]

  new_table : (b : Option (Table K V)) → is_some b ≡ true → (bak : Table K V) × (b ≡ some bak)
  new_table none h = cc
  new_table (some bak) h = (bak, refl)

  module _ (f : FreeType) (act : Table K V) (resize : Bool) (i : ℕ) (k : K) where
    -- The process ends if the deletion empties the old table.
    drained :
        (bak : Table K V) (r : Option (Entry K V) × Dict K V) (bak' : Table K V)
        → Phase act (some bak) i
        → act.size + bak.size ≤ max_moving
        → unlink (dict_of f act (some bak) resize i) k ≡ ok r
        → (s : Step f act resize i k (some bak) r) → s.b' ≡ some bak'
        → s.act'.size ≡ 0
        → dict_del (dict_of f act (some bak) resize i) k ≡ stop exit_error
    unfolding dict_del
    drained bak r bak' h room run s e empty =
        let d = dict_of f act (some bak) resize i in
        let begin : i < s.act'.bktab_size =
          omega (arith, s.same_size, inside d bak h.0 h.1 (omega arith)) in
        let used : 0 < s.act'.bktab_used =
          omega (arith, s.same_used, used_pos_of_size h.0.draining h.1) in
        rw (run, s.is, e, rehash_drained f s.act' bak' resize i begin used empty)

  -- During a rehash of a well-formed dictionary with at most 2 ^ 30 entries, deleting the last key
  -- of the old table ends the process.
  pub dict_del-exits :
      (f : FreeType) (act bak : Table K V) (resize : Bool) (i : ℕ) (k : K)
      → IsDict (dict_of f act (some bak) resize i)
      → act.size + bak.size ≤ max_moving
      → act.size ≡ 1
      → view act k ≢ none
      → dict_del (dict_of f act (some bak) resize i) k ≡ stop exit_error
  dict_del-exits f act bak resize i k h room one there =
      let (r, run, s) = unlink_tables f act resize i k (some bak) h.0 in
      let held : is_some (view act k) ≡ true = held_of (view act k) there in
      let (bak', e) = new_table s.b' s.same_phase in
      drained f act resize i k bak r bak' h room run s e (omega (arith, s.act_counted, ap bit held))
