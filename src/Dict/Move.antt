-- ===== src/Dict/Move.antt =====
-- The inner loop of `atm_dict_rehash`: the entries of a bucket move to the new table.
use atm_cache.Base.{
  ℕ, ◌+◌, ◌-◌, ◌≤◌, ◌<◌, ◌≡◌, refl, none, List, [], ◌∷◌, arith, u32_mod, Returns, length,
  dec32_small, ◌∙◌,
}
use atm_cache.Dict.Key.{KeyType}
use atm_cache.Dict.Ops.{move_entries}
use atm_cache.Dict.Table.{Entry, Table}
use atm_cache.Dict.Table.Chain.{or_else, assoc, count}
use atm_cache.Dict.Table.Buckets.{view}
use atm_cache.Dict.Table.Reads.{IsOpen, NoHollow}
use atm_cache.Dict.Table.Push.{table_push_entry-Pushed}

module _ {K V : Type 0} ⦃key : KeyType K⦄ where
  -- What moving the entries `es` makes of the new table and of the old one's `size`.
  pub record Moved (es : List (Entry K V)) (bak : Table K V) (size : ℕ) (r : Table K V × ℕ)
      : Type 0 where
    pub target : IsOpen r.0
    pub same_size : r.0.bktab_size ≡ bak.bktab_size
    pub counted : r.0.size ≡ bak.size + length es
    pub left : r.1 ≡ size - length es
    pub reads : (q : K) → view r.0 q ≡ or_else (view bak q) (assoc q es)
    pub full : NoHollow bak → NoHollow r.0

  pub move_entries-Moved :
      (es : List (Entry K V)) (bak : Table K V) (size : ℕ)
      → IsOpen bak
      → ((q : K) → count q es ≤ 1)
      → ((q : K) → 0 < count q es → view bak q ≡ none)
      → length es ≤ size
      → size + bak.size < u32_mod
      → Returns (move_entries es bak size) (Moved es bak size)
  unfolding move_entries count assoc
  move_entries-Moved [] bak size h one apart enough room = (
    (bak, size),
    refl,
    record {
      target = h;
      same_size = refl;
      counted = omega arith;
      left = omega arith;
      reads = λ q. ground arith;
      full = λ n. n;
    },
  )
  move_entries-Moved (e ∷ es) bak size h one apart enough room =
      let absent : view bak e.key ≡ none = apart e.key (rw key.match_refl (omega arith)) in
      let (bak', run, p) = table_push_entry-Pushed h e absent (omega arith) in
      let (r, run', m) =
        move_entries-Moved es bak' (size - 1) p.is_open (λ q. omega (arith, one q))
          (λ q c. ground (arith, p.reads q, one q, apart q)) (omega arith)
          (omega (arith, p.counted)) in
      (
        r,
        rw (run, dec32_small size (omega arith) (omega arith)) run',
        record {
          target = m.target;
          same_size = m.same_size ∙ p.same_size;
          counted = omega (arith, m.counted, p.counted);
          left = omega (arith, m.left);
          reads = λ q. ground (arith, m.reads q, p.reads q, apart q);
          full = λ n. m.full (p.full n);
        },
      )
