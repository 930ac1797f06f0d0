-- ===== src/Dict/Drain.antt =====
-- The old table when the bucket at `rehash_index` has moved.
use atm_cache.Base.{
  ℕ, zero, suc, ◌+◌, ◌-◌, ◌≤◌, ◌<◌, ◌≡◌, refl, none, List, [], ◌∷◌, arith, drop, length, set,
  get_or, if◌then◌else◌, length-set, ◌∙◌, ap, ◌==◌,
}
use native.Mathlib.Decide.{dec_lt}
use atm_cache.Dict.Key.{KeyType}
use atm_cache.Dict.Table.{Entry, Slot, Table, null, live, freed}
use atm_cache.Dict.Table.Chain.{assoc, count, bit, assoc-eq-none}
use atm_cache.Dict.Table.Buckets.{
  entries, is_live, live_count, total, slot, place, view, total-set, get_or-set_self, get_or-set_ne,
}
use atm_cache.Dict.Valid.{IsDraining}

module _ {K V : Type 0} where
  live_count-drop :
      (ss : List (Slot K V)) (i : ℕ)
      → live_count (drop i ss) ≡ bit (is_live (get_or ss i null)) + live_count (drop (suc i) ss)
  unfolding live_count
  live_count-drop [] zero = refl
  live_count-drop [] (suc i) = refl
  live_count-drop (s ∷ ss) zero = refl
  live_count-drop (s ∷ ss) (suc i) = live_count-drop ss i

  drop-set :
      (ss : List (Slot K V)) (i : ℕ) (s : Slot K V) → drop (suc i) (set ss i s) ≡ drop (suc i) ss
  drop-set [] i s = refl
  drop-set (x ∷ ss) zero s = refl
  drop-set (x ∷ ss) (suc i) s = drop-set ss i s

  pub live_count-le : (ss : List (Slot K V)) (i : ℕ) → live_count (drop i ss) ≤ length ss
  unfolding live_count
  live_count-le [] zero = omega arith
  live_count-le [] (suc i) = omega arith
  live_count-le (null ∷ ss) zero = omega (arith, live_count-le ss 0)
  live_count-le (live l ∷ ss) zero = omega (arith, live_count-le ss 0)
  live_count-le (freed ∷ ss) zero = omega (arith, live_count-le ss 0)
  live_count-le (s ∷ ss) (suc i) = omega (arith, live_count-le ss i)

  -- With nothing below `i` and no bucket from `i` on there is no entry.
  total_of_unused :
      (ss : List (Slot K V)) (i : ℕ)
      → ((j : ℕ) → j < i → entries (get_or ss j null) ≡ [])
      → live_count (drop i ss) ≡ 0
      → total ss ≡ 0
  unfolding live_count total
  total_of_unused [] i moved none_left = refl
  total_of_unused (null ∷ ss) zero moved none_left =
      omega (arith, total_of_unused ss zero (λ j l. elim l [ ]) (omega arith))
  total_of_unused (live l ∷ ss) zero moved none_left = absurd (omega arith)
  total_of_unused (freed ∷ ss) zero moved none_left =
      omega (arith, total_of_unused ss zero (λ j l. elim l [ ]) (omega arith))
  total_of_unused (s ∷ ss) (suc i) moved none_left = omega (
    arith,
    total_of_unused ss i (λ j l. moved (suc j) (omega arith)) none_left,
    ap length (moved 0 (omega arith)),
  )

  -- The old table when the bucket at `i` has moved.
  abbrev pub emptied : Table K V → ℕ → ℕ → ℕ → Table K V
  emptied t i used size = record t {
    bktab = set t.bktab i (live []);
    bktab_used = used;
    size = size;
  }

module _ {K V : Type 0} ⦃key : KeyType K⦄ where
  pub used_pos_of_size : {t : Table K V} {i : ℕ} → IsDraining t i → 0 < t.size → 0 < t.bktab_used
  used_pos_of_size {t} {i} h p = elim (dec_lt 0 t.bktab_used) [
    | yes q ↦ q
    | no n ↦
        absurd (
          omega (arith, h.table.counted, total_of_unused t.bktab i h.moved (omega (arith, h.left))))
  ]

  module _ {t : Table K V} {i : ℕ} (h : IsDraining t i) (inside : i < t.bktab_size) where
    pub in_bktab : i < length t.bktab
    in_bktab = omega (arith, h.table.width)

    -- A bucket that is not there is passed over.
    pub skip-IsDraining : slot t i ≡ null → IsDraining t (suc i)
    skip-IsDraining at = record {
      table = h.table;
      moved = λ j l. ground (arith, h.moved j);
      left = omega (arith, h.left, live_count-drop t.bktab i, ap (λ x. bit (is_live x)) at);
      small = h.small;
    }

    pub slot-emptied :
        (used size j : ℕ) → slot (emptied t i used size) j ≡ (if i == j then live [] else slot t j)
    slot-emptied used size j =
        ground
          (arith, get_or-set_self t.bktab i (live []) in_bktab, get_or-set_ne t.bktab i j (live []))

    module _ (es : List (Entry K V)) (at : slot t i ≡ live es) where
      pub length-le-size : length es ≤ t.size
      length-le-size = omega (
        arith,
        h.table.counted,
        total-set t.bktab i (live []) in_bktab,
        ap (λ x. length (entries x)) at,
      )

      used_pos : 0 < t.bktab_used
      used_pos = omega (arith, h.left, live_count-drop t.bktab i, ap (λ x. bit (is_live x)) at)

      abbrev pub rest : Table K V
      rest = emptied t i (t.bktab_used - 1) (t.size - length es)

      pub emptied-IsDraining : IsDraining rest (suc i)
      unfolding count
      emptied-IsDraining = record {
        table = record {
          pos = h.table.pos;
          width = length-set t.bktab i (live []) ∙ h.table.width;
          counted = omega (
            arith,
            h.table.counted,
            total-set t.bktab i (live []) in_bktab,
            ap (λ x. length (entries x)) at,
          );
          fits = omega (arith, h.table.fits);
          sound = λ j.
              rw (slot-emptied (t.bktab_used - 1) (t.size - length es) j)
                (ground (arith, h.table.sound j));
          once = λ q j.
              rw (slot-emptied (t.bktab_used - 1) (t.size - length es) j)
                (ground (arith, h.table.once q j));
          placed = λ q j n.
              rw (slot-emptied (t.bktab_used - 1) (t.size - length es) j)
                (ground (arith, h.table.placed q j));
        };
        moved = λ j l.
            rw (slot-emptied (t.bktab_used - 1) (t.size - length es) j) (ground (arith, h.moved j));
        left =
            rw (drop-set t.bktab i (live []))
              (omega (arith, h.left, live_count-drop t.bktab i, ap (λ x. bit (is_live x)) at));
        small = h.small;
      }

      pub view-emptied :
          (q : K) → view rest q ≡ (if i == place q t.bktab_size then none else view t q)
      unfolding view assoc
      view-emptied q =
          rw (slot-emptied (t.bktab_used - 1) (t.size - length es) (place q t.bktab_size))
            (ground arith)

      -- What the bucket holds is what the table reads there.
      pub assoc-bucket :
          (q : K) → assoc q es ≡ (if i == place q t.bktab_size then view t q else none)
      unfolding view
      assoc-bucket q = ground (arith, assoc-eq-none q es, h.table.placed q i)
