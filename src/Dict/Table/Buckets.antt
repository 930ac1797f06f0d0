-- ===== src/Dict/Table/Buckets.antt =====
-- When a table is well formed, what it holds, and what a write to one bucket does.
use atm_cache.Base.{
  ℕ, zero, suc, ◌+◌, ◌%◌, ◌≤◌, ◌<◌, ◌≡◌, ◌≢◌, refl, Bool, true, false, Option, none, some, List, [],
  ◌∷◌, arith, if◌then◌else◌, length, set, get_or, length-set, ok, ap, ◌==◌, ◌∙◌, ◌⊎◌, inl, inr,
  u32_mod,
}
use atm_cache.LinkedList.Spec.{find_first}
use atm_cache.Dict.Key.{KeyType, ◌~◌}
use atm_cache.Dict.Table.{
  Entry, Slot, null, live, freed, Table, at, bucket_list, hkey, bucket, entry,
}
use atm_cache.Dict.Table.Chain.{assoc, assoc_congr, count, bit, has_key}

module _ {K V : Type 0} where
  -- The entries behind a bucket pointer.
  abbrev pub entries : Slot K V → List (Entry K V)
  entries null = []
  entries (live l) = l
  entries freed = []

  abbrev pub is_freed : Slot K V → Bool
  is_freed freed = true
  is_freed _ = false

  abbrev pub is_live : Slot K V → Bool
  is_live (live _) = true
  is_live _ = false

  abbrev pub list_of : Slot K V → Option (List (Entry K V))
  list_of (live l) = some l
  list_of _ = none

  -- What a bucket pointer that does not dangle is.
  pub Slot-cases :
      (s : Slot K V) → is_freed s ≡ false → (s ≡ null) ⊎ ((l : List (Entry K V)) × (s ≡ live l))
  Slot-cases null h = inl refl
  Slot-cases (live l) h = inr (l, refl)
  Slot-cases freed h = cc

  -- The entries of all buckets, and the buckets that are there.
  unfoldable pub total : List (Slot K V) → ℕ
  total [] = 0
  total (s ∷ ss) = length (entries s) + total ss

  unfoldable pub live_count : List (Slot K V) → ℕ
  live_count [] = 0
  live_count (s ∷ ss) = bit (is_live s) + live_count ss

  abbrev pub slot : Table K V → ℕ → Slot K V
  slot t i = get_or t.bktab i null

  abbrev pub chain : Table K V → ℕ → List (Entry K V)
  chain t i = entries (slot t i)

  pub at-get_or : (ss : List (Slot K V)) (i : ℕ) → i < length ss → at ss i ≡ ok (get_or ss i null)
  unfolding at
  at-get_or [] _ past = absurd (omega arith)
  at-get_or (_ ∷ _) zero _ = refl
  at-get_or (_ ∷ rest) (suc j) inside = at-get_or rest j (omega arith)

  pub bucket_list-ok : (s : Slot K V) → is_freed s ≡ false → bucket_list s ≡ ok (list_of s)
  unfolding bucket_list
  bucket_list-ok null h = refl
  bucket_list-ok (live l) h = refl
  bucket_list-ok freed h = cc

  pub total-set :
      (ss : List (Slot K V)) (i : ℕ) (s : Slot K V)
      → i < length ss
      → total (set ss i s) + length (entries (get_or ss i null)) ≡ total ss + length (entries s)
  unfolding total
  total-set [] i s h = absurd (omega arith)
  total-set (x ∷ ss) zero s h = omega arith
  total-set (x ∷ ss) (suc i) s h = omega (arith, total-set ss i s (omega arith))

  pub live_count-set :
      (ss : List (Slot K V)) (i : ℕ) (s : Slot K V)
      → i < length ss
      → live_count (set ss i s) + bit (is_live (get_or ss i null)) ≡ live_count ss + bit (is_live s)
  unfolding live_count
  live_count-set [] i s h = absurd (omega arith)
  live_count-set (x ∷ ss) zero s h = omega arith
  live_count-set (x ∷ ss) (suc i) s h = omega (arith, live_count-set ss i s (omega arith))

  pub get_or-set_self :
      (ss : List (Slot K V)) (i : ℕ) (s : Slot K V) → i < length ss → get_or (set ss i s) i null ≡ s
  get_or-set_self [] i s h = absurd (omega arith)
  get_or-set_self (x ∷ ss) zero s h = refl
  get_or-set_self (x ∷ ss) (suc i) s h = get_or-set_self ss i s (omega arith)

  pub get_or-set_ne :
      (ss : List (Slot K V)) (i j : ℕ) (s : Slot K V)
      → i ≢ j
      → get_or (set ss i s) j null ≡ get_or ss j null
  get_or-set_ne [] i j s n = refl
  get_or-set_ne (x ∷ ss) zero zero s n = absurd (n refl)
  get_or-set_ne (x ∷ ss) zero (suc j) s n = refl
  get_or-set_ne (x ∷ ss) (suc i) zero s n = refl
  get_or-set_ne (x ∷ ss) (suc i) (suc j) s n = get_or-set_ne ss i j s (λ e. n (ap suc e))

module _ {K : Type 0} ⦃key : KeyType K⦄ where
  -- The bucket of a key among `n`.
  unfoldable pub place : K → ℕ → ℕ
  place q buckets = key.hash q % buckets

  pub place-lt : (q : K) {buckets : ℕ} → 0 < buckets → place q buckets < buckets
  unfolding place
  place-lt q some_bucket = omega arith

  pub place_congr : (q r : K) (buckets : ℕ) → (q ~ r) ≡ true → place q buckets ≡ place r buckets
  unfolding place
  place_congr q r buckets same = rw (key.hash-match q r same)

module _ {K V : Type 0} ⦃key : KeyType K⦄ where
  abbrev pub place_chain : Table K V → K → List (Entry K V)
  place_chain t k = chain t (place k t.bktab_size)

  -- What a table holds under a key.
  unfoldable pub view : Table K V → K → Option (Option V)
  view t k = assoc k (place_chain t k)

  -- Keys that match read alike.
  pub view_congr : (t : Table K V) (a b : K) → (a ~ b) ≡ true → view t a ≡ view t b
  unfolding view
  view_congr t a b h = rw (place_congr a b t.bktab_size h) (assoc_congr a b _ h)

  -- A key stands once, in its own bucket; the counters are right; no bucket pointer dangles.
  -- `bktab_used` is left out: in the old table it counts what is still to move.
  pub record IsTable (t : Table K V) : Type 0 where
    pub pos : 0 < t.bktab_size
    pub width : length t.bktab ≡ t.bktab_size
    pub counted : t.size ≡ total t.bktab
    pub fits : t.size < u32_mod
    pub sound : (i : ℕ) → is_freed (slot t i) ≡ false
    pub once : (q : K) (i : ℕ) → count q (chain t i) ≤ 1
    pub placed : (q : K) (i : ℕ) → place q t.bktab_size ≢ i → count q (chain t i) ≡ 0

  find-list :
      (k : K) (s : Slot K V)
      → elim (list_of s) [ none ↦ ok none | some es ↦ ok (find_first (has_key k) es) ]
        ≡ ok (find_first (has_key k) (entries s))
  unfolding find_first
  find-list k null = refl
  find-list k (live l) = refl
  find-list k freed = refl

  module _ {t : Table K V} (h : IsTable t) (k : K) where
    pub home-in : place k t.bktab_size < length t.bktab
    home-in = omega (arith, h.width, place-lt k h.pos)

    pub hkey-place : hkey t k ≡ ok (place k t.bktab_size)
    unfolding hkey place
    hkey-place = ground (arith, h.pos)

    pub at-place : at t.bktab (place k t.bktab_size) ≡ ok (slot t (place k t.bktab_size))
    at-place = at-get_or t.bktab _ home-in

    pub list-place :
        bucket_list (slot t (place k t.bktab_size)) ≡ ok (list_of (slot t (place k t.bktab_size)))
    list-place = bucket_list-ok _ (h.sound _)

    pub entry-find : entry t k ≡ ok (find_first (has_key k) (place_chain t k))
    unfolding entry bucket find_first
    entry-find = rw (hkey-place, at-place, list-place) (find-list k (slot t (place k t.bktab_size)))

  -- The write of a list to the bucket of `k`, with new counters.
  abbrev pub written : Table K V → K → List (Entry K V) → ℕ → ℕ → Table K V
  written t k c used size = record t {
    bktab = set t.bktab (place k t.bktab_size) (live c);
    bktab_used = used;
    size = size;
  }

  -- The bucket of `k` gets the list `c`: the table stays well formed, and only what matches `k`
  -- reads otherwise.
  module _ {t : Table K V} (h : IsTable t) (k : K) (c : List (Entry K V)) where
    pub slot-written :
        (used size j : ℕ)
        → slot (written t k c used size) j
          ≡ (if place k t.bktab_size == j then live c else slot t j)
    slot-written used size j = ground (
      arith,
      get_or-set_self t.bktab (place k t.bktab_size) (live c) (home-in h k),
      get_or-set_ne t.bktab (place k t.bktab_size) j (live c),
    )

    pub written-IsTable :
        (used size : ℕ)
        → size + length (place_chain t k) ≡ t.size + length c
        → size < u32_mod
        → ((q : K) → count q c ≤ 1)
        → ((q : K) → place q t.bktab_size ≢ place k t.bktab_size → count q c ≡ 0)
        → IsTable (written t k c used size)
    written-IsTable used size len fit one out = record {
      pos = h.pos;
      width = length-set t.bktab _ (live c) ∙ h.width;
      counted = omega (arith, h.counted, total-set t.bktab _ (live c) (home-in h k));
      fits = fit;
      sound = λ i. rw (slot-written used size i) (ground (arith, h.sound i));
      once = λ q i. rw (slot-written used size i) (ground (arith, h.once q i, one q));
      placed = λ q i n. rw (slot-written used size i) (ground (arith, h.placed q i, out q));
    }

    pub view-written :
        (used size : ℕ) (q : K) (v : Option (Option V))
        → (place q t.bktab_size ≡ place k t.bktab_size
            → assoc q c ≡ (if k ~ q then v else assoc q (place_chain t k)))
        → view (written t k c used size) q ≡ (if k ~ q then v else view t q)
    unfolding view
    view-written used size q v e =
        rw (slot-written used size (place q t.bktab_size))
          (ground (arith, place_congr k q t.bktab_size))

    -- Each bucket is counted in `size`.
    pub chain-le-size : length (place_chain t k) ≤ t.size
    chain-le-size = omega (arith, h.counted, total-set t.bktab _ (live []) (home-in h k))

    pub live_count-written :
        live_count (set t.bktab (place k t.bktab_size) (live c))
          + bit (is_live (slot t (place k t.bktab_size)))
        ≡ live_count t.bktab + 1
    live_count-written = live_count-set t.bktab _ (live c) (home-in h k)
