-- ===== src/Dict/Clear.antt =====
-- `atm_dict_clear` frees every bucket and clears an eighth of the bucket table only, since the
-- length that it gives to `memset` is a number of pointers and not of bytes.
use atm_cache.Base.{
  FreeType, ℕ, zero, suc, ◌/◌, ◌<◌, ◌≡◌, refl, Bool, true, false, not, ◌&&◌, Option, none, some,
  List, [], ◌∷◌, arith, ok, stop, use_after_free, ◌>>=◌, Returns, if◌then◌else◌, length, ltb,
  get_or, ◌==◌, Bool-cases, inl, inr,
}
use atm_cache.Dict.Key.{KeyType}
use atm_cache.Dict.Ops.{dict_clear, dict_get}
use atm_cache.Dict.Table.{
  Slot, Table, null, live, freed, free_buckets, zero_slots, table_clear, table_get, entry, bucket,
  hkey, at,
}
use atm_cache.Dict.Table.Counts.{not_short}
use atm_cache.Dict.Table.Buckets.{slot, is_live, is_freed, place, place-lt, at-get_or, IsTable}
use atm_cache.Dict.Valid.{dict_of, entry_count}

module _ {K V : Type 0} where
  -- What is left of a bucket pointer after its bucket is freed.
  abbrev pub after_free : Slot K V → Slot K V
  after_free null = null
  after_free (live l) = freed
  after_free freed = freed

  free_buckets-slot :
      (ss : List (Slot K V))
      → ((i : ℕ) → is_freed (get_or ss i null) ≡ false)
      → Returns (free_buckets ss) (λ ss'.
        (length ss' ≡ length ss) × ((i : ℕ) → get_or ss' i null ≡ after_free (get_or ss i null)))
  unfolding free_buckets
  free_buckets-slot [] sound = ([], refl, (refl, λ i. refl))
  free_buckets-slot (null ∷ ss) sound =
      let (r, run, p) = free_buckets-slot ss (λ i. sound (suc i)) in
      (null ∷ r, rw run, (omega (arith, p.0), elim [ zero ↦ refl | suc i ↦ p.1 i ]))
  free_buckets-slot (live l ∷ ss) sound =
      let (r, run, p) = free_buckets-slot ss (λ i. sound (suc i)) in
      (freed ∷ r, rw run, (omega (arith, p.0), elim [ zero ↦ refl | suc i ↦ p.1 i ]))
  free_buckets-slot (freed ∷ ss) sound = cc (sound 0)

  zero_slots-slot :
      (n : ℕ) (ss : List (Slot K V)) (i : ℕ)
      → get_or (zero_slots n ss) i null ≡ (if ltb i n then null else get_or ss i null)
  unfolding zero_slots
  zero_slots-slot zero ss i = ground arith
  zero_slots-slot (suc n) [] i = ground arith
  zero_slots-slot (suc n) (s ∷ ss) zero = ground arith
  zero_slots-slot (suc n) (s ∷ ss) (suc i) = ground (arith, zero_slots-slot n ss i)

  length-zero_slots : (n : ℕ) (ss : List (Slot K V)) → length (zero_slots n ss) ≡ length ss
  unfolding zero_slots
  length-zero_slots zero ss = refl
  length-zero_slots (suc n) [] = refl
  length-zero_slots (suc n) (s ∷ ss) = omega (arith, length-zero_slots n ss)

cleared_read :
    {V : Type 0} (b : Bool)
    → ((if b then stop use_after_free else ok none) >>= λ (r : Option V). elim r [
      | some v ↦ ok (some v)
      | none ↦ ok none
    ])
      ≡ (if b then stop use_after_free else ok none)
cleared_read true = refl
cleared_read false = refl

module _ {K V : Type 0} ⦃key : KeyType K⦄ where
  -- The bucket pointer of `k` dangles after `atm_dict_clear`.
  abbrev pub dangles : Table K V → K → Bool
  dangles t k =
      is_live (slot t (place k t.bktab_size)) && not (ltb (place k t.bktab_size) (t.bktab_size / 8))

  -- A read through a bucket pointer that is NULL, or that dangles.
  module _ (t : Table K V) (k : K) (pos : 0 < t.bktab_size)
      (width : length t.bktab ≡ t.bktab_size) where
    nonzero : (t.bktab_size == 0) ≡ false
    nonzero = ground arith

    at-slot : at t.bktab (place k t.bktab_size) ≡ ok (slot t (place k t.bktab_size))
    at-slot = at-get_or t.bktab _ (omega (arith, place-lt k pos))

    get_null : slot t (place k t.bktab_size) ≡ null → table_get t k ≡ ok none
    unfolding table_get entry bucket hkey place
    get_null e = rw (nonzero, at-slot, e)

    get_freed : slot t (place k t.bktab_size) ≡ freed → table_get t k ≡ stop use_after_free
    unfolding table_get entry bucket hkey place
    get_freed e = rw (nonzero, at-slot, e)

  module _ (t t' : Table K V) (k : K) (pos : 0 < t.bktab_size) (same : t'.bktab_size ≡ t.bktab_size)
      (width : length t'.bktab ≡ t.bktab_size)
      (slots : (i : ℕ)
        → slot t' i ≡ (if ltb i (t.bktab_size / 8) then null else after_free (slot t i))) where
    get_cleared :
        (s : Slot K V)
        → slot t (place k t.bktab_size) ≡ s
        → is_freed s ≡ false
        → table_get t' k ≡ (
            if is_live s && not (ltb (place k t.bktab_size) (t.bktab_size / 8))
            then stop use_after_free
            else ok none)
    get_cleared null e f =
        get_null t' k (omega arith) (omega arith)
          (rw same (ground (arith, slots (place k t.bktab_size))))
    get_cleared (live l) e f = elim (Bool-cases (ltb (place k t.bktab_size) (t.bktab_size / 8))) [
      | inl low ↦ rw low (
          get_null t' k (omega arith) (omega arith)
            (rw same (ground (arith, slots (place k t.bktab_size)))))
      | inr high ↦ rw high (
          get_freed t' k (omega arith) (omega arith)
            (rw same (ground (arith, slots (place k t.bktab_size)))))
    ]
    get_cleared freed e f = cc

  -- Outside a rehash `atm_dict_clear` of a well-formed active table ends normally, with no entry
  -- counted; a key then reads as NULL, but if its bucket was there and stands past the first eighth
  -- of the bucket table, the read goes to freed memory.
  pub dict_clear-dangles :
      (f : FreeType) (act : Table K V) (resize : Bool) (i : ℕ)
      → IsTable act
      → Returns (dict_clear (dict_of f act none resize i)) (λ d'.
        (entry_count d' ≡ 0)
        × ((k : K) → dict_get d' k ≡ (if dangles act k then stop use_after_free else ok none)))
  unfolding dict_clear table_clear dict_get entry_count
  dict_clear-dangles f act resize i h =
      let (ss, run, p) = free_buckets-slot act.bktab h.sound in
      let act' : Table K V = record act {
        bktab = zero_slots (act.bktab_size / 8) ss;
        bktab_used = 0;
        size = 0;
      } in
      let slots : (j : ℕ)
          → slot act' j ≡ (if ltb j (act.bktab_size / 8) then null else after_free (slot act j)) =
        λ j. rw (zero_slots-slot (act.bktab_size / 8) ss j, p.1 j) in
      let width : length act'.bktab ≡ act.bktab_size =
        omega (arith, length-zero_slots (act.bktab_size / 8) ss, p.0, h.width) in
      (
        dict_of f act' none resize 0,
        rw (not_short _ _ h.width, run),
        (
          refl,
          λ k.
              rw
                (get_cleared act act' k h.pos refl width slots (slot act (place k act.bktab_size))
                  refl (h.sound _))
                (cleared_read (dangles act k)),
        ),
      )
