-- ===== src/Dict/Table.antt =====
-- One hash table of src/core/atm_dict.c, `atm_dict_table_t`, and the operations on it. The inner
-- list of a bucket is the sequence of entries that `LinkedList` shows it to be. A pointer that may
-- be NULL is an `Option`.
pub mod Chain
pub mod Buckets
pub mod Reads
pub mod Push
pub mod Store
pub mod Delete
pub mod Counts
pub mod New
use atm_cache.Base.{
  ltb, ℕ, zero, suc, ◌+◌, ◌-◌, ◌*◌, ◌/◌, ◌%◌, ◌^◌, ◌≤◌, ◌<◌, ◌≡◌, refl, Bool, true, false, Option,
  none, some, List, [], ◌∷◌, ◌++◌, arith, if◌then◌else◌, length, set, replicate, drop, ◌==◌, Run,
  ok, stop, use_after_free, division_by_zero, out_of_bounds, ◌>>=◌, inc32, dec32, u32_mod,
}
use atm_cache.LinkedList.Spec.{find_first, delete_first, modify_first, push_last}
use atm_cache.Dict.Key.{KeyType, ◌~◌}

pub record Entry (K V : Type 0) : Type 0 where
  pub key : K
  pub val : Option V

-- A cell of `bktab`: NULL, a bucket with its list, or a pointer to a bucket that was freed.
pub data Slot (K V : Type 0) : Type 0 where
  null : Slot K V
  live : List (Entry K V) → Slot K V
  freed : Slot K V

pub record Table (K V : Type 0) : Type 0 where
  pub bktab : List (Slot K V)
  pub bktab_size : ℕ
  pub bktab_used : ℕ
  pub size : ℕ

module _ {K V : Type 0} where
  -- The allocator clears the memory that it returns, and takes the number of bytes as a 32-bit word.
  unfoldable pub table_new : ℕ → Table K V
  table_new bsz = record {
    bktab = replicate (8 * bsz % u32_mod / 8) null;
    bktab_size = bsz;
    bktab_used = 0;
    size = 0;
  }

  abbrev pub entry_new : K → Option V → Entry K V
  entry_new k v = record { key = k; val = v }

  -- A read of `bktab`.
  unfoldable pub at : List (Slot K V) → ℕ → Run (Slot K V)
  at [] i = stop out_of_bounds
  at (x ∷ xs) zero = ok x
  at (x ∷ xs) (suc i) = at xs i

  -- A dereference of a bucket pointer that is not NULL, or NULL.
  unfoldable pub bucket_list : Slot K V → Run (Option (List (Entry K V)))
  bucket_list null = ok none
  bucket_list (live l) = ok (some l)
  bucket_list freed = stop use_after_free

  -- The loop of `atm_dict_table_clear` frees each bucket, and leaves its pointer.
  unfoldable pub free_buckets : List (Slot K V) → Run (List (Slot K V))
  free_buckets [] = ok []
  free_buckets (null ∷ ss) = do rest ← free_buckets ss; ok (null ∷ rest)
  free_buckets (live l ∷ ss) = do rest ← free_buckets ss; ok (freed ∷ rest)
  free_buckets (freed ∷ ss) = stop use_after_free

  -- `memset(table->bktab, 0, table->bktab_size)` clears so many bytes, and a pointer has eight. The
  -- sizes that the dictionary makes are powers of two from 256, so whole pointers are cleared.
  unfoldable pub zero_slots : ℕ → List (Slot K V) → List (Slot K V)
  zero_slots zero ss = ss
  zero_slots (suc n) [] = []
  zero_slots (suc n) (s ∷ ss) = null ∷ zero_slots n ss

  -- The loop reads `bktab_size` cells.
  unfoldable pub table_clear : Table K V → Run (Table K V)
  unfolding free_buckets zero_slots
  table_clear t = if ltb (length t.bktab) t.bktab_size then stop out_of_bounds else (do
    ss ← free_buckets t.bktab
    ok (record t { bktab = zero_slots (t.bktab_size / 8) ss; bktab_used = 0; size = 0 }))

  -- The table itself is gone after this; what counts is whether the run ends normally.
  unfoldable pub table_free : Table K V → Run (Table K V)
  unfolding table_clear
  table_free t = table_clear t

module _ {K V : Type 0} ⦃key : KeyType K⦄ where
  -- `atm_dict_entry_match`: the stored key first, then the probe's.
  unfoldable pub entry_match : Entry K V → Entry K V → Bool
  entry_match e hint = e.key ~ hint.key

  unfoldable pub hkey : Table K V → K → Run ℕ
  hkey t k = if t.bktab_size == 0 then stop division_by_zero else ok (key.hash k % t.bktab_size)

  unfoldable pub bucket : Table K V → K → Run (Slot K V)
  unfolding hkey at
  bucket t k = do i ← hkey t k; at t.bktab i

  -- The entry that a table holds under a key. The hint has the key and no value.
  unfoldable pub entry : Table K V → K → Run (Option (Entry K V))
  unfolding bucket bucket_list find_first entry_match
  entry t k = do
    s ← bucket t k
    l ← bucket_list s
    elim l [ none ↦ ok none | some es ↦ ok (find_first (λ e. entry_match e (entry_new k none)) es) ]

  unfoldable pub table_contains : Table K V → K → Run Bool
  unfolding entry
  table_contains t k = do e ← entry t k; elim e [ none ↦ ok false | some _ ↦ ok true ]

  unfoldable pub table_get : Table K V → K → Run (Option V)
  unfolding entry
  table_get t k = do e ← entry t k; elim e [ none ↦ ok none | some e' ↦ ok e'.val ]

  -- The entry that was unlinked comes back, for its release, with the table.
  unfoldable pub table_del : Table K V → K → Run (Option (Entry K V) × Table K V)
  unfolding entry delete_first dec32
  table_del t k = do
    found ← entry t k
    elim found [
      | none ↦ ok (none, t)
      | some e ↦ do
        i ← hkey t k
        s ← at t.bktab i
        l ← bucket_list s
        elim l [
          | none ↦ stop out_of_bounds
          | some es ↦ ok (
            some e,
            record t {
              bktab = set t.bktab i (live (delete_first (λ x. entry_match x e) es));
              size = dec32 t.size;
            },
          )
        ]
    ]

  -- A missing bucket is made first, and counted.
  unfoldable pub table_push_entry : Table K V → Entry K V → Run (Table K V)
  unfolding bucket bucket_list push_last inc32
  table_push_entry t e = do
    i ← hkey t e.key
    s ← at t.bktab i
    l ← bucket_list s
    elim l [
      | none ↦ ok (record t {
        bktab = set t.bktab i (live (push_last [] e));
        bktab_used = inc32 t.bktab_used;
        size = inc32 t.size;
      })
      | some es ↦
          ok (record t { bktab = set t.bktab i (live (push_last es e)); size = inc32 t.size })
    ]

  unfoldable pub table_set : Table K V → K → Option V → Run (Table K V)
  unfolding entry table_push_entry modify_first
  table_set t k v = do
    found ← entry t k
    elim found [
      | none ↦ table_push_entry t (entry_new k v)
      | some e ↦ do
        i ← hkey t k
        s ← at t.bktab i
        l ← bucket_list s
        elim l [
          | none ↦ stop out_of_bounds
          | some es ↦ ok (record t {
            bktab = set t.bktab i (
                live (
                  modify_first (λ x. entry_match x (entry_new k none)) (λ x. record x { val = v })
                    es));
          })
        ]
    ]
