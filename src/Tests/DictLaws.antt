-- ===== src/Tests/DictLaws.antt =====
-- The theorems on the dictionary at inputs that meet their hypotheses.
use atm_cache.Base.{
  shallow, ℕ, ◌+◌, ◌≤◌, ◌<◌, ◌≡◌, ◌≢◌, refl, true, none, some, List, [], ◌∷◌, arith, ok, stop,
  exit_error, Returns, ◌⊎◌, use_after_free, if◌then◌else◌, u32_mod, length, ◌∙◌,
}
use atm_cache.Dict.Table.{Entry, Table, entry_new, table_new, table_push_entry}
use atm_cache.Dict.Table.Chain.{count, assoc}
use atm_cache.Dict.Table.Buckets.{view, place}
use atm_cache.Dict.Table.Reads.{join, is_some}
use atm_cache.Dict.Table.New.{table_new-NoHollow, table_new-IsOpen, view-table_new}
use atm_cache.Dict.Table.Push.{Pushed, table_push_entry-Pushed}
use atm_cache.Dict.Ops.{
  Dict, dict_new, dict_set, dict_get, dict_del, dict_contains, dict_clear, rehash,
}
use atm_cache.Dict.Valid.{IsDict, dict_of, dict_view, entry_count, max_entries}
use atm_cache.Dict.Queries.{dict_get-view, dict_contains-view}
use atm_cache.Dict.Update.{Updated, dict_set-Updated, dict_set-Updated_dense}
use atm_cache.Dict.Delete.{dict_del-exits}
use atm_cache.Dict.Stale.{dict_set_stale}
use atm_cache.Dict.Clear.{dangles, dict_clear-dangles}
use atm_cache.Dict.Rehash.{Outcome, rehash-Outcome}
use atm_cache.Dict.Fill.{set_all, dict_new-set_all}
use atm_cache.Tests.Words.{word_key}

abbrev two_entries : List (Entry ℕ ℕ)
two_entries = entry_new 1 (some 10) ∷ entry_new 9 none ∷ []

two_entries_once : (q : ℕ) → count q two_entries ≤ 1
unfolding count
two_entries_once q = ground arith

dict_new-set_all_example : Returns (set_all two_entries (dict_new shallow)) (λ d'.
    IsDict d'
    × ((q : ℕ) → dict_view d' q ≡ assoc q two_entries)
    × (entry_count d' ≡ length two_entries))
dict_new-set_all_example = dict_new-set_all shallow two_entries two_entries_once (omega arith)

-- The dictionary that holds the two entries.
filled : Returns (set_all two_entries (dict_new shallow)) (λ d'.
    IsDict d'
    × ((q : ℕ) → dict_view d' q ≡ assoc q two_entries)
    × (entry_count d' ≡ length two_entries))
filled = dict_new-set_all shallow two_entries two_entries_once (omega arith)

abbrev sample : Dict ℕ ℕ
sample = filled.0

sample_valid : IsDict sample
sample_valid = filled.2.0

sample_room : entry_count sample < max_entries
sample_room = omega (arith, filled.2.2)

dict_get-view_example : dict_get sample 1 ≡ ok (join (dict_view sample 1))
dict_get-view_example = dict_get-view sample sample_valid 1

dict_contains-view_example : dict_contains sample 9 ≡ ok (is_some (dict_view sample 9))
dict_contains-view_example = dict_contains-view sample sample_valid 9

rehash-Outcome_example : Outcome sample (rehash sample)
rehash-Outcome_example = rehash-Outcome sample sample_valid (omega (arith, sample_room))

-- A rehash under way: one entry in a table of two buckets, and a new table of four.
abbrev one_entry : Entry ℕ ℕ
one_entry = entry_new 1 (some 10)

two_buckets_room : (table_new {K = ℕ} {V = ℕ} 2).size + 1 < u32_mod
unfolding table_new
two_buckets_room = omega arith

pushed : Returns (table_push_entry (table_new 2) one_entry) (Pushed (table_new 2) one_entry)
pushed =
    table_push_entry-Pushed (table_new-IsOpen 2 (omega arith) (omega arith)) one_entry
      (view-table_new 2 1) two_buckets_room

abbrev old_table : Table ℕ ℕ
old_table = pushed.0

abbrev new_table : Table ℕ ℕ
new_table = table_new 4

abbrev moving : Dict ℕ ℕ
moving = dict_of shallow old_table (some new_table) true 0

old_size : old_table.size ≡ 1
unfolding table_new
old_size = omega (arith, pushed.2.counted)

new_size : new_table.size ≡ 0
unfolding table_new
new_size = refl

old_holds : view old_table 1 ≡ some (some 10)
old_holds = pushed.2.reads 1

moving_valid : IsDict moving
moving_valid = (
  record {
    draining = record {
      table = pushed.2.is_open.table;
      moved = λ j l. elim l [ ];
      left = pushed.2.is_open.used;
      small = pushed.2.is_open.small;
    };
    target = table_new-IsOpen 4 (omega arith) (omega arith);
    apart = λ q _. view-table_new 4 q;
  },
  omega (arith, old_size),
)

not_in_old : view old_table 3 ≡ none
not_in_old = pushed.2.reads 3 ∙ view-table_new 2 3

moving_room : entry_count moving < max_entries
unfolding entry_count
moving_room = omega (arith, old_size, new_size)

dict_set-Updated_example :
    Returns (dict_set moving 3 (some 30)) (Updated moving 3 (some 30))
    ⊎ (dict_set moving 3 (some 30) ≡ stop exit_error)
dict_set-Updated_example = dict_set-Updated moving 3 (some 30) moving_valid moving_room not_in_old

dict_set-Updated_dense_example : Returns (dict_set moving 3 (some 30)) (Updated moving 3 (some 30))
dict_set-Updated_dense_example =
    dict_set-Updated_dense moving 3 (some 30) moving_valid moving_room not_in_old
      (λ j l. pushed.2.full (table_new-NoHollow ℕ ℕ 2) j, table_new-NoHollow ℕ ℕ 4)

dict_del-exits_example : dict_del moving 1 ≡ stop exit_error
dict_del-exits_example =
    dict_del-exits shallow old_table new_table true 0 1 moving_valid
      (omega (arith, old_size, new_size)) old_size (λ n. cc (n, old_holds))

old_width : old_table.bktab_size ≡ 2
unfolding table_new
old_width = pushed.2.same_size

away : place {K = ℕ} 1 old_table.bktab_size ≢ 0
unfolding place
away = rw old_width (omega arith)

dict_set_stale_example : Returns (dict_set moving 1 (some 77)) (λ d'. dict_get d' 1 ≡ ok (some 10))
dict_set_stale_example =
    dict_set_stale shallow old_table new_table true 0 1 (some 77) 10 moving_valid
      (omega (arith, old_size, new_size)) old_holds away

dict_clear-dangles_example : Returns (dict_clear (dict_of shallow old_table none true 0)) (λ d'.
    (entry_count d' ≡ 0)
    × ((k : ℕ) → dict_get d' k ≡ (if dangles old_table k then stop use_after_free else ok none)))
dict_clear-dangles_example = dict_clear-dangles shallow old_table true 0 pushed.2.is_open.table
