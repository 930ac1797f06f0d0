-- ===== src/Tests/ListLaws.antt =====
-- The theorems on the linked list at inputs that meet their hypotheses, and runs of it.
use atm_cache.Base.{
  ℕ, ◌≡◌, refl, Bool, true, Option, none, some, List, [], ◌∷◌, ◌++◌, arith, ◌==◌, deep, Run, ok,
  ◌>>=◌, Returns, inc32, dec32,
}
use atm_cache.LinkedList.Spec.{find_first, push_last}
use atm_cache.LinkedList.Nodes.{
  LinkedList, list_new, list_push, list_lpop, list_rpop, list_del, list_find, list_clear, iter_new,
  list_entry_free, lpop_entry, rpop_entry, take_value, find_entry, unlink_entry, clear_loop,
  set_next, set_prev, find_linear, entry_isol, release, list_entry_new,
}
use atm_cache.LinkedList.Seg.{values, seg}
use atm_cache.LinkedList.Steps.{IsList}
use atm_cache.LinkedList.Push.{list_push-IsList}
use atm_cache.LinkedList.Find.{list_find-find_first}
use atm_cache.LinkedList.Delete.{Removed, list_del-Removed}
use atm_cache.LinkedList.Clear.{Cleared, list_clear-Cleared}
use atm_cache.LinkedList.Iter.{Walked, collect, iter_next-Walked}

abbrev one : List (ℕ × ℕ)
one = (1, 10) ∷ []

abbrev both : List (ℕ × ℕ)
both = (1, 10) ∷ (2, 20) ∷ []

abbrev is_twenty : ℕ → Bool
is_twenty n = n == 20

-- A list that hands its values, 10 and 20, to the callback.
abbrev pair : LinkedList ℕ
pair = record {
  free_type = deep;
  can_free = true;
  heap = seg none both none;
  head = some 1;
  tail = some 2;
  size = 2;
}

pair-IsList : IsList pair both
pair-IsList = record {
  holds = λ a. refl;
  distinct = (refl, (refl, tt));
  head_is = refl;
  tail_is = refl;
  counted = refl;
  fits = omega arith;
}

list_push-IsList_example : Returns (list_push pair 3 30) (λ l.
    IsList l (both ++ (3, 30) ∷ []) × (values (both ++ (3, 30) ∷ []) ≡ push_last (values both) 30))
list_push-IsList_example = list_push-IsList pair both 3 30 pair-IsList refl (omega arith)

list_find-find_first_example : list_find pair is_twenty ≡ ok (find_first is_twenty (values both))
list_find-find_first_example = list_find-find_first pair both is_twenty pair-IsList

list_del-Removed_example : Returns (list_del pair is_twenty) (Removed pair is_twenty both)
list_del-Removed_example = list_del-Removed pair is_twenty refl both pair-IsList

iter_next-Walked_example : Returns (collect 2 (iter_new pair)) (Walked pair (10 ∷ 20 ∷ []))
iter_next-Walked_example = iter_next-Walked pair both pair-IsList

list_clear-Cleared_example : Returns (list_clear pair) (Cleared deep true both)
list_clear-Cleared_example = list_clear-Cleared pair both pair-IsList refl

program : Unit {0}
unfolding list_new list_push list_lpop list_rpop list_del list_find list_clear list_entry_free
    lpop_entry rpop_entry take_value find_entry unlink_entry clear_loop set_next set_prev
    find_linear entry_isol release list_entry_new inc32 dec32
program = tt

-- Three pushes, a deletion in the middle, and what is then first and last.
middle_run : Run (List ℕ × Option ℕ × Option ℕ × Option ℕ × ℕ)
middle_run = do
  l ← list_push (list_new deep true) 1 10
  l' ← list_push l 2 20
  l'' ← list_push l' 3 30
  (given, less) ← list_del l'' is_twenty
  (a, less') ← list_lpop less
  (b, less'') ← list_rpop less'
  (c, end) ← list_lpop less''
  ok (given, a, b, c, end.size)

middle_deleted : middle_run ≡ ok (20 ∷ [], some 10, some 30, none, 0)
unfolding program middle_run
middle_deleted = refl
