-- ===== src/LinkedList/Release.antt =====
-- `atm_list_entry_free` of src/core/atm_list.c: the entry goes, and the value goes to the callback
-- if the list frees its values.
use atm_cache.Base.{
  ℕ, ◌≡◌, refl, Bool, true, Option, none, some, List, [], ◌∷◌, arith, if◌then◌else◌, ◌==◌, FreeType,
  shallow, deep, ok,
}
use atm_cache.LinkedList.Nodes.{Node, Heap, LinkedList, list_entry_free, entry_isol, release}
use atm_cache.LinkedList.Seg.{alt}
use atm_cache.LinkedList.Steps.{alone, load-ok, entry_isol-alone, release-rest}

-- Whether the callback that a deep list needs is there.
abbrev pub frees : FreeType → Bool → Bool
frees shallow can = true
frees deep can = can

module _ {A : Type 0} where
  -- The values that the callback is given.
  abbrev pub handed : FreeType → Option A → List A
  handed shallow o = []
  handed deep none = []
  handed deep (some v) = v ∷ []

  -- The list with another store.
  abbrev pub with_heap : LinkedList A → Heap A → LinkedList A
  with_heap l h = record l { heap = h }

  freed_run :
      (l : LinkedList A) (p : ℕ) (v : A) (h h' : Heap A) (f : FreeType)
      → l.free_type ≡ f
      → frees f l.can_free ≡ true
      → entry_isol l.heap p ≡ ok h
      → h p ≡ some (alone v)
      → release h p ≡ ok h'
      → list_entry_free l p ≡ ok (handed f (some v), with_heap l h')
  unfolding list_entry_free
  freed_run l p v h h' shallow e can run found run' = rw (run, load-ok h p (alone v) found, e, run')
  freed_run l p v h h' deep e can run found run' =
      rw (run, load-ok h p (alone v) found, e, can, run')

  pub list_entry_free-ok :
      (l : LinkedList A) (S R : Heap A) (p : ℕ) (c : Node A)
      → S p ≡ none
      → R p ≡ none
      → ((a : ℕ) → l.heap a ≡ alt (S a) (if a == p then some c else R a))
      → frees l.free_type l.can_free ≡ true
      → (h : Heap A) × (list_entry_free l p ≡ ok (handed l.free_type (some c.val), with_heap l h))
        × ((a : ℕ) → h a ≡ alt (S a) (R a))
  list_entry_free-ok l S R p c out out' holds can =
      let (h, run, at) = entry_isol-alone l.heap S R p c out holds in
      let found : h p ≡ some (alone c.val) = rw (at p) (ground arith) in
      let gone : alt (S p) (R p) ≡ none = rw (out, out') in
      let (h', run', at') = release-rest h (λ a. alt (S a) (R a)) p (alone c.val) gone at in
      (h', freed_run l p c.val h h' l.free_type refl can run found run', at')
