-- ===== src/LinkedList/Clear.antt =====
-- `atm_list_clear` of src/core/atm_list.c, and the walk of an iterator over the list.
use atm_cache.Base.{
  ℕ, zero, suc, ◌≡◌, refl, sym, ◌∙◌, Bool, true, Option, none, some, List, [], ◌∷◌, ◌++◌, arith,
  ◌≤◌, length, FreeType, shallow, deep, ok, Returns,
}
use atm_cache.LinkedList.Nodes.{
  LinkedList, list_new, lpop_entry, list_entry_free, clear_loop, list_clear,
}
use atm_cache.LinkedList.Seg.{values, seg, seg-none}
use atm_cache.LinkedList.Steps.{alone, IsList}
use atm_cache.LinkedList.Pop.{lpop_entry-Taken}
use atm_cache.LinkedList.Release.{frees, handed, with_heap, list_entry_free-ok}

module _ {A : Type 0} where
  abbrev pub handed_all : FreeType → List A → List A
  handed_all shallow vs = []
  handed_all deep vs = vs

  handed_all-nil : (f : FreeType) → handed_all f [] ≡ []
  handed_all-nil shallow = refl
  handed_all-nil deep = refl

  handed_cons :
      (f : FreeType) (v : A) (vs : List A)
      → handed f (some v) ++ handed_all f vs ≡ handed_all f (v ∷ vs)
  handed_cons shallow v vs = refl
  handed_cons deep v vs = refl

  -- What is left when the loop has ended, with the values that the callback was given.
  pub record Cleared (f : FreeType) (can : Bool) (xs : List (ℕ × A)) (r : List A × LinkedList A)
      : Type 0 where
    pub given : r.0 ≡ handed_all f (values xs)
    pub stands : IsList r.1 []
    pub same_free : r.1.free_type ≡ f
    pub same_can : r.1.can_free ≡ can

  pub list_new-IsList : (f : FreeType) (can : Bool) → IsList (list_new {A = A} f can) []
  unfolding list_new
  list_new-IsList f can = record {
    holds = λ a. refl;
    distinct = tt;
    head_is = refl;
    tail_is = refl;
    counted = refl;
    fits = omega arith;
  }

  round :
      (n : ℕ) (l l' l'' : LinkedList A) (o : Option ℕ) (p : ℕ) (vs ws : List A) (e : LinkedList A)
      → lpop_entry l ≡ ok (o, l')
      → o ≡ some p
      → list_entry_free l' p ≡ ok (vs, l'')
      → clear_loop n l'' ≡ ok (ws, e)
      → clear_loop (suc n) l ≡ ok (vs ++ ws, e)
  unfolding clear_loop
  round n l l' l'' o p vs ws e run at freed rest = rw (run, at, freed, rest)

  clear_loop-Cleared :
      (n : ℕ) (l : LinkedList A) (xs : List (ℕ × A))
      → length xs ≤ n
      → IsList l xs
      → frees l.free_type l.can_free ≡ true
      → Returns (clear_loop n l) (Cleared l.free_type l.can_free xs)
  unfolding clear_loop lpop_entry
  clear_loop-Cleared zero l [] fuel h can = (
    ([], l),
    rw h.head_is,
    record {
      given = sym (handed_all-nil l.free_type);
      stands = h;
      same_free = refl;
      same_can = refl;
    },
  )
  clear_loop-Cleared (suc n) l [] fuel h can = (
    ([], l),
    rw h.head_is,
    record {
      given = sym (handed_all-nil l.free_type);
      stands = h;
      same_free = refl;
      same_can = refl;
    },
  )
  clear_loop-Cleared zero l (x ∷ xs) fuel h can = absurd (omega arith)
  clear_loop-Cleared (suc n) l ((p, v) ∷ xs) fuel h can =
      let (r, run, (at, t, same_free, same_can)) = lpop_entry-Taken l p v xs h in
      let (h', freed, holds) =
        list_entry_free-ok r.1 (λ _. none) (seg none xs none) p (alone v) refl
          (seg-none none xs none p t.out) t.holds (rw (same_free, same_can) can) in
      let (r', rest, c) =
        clear_loop-Cleared n (with_heap r.1 h') xs (omega arith)
          (record {
            holds = holds;
            distinct = t.distinct;
            head_is = t.head_is;
            tail_is = t.tail_is;
            counted = t.counted;
            fits = t.fits;
          })
          (rw (same_free, same_can) can) in
      (
        (handed r.1.free_type (some v) ++ r'.0, r'.1),
        round n l r.1 (with_heap r.1 h') r.0 p (handed r.1.free_type (some v)) r'.0 r'.1 run at
            freed rest,
        record {
          given = rw (c.given, same_free) (handed_cons l.free_type v (values xs));
          stands = c.stands;
          same_free = c.same_free ∙ same_free;
          same_can = c.same_can ∙ same_can;
        },
      )

  -- A list that stands for `xs` and has the callback that a deep list needs: a clear ends normally
  -- with an empty list and an empty store, and a deep list handed every value to the callback, once
  -- and in order.
  pub list_clear-Cleared :
      (l : LinkedList A) (xs : List (ℕ × A))
      → IsList l xs
      → frees l.free_type l.can_free ≡ true
      → Returns (list_clear l) (Cleared l.free_type l.can_free xs)
  unfolding list_clear
  list_clear-Cleared l xs h can = clear_loop-Cleared l.size l xs (omega (arith, h.counted)) h can
