-- ===== src/LinkedList/Iter.antt =====
-- The iterator of src/core/atm_list.c walks the values in order.
use atm_cache.Base.{
  ℕ, zero, suc, ◌≡◌, refl, sym, true, Option, none, some, List, [], ◌∷◌, arith, length, Run, ok,
  ◌>>=◌, Returns,
}
use mathlib.Core.Path.{subst}
use atm_cache.LinkedList.Nodes.{LinkedList, ListIter, iter_new, iter_next, iter_reset}
use atm_cache.LinkedList.Seg.{values, has, Distinct, front, seg, ne_of_has}
use atm_cache.LinkedList.Steps.{IsList, load-ok}

module _ {A : Type 0} where
  -- The values of `n` calls of `atm_list_next`, or of those before the first that finds nothing.
  unfoldable pub collect : ℕ → ListIter A → Run (List A × ListIter A)
  collect zero it = ok ([], it)
  collect (suc n) it = do
    (o, it') ← iter_next it
    elim o [ none ↦ ok ([], it') | some v ↦ do (vs, end) ← collect n it'; ok (v ∷ vs, end) ]

  -- Where a walk ended: it gave the values `vs`, the next call finds nothing, and a reset goes back
  -- to the start.
  pub record Walked (l : LinkedList A) (vs : List A) (r : List A × ListIter A) : Type 0 where
    pub given : r.0 ≡ vs
    pub ended : iter_next r.1 ≡ ok (none, r.1)
    pub again : iter_reset r.1 ≡ iter_new l

  walk :
      (l : LinkedList A) (b : Option ℕ) (xs : List (ℕ × A))
      → Distinct xs
      → ((a : ℕ) → has a xs ≡ true → l.heap a ≡ seg b xs none a)
      → Returns
          (collect (length xs) (record { list = l; curr = front none xs }))
          (Walked l (values xs))
  unfolding collect iter_next iter_reset iter_new
  walk l b [] d holds = (
    ([], record { list = l; curr = none }),
    refl,
    record { given = refl; ended = refl; again = refl },
  )
  walk l b ((p, v) ∷ xs) d holds =
      let found : l.heap p ≡ some (record { val = v; prev = b; next = front none xs }) =
        rw (holds p (ground arith)) (ground arith) in
      let (r, run, w) =
        walk l (some p) xs d.1 (λ a i. ground (arith, holds a, ne_of_has a p xs i d.0)) in
      (
        (v ∷ r.0, r.1),
        rw (load-ok l.heap p _ found, run),
        record { given = rw w.given; ended = w.ended; again = w.again },
      )

  -- On a list that stands for `xs` a new iterator gives its values in order, each once, then finds
  -- nothing, and a reset brings it back to the start.
  pub iter_next-Walked :
      (l : LinkedList A) (xs : List (ℕ × A))
      → IsList l xs
      → Returns (collect (length xs) (iter_new l)) (Walked l (values xs))
  unfolding iter_new
  iter_next-Walked l xs h =
      subst
        (λ c. Returns (collect (length xs) (record { list = l; curr = c })) (Walked l (values xs)))
        (sym h.head_is) (walk l none xs h.distinct (λ a i. h.holds a))
