-- ===== src/LinkedList/Delete.antt =====
-- `atm_list_del` of src/core/atm_list.c takes the first value that matches out of the list, in each
-- of the four cases of its neighbours.
use mathlib.Core.Path.{subst}
use atm_cache.Base.{
  ℕ, ◌≡◌, refl, sym, ◌∙◌, Bool, true, false, Option, none, some, List, [], ◌∷◌, ◌++◌, arith,
  if◌then◌else◌, length-append, ◌==◌, dec32, dec32_small, ok, ◌>>=◌, Returns, FreeType, shallow,
  deep,
}
use atm_cache.LinkedList.Spec.{find_first, delete_first}
use atm_cache.LinkedList.Nodes.{
  Node, Heap, LinkedList, set_prev, set_next, unlink_entry, list_del, list_entry_free, find_entry,
}
use atm_cache.LinkedList.Seg.{
  front, back, back_at, alt, seg, back-back_at, back-append, seg-append, seg-none, values,
}
use atm_cache.LinkedList.Steps.{load-ok, set_prev-front, set_next-back, IsList, Distinct-parts}
use atm_cache.LinkedList.Find.{Found, absent, present, find_entry-Found, entry_at, IsList-split}
use atm_cache.LinkedList.Release.{frees, handed, with_heap, list_entry_free-ok}

module _ {A : Type 0} where
  abbrev middle : List (ℕ × A) → A → List (ℕ × A) → Node A
  middle ys v zs = record { val = v; prev = back none ys; next = front none zs }

  -- The list after its neighbours were linked past the entry `p`, which is still in the store.
  record Unlinked (l : LinkedList A) (ys : List (ℕ × A)) (p : ℕ) (v : A) (zs : List (ℕ × A))
      (l' : LinkedList A) : Type 0 where
    holds :
        (a : ℕ)
        → l'.heap a
          ≡ alt
              (seg none ys (front none zs) a)
              (if a == p then some (middle ys v zs) else seg (back none ys) zs none a)
    head_is : l'.head ≡ front none (ys ++ zs)
    tail_is : l'.tail ≡ back none (ys ++ zs)
    same_size : l'.size ≡ l.size
    same_free : l'.free_type ≡ l.free_type
    same_can : l'.can_free ≡ l.can_free

  linked_run :
      (l : LinkedList A) (o : Option ℕ) (q n : ℕ) (h h' : Heap A)
      → o ≡ some q
      → set_next l.heap q (some n) ≡ ok h
      → set_prev h n o ≡ ok h'
      → unlink_entry l o (some n) ≡ ok (record l { heap = h' })
  unfolding unlink_entry
  linked_run l o q n h h' e run run' =
      let run'' : set_prev h n (some q) ≡ ok h' = subst (λ r. set_prev h n r ≡ ok h') e run' in
      rw (e, run, run'')

  alt_test :
      (x : Option (Node A)) (c : Node A) (y : Option (Node A)) (b : Bool)
      → alt x (if b then some c else y) ≡ alt (alt x (if b then some c else none)) y
  alt_test none c y true = refl
  alt_test none c y false = refl
  alt_test (some d) c y b = refl

  unlink_entry-Unlinked :
      (l : LinkedList A) (ys : List (ℕ × A)) (p : ℕ) (v : A) (zs : List (ℕ × A))
      → IsList l (ys ++ (p, v) ∷ zs)
      → Returns (unlink_entry l (back none ys) (front none zs)) (Unlinked l ys p v zs)
  unfolding unlink_entry
  unlink_entry-Unlinked l [] p v [] h = (
    record l { head = none; tail = none },
    refl,
    record {
      holds = h.holds;
      head_is = refl;
      tail_is = refl;
      same_size = refl;
      same_free = refl;
      same_can = refl;
    },
  )
  unlink_entry-Unlinked l [] p v ((n, w) ∷ zs) h =
      let (h', run, holds) =
        set_prev-front l.heap (λ a. if a == p then some (middle [] v ((n, w) ∷ zs)) else none)
          (some p) none n w zs none (ground (arith, h.distinct)) (λ a. ground (arith, h.holds a)) in
      (
        record l { heap = h'; head = some n },
        rw run,
        record {
          holds = λ a. ground (arith, holds a);
          head_is = refl;
          tail_is = h.tail_is;
          same_size = refl;
          same_free = refl;
          same_can = refl;
        },
      )
  unlink_entry-Unlinked l ((q, u) ∷ ys) p v [] h =
      let (dy, _, _, py, _, _) = Distinct-parts ((q, u) ∷ ys) p v [] h.distinct in
      let (h', run, holds) =
        set_next-back l.heap (λ a. if a == p then some (middle ((q, u) ∷ ys) v []) else none) none q
          u ys (some p) none dy
          (λ a. h.holds a ∙ seg-append none ((q, u) ∷ ys) ((p, v) ∷ []) none a) in
      (
        record l { heap = h'; tail = some (back_at q ys) },
        rw (back-back_at q ys, run),
        record {
          holds = holds;
          head_is = h.head_is;
          tail_is = sym (back-append (some q) ys [] ∙ back-back_at q ys);
          same_size = refl;
          same_free = refl;
          same_can = refl;
        },
      )
  unlink_entry-Unlinked l ((q, u) ∷ ys) p v ((n, w) ∷ zs) h =
      let xs : List (ℕ × A) = (q, u) ∷ ys in
      let (dy, _, _, py, pz, apart) = Distinct-parts xs p v ((n, w) ∷ zs) h.distinct in
      let mid : Node A = middle xs v ((n, w) ∷ zs) in
      let beyond : seg none xs (some n) n ≡ none =
        seg-none none xs (some n) n (apart n (ground arith)) in
      let (h', run, holds) =
        set_next-back l.heap (λ a. if a == p then some mid else seg (some p) ((n, w) ∷ zs) none a)
          none q u ys (some p) (some n) dy
          (λ a. h.holds a ∙ seg-append none xs ((p, v) ∷ (n, w) ∷ zs) none a) in
      let (h'', run', holds') =
        set_prev-front h' (λ a. alt (seg none xs (some n) a) (if a == p then some mid else none))
          (some p) (back (some q) ys) n w zs none (rw beyond (ground (arith, pz)))
          (λ a.
            holds a
            ∙ alt_test (seg none xs (some n) a) mid (seg (some p) ((n, w) ∷ zs) none a) (a == p)) in
      (
        record l { heap = h'' },
        linked_run l (back (some q) ys) (back_at q ys) n h' h'' (back-back_at q ys) run run',
        record {
          holds = λ a.
              holds' a
              ∙ sym (
                  alt_test (seg none xs (some n) a) mid
                    (seg (back (some q) ys) ((n, w) ∷ zs) none a) (a == p));
          head_is = h.head_is;
          tail_is =
              h.tail_is
              ∙ back-append (some q) ys ((p, v) ∷ (n, w) ∷ zs)
              ∙ sym (back-append (some q) ys ((n, w) ∷ zs));
          same_size = refl;
          same_free = refl;
          same_can = refl;
        },
      )

  handed-none : (f : FreeType) → handed {A = A} f none ≡ []
  handed-none shallow = refl
  handed-none deep = refl

  module _ (l : LinkedList A) (m : A → Bool) where
    -- What a deletion that ended in `r` did to a list that stood for `xs`.
    pub record Removed (xs : List (ℕ × A)) (r : List A × LinkedList A) : Type 0 where
      pub given : r.0 ≡ handed l.free_type (find_first m (values xs))
      pub rest : List (ℕ × A)
      pub stands : IsList r.1 rest
      pub kept : values rest ≡ delete_first m (values xs)
      pub others : rest ≡ delete_first (λ x. m x.1) xs

  module _ (l : LinkedList A) (m : A → Bool) (can : frees l.free_type l.can_free ≡ true) where
    removed :
        (ys : List (ℕ × A)) (p : ℕ) (v : A) (zs : List (ℕ × A))
        → IsList l (ys ++ (p, v) ∷ zs)
        → Returns
            (do
              l' ← unlink_entry l (back none ys) (front none zs)
              list_entry_free (record l' { size = dec32 l'.size }) p)
            (λ r. (r.0 ≡ handed l.free_type (some v)) × IsList r.1 (ys ++ zs))
    removed ys p v zs h =
        let (_, _, dyz, py, pz, _) = Distinct-parts ys p v zs h.distinct in
        let (l', run, u) = unlink_entry-Unlinked l ys p v zs h in
        let less : LinkedList A = record l' { size = dec32 l'.size } in
        let (h', run', holds) =
          list_entry_free-ok less (seg none ys (front none zs)) (seg (back none ys) zs none) p
            (middle ys v zs) (seg-none none ys (front none zs) p py)
            (seg-none (back none ys) zs none p pz) u.holds (rw (u.same_free, u.same_can) can) in
        let counted = length-append ys ((p, v) ∷ zs) in
        let counted' = length-append ys zs in
        (
          (handed l'.free_type (some v), with_heap less h'),
          rw run run',
          (
            rw u.same_free refl,
            record {
              holds = λ a. holds a ∙ sym (seg-append none ys zs none a);
              distinct = dyz;
              head_is = u.head_is;
              tail_is = u.tail_is;
              counted =
                  ground
                    (arith, dec32_small l'.size, u.same_size, h.counted, h.fits, counted, counted');
              fits = omega (arith, h.fits, counted, counted');
            },
          ),
        )

    deleted :
        (xs : List (ℕ × A)) (o : Option ℕ)
        → IsList l xs
        → find_entry l m ≡ ok o
        → Found m xs o
        → Returns (list_del l m) (Removed l m xs)
    unfolding list_del
    deleted xs _ h run (absent f d g) = (
      ([], l),
      rw run,
      record {
        given = rw f (sym (handed-none l.free_type));
        rest = xs;
        stands = h;
        kept = sym d;
        others = sym g;
      },
    )
    deleted xs _ h run (present ys p v zs e f d g) =
        let here = IsList-split l xs (ys ++ (p, v) ∷ zs) e h in
        let (r, run', (given, stands)) = removed ys p v zs here in
        (
          r,
          rw (run, load-ok l.heap p (middle ys v zs) (entry_at l ys p v zs here), run'),
          record {
            given = given ∙ rw f;
            rest = ys ++ zs;
            stands = stands;
            kept = sym d;
            others = sym g;
          },
        )

    -- On a list that stands for `xs` and has the callback that a deep list needs, a deletion ends
    -- normally: the entry of the first value that matches was given back, that value alone was handed
    -- to the callback of a deep list, and the list stands for the other entries, each at its address.
    pub list_del-Removed :
        (xs : List (ℕ × A)) → IsList l xs → Returns (list_del l m) (Removed l m xs)
    list_del-Removed xs h = let (o, run, f) = find_entry-Found l xs m h in deleted xs o h run f
