-- ===== src/LinkedList/Pop.antt =====
-- `atm_list_lpop` and `atm_list_rpop` of src/core/atm_list.c take the first and the last value.
use atm_cache.Base.{
  ℕ, ◌≡◌, ◌≢◌, refl, Option, none, some, List, [], ◌∷◌, ◌++◌, arith, ◌∙◌, sym, length-append,
  if◌then◌else◌, ◌==◌, dec32, dec32_small, Run, ok, ◌>>=◌, Returns,
}
use mathlib.Core.Path.{subst}
use atm_cache.LinkedList.Nodes.{
  Node, LinkedList, points_at, lpop_entry, rpop_entry, take_value, list_lpop, list_rpop,
}
use atm_cache.LinkedList.Seg.{
  back, back_at, alt, seg, has-back_at, ne_of_has, back-back_at, back-append, seg-append, seg-none,
}
use atm_cache.LinkedList.Steps.{
  alone, load-ok, set_prev-front, set_next-back, entry_isol-alone, IsList, Taken, IsList-released,
  Distinct-parts,
}

module _ {A : Type 0} where
  pub lpop_entry-Taken :
      (l : LinkedList A) (p : ℕ) (v : A) (xs : List (ℕ × A))
      → IsList l ((p, v) ∷ xs)
      → Returns (lpop_entry l) (λ r.
        (r.0 ≡ some p)
        × Taken r.1 p v xs
        × (r.1.free_type ≡ l.free_type)
        × (r.1.can_free ≡ l.can_free))
  unfolding lpop_entry
  lpop_entry-Taken l p v [] h =
      let c : Node A = record { val = v; prev = none; next = none } in
      let found : l.heap p ≡ some c = rw (h.holds p) (ground arith) in
      let (h', run, holds) = entry_isol-alone l.heap (λ _. none) (λ _. none) p c refl h.holds in
      (
        (
          some p,
          record l {
            heap = h';
            head = none;
            tail = if points_at l.tail p then none else l.tail;
            size = dec32 l.size;
          },
        ),
        rw (h.head_is, load-ok l.heap p c found, run),
        (
          refl,
          record {
            holds = holds;
            out = h.distinct.0;
            distinct = h.distinct.1;
            head_is = refl;
            tail_is = rw h.tail_is (ground arith);
            counted = ground (arith, dec32_small l.size, h.counted, h.fits);
            fits = omega (arith, h.fits);
          },
          refl,
          refl,
        ),
      )
  lpop_entry-Taken l p v ((q, w) ∷ xs) h =
      let c : Node A = record { val = v; prev = none; next = some q } in
      let found : l.heap p ≡ some c = rw (h.holds p) (ground arith) in
      let apart : q ≢ p = ground (arith, h.distinct) in
      let (h', run, holds) =
        set_prev-front l.heap (λ a. if a == p then some c else none) (some p) none q w xs none
          (ground (arith, apart)) (λ a. ground (arith, h.holds a)) in
      let (h'', run', holds') =
        entry_isol-alone h' (λ _. none) (seg none ((q, w) ∷ xs) none) p c refl
          (λ a. ground (arith, holds a)) in
      (
        (
          some p,
          record l {
            heap = h'';
            head = some q;
            tail = if points_at l.tail p then none else l.tail;
            size = dec32 l.size;
          },
        ),
        rw (h.head_is, load-ok l.heap p c found, run, run'),
        (
          refl,
          record {
            holds = holds';
            out = h.distinct.0;
            distinct = h.distinct.1;
            head_is = refl;
            tail_is =
                rw (h.tail_is, back-back_at q xs)
                  (ground (
                    arith,
                    ne_of_has (back_at q xs) p ((q, w) ∷ xs) (has-back_at q w xs) h.distinct.0,
                  ));
            counted = ground (arith, dec32_small l.size, h.counted, h.fits);
            fits = omega (arith, h.fits);
          },
          refl,
          refl,
        ),
      )

  take_value-IsList :
      (l : LinkedList A) (p : ℕ) (v : A) (xs : List (ℕ × A))
      → Taken l p v xs
      → Returns (take_value (some p, l)) (λ r. (r.0 ≡ some v) × IsList r.1 xs)
  unfolding take_value
  take_value-IsList l p v xs t =
      let found : l.heap p ≡ some (alone v) = rw (t.holds p) (ground arith) in
      let (h, run, is) = IsList-released l p v xs t in
      ((some v, record l { heap = h }), rw (load-ok l.heap p (alone v) found, run), (refl, is))

  snoc_holds :
      (l : LinkedList A) (ys : List (ℕ × A)) (p : ℕ) (v : A)
      → IsList l (ys ++ (p, v) ∷ [])
      → (a : ℕ)
      → l.heap a
        ≡ alt
            (seg none ys (some p) a)
            (if a == p then some (record { val = v; prev = back none ys; next = none }) else none)
  snoc_holds l ys p v h a = h.holds a ∙ seg-append none ys ((p, v) ∷ []) none a

  rpop_entry-Taken :
      (l : LinkedList A) (ys : List (ℕ × A)) (p : ℕ) (v : A)
      → IsList l (ys ++ (p, v) ∷ [])
      → Returns (rpop_entry l) (λ r. (r.0 ≡ some p) × Taken r.1 p v ys)
  unfolding rpop_entry
  rpop_entry-Taken l [] p v h =
      let c : Node A = record { val = v; prev = none; next = none } in
      let found : l.heap p ≡ some c = rw (h.holds p) (ground arith) in
      let (h', run, holds) = entry_isol-alone l.heap (λ _. none) (λ _. none) p c refl h.holds in
      (
        (
          some p,
          record l {
            heap = h';
            tail = none;
            head = if points_at l.head p then none else l.head;
            size = dec32 l.size;
          },
        ),
        rw (h.tail_is, load-ok l.heap p c found, run),
        (
          refl,
          record {
            holds = holds;
            out = refl;
            distinct = tt;
            head_is = rw h.head_is (ground arith);
            tail_is = refl;
            counted = ground (arith, dec32_small l.size, h.counted, h.fits);
            fits = omega (arith, h.fits);
          },
        ),
      )
  rpop_entry-Taken l ((q, w) ∷ ys) p v h =
      let (dy, _, _, py, _, _) = Distinct-parts ((q, w) ∷ ys) p v [] h.distinct in
      let c : Node A = record { val = v; prev = some (back_at q ys); next = none } in
      let at_back : back (some q) ys ≡ some (back_at q ys) = back-back_at q ys in
      let holds : (a : ℕ)
          → l.heap a ≡ alt (seg none ((q, w) ∷ ys) (some p) a) (if a == p then some c else none) =
        λ a. snoc_holds l ((q, w) ∷ ys) p v h a ∙ rw at_back in
      let at_tail : l.tail ≡ some p = h.tail_is ∙ back-append (some q) ys ((p, v) ∷ []) in
      let counted = length-append ys ((p, v) ∷ []) in
      let before : seg none ((q, w) ∷ ys) (some p) p ≡ none =
        seg-none none ((q, w) ∷ ys) (some p) p py in
      let before' : seg none ((q, w) ∷ ys) none p ≡ none = seg-none none ((q, w) ∷ ys) none p py in
      let found : l.heap p ≡ some c = rw (holds p, before) (ground arith) in
      let (h', run, holds') =
        set_next-back l.heap (λ a. if a == p then some c else none) none q w ys (some p) none dy
          holds in
      let (h'', run', holds'') =
        entry_isol-alone h' (seg none ((q, w) ∷ ys) none) (λ _. none) p c before' holds' in
      (
        (
          some p,
          record l {
            heap = h'';
            tail = some (back_at q ys);
            head = if points_at l.head p then none else l.head;
            size = dec32 l.size;
          },
        ),
        rw (at_tail, load-ok l.heap p c found, run, run'),
        (
          refl,
          record {
            holds = λ a. ground (arith, holds'' a);
            out = py;
            distinct = dy;
            head_is = rw h.head_is (ground (arith, py));
            tail_is = sym at_back;
            counted = ground (arith, dec32_small l.size, h.counted, h.fits, counted);
            fits = omega (arith, h.fits, counted);
          },
        ),
      )

  taken :
      (m : Run (Option ℕ × LinkedList A)) (r : Option ℕ × LinkedList A) (p : ℕ)
      {r' : Option A × LinkedList A}
      → m ≡ ok r
      → r.0 ≡ some p
      → take_value (some p, r.1) ≡ ok r'
      → m >>= take_value ≡ ok r'
  taken m r p {r' = r'} run at done =
      rw run (subst (λ o. take_value (o, r.1) ≡ ok r') (sym at) done)

  -- On a list with a first value `atm_list_lpop` ends normally with that value, and the list then
  -- stands for the others: the entry was given back, and nothing else.
  pub list_lpop-IsList :
      (l : LinkedList A) (p : ℕ) (v : A) (xs : List (ℕ × A))
      → IsList l ((p, v) ∷ xs)
      → Returns (list_lpop l) (λ r. (r.0 ≡ some v) × IsList r.1 xs)
  unfolding list_lpop
  list_lpop-IsList l p v xs h =
      let (r, run, (at, t, _, _)) = lpop_entry-Taken l p v xs h in
      let (r', run', is) = take_value-IsList r.1 p v xs t in
      (r', taken (lpop_entry l) r p run at run', is)

  -- On a list with a last value `atm_list_rpop` ends normally with that value, and the list then
  -- stands for the others: the entry was given back, and nothing else.
  pub list_rpop-IsList :
      (l : LinkedList A) (ys : List (ℕ × A)) (p : ℕ) (v : A)
      → IsList l (ys ++ (p, v) ∷ [])
      → Returns (list_rpop l) (λ r. (r.0 ≡ some v) × IsList r.1 ys)
  unfolding list_rpop
  list_rpop-IsList l ys p v h =
      let (r, run, (at, t)) = rpop_entry-Taken l ys p v h in
      let (r', run', is) = take_value-IsList r.1 p v ys t in
      (r', taken (rpop_entry l) r p run at run', is)
