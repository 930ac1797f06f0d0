-- ===== src/LinkedList/Push.antt =====
-- `atm_list_push` of src/core/atm_list.c puts a value at the end.
use atm_cache.Base.{
  ℕ, ◌+◌, ◌<◌, ◌≡◌, refl, ap, sym, ◌∙◌, true, false, Option, none, some, List, [], ◌∷◌, ◌++◌, arith,
  if◌then◌else◌, length, length-append, ◌==◌, inc32, inc32_small, u32_mod, Returns,
}
use atm_cache.LinkedList.Spec.{push_last}
use atm_cache.LinkedList.Nodes.{LinkedList, write, list_entry_new, list_push}
use atm_cache.LinkedList.Seg.{
  has, Distinct, back_at, seg, has-append, back-back_at, back-append, seg-append, seg-none, values,
}
use atm_cache.LinkedList.Steps.{alone, eq_of_test, set_prev-front, set_next-back, IsList}

module _ {A : Type 0} where
  has_of_none :
      (b : Option ℕ) (xs : List (ℕ × A)) (e : Option ℕ) (a : ℕ)
      → seg b xs e a ≡ none
      → has a xs ≡ false
  has_of_none b [] e a free = refl
  has_of_none b ((p, v) ∷ xs) e a free = ground (arith, has_of_none (some p) xs e a)

  pub Distinct-snoc :
      (xs : List (ℕ × A)) (p : ℕ) (v : A)
      → Distinct xs
      → has p xs ≡ false
      → Distinct (xs ++ (p, v) ∷ [])
  Distinct-snoc [] p v d out = (refl, tt)
  Distinct-snoc ((q, w) ∷ xs) p v d out =
      (ground (arith, has-append q xs ((p, v) ∷ []), d.0), Distinct-snoc xs p v d.1 (ground arith))

  pub values-push_last :
      (xs : List (ℕ × A)) (p : ℕ) (v : A) → values (xs ++ (p, v) ∷ []) ≡ push_last (values xs) v
  unfolding push_last
  values-push_last [] p v = refl
  values-push_last ((q, w) ∷ xs) p v = ap (λ vs. w ∷ vs) (values-push_last xs p v)

  -- A list of fewer than 2 ^ 32 - 1 values, with an address where no entry stands: a push ends
  -- normally, and the list then stands for the same entries with the new one at the end; its values
  -- are the old ones with the new one put last.
  pub list_push-IsList :
      (l : LinkedList A) (xs : List (ℕ × A)) (fresh : ℕ) (v : A)
      → IsList l xs
      → l.heap fresh ≡ none
      → length xs + 1 < u32_mod
      → Returns (list_push l fresh v) (λ l'.
        IsList l' (xs ++ (fresh, v) ∷ [])
        × (values (xs ++ (fresh, v) ∷ []) ≡ push_last (values xs) v))
  unfolding list_push list_entry_new write
  list_push-IsList l [] p v h free room = (
    record l {
      heap = list_entry_new l.heap p v;
      head = some p;
      tail = some p;
      size = inc32 l.size;
    },
    rw (h.tail_is, h.head_is),
    (
      record {
        holds = λ a. ground (arith, h.holds a);
        distinct = (refl, tt);
        head_is = refl;
        tail_is = refl;
        counted = ground (arith, inc32_small l.size, h.counted);
        fits = omega (arith, room);
      },
      values-push_last [] p v,
    ),
  )
  list_push-IsList l ((q, w) ∷ xs) p v h free room =
      let ys : List (ℕ × A) = (q, w) ∷ xs in
      let out : has p ys ≡ false = has_of_none none ys none p (sym (h.holds p) ∙ free) in
      let at_tail : l.tail ≡ some (back_at q xs) = h.tail_is ∙ back-back_at q xs in
      let counted = length-append xs ((p, v) ∷ []) in
      let unused : (a : ℕ) → (a == p) ≡ true → seg none ys none a ≡ none =
        λ a e. ap (seg none ys none) (eq_of_test a p e) ∙ seg-none none ys none p out in
      let (h', run, holds) =
        set_next-back (list_entry_new l.heap p v) (λ a. if a == p then some (alone v) else none)
          none q w xs none (some p) h.distinct (λ a. ground (arith, h.holds a, unused a)) in
      let (h'', run', holds') =
        set_prev-front h' (seg none ys (some p)) none (some (back_at q xs)) p v [] none
          (seg-none none ys (some p) p out) holds in
      (
        record l { heap = h''; tail = some p; size = inc32 l.size },
        rw (at_tail, run, run'),
        (
          record {
            holds = λ a. rw (seg-append none ys ((p, v) ∷ []) none a, back-back_at q xs) (holds' a);
            distinct = Distinct-snoc ys p v h.distinct out;
            head_is = h.head_is;
            tail_is = sym (back-append none ys ((p, v) ∷ []));
            counted = ground (arith, inc32_small l.size, h.counted, counted);
            fits = omega (arith, room, counted);
          },
          values-push_last ys p v,
        ),
      )
