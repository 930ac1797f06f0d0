-- ===== src/LinkedList/Find.antt =====
-- The searches of src/core/atm_list.c: a loop along the `next` pointers finds the first value that
-- matches, in at most as many rounds as the list has entries.
use atm_cache.Base.{
  ℕ, zero, suc, ◌≤◌, ◌≡◌, refl, ap, Bool, true, false, Bool-cases, Option, none, some, List, [],
  ◌∷◌, ◌++◌, arith, length, inl, inr, ok, Returns,
}
use mathlib.Core.Path.{subst}
use atm_cache.LinkedList.Spec.{find_first, delete_first}
use atm_cache.LinkedList.Nodes.{Heap, LinkedList, find_linear, find_entry, list_find}
use atm_cache.LinkedList.Seg.{
  has, Distinct, front, back, seg, seg-append, seg-none, ne_of_has, values,
}
use atm_cache.LinkedList.Steps.{IsList, load-ok, Distinct-parts}

module _ {A : Type 0} where
  -- Where a search ends: at no entry, or at the first that matches.
  pub data Found (m : A → Bool) (xs : List (ℕ × A)) : Option ℕ → Type 0 where
    absent :
        find_first m (values xs) ≡ none
        → delete_first m (values xs) ≡ values xs
        → delete_first (λ x. m x.1) xs ≡ xs
        → Found m xs none
    present :
        (ys : List (ℕ × A)) (p : ℕ) (v : A) (zs : List (ℕ × A))
        → xs ≡ ys ++ (p, v) ∷ zs
        → find_first m (values xs) ≡ some v
        → delete_first m (values xs) ≡ values (ys ++ zs)
        → delete_first (λ x. m x.1) xs ≡ ys ++ zs
        → Found m xs (some p)

  later :
      (m : A → Bool) (p : ℕ) (v : A) (xs : List (ℕ × A)) (o : Option ℕ)
      → m v ≡ false
      → Found m xs o
      → Found m ((p, v) ∷ xs) o
  unfolding find_first delete_first
  later m p v xs _ differs (absent f d g) =
      absent (rw (differs, f)) (rw (differs, d)) (rw (differs, g))
  later m p v xs _ differs (present ys q w zs e f d g) =
      present ((p, v) ∷ ys) q w zs (ap (λ l. (p, v) ∷ l) e) (rw (differs, f)) (rw (differs, d))
        (rw (differs, g))

  find_linear-Found :
      (n : ℕ) (h : Heap A) (b : Option ℕ) (xs : List (ℕ × A)) (m : A → Bool)
      → length xs ≤ n
      → Distinct xs
      → ((a : ℕ) → has a xs ≡ true → h a ≡ seg b xs none a)
      → Returns (find_linear n h (front none xs) m) (Found m xs)
  unfolding find_linear find_first delete_first
  find_linear-Found n h b [] m fuel d holds = (none, refl, absent refl refl refl)
  find_linear-Found zero h b ((p, v) ∷ xs) m fuel d holds = absurd (omega arith)
  find_linear-Found (suc n) h b ((p, v) ∷ xs) m fuel d holds =
      let found : h p ≡ some (record { val = v; prev = b; next = front none xs }) =
        rw (holds p (ground arith)) (ground arith) in
      elim (Bool-cases (m v)) [
        | inl match ↦ (
          some p,
          rw (load-ok h p _ found, match),
          present [] p v xs refl (rw match) (rw match) (rw match),
        )
        | inr differs ↦
            let (o, run, f) =
              find_linear-Found n h (some p) xs m (omega arith) d.1
                (λ a i. ground (arith, holds a, ne_of_has a p xs i d.0)) in
            (o, rw (load-ok h p _ found, differs, run), later m p v xs o differs f)
      ]

  pub find_entry-Found :
      (l : LinkedList A) (xs : List (ℕ × A)) (m : A → Bool)
      → IsList l xs
      → Returns (find_entry l m) (Found m xs)
  unfolding find_entry
  find_entry-Found l xs m h = rw h.head_is (
      find_linear-Found l.size l.heap none xs m (omega (arith, h.counted)) h.distinct
        (λ a i. h.holds a))

  -- What stands at an entry in the middle.
  pub entry_at :
      (l : LinkedList A) (ys : List (ℕ × A)) (p : ℕ) (v : A) (zs : List (ℕ × A))
      → IsList l (ys ++ (p, v) ∷ zs)
      → l.heap p ≡ some (record { val = v; prev = back none ys; next = front none zs })
  entry_at l ys p v zs h =
      let (_, _, _, out, _, _) = Distinct-parts ys p v zs h.distinct in
      rw (h.holds p, seg-append none ys ((p, v) ∷ zs) none p, seg-none none ys (some p) p out)
        (ground arith)

  pub IsList-split : (l : LinkedList A) (xs ys : List (ℕ × A)) → xs ≡ ys → IsList l xs → IsList l ys
  IsList-split l xs ys e h = subst (IsList l) e h

  value_of :
      (l : LinkedList A) (xs : List (ℕ × A)) (m : A → Bool) (o : Option ℕ)
      → IsList l xs
      → find_entry l m ≡ ok o
      → Found m xs o
      → list_find l m ≡ ok (find_first m (values xs))
  unfolding list_find
  value_of l xs m _ h run (absent f d g) = rw (run, f)
  value_of l xs m _ h run (present ys p v zs e f d g) = rw (
    run,
    load-ok l.heap p (record { val = v; prev = back none ys; next = front none zs })
        (entry_at l ys p v zs (IsList-split l xs (ys ++ (p, v) ∷ zs) e h)),
    f,
  )

  -- On a list that stands for `xs` the search ends normally, with the first value that matches.
  pub list_find-find_first :
      (l : LinkedList A) (xs : List (ℕ × A)) (m : A → Bool)
      → IsList l xs
      → list_find l m ≡ ok (find_first m (values xs))
  list_find-find_first l xs m h =
      let (o, run, f) = find_entry-Found l xs m h in value_of l xs m o h run f
