-- ===== src/LinkedList/Steps.antt =====
-- What the writes of a list operation do to a store that is put together from segments, and when a
-- list of src/core/atm_list.c stands for a sequence of values.
use atm_cache.Base.{
  ℕ, ◌≡◌, ◌<◌, refl, ap, ◌∙◌, true, false, Option, none, some, List, [], ◌∷◌, ◌++◌, arith,
  if◌then◌else◌, length, ◌==◌, u32_mod, ok, Returns,
}
use atm_cache.LinkedList.Nodes.{
  Node, Heap, LinkedList, write, load, set_prev, set_next, release, entry_isol,
}
use atm_cache.LinkedList.Seg.{
  has, Distinct, front, back, back_at, alt, seg, has-append, ne_of_has, seg-relinked, seg-none,
}

pub eq_of_test : (a p : ℕ) → (a == p) ≡ true → a ≡ p
eq_of_test a p e = ground arith

module _ {A : Type 0} where
  abbrev pub alone : A → Node A
  alone v = record { val = v; prev = none; next = none }

  pub load-ok : (h : Heap A) (p : ℕ) (c : Node A) → h p ≡ some c → load h p ≡ ok c
  unfolding load
  load-ok h p c e = rw (load, e)

  pub set_next-back :
      (h R : Heap A) (b : Option ℕ) (p : ℕ) (v : A) (xs : List (ℕ × A)) (e e' : Option ℕ)
      → Distinct ((p, v) ∷ xs)
      → ((a : ℕ) → h a ≡ alt (seg b ((p, v) ∷ xs) e a) (R a))
      → Returns
          (set_next h (back_at p xs) e')
          (λ h'. (a : ℕ) → h' a ≡ alt (seg b ((p, v) ∷ xs) e' a) (R a))
  unfolding set_next write
  set_next-back h R b p v xs e e' d holds =
      let (c, at, same) = seg-relinked b p v xs e e' d in
      let found : h (back_at p xs) ≡ some c = rw (holds (back_at p xs), at) in
      (
        write h (back_at p xs) (some (record c { next = e' })),
        rw (load-ok h (back_at p xs) c found),
        λ a. rw (same a) (ground (arith, holds a)),
      )

  pub set_prev-front :
      (h S : Heap A) (b b' : Option ℕ) (p : ℕ) (v : A) (xs : List (ℕ × A)) (e : Option ℕ)
      → S p ≡ none
      → ((a : ℕ) → h a ≡ alt (S a) (seg b ((p, v) ∷ xs) e a))
      → Returns (set_prev h p b') (λ h'. (a : ℕ) → h' a ≡ alt (S a) (seg b' ((p, v) ∷ xs) e a))
  unfolding set_prev write
  set_prev-front h S b b' p v xs e out holds =
      let c : Node A = record { val = v; prev = b; next = front e xs } in
      let found : h p ≡ some c = rw (holds p, out) (ground arith) in
      let at_front : (a : ℕ) → (a == p) ≡ true → S a ≡ none =
        λ a e. ap S (eq_of_test a p e) ∙ out in
      (
        write h p (some (record c { prev = b' })),
        rw (load-ok h p c found),
        λ a. ground (arith, holds a, at_front a),
      )

  pub entry_isol-alone :
      (h S R : Heap A) (p : ℕ) (c : Node A)
      → S p ≡ none
      → ((a : ℕ) → h a ≡ alt (S a) (if a == p then some c else R a))
      → Returns
          (entry_isol h p)
          (λ h'. (a : ℕ) → h' a ≡ (if a == p then some (alone c.val) else alt (S a) (R a)))
  unfolding entry_isol write
  entry_isol-alone h S R p c out holds =
      let found : h p ≡ some c = rw (holds p, out) (ground arith) in
      (write h p (some (alone c.val)), rw (load-ok h p c found), λ a. ground (arith, holds a))

  pub release-rest :
      (h R : Heap A) (p : ℕ) (c : Node A)
      → R p ≡ none
      → ((a : ℕ) → h a ≡ (if a == p then some c else R a))
      → Returns (release h p) (λ h'. (a : ℕ) → h' a ≡ R a)
  unfolding release write
  release-rest h R p c out holds =
      let found : h p ≡ some c = rw (holds p) (ground arith) in
      let at_p : (a : ℕ) → (a == p) ≡ true → R a ≡ none = λ a e. ap R (eq_of_test a p e) ∙ out in
      (write h p none, rw (load-ok h p c found), λ a. ground (arith, holds a, at_p a))

  -- The list stands for the entries `xs`, and the store holds nothing else.
  pub record IsList (l : LinkedList A) (xs : List (ℕ × A)) : Type 0 where
    pub holds : (a : ℕ) → l.heap a ≡ seg none xs none a
    pub distinct : Distinct xs
    pub head_is : l.head ≡ front none xs
    pub tail_is : l.tail ≡ back none xs
    pub counted : l.size ≡ length xs
    pub fits : length xs < u32_mod

  -- The list stands for `xs`, and beside it there is the entry `p` that was taken off.
  pub record Taken (l : LinkedList A) (p : ℕ) (v : A) (xs : List (ℕ × A)) : Type 0 where
    pub holds : (a : ℕ) → l.heap a ≡ (if a == p then some (alone v) else seg none xs none a)
    pub out : has p xs ≡ false
    pub distinct : Distinct xs
    pub head_is : l.head ≡ front none xs
    pub tail_is : l.tail ≡ back none xs
    pub counted : l.size ≡ length xs
    pub fits : length xs < u32_mod

  pub IsList-released :
      (l : LinkedList A) (p : ℕ) (v : A) (xs : List (ℕ × A))
      → Taken l p v xs
      → Returns (release l.heap p) (λ h. IsList (record l { heap = h }) xs)
  IsList-released l p v xs t =
      let (h, run, holds) =
        release-rest l.heap (seg none xs none) p (alone v) (seg-none none xs none p t.out)
          t.holds in
      (
        h,
        run,
        record {
          holds = holds;
          distinct = t.distinct;
          head_is = t.head_is;
          tail_is = t.tail_is;
          counted = t.counted;
          fits = t.fits;
        },
      )

  pub Distinct-parts :
      (ys : List (ℕ × A)) (p : ℕ) (v : A) (zs : List (ℕ × A))
      → Distinct (ys ++ (p, v) ∷ zs)
      → Distinct ys
        × Distinct zs
        × Distinct (ys ++ zs)
        × (has p ys ≡ false)
        × (has p zs ≡ false)
        × ((a : ℕ) → has a zs ≡ true → has a ys ≡ false)
  Distinct-parts [] p v zs d = (tt, d.1, d.1, refl, d.0, λ a i. refl)
  Distinct-parts ((q, w) ∷ ys) p v zs d =
      let (dy, dz, dyz, py, pz, apart) = Distinct-parts ys p v zs d.1 in
      let parts = has-append q ys ((p, v) ∷ zs) in
      (
        (ground (arith, d.0, parts), dy),
        dz,
        (ground (arith, d.0, parts, has-append q ys zs), dyz),
        ground (arith, d.0, parts),
        pz,
        λ a i. ground (arith, apart a i, ne_of_has a q zs i (ground (arith, d.0, parts))),
      )
