-- ===== src/LinkedList/Seg.antt =====
-- Segments of entries in a store: what the store holds where a sequence of addresses and values is
-- linked both ways, and what a write at one of its ends does.
use atm_cache.Base.{
  ℕ, ◌≡◌, ◌≢◌, refl, ap, Bool, true, false, ◌||◌, Option, none, some, List, [], ◌∷◌, ◌++◌, arith,
  if◌then◌else◌, ◌==◌,
}
use atm_cache.LinkedList.Nodes.{Node, Heap}

module _ {A : Type 0} where
  -- The address and the value of each entry, in order.
  abbrev pub values : List (ℕ × A) → List A
  values [] = []
  values ((p, v) ∷ xs) = v ∷ values xs

  abbrev pub has : ℕ → List (ℕ × A) → Bool
  has a [] = false
  has a ((p, v) ∷ xs) = (a == p) || has a xs

  abbrev pub Distinct : List (ℕ × A) → Type 0
  Distinct [] = Unit {0}
  Distinct ((p, v) ∷ xs) = (has p xs ≡ false) × Distinct xs

  -- Where a pointer to the front and one to the back lead, with what they are on no entries.
  abbrev pub front : Option ℕ → List (ℕ × A) → Option ℕ
  front e [] = e
  front e ((p, v) ∷ xs) = some p

  abbrev pub back : Option ℕ → List (ℕ × A) → Option ℕ
  back b [] = b
  back b ((p, v) ∷ xs) = back (some p) xs

  abbrev pub back_at : ℕ → List (ℕ × A) → ℕ
  back_at p [] = p
  back_at p ((q, v) ∷ xs) = back_at q xs

  abbrev pub alt : Option (Node A) → Option (Node A) → Option (Node A)
  alt none y = y
  alt (some x) y = some x

  -- The store that holds the entries: the first `prev` is `b` and the last `next` is `e`.
  abbrev pub seg : Option ℕ → List (ℕ × A) → Option ℕ → Heap A
  seg b [] e a = none
  seg b ((p, v) ∷ xs) e a =
      if a == p then some (record { val = v; prev = b; next = front e xs }) else seg (some p) xs e a

  pub seg-none :
      (b : Option ℕ) (xs : List (ℕ × A)) (e : Option ℕ) (a : ℕ)
      → has a xs ≡ false
      → seg b xs e a ≡ none
  seg-none b [] e a out = refl
  seg-none b ((p, v) ∷ xs) e a out = ground (arith, seg-none (some p) xs e a)

  pub back-back_at : (p : ℕ) (xs : List (ℕ × A)) → back (some p) xs ≡ some (back_at p xs)
  back-back_at p [] = refl
  back-back_at p ((q, v) ∷ xs) = back-back_at q xs

  pub front-append :
      (e : Option ℕ) (ys zs : List (ℕ × A)) → front e (ys ++ zs) ≡ front (front e zs) ys
  front-append e [] zs = refl
  front-append e ((p, v) ∷ ys) zs = refl

  pub back-append : (b : Option ℕ) (ys zs : List (ℕ × A)) → back b (ys ++ zs) ≡ back (back b ys) zs
  back-append b [] zs = refl
  back-append b ((p, v) ∷ ys) zs = back-append (some p) ys zs

  pub has-append : (a : ℕ) (ys zs : List (ℕ × A)) → has a (ys ++ zs) ≡ (has a ys || has a zs)
  has-append a [] zs = refl
  has-append a ((p, v) ∷ ys) zs = ground (arith, has-append a ys zs)

  pub seg-append :
      (b : Option ℕ) (ys zs : List (ℕ × A)) (e : Option ℕ) (a : ℕ)
      → seg b (ys ++ zs) e a ≡ alt (seg b ys (front e zs) a) (seg (back b ys) zs e a)
  seg-append b [] zs e a = refl
  seg-append b ((p, v) ∷ ys) zs e a =
      rw (front-append e ys zs) (ground (arith, seg-append (some p) ys zs e a))

  pub has-back_at : (p : ℕ) (v : A) (xs : List (ℕ × A)) → has (back_at p xs) ((p, v) ∷ xs) ≡ true
  has-back_at p v [] = ground arith
  has-back_at p v ((q, w) ∷ xs) = ground (arith, has-back_at q w xs)

  pub ne_of_has : (a p : ℕ) (xs : List (ℕ × A)) → has a xs ≡ true → has p xs ≡ false → a ≢ p
  ne_of_has a p xs i o e = cc (ap (λ x. has x xs) e, i, o)

  -- A write to the last `next` of a segment.
  pub seg-relinked :
      (b : Option ℕ) (p : ℕ) (v : A) (xs : List (ℕ × A)) (e e' : Option ℕ)
      → Distinct ((p, v) ∷ xs)
      → (c : Node A) × (seg b ((p, v) ∷ xs) e (back_at p xs) ≡ some c)
        × ((a : ℕ)
            → seg b ((p, v) ∷ xs) e' a ≡ (
                if a == back_at p xs
                then some (record c { next = e' })
                else seg b ((p, v) ∷ xs) e a))
  seg-relinked b p v [] e e' d =
      (record { val = v; prev = b; next = e }, ground arith, λ a. ground arith)
  seg-relinked b p v ((q, w) ∷ xs) e e' d =
      let (c, at, same) = seg-relinked (some p) q w xs e e' d.1 in
      let apart : back_at q xs ≢ p =
        ne_of_has (back_at q xs) p ((q, w) ∷ xs) (has-back_at q w xs) d.0 in
      (c, ground arith, λ a. ground (arith, same a))
