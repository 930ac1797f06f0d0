-- ===== src/Dict/Table/Chain.antt =====
-- The entries of one bucket: what the list operations do to the values found under a key.
use atm_cache.Base.{
  ℕ, ◌+◌, ◌≤◌, ◌<◌, ◌≡◌, refl, Bool, true, false, Option, none, some, List, [], ◌∷◌, ◌++◌, arith,
  if◌then◌else◌, length,
}
use atm_cache.LinkedList.Spec.{find_first, delete_first, modify_first}
use atm_cache.Dict.Key.{KeyType, ◌~◌, ~_congr_left, ~_congr_right}
use atm_cache.Dict.Table.{Entry}

abbrev pub bit : Bool → ℕ
bit true = 1
bit false = 0

-- The first of two answers that is there.
abbrev pub or_else {ℓ} : {A : Type ℓ} → Option A → Option A → Option A
or_else (some a) b = some a
or_else none b = b

module _ {K V : Type 0} ⦃key : KeyType K⦄ where
  abbrev pub has_key : K → Entry K V → Bool
  has_key k e = e.key ~ k

  -- The value pointer under a key: `none` is no entry, `some none` an entry whose value is NULL.
  unfoldable pub assoc : K → List (Entry K V) → Option (Option V)
  assoc q [] = none
  assoc q (e ∷ es) = if e.key ~ q then some e.val else assoc q es

  unfoldable pub count : K → List (Entry K V) → ℕ
  count q [] = 0
  count q (e ∷ es) = bit (e.key ~ q) + count q es

  pub find-assoc :
      (k : K) (es : List (Entry K V))
      → assoc k es ≡ elim (find_first (has_key k) es) [ none ↦ none | some e ↦ some e.val ]
  unfolding assoc find_first
  find-assoc k [] = refl
  find-assoc k (e ∷ es) = ground (arith, find-assoc k es)

  -- What a search returns matches.
  pub find-has_key :
      (k : K) (es : List (Entry K V)) (e : Entry K V)
      → find_first (has_key k) es ≡ some e
      → (e.key ~ k) ≡ true
  unfolding find_first
  find-has_key k [] e h = ground arith
  find-has_key k (x ∷ es) e h = ground (arith, find-has_key k es e)

  pub assoc-eq-none : (q : K) (es : List (Entry K V)) → count q es ≡ 0 → assoc q es ≡ none
  unfolding assoc count
  assoc-eq-none q [] h = refl
  assoc-eq-none q (e ∷ es) h = ground (arith, assoc-eq-none q es)

  pub count-eq-zero :
      (q k : K) (es : List (Entry K V)) → assoc k es ≡ none → (k ~ q) ≡ true → count q es ≡ 0
  unfolding assoc count
  count-eq-zero q k [] h same = refl
  count-eq-zero q k (e ∷ es) h same = ground (arith, count-eq-zero q k es, ~_congr_right e.key k q)

  pub assoc-append :
      (q : K) (xs ys : List (Entry K V)) → assoc q (xs ++ ys) ≡ or_else (assoc q xs) (assoc q ys)
  unfolding assoc
  assoc-append q [] ys = refl
  assoc-append q (e ∷ xs) ys = ground (arith, assoc-append q xs ys)

  pub count-append :
      (q : K) (xs ys : List (Entry K V)) → count q (xs ++ ys) ≡ count q xs + count q ys
  unfolding count
  count-append q [] ys = omega arith
  count-append q (e ∷ xs) ys = omega (arith, count-append q xs ys)

  module _ (k q : K) where
    pub assoc-modify :
        (v : Option V) (es : List (Entry K V)) (e : Entry K V)
        → find_first (has_key k) es ≡ some e
        → assoc q (modify_first (has_key k) (λ x. record x { val = v }) es)
          ≡ (if k ~ q then some v else assoc q es)
    unfolding assoc find_first modify_first
    assoc-modify v [] e h = ground arith
    assoc-modify v (x ∷ es) e h =
        ground (arith, assoc-modify v es e, ~_congr_left x.key k q, ~_congr_right x.key k q)

    pub count-modify :
        (v : Option V) (es : List (Entry K V))
        → count q (modify_first (has_key k) (λ x. record x { val = v }) es) ≡ count q es
    unfolding count modify_first
    count-modify v [] = refl
    count-modify v (x ∷ es) = ground (arith, count-modify v es)

    pub count-delete-le :
        (es : List (Entry K V)) → count q (delete_first (has_key k) es) ≤ count q es
    unfolding count delete_first
    count-delete-le [] = omega arith
    count-delete-le (x ∷ es) = ground (arith, count-delete-le es)

    pub assoc-delete :
        (es : List (Entry K V))
        → count q es ≤ 1
        → assoc q (delete_first (has_key k) es) ≡ (if k ~ q then none else assoc q es)
    unfolding assoc count delete_first
    assoc-delete [] h = ground arith
    assoc-delete (x ∷ es) h = ground (
      arith,
      assoc-delete es,
      assoc-eq-none q es,
      ~_congr_left x.key k q,
      ~_congr_right x.key k q,
    )

  pub assoc_congr : (a b : K) (es : List (Entry K V)) → (a ~ b) ≡ true → assoc a es ≡ assoc b es
  unfolding assoc
  assoc_congr a b [] h = refl
  assoc_congr a b (x ∷ es) h = ground (arith, assoc_congr a b es, ~_congr_right x.key a b)

  -- A search for a matching key finds the same entry.
  pub delete_congr :
      (a b : K) (es : List (Entry K V))
      → (a ~ b) ≡ true
      → delete_first (has_key a) es ≡ delete_first (has_key b) es
  unfolding delete_first
  delete_congr a b [] h = refl
  delete_congr a b (x ∷ es) h = ground (arith, delete_congr a b es, ~_congr_right x.key a b)

  pub length-pos :
      (k : K) (es : List (Entry K V)) (e : Entry K V)
      → find_first (has_key k) es ≡ some e
      → 0 < length es
  unfolding find_first
  length-pos k [] e h = ground arith
  length-pos k (x ∷ es) e h = omega arith

  pub length-modify :
      (k : K) (v : Option V) (es : List (Entry K V))
      → length (modify_first (has_key k) (λ x. record x { val = v }) es) ≡ length es
  unfolding modify_first
  length-modify k v [] = refl
  length-modify k v (x ∷ es) = ground (arith, length-modify k v es)

  pub length-delete :
      (k : K) (es : List (Entry K V)) (e : Entry K V)
      → find_first (has_key k) es ≡ some e
      → length (delete_first (has_key k) es) + 1 ≡ length es
  unfolding delete_first find_first
  length-delete k [] e h = ground arith
  length-delete k (x ∷ es) e h = ground (arith, length-delete k es e)
