-- ===== src/LinkedList/Spec.antt =====
-- What the operations of src/core/atm_list.c do to the sequence of values that a list holds. The
-- argument `p` of a search stands for `v_type->match(_, hint)`.
use atm_cache.Base.{Bool, Option, none, some, List, [], ◌∷◌, ◌++◌, if◌then◌else◌}

module _ {ℓ} {A : Type ℓ} where
  -- `atm_list_find`: the first value that matches.
  unfoldable pub find_first : (A → Bool) → List A → Option A
  find_first p [] = none
  find_first p (x ∷ xs) = if p x then some x else find_first p xs

  -- `atm_list_del`: the list less the first value that matches.
  unfoldable pub delete_first : (A → Bool) → List A → List A
  delete_first p [] = []
  delete_first p (x ∷ xs) = if p x then xs else x ∷ delete_first p xs

  -- A write through the pointer that `atm_list_find` returned.
  unfoldable pub modify_first : (A → Bool) → (A → A) → List A → List A
  modify_first p f [] = []
  modify_first p f (x ∷ xs) = if p x then f x ∷ xs else x ∷ modify_first p f xs

  -- `atm_list_push`: the value goes to the end.
  unfoldable pub push_last : List A → A → List A
  push_last xs x = xs ++ x ∷ []

  -- What `atm_list_lpop` returns and leaves.
  abbrev pub first : List A → Option A
  first [] = none
  first (v ∷ vs) = some v

  abbrev pub others : List A → List A
  others [] = []
  others (v ∷ vs) = vs
