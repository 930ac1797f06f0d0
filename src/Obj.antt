-- ===== src/Obj.antt =====
-- The objects of src/core/atm_obj.c. The program gives an object the type `ATM_STR_T` or none: an
-- object with that type is given by the bytes of its string, which are none for the pointer NULL, and
-- one without a type by the address of its value.
use atm_cache.Base.{ℕ, ◌≡◌, refl, Bool, true, false, Option, none, some, List, ◌∷◌, ◌==◌, arith}
use atm_cache.Dict.Key.{KeyType}
use atm_cache.Str.{Cmp, cmp_eq, bytes_cmp, bytes_match, bytes_hash}
use atm_cache.Str.Order.{match_same, match_symm, match_trans, bytes_hash-match}

pub data Obj : Type 0 where
  str_obj : List ℕ → Obj
  raw_obj : ℕ → Obj

-- `v_type->match`, or the comparison of two pointers.
unfoldable pub same_value : Obj → Obj → Bool
same_value (str_obj a) (str_obj b) = bytes_match a b
same_value (raw_obj p) (raw_obj q) = p == q
same_value (str_obj a) (raw_obj q) = false
same_value (raw_obj p) (str_obj b) = false

unfoldable pub obj_match : Option Obj → Option Obj → Bool
obj_match none none = true
obj_match (some a) none = false
obj_match none (some b) = false
obj_match (some a) (some b) = same_value a b

unfoldable pub obj_hash : List ℕ → Option Obj → ℕ
obj_hash seed (some (str_obj s)) = bytes_hash seed s
obj_hash seed (some (raw_obj p)) = 0
obj_hash seed none = 0

-- The result 0 is `ATM_CMP_EQ`.
unfoldable pub obj_compare : Option Obj → Option Obj → Cmp
obj_compare (some (str_obj a)) (some (str_obj b)) = bytes_cmp a b
obj_compare _ _ = cmp_eq

-- The string that an object prints as, `none` for NULL.
unfoldable pub obj_str : Option Obj → Option (List ℕ)
obj_str (some (str_obj (c ∷ s))) = some (c ∷ s)
obj_str _ = none

pub obj_symm : (a b : Obj) → same_value a b ≡ same_value b a
unfolding same_value
obj_symm (str_obj a) (str_obj b) = match_symm a b
obj_symm (str_obj a) (raw_obj q) = refl
obj_symm (raw_obj p) (str_obj b) = refl
obj_symm (raw_obj p) (raw_obj q) = ground arith

pub obj_trans :
    (a b c : Obj) → same_value a b ≡ true → same_value b c ≡ true → same_value a c ≡ true
unfolding same_value
obj_trans (str_obj a) (str_obj b) (str_obj c) p q = match_trans a b c p q
obj_trans (str_obj a) (str_obj b) (raw_obj r) p q = q
obj_trans (str_obj a) (raw_obj s) c p q = absurd (cc p)
obj_trans (raw_obj p') (str_obj b) c p q = absurd (cc p)
obj_trans (raw_obj p') (raw_obj s) (str_obj c) p q = q
obj_trans (raw_obj p') (raw_obj s) (raw_obj r) p q = ground arith

pub obj_same : (a : Obj) → same_value a a ≡ true
unfolding same_value
obj_same (str_obj a) = match_same a
obj_same (raw_obj p) = ground arith

pub obj_hash-same :
    (seed : List ℕ) (a b : Obj)
    → same_value a b ≡ true
    → obj_hash seed (some a) ≡ obj_hash seed (some b)
unfolding same_value obj_hash
obj_hash-same seed (str_obj a) (str_obj b) e = bytes_hash-match seed a b e
obj_hash-same seed (str_obj a) (raw_obj q) e = absurd (cc e)
obj_hash-same seed (raw_obj p) (str_obj b) e = absurd (cc e)
obj_hash-same seed (raw_obj p) (raw_obj q) e = refl

-- The callbacks of `ATM_OBJ_T`.
abbrev pub obj_key : List ℕ → KeyType Obj
obj_key seed = record {
  match = same_value;
  hash = λ o. obj_hash seed (some o);
  match_refl = obj_same;
  match_symm = obj_symm;
  match_trans = obj_trans;
  hash-match = obj_hash-same seed;
}
