-- ===== src/Tests/ArrLaws.antt =====
-- The theorems on the growable array at inputs that meet their hypotheses, and a run.
use atm_cache.Base.{
  ℕ, suc, zero, ◌≡◌, refl, true, some, List, [], ◌∷◌, ◌++◌, arith, replicate, Run, ok, ◌>>=◌,
  Returns, inc32, mul32,
}
use atm_cache.Str.Bytes.{copy_to}
use atm_cache.Arr.{
  Arr, arr_new, arr_add, arr_get, arr_set, arr_del, arr_reserve, realloc, copy_some,
}
use atm_cache.Arr.Valid.{IsArr}
use atm_cache.Arr.Add.{arr_add-IsArr}
use atm_cache.Arr.Delete.{arr_del-IsArr, IsShrunk}

abbrev a : List ℕ
a = 1 ∷ 2 ∷ []

abbrev b : List ℕ
b = 3 ∷ 4 ∷ []

abbrev c : List ℕ
c = 5 ∷ 6 ∷ []

-- Two elements of two bytes.
abbrev pair : Arr
pair = record { vals = a ++ b ++ replicate 60 0; capacity = 32; len = 2; tsize = 2 }

pair-IsArr : IsArr pair (a ∷ b ∷ [])
pair-IsArr = record {
  rest = replicate 60 0;
  shape = refl;
  sized = (refl, (refl, tt));
  counted = refl;
  fits = omega arith;
  room = refl;
  some_room = omega arith;
  some_size = omega arith;
  word = omega arith;
}

arr_add-IsArr_example :
    Returns (arr_add pair (some c)) (λ r. (r.0 ≡ 2) × IsArr r.1 (a ∷ b ∷ c ∷ []))
arr_add-IsArr_example =
    arr_add-IsArr pair (a ∷ b ∷ []) pair-IsArr (omega arith) (omega arith) c refl

arr_del-IsArr_example :
    Returns (arr_del pair 0) (λ r. (r.0 ≡ true) × IsArr r.1 (b ∷ []) × IsShrunk pair r.1.capacity)
arr_del-IsArr_example = arr_del-IsArr pair [] a (b ∷ []) pair-IsArr (omega arith)

program : Unit {0}
unfolding arr_new arr_add arr_get arr_set arr_del arr_reserve realloc copy_some copy_to inc32 mul32
program = tt

-- `n` elements of one byte.
fill : ℕ → Arr → Run Arr
unfolding program
fill zero e = ok e
fill (suc n) e = do (_, f) ← arr_add e (some (7 ∷ [])); fill n f

bytes : Arr
bytes = record { vals = replicate 32 0; capacity = 32; len = 0; tsize = 1 }

-- The array is made larger at the twenty-third element.
capacity_after : (fill 23 bytes >>= λ e. ok e.capacity) ≡ ok 64
unfolding program fill bytes
capacity_after = refl
