-- ===== src/Conn/Free.antt =====
-- The list of the connections to give back in src/core/atm_conn.c, and the task that goes through it
-- under the lock of the list. A connection is its address, with the flags of the tasks that use it.
use atm_cache.Base.{
  ℕ, zero, suc, ◌≡◌, ◌≢◌, refl, ap, sym, ◌∙◌, Bool, true, false, ◌||◌, Option, none, some, List, [],
  ◌∷◌, ◌++◌, arith, ◌==◌, length, Bool-cases, inl, inr, ok, stop, Run, null_dereference,
  out_of_fuel, if◌then◌else◌,
}
use atm_cache.LinkedList.Spec.{push_last}
use atm_cache.Arr.Memory.{append_nil}
use atm_cache.Arr.Valid.{append_assoc}

pub record ConnRef : Type 0 where
  pub addr : ℕ
  pub on_read : Bool
  pub on_write : Bool

-- A task still uses the connection.
abbrev pub in_use : ConnRef → Bool
in_use c = c.on_write || c.on_read

-- Whether `atm_list_lpeek` returns the connection `unproc`, or NULL for both.
unfoldable pub at_unproc : List ConnRef → Option ℕ → Bool
at_unproc [] none = true
at_unproc [] (some u) = false
at_unproc (c ∷ cs) none = false
at_unproc (c ∷ cs) (some u) = c.addr == u

-- `if (unproc == NULL) unproc = c;`
unfoldable pub first_unproc : Option ℕ → ℕ → Option ℕ
first_unproc none c = some c
first_unproc (some u) c = some u

-- The loop of `atm_conn_free_func`, with the addresses whose sessions `atm_sess_free` was given.
unfoldable pub free_loop : ℕ → List ConnRef → Option ℕ → List ℕ → Run (List ConnRef × List ℕ)
unfolding at_unproc first_unproc
free_loop zero ls unproc freed = stop out_of_fuel
free_loop (suc f) [] unproc freed =
    if at_unproc [] unproc then ok ([], freed) else stop null_dereference
free_loop (suc f) (c ∷ cs) unproc freed =
    let kept = free_loop f (push_last cs c) (first_unproc unproc c.addr) freed in
    let gone = free_loop f cs unproc (freed ++ c.addr ∷ []) in
    if at_unproc (c ∷ cs) unproc then ok (c ∷ cs, freed) else if in_use c then kept else gone

-- Each connection is popped once at most, and then the loop ends.
unfoldable pub free_func : List ConnRef → Run (List ConnRef × List ℕ)
free_func ls = free_loop (suc (length ls)) ls none []

-- The connections in use, and the addresses of the others, in order.
abbrev pub used : List ConnRef → List ConnRef
used [] = []
used (c ∷ cs) = if in_use c then c ∷ used cs else used cs

abbrev pub idle : List ConnRef → List ℕ
idle [] = []
idle (c ∷ cs) = if in_use c then idle cs else c.addr ∷ idle cs

-- No connection of the list has this address.
abbrev pub IsAbsent : ℕ → List ConnRef → Type 0
IsAbsent a [] = Unit {0}
IsAbsent a (c ∷ cs) = (c.addr ≢ a) × IsAbsent a cs

abbrev pub AreDistinct : List ConnRef → Type 0
AreDistinct [] = Unit {0}
AreDistinct (c ∷ cs) = IsAbsent c.addr cs × AreDistinct cs

push_past :
    (cs us : List ConnRef) (u c : ConnRef) → push_last (cs ++ u ∷ us) c ≡ cs ++ u ∷ (us ++ c ∷ [])
unfolding push_last
push_past [] us u c = refl
push_past (d ∷ cs) us u c = ap (λ l. d ∷ l) (push_past cs us u c)

all_refs : (us : List ConnRef) → us ++ [] ≡ us
all_refs [] = refl
all_refs (u ∷ us) = ap (λ l. u ∷ l) (all_refs us)

refs_assoc : (us vs ws : List ConnRef) → us ++ vs ++ ws ≡ us ++ (vs ++ ws)
refs_assoc [] vs ws = refl
refs_assoc (u ∷ us) vs ws = ap (λ l. u ∷ l) (refs_assoc us vs ws)

not_at :
    (c : ConnRef) (cs : List ConnRef) (u : ℕ) → c.addr ≢ u → at_unproc (c ∷ cs) (some u) ≡ false
unfolding at_unproc
not_at c cs u n = ground arith

is_at : (c : ConnRef) (cs : List ConnRef) → at_unproc (c ∷ cs) (some c.addr) ≡ true
unfolding at_unproc
is_at c cs = ground arith

-- From the first connection in use on, up to when it is met again.
second_part :
    (xs : List ConnRef) (u : ConnRef) (us : List ConnRef) (freed : List ℕ)
    → IsAbsent u.addr xs
    → free_loop (suc (length xs)) (xs ++ u ∷ us) (some u.addr) freed
      ≡ ok (u ∷ (us ++ used xs), freed ++ idle xs)
unfolding free_loop
second_part [] u us freed h = rw (is_at u us) (
    ap (λ l. ok (u ∷ l, freed)) (sym (all_refs us))
    ∙ ap (λ f. ok (u ∷ (us ++ []), f)) (sym (append_nil freed)))
second_part (c ∷ cs) u us freed h = elim (Bool-cases (in_use c)) [
  | inl e ↦
      rw (not_at c (cs ++ u ∷ us) u.addr h.0, e)
        (ap (λ l. free_loop (suc (length cs)) l (some u.addr) freed) (push_past cs us u c)
          ∙ second_part cs u (us ++ c ∷ []) freed h.1
          ∙ ap (λ l. ok (u ∷ l, freed ++ idle cs)) (refs_assoc us (c ∷ []) (used cs)))
  | inr e ↦
      rw (not_at c (cs ++ u ∷ us) u.addr h.0, e)
        (second_part cs u us (freed ++ c.addr ∷ []) h.1
          ∙ ap (λ f. ok (u ∷ (us ++ used cs), f)) (append_assoc freed (c.addr ∷ []) (idle cs)))
]

push_end : (cs : List ConnRef) (c : ConnRef) → push_last cs c ≡ cs ++ c ∷ []
unfolding push_last
push_end [] c = refl
push_end (d ∷ cs) c = ap (λ l. d ∷ l) (push_end cs c)

-- Up to the first connection in use.
first_part :
    (xs : List ConnRef) (freed : List ℕ)
    → AreDistinct xs
    → free_loop (suc (length xs)) xs none freed ≡ ok (used xs, freed ++ idle xs)
unfolding free_loop at_unproc first_unproc
first_part [] freed h = ap (λ f. ok ([], f)) (sym (append_nil freed))
first_part (c ∷ cs) freed h = elim (Bool-cases (in_use c)) [
  | inl e ↦ rw e (
      ap (λ l. free_loop (suc (length cs)) l (some c.addr) freed) (push_end cs c)
      ∙ second_part cs c [] freed h.0)
  | inr e ↦ rw e (
      first_part cs (freed ++ c.addr ∷ []) h.1
      ∙ ap (λ f. ok (used cs, f)) (append_assoc freed (c.addr ∷ []) (idle cs)))
]

-- For a list in which no connection stands twice the task ends, after at most one round for each of
-- them and one more: each connection that no task uses is given back, once and in order, and the
-- list keeps the others in order.
pub free_func-used : (ls : List ConnRef) → AreDistinct ls → free_func ls ≡ ok (used ls, idle ls)
unfolding free_func
free_func-used ls h = first_part ls [] h
