-- ===== src/Str/Growth.antt =====
-- `atm_str_cats` of src/core/atm_str.c with room and without: a growth already adds the new bytes to
-- the length, and the caller adds them again.
use atm_cache.Base.{
  ℕ, zero, suc, ◌+◌, ◌*◌, ◌≤◌, ◌<◌, ◌≡◌, refl, some, List, ◌++◌, arith, length, length-append,
  u32_mod, ok, stop, out_of_bounds,
}
use atm_cache.Str.Bytes.{StrHdr, add32, sub32, strcat, grow_some, str_grow, str_cats}
use atm_cache.Str.Cat.{
  NoNul, Holds, IsStr, catenated, grow_some-Grown, grow_some-fits, strcat-full, length-le-cap,
}

-- What `atm_str_cats` makes of a string that `atm_str_grow` returned.
cats_run :
    (s t : StrHdr) (src v : List ℕ)
    → str_grow (some s) (length src) ≡ ok (some t)
    → strcat t.val src ≡ ok v
    → str_cats (some s) src ≡ ok (some (record t { len = add32 t.len (length src); val = v }))
unfolding str_cats
cats_run s t src v grown run = rw (grown, run)

grow_run : (s t : StrHdr) (n : ℕ) → 0 < n → grow_some s n ≡ ok t → str_grow (some s) n ≡ ok (some t)
unfolding str_grow
grow_run s t zero p run = absurd (omega arith)
grow_run s t (suc n) p run = rw run

grow_room :
    (s : StrHdr) (n : ℕ)
    → s.len < u32_mod
    → s.cap < u32_mod
    → n ≤ sub32 s.cap s.len
    → str_grow (some s) n ≡ ok (some s)
unfolding str_grow
grow_room s zero len cap fits = refl
grow_room s (suc n) len cap fits =
    grow_run s s (suc n) (omega arith) (grow_some-fits s (suc n) len cap fits)

module _ (s : StrHdr) (xs src : List ℕ) (h : IsStr s xs) (clean : NoNul src) where
  -- A string `xs` with room for the bytes `src`: the result is the string of both, and its length
  -- says so.
  pub str_cats-fits :
      length xs + length src ≤ s.cap
      → (t : StrHdr) × (str_cats (some s) src ≡ ok (some t)) × IsStr t (xs ++ src)
  str_cats-fits fits =
      let (v, run, holds) = catenated s xs src h.0 clean fits in
      (
        record s { len = add32 s.len (length src); val = v },
        cats_run s s src v
            (grow_room s (length src) (omega (arith, h.1, h.0.word, fits)) (omega (arith, h.0.word))
              (omega (arith, h.1, h.0.word, fits)))
            run,
        (
          holds (add32 s.len (length src)),
          omega (arith, h.1, h.0.word, fits, length-append xs src),
        ),
      )

  -- A string `xs` without room for the bytes `src`: the bytes of the result are those of both, but
  -- its length counts `src` twice.
  pub str_cats-grows :
      s.cap < length xs + length src
      → length xs + 2 * length src + 17 < u32_mod
      → (t : StrHdr) × (str_cats (some s) src ≡ ok (some t))
        × Holds t (xs ++ src)
        × (t.len ≡ length xs + 2 * length src)
  str_cats-grows full small =
      let some_bytes : 0 < length src = omega (arith, full, length-le-cap s xs h.0) in
      let (t, grown, g) = grow_some-Grown s xs h (length src) (omega (arith, small)) full in
      let (v, run, holds) = catenated t xs src g.holds clean g.fits in
      (
        record t { len = add32 t.len (length src); val = v },
        cats_run s t src v (grow_run s t (length src) some_bytes grown) run,
        holds (add32 t.len (length src)),
        omega (arith, g.len_is, small),
      )

-- A string whose length says more than its capacity, as `atm_str_cats` can leave it: the next bytes
-- for which there is no room are written past the end.
pub str_cats-overflows :
    (s : StrHdr) (xs src : List ℕ)
    → Holds s xs
    → s.cap < s.len
    → s.len + length src < u32_mod
    → s.cap < length xs + length src
    → str_cats (some s) src ≡ stop out_of_bounds
unfolding str_cats
str_cats-overflows s xs src h long word full =
    let same : str_grow (some s) (length src) ≡ ok (some s) =
      grow_room s (length src) (omega (arith, word)) (omega (arith, h.word))
        (omega (arith, long, word, h.word)) in
    rw (same, strcat-full s xs src h full)
