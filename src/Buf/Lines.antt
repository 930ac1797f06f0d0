-- ===== src/Buf/Lines.antt =====
-- The lines of a sequence of bytes, as src/core/atm_buf.c tells them apart.
use atm_cache.Base.{
  true, ℕ, List, [], ◌∷◌, ◌++◌, ◌≡◌, refl, ap, ◌∙◌, sym, Bool-cases, inl, inr, if◌then◌else◌,
}
use atm_cache.Buf.Line.{is_newline}

-- The bytes before the first newline character, and from there on.
abbrev pub before_end : List ℕ → List ℕ
before_end [] = []
before_end (c ∷ cs) = if is_newline c then [] else c ∷ before_end cs

abbrev pub from_end : List ℕ → List ℕ
from_end [] = []
from_end (c ∷ cs) = if is_newline c then c ∷ cs else from_end cs

-- The newline characters at the start, and what follows them.
abbrev pub ends : List ℕ → List ℕ
ends [] = []
ends (c ∷ cs) = if is_newline c then c ∷ ends cs else []

abbrev pub after_ends : List ℕ → List ℕ
after_ends [] = []
after_ends (c ∷ cs) = if is_newline c then after_ends cs else c ∷ cs

pub before_end-from_end : (cs : List ℕ) → before_end cs ++ from_end cs ≡ cs
before_end-from_end [] = refl
before_end-from_end (c ∷ cs) = elim (Bool-cases (is_newline c)) [
  | inl e ↦ rw e refl
  | inr e ↦ rw e (ap (λ l. c ∷ l) (before_end-from_end cs))
]

pub ends-after_ends : (cs : List ℕ) → ends cs ++ after_ends cs ≡ cs
ends-after_ends [] = refl
ends-after_ends (c ∷ cs) = elim (Bool-cases (is_newline c)) [
  | inl e ↦ rw e (ap (λ l. c ∷ l) (ends-after_ends cs))
  | inr e ↦ rw e refl
]

pub from_end-first :
    (xs : List ℕ) (c : ℕ) (cs : List ℕ) → from_end xs ≡ c ∷ cs → is_newline c ≡ true
from_end-first [] c cs e = absurd (cc e)
from_end-first (x ∷ xs) c cs e = elim (Bool-cases (is_newline x)) [
  | inl t ↦
      let same : x ∷ xs ≡ c ∷ cs = cc (t, e) in
      let head : x ≡ c = cc same in ap (λ y. is_newline y) (sym head) ∙ t
  | inr f ↦ from_end-first xs c cs (cc (f, e))
]
