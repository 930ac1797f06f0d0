-- ===== src/Sess/Io.antt =====
-- What a session of src/core/atm_sess.c reads from its connection and writes to it.
use mathlib.Core.Path.{subst}
use atm_cache.Base.{
  ◌^◌, Bool-cases, inl, inr, ℕ, ◌+◌, ◌≤◌, ◌<◌, ◌≡◌, ◌≢◌, refl, ap, ◌∙◌, true, false, Option, some,
  List, [], ◌∷◌, ◌++◌, arith, length, length-append, replicate, u32_mod, Run, ok, ◌>>=◌,
}
use atm_cache.Arr.Valid.{append_assoc}
use atm_cache.Blk.{Blk}
use atm_cache.Buf.{Buf}
use atm_cache.Buf.Valid.{contents, IsBuf, IsPool}
use atm_cache.Buf.Write.{buf_write-Wrote}
use atm_cache.Buf.Line.{is_newline}
use atm_cache.Buf.Lines.{before_end, from_end, ends, after_ends}
use atm_cache.Buf.NextLine.{IsNext, read_line-IsNext}
use atm_cache.Str.Bytes.{StrHdr, c_string, str_new, str_cats}
use atm_cache.Str.Cat.{NoNul, IsStr, take-front}
use atm_cache.Str.New.{str_new-IsRoomy, str_new-IsStr}
use atm_cache.Str.Growth.{str_cats-fits}
use atm_cache.Sess.{
  SessCtx, reading, writing, str_bytes, conn_read_line, take_line, conn_write_str, write_some_str,
  sess_reply, newline,
}

-- No byte ends a line.
abbrev pub IsLine : List ℕ → Type 0
IsLine [] = Unit {0}
IsLine (c ∷ cs) = (is_newline c ≡ false) × IsLine cs

newline_zero : (c : ℕ) → is_newline c ≡ false → c ≢ 0
unfolding is_newline
newline_zero c h e = ground arith

pub IsLine-NoNul : (cs : List ℕ) → IsLine cs → NoNul cs
IsLine-NoNul [] h = tt
IsLine-NoNul (c ∷ cs) h = (newline_zero c h.0, IsLine-NoNul cs h.1)

line_found :
    (line : List ℕ) (c : ℕ) (rest : List ℕ)
    → IsLine line
    → is_newline c ≡ true
    → (before_end (line ++ c ∷ rest) ≡ line) × (from_end (line ++ c ∷ rest) ≡ c ∷ rest)
line_found [] c rest h e = rw e (refl, refl)
line_found (x ∷ line) c rest h e =
    let (before, after) = line_found line c rest h.1 e in rw h.0 (ap (λ l. x ∷ l) before, after)

pub c_string-stops : (xs r : List ℕ) → NoNul xs → c_string (xs ++ 0 ∷ r) ≡ ok xs
unfolding c_string
c_string-stops [] r h = refl
c_string-stops (x ∷ xs) r h = rw (c_string-stops xs r h.1) (ground (arith, h.0))

pub c_string-IsStr : (s : StrHdr) (xs : List ℕ) → IsStr s xs → c_string s.val ≡ ok xs
c_string-IsStr s xs h = ap c_string h.0.shape ∙ c_string-stops xs h.0.rest h.0.clean

pub str_bytes-IsStr : (s : StrHdr) (xs : List ℕ) → IsStr s xs → str_bytes s ≡ xs
unfolding str_bytes
str_bytes-IsStr s xs h = rw (h.1, h.0.shape) (take-front xs (0 ∷ h.0.rest))

repooled :
    (p p' : Option (List Blk)) (b : Buf)
    → IsBuf (record { pool = p; buf = b })
    → IsPool p'
    → IsBuf (record { pool = p'; buf = b })
repooled p p' b h q = record { blks = h.blks; pool = q; counted = h.counted }

pub record AreBufs (x : SessCtx) : Type 0 where
  pub ins : IsBuf (reading x)
  pub outs : IsBuf (writing x)
  pub small : length (contents (reading x)) < 2 ^ 31

-- A run that writes `xs` to the connection and does nothing else.
pub record Writes (x : SessCtx) (xs : List ℕ) (r : Run SessCtx) : Type 0 where
  pub pool : Option (List Blk)
  pub w_buf : Buf
  pub run : r ≡ ok (record x { pool = pool; w_buf = w_buf })
  pub bufs : AreBufs (record x { pool = pool; w_buf = w_buf })
  pub more : contents (record { pool = pool; buf = w_buf }) ≡ contents (writing x) ++ xs

pub conn_write_str-Writes :
    (x : SessCtx) (s : StrHdr) (xs : List ℕ)
    → AreBufs x
    → IsStr s xs
    → length xs < 2 ^ 31
    → Writes x xs (conn_write_str x s)
unfolding conn_write_str str_bytes
conn_write_str-Writes x s xs h is short =
    let enough : s.len ≤ length s.val =
      omega (arith, is.1, ap length is.0.shape, length-append xs (0 ∷ is.0.rest)) in
    let (r, run, w) =
      buf_write-Wrote (writing x) s.val s.len h.outs enough (omega (arith, is.1, short)) in
    record {
      pool = r.1.pool;
      w_buf = r.1.buf;
      run = ap (λ y. y >>= λ q. ok (record x { pool = q.1.pool; w_buf = q.1.buf })) run;
      bufs = record {
        ins = repooled x.pool r.1.pool x.r_buf h.ins w.buf.pool;
        outs = w.buf;
        small = h.small;
      };
      more = w.more ∙ ap (λ l. contents (writing x) ++ l) (str_bytes-IsStr s xs is);
    }

-- A reply: the message and a newline.
pub sess_reply-Writes :
    (x : SessCtx) (m : List ℕ)
    → AreBufs x
    → NoNul m
    → length m + 17 < 2 ^ 31
    → Writes x (m ++ newline) (sess_reply x m)
unfolding sess_reply write_some_str
sess_reply-Writes x m h clean short =
    let (s, made, (is, room)) = str_new-IsRoomy m clean (omega (arith, short)) in
    let (t, cat, is') = str_cats-fits s m newline is (omega arith, tt) (omega (arith, room)) in
    let w =
      conn_write_str-Writes x t (m ++ newline) h is'
        (omega (arith, short, length-append m newline)) in
    record {
      pool = w.pool;
      w_buf = w.w_buf;
      run =
          ap (λ r. r >>= λ msg. str_cats (some msg) newline >>= λ msg'. write_some_str x msg') made
          ∙ ap (λ r. r >>= λ msg'. write_some_str x msg') cat
          ∙ w.run;
      bufs = w.bufs;
      more = w.more;
    }

-- A run that reads the line from the connection and does nothing else.
pub record Reads (x : SessCtx) (line left : List ℕ) (r : Run (Option StrHdr × SessCtx))
    : Type 0 where
  pub str : StrHdr
  pub pool : Option (List Blk)
  pub r_buf : Buf
  pub run : r ≡ ok (some str, record x { pool = pool; r_buf = r_buf })
  pub is_str : IsStr str line
  pub bufs : AreBufs (record x { pool = pool; r_buf = r_buf })
  pub rest : contents (record { pool = pool; buf = r_buf }) ≡ left

padded :
    (line : List ℕ) (c : ℕ) (rest : List ℕ)
    → is_newline c ≡ true
    → some (line ++ replicate (length (ends (c ∷ rest))) 0 ++ 0 ∷ [])
      ≡ some (line ++ 0 ∷ (replicate {A = ℕ} (length (ends rest)) 0 ++ 0 ∷ []))
padded line c rest e =
    rw e (ap (λ l. some l) (append_assoc line (0 ∷ replicate (length (ends rest)) 0) (0 ∷ [])))

over : (c : ℕ) (rest : List ℕ) → is_newline c ≡ true → after_ends (c ∷ rest) ≡ after_ends rest
over c rest e = rw e refl

length-after_ends : (cs : List ℕ) → length (after_ends cs) ≤ length cs
length-after_ends [] = omega arith
length-after_ends (c ∷ cs) = elim (Bool-cases (is_newline c)) [
  | inl e ↦ rw e (omega (arith, length-after_ends cs))
  | inr e ↦ rw e (omega arith)
]

pub conn_read_line-Reads :
    (x : SessCtx) (line : List ℕ) (c : ℕ) (rest : List ℕ)
    → AreBufs x
    → contents (reading x) ≡ line ++ c ∷ rest
    → IsLine line
    → is_newline c ≡ true
    → length line + 17 < u32_mod
    → Reads x line (after_ends rest) (conn_read_line x)
unfolding conn_read_line take_line
conn_read_line-Reads x line c rest h is no_end e short =
    let (before, after) = line_found line c rest no_end e in
    let from : from_end (contents (reading x)) ≡ c ∷ rest = ap from_end is ∙ after in
    let (r, run, next) = read_line-IsNext (reading x) h.ins h.small in
    let (block, buf, left) = subst (λ d. IsNext (reading x) r d) from next in
    let (s, made, is_str) = str_new-IsStr line (IsLine-NoNul line no_end) short in
    let y : SessCtx = record x { pool = r.1.pool; r_buf = r.1.buf } in
    let memory : r.0 ≡ some (line ++ 0 ∷ (replicate (length (ends rest)) 0 ++ 0 ∷ [])) =
      block
      ∙ ap (λ b. some (b ++ replicate (length (ends (c ∷ rest))) 0 ++ 0 ∷ []))
          (ap before_end is ∙ before)
      ∙ padded line c rest e in
    record {
      str = s;
      pool = r.1.pool;
      r_buf = r.1.buf;
      run =
          ap (λ q. q >>= λ r. take_line (record x { pool = r.1.pool; r_buf = r.1.buf }) r.0) run
          ∙ ap (λ o. take_line y o) memory
          ∙ ap (λ q. q >>= λ b. str_new b >>= λ h. ok (some h, y))
              (c_string-stops line (replicate (length (ends rest)) 0 ++ 0 ∷ [])
                (IsLine-NoNul line no_end))
          ∙ ap (λ q. q >>= λ h. ok (some h, y)) made;
      is_str = is_str;
      bufs = record {
        ins = buf;
        outs = repooled x.pool r.1.pool x.w_buf h.outs buf.pool;
        small = omega (
          arith,
          h.small,
          ap length is,
          length-append line (c ∷ rest),
          ap length (left ∙ over c rest e),
          length-after_ends rest,
        );
      };
      rest = left ∙ over c rest e;
    }
