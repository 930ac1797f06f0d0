-- ===== src/Sess/Serve.antt =====
-- A call of `atm_sess_process` in src/core/atm_sess.c that reads a line with a set or a get.
use atm_cache.Base.{
  length-append, ◌^◌, ℕ, ◌+◌, ◌<◌, ◌≡◌, refl, ap, ◌∙◌, Bool, true, false, Option, none, some, List,
  [], ◌∷◌, ◌++◌, arith, ◌==◌, length, replicate, ok, ◌>>=◌, Returns,
}
use atm_cache.Buf.Valid.{contents}
use atm_cache.Buf.Line.{is_newline}
use atm_cache.Buf.Lines.{after_ends}
use atm_cache.Dict.Table.Reads.{join}
use atm_cache.Dict.Valid.{IsDict, IsDense, dict_view, entry_count, max_entries}
use atm_cache.Dict.Update.{NotInOld, Updated, dict_set-Updated_dense}
use atm_cache.Dict.Queries.{dict_get-view}
use atm_cache.Obj.{str_obj, obj_str, obj_key}
use atm_cache.Cmd.{Cmd, cmd_getcmd, cmd_get, cmd_set, get_name, set_name, arity_fits}
use atm_cache.Str.Bytes.{
  StrHdr, str_new, str_cats, str_cats_dup, str_dup, str_grow, grow_some, str_size, strcat, strlen,
  copy_to,
}
use atm_cache.Str.Cat.{NoNul, IsStr}
use atm_cache.Str.New.{str_new-IsRoomy}
use atm_cache.Str.Growth.{str_cats-fits}
use atm_cache.Str.Join.{text, AreWords}
use atm_cache.Str.Argv.{AreStrs}
use atm_cache.Sess.{
  sess_init, sess_process_cmd, sess_finish, SessCtx, reading, writing, sess_chstat, sess_reset,
  cmd_para, value_msg, write_some_str, newline, success, process_cmd, call_func, cmd_func_set,
  cmd_func_get, sess_round, sess_loop, sess_process,
}
use atm_cache.Sess.Io.{IsLine, AreBufs, conn_write_str-Writes, sess_reply-Writes, c_string-IsStr}
use atm_cache.Sess.Rounds.{space, goes_on, ends_here, called, parse}

three_args :
    (argv : List StrHdr) (a b c : List ℕ)
    → AreStrs argv (a ∷ b ∷ c ∷ [])
    → (cmd_para (some argv) 1 ≡ ok (str_obj b)) × (cmd_para (some argv) 2 ≡ ok (str_obj c))
unfolding cmd_para
three_args (r ∷ s ∷ t ∷ []) a b c h =
    (rw (c_string-IsStr s b h.1.0) refl, rw (c_string-IsStr t c h.1.1.0) refl)
three_args [] a b c h = absurd h
three_args (r ∷ []) a b c h = absurd (h.1)
three_args (r ∷ s ∷ []) a b c h = absurd (h.1.1)
three_args (r ∷ s ∷ t ∷ u ∷ argv) a b c h = absurd (h.1.1.1)

two_args :
    (argv : List StrHdr) (a b : List ℕ)
    → AreStrs argv (a ∷ b ∷ [])
    → (cmd_para (some argv) 1 ≡ ok (str_obj b)) × (length argv ≡ 2)
unfolding cmd_para
two_args (r ∷ s ∷ []) a b h = (rw (c_string-IsStr s b h.1.0) refl, refl)
two_args [] a b h = absurd h
two_args (r ∷ []) a b h = absurd (h.1)
two_args (r ∷ s ∷ t ∷ argv) a b h = absurd (h.1.1)

-- The session after its reset, with the rest of `z`.
abbrev reset_of : SessCtx → SessCtx
reset_of z = record z {
  sess = record { state = sess_init; state_continue = false; cmd = none; argc = 0; argv = none };
}

-- A session that is about to call a command, in the round before and in that round.
abbrev calling : SessCtx → Cmd → List StrHdr → Bool → SessCtx
calling x c argv b = record x {
  sess = record {
    state = sess_process_cmd;
    state_continue = b;
    cmd = some c;
    argc = length argv;
    argv = some argv;
  };
}

module _ (seed : List ℕ) where
  -- The two last rounds.
  last_rounds :
      (x z : SessCtx) (c : Cmd) (argv : List StrHdr)
      → call_func seed (calling x c argv false) c ≡ ok z
      → sess_loop seed 2 (calling x c argv true) ≡ ok (true, reset_of z)
  unfolding sess_round process_cmd sess_chstat sess_reset
  last_rounds x z c argv run =
      let third : sess_round seed (calling x c argv true) ≡ ok (some (sess_chstat z sess_finish)) =
        ap (λ r. r >>= λ y. ok (some y))
          (ap (λ r. r >>= λ y. ok (sess_chstat y sess_finish)) run) in
      goes_on seed 1 (calling x c argv true) (sess_chstat z sess_finish) third refl
      ∙ ends_here seed 0 (sess_chstat z sess_finish) (reset_of z) refl refl

-- The line of a request, `lead` separators and then the words.
abbrev pub line_of : ℕ → List (List ℕ × ℕ) → List ℕ
line_of lead ws = replicate lead space ++ text space ws

-- The bytes up to a newline are a request that the session can take apart.
pub record IsRequest (lead : ℕ) (ws : List (List ℕ × ℕ)) : Type 0 where
  pub words : AreWords space ws
  pub one_line : IsLine (line_of lead ws)
  pub short : length (line_of lead ws) + 17 < 2 ^ 29

-- What a call that reads a request leaves of the session and its connection, and what it replies.
pub record Served (x : SessCtx) (left reply : List ℕ) (y : SessCtx) : Type 0 where
  pub ready : y.sess.state ≡ sess_init
  pub bufs : AreBufs y
  pub unread : contents (reading y) ≡ left
  pub replied : contents (writing y) ≡ contents (writing x) ++ reply
  pub cmds : y.cmds ≡ x.cmds

success_clean : NoNul success
success_clean = (
  omega arith,
  (omega arith, (omega arith, (omega arith, (omega arith, (omega arith, (omega arith, tt)))))),
)

-- What a value is shown as, and that it can be.
abbrev pub shown : Option (List ℕ) → List ℕ
shown none = []
shown (some b) = b

abbrev pub IsShort : Option (List ℕ) → Type 0
IsShort none = Unit {0}
IsShort (some b) = NoNul b × (length b + 17 < 2 ^ 29)

-- A value that is not there prints as nothing.
no_value :
    str_cats_dup none newline
    ≡ ok (some (record { cap = 7; len = 1; val = 10 ∷ 0 ∷ replicate 6 0 }))
unfolding str_cats_dup str_dup str_cats str_grow grow_some str_new str_size strcat strlen copy_to
no_value = refl

shown_short : (o : Option (List ℕ)) → IsShort o → length (shown o ++ newline) < 2 ^ 31
shown_short none h = omega arith
shown_short (some b) h = omega (arith, h.1, length-append b newline)

value_msg-IsStr :
    (o : Option (List ℕ))
    → IsShort o
    → (t : StrHdr) × (value_msg o ≡ ok (some t)) × IsStr t (shown o ++ newline)
unfolding value_msg str_cats_dup str_dup
value_msg-IsStr none h = (
  record { cap = 7; len = 1; val = 10 ∷ 0 ∷ replicate 6 0 },
  no_value,
  (
    record {
      rest = replicate 6 0;
      shape = refl;
      clean = (omega arith, tt);
      room = refl;
      word = omega arith;
    },
    refl,
  ),
)
value_msg-IsStr (some b) h =
    let (s, made, (is, room)) = str_new-IsRoomy b h.0 (omega (arith, h.1)) in
    let (t, cat, is') = str_cats-fits s b newline is (omega arith, tt) (omega (arith, room)) in
    (t, ap (λ r. r >>= λ g. str_cats (some g) newline) made ∙ cat, is')

module _ (seed : List ℕ) (x : SessCtx) (ready : x.sess.state ≡ sess_init) (h : AreBufs x) (lead : ℕ)
    (c : ℕ) (rest : List ℕ) (nl : is_newline c ≡ true) where
  -- A set under a key that the old table of a rehash does not hold.
  module _ (k v : List ℕ) (n0 n1 n2 : ℕ)
      (req : IsRequest lead ((set_name, n0) ∷ (k, n1) ∷ (v, n2) ∷ []))
      (is : contents (reading x)
        ≡ line_of lead ((set_name, n0) ∷ (k, n1) ∷ (v, n2) ∷ []) ++ c ∷ rest)
      (known : cmd_getcmd seed x.cmds set_name ≡ ok (some cmd_set))
      (valid : IsDict ⦃key = obj_key seed⦄ x.cache_dict)
      (dense : IsDense ⦃key = obj_key seed⦄ x.cache_dict)
      (room : entry_count ⦃key = obj_key seed⦄ x.cache_dict < max_entries)
      (out : NotInOld ⦃key = obj_key seed⦄ x.cache_dict.ht_active x.cache_dict.ht_backup
        (str_obj k)) where
    pub serve_set : Returns (sess_process seed x) (λ r.
        (r.0 ≡ true)
        × Served x (after_ends rest) (success ++ newline) r.1
        × (Updated ⦃key = obj_key seed⦄ x.cache_dict (str_obj k) (some (str_obj v)) r.1.cache_dict))
    unfolding sess_process called call_func cmd_func_set arity_fits
    serve_set =
        let p =
          parse seed x ready lead (set_name, n0) ((k, n1) ∷ (v, n2) ∷ []) c rest cmd_set h is
            req.one_line nl req.short req.words known in
        let (para1, para2) = three_args p.argv set_name k v p.args in
        let (d, stored, u) =
          dict_set-Updated_dense ⦃key = obj_key seed⦄ x.cache_dict (str_obj k) (some (str_obj v))
            valid room out dense in
        let q : SessCtx =
          calling (record x { pool = p.pool; r_buf = p.r_buf }) cmd_set p.argv false in
        let w =
          sess_reply-Writes (record q { cache_dict = d }) success
            (record { ins = p.bufs.ins; outs = p.bufs.outs; small = p.bufs.small }) success_clean
            (omega arith) in
        let z : SessCtx = record q { cache_dict = d; pool = w.pool; w_buf = w.w_buf } in
        let run : call_func seed q cmd_set ≡ ok z = rw (para1, para2, stored) w.run in
        (
          (true, reset_of z),
          p.run 2
              ∙ last_rounds seed (record x { pool = p.pool; r_buf = p.r_buf }) z cmd_set p.argv run,
          (
            refl,
            record {
              ready = refl;
              bufs = record { ins = w.bufs.ins; outs = w.bufs.outs; small = w.bufs.small };
              unread = p.left;
              replied = w.more;
              cmds = refl;
            },
            u,
          ),
        )

  -- A get.
  module _ (k : List ℕ) (n0 n1 : ℕ) (req : IsRequest lead ((get_name, n0) ∷ (k, n1) ∷ []))
      (is : contents (reading x) ≡ line_of lead ((get_name, n0) ∷ (k, n1) ∷ []) ++ c ∷ rest)
      (known : cmd_getcmd seed x.cmds get_name ≡ ok (some cmd_get))
      (valid : IsDict ⦃key = obj_key seed⦄ x.cache_dict)
      (small : IsShort
        (obj_str (join (dict_view ⦃key = obj_key seed⦄ x.cache_dict (str_obj k))))) where
    pub serve_get : Returns (sess_process seed x) (λ r.
        (r.0 ≡ true)
        × Served x
            (after_ends rest)
            (shown (obj_str (join (dict_view ⦃key = obj_key seed⦄ x.cache_dict (str_obj k))))
              ++ newline)
            r.1
        × (r.1.cache_dict ≡ x.cache_dict))
    unfolding sess_process called call_func cmd_func_get arity_fits write_some_str
    serve_get =
        let p =
          parse seed x ready lead (get_name, n0) ((k, n1) ∷ []) c rest cmd_get h is req.one_line nl
            req.short req.words known in
        let (para1, argc) = two_args p.argv get_name k p.args in
        let found = dict_get-view ⦃key = obj_key seed⦄ x.cache_dict valid (str_obj k) in
        let o = obj_str (join (dict_view ⦃key = obj_key seed⦄ x.cache_dict (str_obj k))) in
        let (t, made, is_str) = value_msg-IsStr o small in
        let q : SessCtx =
          calling (record x { pool = p.pool; r_buf = p.r_buf }) cmd_get p.argv false in
        let w =
          conn_write_str-Writes q t (shown o ++ newline)
            (record { ins = p.bufs.ins; outs = p.bufs.outs; small = p.bufs.small }) is_str
            (shown_short o small) in
        let z : SessCtx = record q { pool = w.pool; w_buf = w.w_buf } in
        let fits : (length p.argv == 2) ≡ true = ground (arith, argc) in
        let run : call_func seed q cmd_get ≡ ok z = rw (fits, para1, found, made) w.run in
        (
          (true, reset_of z),
          p.run 2
              ∙ last_rounds seed (record x { pool = p.pool; r_buf = p.r_buf }) z cmd_get p.argv run,
          (
            refl,
            record {
              ready = refl;
              bufs = record { ins = w.bufs.ins; outs = w.bufs.outs; small = w.bufs.small };
              unread = p.left;
              replied = w.more;
              cmds = refl;
            },
            refl,
          ),
        )
