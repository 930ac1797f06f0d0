-- ===== src/Sess/Rounds.antt =====
-- The rounds of `atm_sess_process` in src/core/atm_sess.c up to the call of the command.
use atm_cache.Base.{
  ◌^◌, ℕ, suc, ◌+◌, ◌<◌, ◌≡◌, refl, ap, ◌∙◌, Bool, true, false, Option, none, some, List, [], ◌∷◌,
  ◌++◌, arith, length, replicate, ok, ◌>>=◌,
}
use atm_cache.Blk.{Blk}
use atm_cache.Buf.{Buf}
use atm_cache.Buf.Valid.{contents}
use atm_cache.Buf.Line.{is_newline}
use atm_cache.Buf.Lines.{after_ends}
use atm_cache.Cmd.{Cmd, cmd_getcmd}
use atm_cache.Str.Bytes.{StrHdr}
use atm_cache.Str.Split.{str_split}
use atm_cache.Str.Join.{text, words_of, AreWords}
use atm_cache.Str.Argv.{AreStrs, AreArgs, str_split-AreArgs}
use atm_cache.Sess.{
  sess_init, sess_parsing, sess_process_cmd, SessCtx, reading, sess_chstat, str_bytes, take_args,
  parse_line, parsing, sess_round, sess_loop,
}
use atm_cache.Sess.Io.{IsLine, AreBufs, conn_read_line-Reads, str_bytes-IsStr}

abbrev pub space : ℕ
space = 32

picked_true : {A : Type 0} (b : Bool) (u v : A) → b ≡ true → elim b [ true ↦ u | false ↦ v ] ≡ u
picked_true b u v e = rw e refl

picked_false : {A : Type 0} (b : Bool) (u v : A) → b ≡ false → elim b [ true ↦ u | false ↦ v ] ≡ v
picked_false b u v e = rw e refl

module _ (seed : List ℕ) where
  pub goes_on :
      (f : ℕ) (x y : SessCtx)
      → sess_round seed x ≡ ok (some y)
      → y.sess.state_continue ≡ true
      → sess_loop seed (suc f) x ≡ sess_loop seed f y
  unfolding sess_loop
  goes_on f x y e c =
      rw (e, sess_loop) (picked_true y.sess.state_continue (sess_loop seed f y) (ok (true, y)) c)

  pub ends_here :
      (f : ℕ) (x y : SessCtx)
      → sess_round seed x ≡ ok (some y)
      → y.sess.state_continue ≡ false
      → sess_loop seed (suc f) x ≡ ok (true, y)
  unfolding sess_loop
  ends_here f x y e c =
      rw (e, sess_loop) (picked_false y.sess.state_continue (sess_loop seed f y) (ok (true, y)) c)

  module _ (x : SessCtx) (ready : x.sess.state ≡ sess_init) where
    opened : SessCtx
    opened = record x { sess = record (x.sess) { state = sess_parsing; state_continue = true } }

    first_round : sess_round seed x ≡ ok (some opened)
    unfolding sess_round sess_chstat opened
    first_round = rw (ready, sess_round) refl

    module _ (lead : ℕ) (w : List ℕ × ℕ) (ws : List (List ℕ × ℕ)) (c : ℕ) (rest : List ℕ)
        (func : Cmd) (h : AreBufs x)
        (is : contents (reading x) ≡ (replicate lead space ++ text space (w ∷ ws)) ++ c ∷ rest)
        (no_end : IsLine (replicate lead space ++ text space (w ∷ ws))) (nl : is_newline c ≡ true)
        (short : length (replicate lead space ++ text space (w ∷ ws)) + 17 < 2 ^ 29)
        (words : AreWords space (w ∷ ws))
        (known : cmd_getcmd seed x.cmds w.0 ≡ ok (some func)) where
      line : List ℕ
      line = replicate lead space ++ text space (w ∷ ws)

      unfoldable pub called : List StrHdr → Option (List Blk) → Buf → SessCtx
      called argv pool r_buf = record x {
        sess = record {
          state = sess_process_cmd;
          state_continue = true;
          cmd = some func;
          argc = length argv;
          argv = some argv;
        };
        pool = pool;
        r_buf = r_buf;
      }

      -- What the two first rounds leave.
      pub record Parsed : Type 0 where
        pub argv : List StrHdr
        pub pool : Option (List Blk)
        pub r_buf : Buf
        pub args : AreStrs argv (words_of (w ∷ ws))
        pub bufs : AreBufs (record x { pool = pool; r_buf = r_buf })
        pub left : contents (record { pool = pool; buf = r_buf }) ≡ after_ends rest
        pub run :
            (f : ℕ) → sess_loop seed (suc (suc f)) x ≡ sess_loop seed f (called argv pool r_buf)

      waiting : SessCtx
      waiting = record x { sess = record (x.sess) { state = sess_parsing; state_continue = false } }

      parsed_line :
          (str : StrHdr) (pool : Option (List Blk)) (r_buf : Buf) (argv : List StrHdr)
          → str_split (str_bytes str) space ≡ ok (some argv)
          → AreStrs argv (words_of (w ∷ ws))
          → parse_line seed (record waiting { pool = pool; r_buf = r_buf }) (some str)
            ≡ ok (called argv pool r_buf)
      unfolding parse_line take_args sess_chstat waiting called
      parsed_line str pool r_buf [] split args = absurd args
      parsed_line str pool r_buf (a ∷ argv) split args =
          let name : cmd_getcmd seed x.cmds (str_bytes a) ≡ ok (some func) =
            ap (λ b. cmd_getcmd seed x.cmds b) (str_bytes-IsStr a w.0 args.0) ∙ known in
          rw (split, name) refl

      argv_of :
          (o : Option (List StrHdr))
          → AreArgs o (words_of (w ∷ ws))
          → (argv : List StrHdr) × (o ≡ some argv) × AreStrs argv (words_of (w ∷ ws))
      argv_of none h = absurd (cc h)
      argv_of (some argv) h = (argv, refl, h)

      pub parse : Parsed
      unfolding line sess_round parsing opened waiting called
      parse =
          let q =
            conn_read_line-Reads waiting line c rest
              (record { ins = h.ins; outs = h.outs; small = h.small }) is no_end nl
              (omega (arith, short)) in
          let (o, split, are) =
            str_split-AreArgs space lead (w ∷ ws) (omega arith) (omega arith) (omega arith) words
              (omega (arith, short)) in
          let (argv, some_args, args) = argv_of o are in
          let split' : str_split (str_bytes q.str) space ≡ ok (some argv) =
            ap (λ b. str_split b space) (str_bytes-IsStr q.str line q.is_str)
            ∙ split
            ∙ ap (λ o. ok o) some_args in
          let second : sess_round seed opened ≡ ok (some (called argv q.pool q.r_buf)) =
            ap (λ r. r >>= λ z. ok (some z))
              (ap (λ r. r >>= λ p. parse_line seed p.1 p.0) q.run
                ∙ parsed_line q.str q.pool q.r_buf argv split' args) in
          record {
            argv = argv;
            pool = q.pool;
            r_buf = q.r_buf;
            args = args;
            bufs = record { ins = q.bufs.ins; outs = q.bufs.outs; small = q.bufs.small };
            left = q.rest;
            run = λ f.
                goes_on (suc f) x opened first_round refl
                ∙ goes_on f opened (called argv q.pool q.r_buf) second refl;
          }
