-- ===== src/Tests/SessLaws.antt =====
-- The theorem on a set and a get in a session at an input that meets its hypotheses, and a run.
use atm_cache.Base.{
  ℕ, ◌≡◌, refl, inl, some, none, List, [], ◌∷◌, ◌++◌, arith, true, false, replicate, stop,
  out_of_bounds, ◌>>=◌, Returns, deep,
}
use atm_cache.Buf.{Buf}
use atm_cache.Buf.Valid.{bytes_of}
use atm_cache.Buf.Line.{is_newline}
use atm_cache.Buf.Lines.{after_ends}
use atm_cache.Dict.Ops.{Dict, dict_new}
use atm_cache.Dict.Fill.{IsEmpty, dict_new-IsEmpty}
use atm_cache.Dict.Update.{NotInOld}
use atm_cache.Obj.{str_obj, obj_key}
use atm_cache.Cmd.{Cmd, set_name, get_name}
use atm_cache.Str.Words.{IsWord}
use atm_cache.Sess.{SessCtx, sess_init, sess_process, success, newline, cmd_para}
use atm_cache.Sess.Io.{AreBufs}
use atm_cache.Sess.Rounds.{space}
use atm_cache.Sess.Serve.{IsRequest, Served}
use atm_cache.Sess.Known.{cmd_init-command}
use atm_cache.Sess.SetGet.{sess_process-set_get}

abbrev seed : List ℕ
seed = replicate 16 48

-- "set k v" and "get k", each with a newline, in a block with two bytes left.
abbrev input : Buf
input = record {
  aval = 14;
  blks =
      record {
        size = 16;
        head =
            115 ∷ 101 ∷ 116 ∷ 32 ∷ 107 ∷ 32 ∷ 118 ∷ 10 ∷ 103 ∷ 101 ∷ 116 ∷ 32 ∷ 107 ∷ 10 ∷ 0 ∷ 0
            ∷ [];
        ridx = 0;
        widx = 14;
      }
      ∷ [];
}

abbrev cmds : Dict (List ℕ) Cmd
cmds = (cmd_init-command seed).0

abbrev start : SessCtx
start = record {
  sess = record { state = sess_init; state_continue = false; cmd = none; argc = 0; argv = none };
  pool = some [];
  r_buf = input;
  w_buf = record { aval = 0; blks = [] };
  cmds = cmds;
  cache_dict = dict_new deep;
}

start-AreBufs : AreBufs start
unfolding bytes_of
start-AreBufs = record {
  ins = record {
    blks = (
      record { room = refl; some_room = omega arith; order = omega arith; bound = omega arith },
      tt,
      tt,
    );
    pool = tt;
    counted = refl;
  };
  outs = record { blks = tt; pool = tt; counted = refl };
  small = omega arith;
}

set-IsWord : IsWord space set_name
set-IsWord = inl (
  (
    (omega arith, omega arith, omega arith, omega arith),
    (
      (omega arith, omega arith, omega arith, omega arith),
      ((omega arith, omega arith, omega arith, omega arith), tt),
    ),
  ),
  omega arith,
)

get-IsWord : IsWord space get_name
get-IsWord = inl (
  (
    (omega arith, omega arith, omega arith, omega arith),
    (
      (omega arith, omega arith, omega arith, omega arith),
      ((omega arith, omega arith, omega arith, omega arith), tt),
    ),
  ),
  omega arith,
)

key-IsWord : IsWord space (107 ∷ [])
key-IsWord = inl (((omega arith, omega arith, omega arith, omega arith), tt), omega arith)

value-IsWord : IsWord space (118 ∷ [])
value-IsWord = inl (((omega arith, omega arith, omega arith, omega arith), tt), omega arith)

set-IsRequest : IsRequest 0 ((set_name, 1) ∷ (107 ∷ [], 1) ∷ (118 ∷ [], 0) ∷ [])
unfolding is_newline
set-IsRequest = record {
  words = (
    (set-IsWord, omega arith),
    omega arith,
    ((key-IsWord, omega arith), omega arith, (value-IsWord, omega arith)),
  );
  one_line = (refl, (refl, (refl, (refl, (refl, (refl, (refl, tt)))))));
  short = omega arith;
}

get-IsRequest : IsRequest 0 ((get_name, 1) ∷ (107 ∷ [], 0) ∷ [])
unfolding is_newline
get-IsRequest = record {
  words = ((get-IsWord, omega arith), omega arith, (key-IsWord, omega arith));
  one_line = (refl, (refl, (refl, (refl, (refl, tt)))));
  short = omega arith;
}

start-IsEmpty : IsEmpty ⦃key = obj_key seed⦄ start.cache_dict
start-IsEmpty = dict_new-IsEmpty ⦃key = obj_key seed⦄ deep

not_in_new :
    NotInOld ⦃key = obj_key seed⦄ start.cache_dict.ht_active start.cache_dict.ht_backup
      (str_obj (107 ∷ []))
unfolding dict_new
not_in_new = tt

sess_process-set_get_example :
    Returns (sess_process seed start >>= λ r. sess_process seed r.1) (λ q.
      (q.0 ≡ true) × Served start (after_ends []) (success ++ newline ++ (118 ∷ []) ++ newline) q.1)
unfolding bytes_of
sess_process-set_get_example =
    sess_process-set_get seed start (107 ∷ []) (118 ∷ []) [] 0 1 1 0 0 1 0 refl start-AreBufs
      ((cmd_init-command seed).1) start-IsEmpty.valid start-IsEmpty.dense
      (omega (arith, start-IsEmpty.counted)) not_in_new set-IsRequest get-IsRequest refl

-- "set" with no argument: the second argument is read past the NULL at the end.
set_alone :
    cmd_para (some (record { cap = 7; len = 3; val = 115 ∷ 101 ∷ 116 ∷ 0 ∷ [] } ∷ [])) 2
    ≡ stop out_of_bounds
unfolding cmd_para
set_alone = refl
