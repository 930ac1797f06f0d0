-- ===== src/Sess.antt =====
-- The sessions of src/core/atm_sess.c with the commands of src/core/atm_cmd.c that they call, and the
-- reads and writes of src/core/atm_conn.c between a session and the buffers of its connection. One
-- thread runs a session. A string that only `atm_str_new` has made is given by its bytes where an
-- object or a key holds it.
pub mod Io
pub mod Rounds
pub mod Serve
pub mod Known
pub mod SetGet
use atm_cache.Base.{
  ℕ, zero, suc, ◌+◌, Bool, true, false, ◌||◌, Option, none, some, List, [], ◌∷◌, if◌then◌else◌,
  ◌==◌, length, get_elem?, take, Run, ok, stop, ◌>>=◌, out_of_bounds, null_dereference, out_of_fuel,
  FreeType, deep,
}
use atm_cache.Blk.{Blk}
use atm_cache.Buf.{Buf, Pooled, buf_write, buf_new}
use atm_cache.Buf.Line.{read_line}
use atm_cache.Dict.Ops.{Dict, dict_get, dict_set}
use atm_cache.Obj.{Obj, str_obj, obj_str, obj_key}
use atm_cache.Cmd.{Cmd, CmdFunc, func_get, func_set, cmd_getcmd, arity_fits}
use atm_cache.Str.Bytes.{StrHdr, c_string, str_new, str_cats, str_cats_dup}
use atm_cache.Str.Split.{str_split}

pub data SessState : Type 0 where
  sess_init sess_parsing sess_process_cmd sess_finish sess_error : SessState

-- The arguments are NULL or the strings before the NULL at the end.
pub record Sess : Type 0 where
  pub state : SessState
  pub state_continue : Bool
  pub cmd : Option Cmd
  pub argc : ℕ
  pub argv : Option (List StrHdr)

-- A session with what it reaches: the pool of blocks, the buffers of its connection, the commands and
-- the cache.
pub record SessCtx : Type 0 where
  pub sess : Sess
  pub pool : Option (List Blk)
  pub r_buf : Buf
  pub w_buf : Buf
  pub cmds : Dict (List ℕ) Cmd
  pub cache_dict : Dict Obj Obj

abbrev pub reading : SessCtx → Pooled
reading x = record { pool = x.pool; buf = x.r_buf }

abbrev pub writing : SessCtx → Pooled
writing x = record { pool = x.pool; buf = x.w_buf }

-- `atm_alloc` fills the arguments with zeros, which `atm_sess_new` leaves.
unfoldable pub sess_new : Sess
sess_new = record { state = sess_init; state_continue = false; cmd = none; argc = 0; argv = none }

unfoldable pub sess_chstat : SessCtx → SessState → SessCtx
sess_chstat x st = record x { sess = record (x.sess) { state = st; state_continue = true } }

unfoldable pub sess_reset : SessCtx → SessCtx
sess_reset x = record x {
  sess = record { state = sess_init; state_continue = false; cmd = none; argc = 0; argv = none };
}

-- The bytes of a string that its length counts.
unfoldable pub str_bytes : StrHdr → List ℕ
str_bytes s = take s.len s.val

-- The string of a line, where there is one.
unfoldable pub take_line : SessCtx → Option (List ℕ) → Run (Option StrHdr × SessCtx)
take_line x none = ok (none, x)
take_line x (some line) = do s ← c_string line; h ← str_new s; ok (some h, x)

-- `atm_conn_read_line`.
unfoldable pub conn_read_line : SessCtx → Run (Option StrHdr × SessCtx)
conn_read_line x = do
  r ← read_line (reading x)
  take_line (record x { pool = r.1.pool; r_buf = r.1.buf }) r.0

-- `atm_conn_write_str`, without the notification of the event loop.
unfoldable pub conn_write_str : SessCtx → StrHdr → Run SessCtx
conn_write_str x s = do
  r ← buf_write (writing x) s.val s.len
  ok (record x { pool = r.1.pool; w_buf = r.1.buf })

abbrev pub newline : List ℕ
newline = 10 ∷ []

-- A string that is NULL cannot be written; none of the callers has one.
unfoldable pub write_some_str : SessCtx → Option StrHdr → Run SessCtx
write_some_str x none = ok x
write_some_str x (some s) = conn_write_str x s

unfoldable pub sess_reply : SessCtx → List ℕ → Run SessCtx
sess_reply x m = do msg ← str_new m; msg' ← str_cats (some msg) newline; write_some_str x msg'

-- "Success", "Invalid argc" and "Invalid cmd".
abbrev pub success : List ℕ
success = 83 ∷ 117 ∷ 99 ∷ 99 ∷ 101 ∷ 115 ∷ 115 ∷ []

abbrev pub invalid_argc : List ℕ
invalid_argc = 73 ∷ 110 ∷ 118 ∷ 97 ∷ 108 ∷ 105 ∷ 100 ∷ 32 ∷ 97 ∷ 114 ∷ 103 ∷ 99 ∷ []

abbrev pub invalid_cmd : List ℕ
invalid_cmd = 73 ∷ 110 ∷ 118 ∷ 97 ∷ 108 ∷ 105 ∷ 100 ∷ 32 ∷ 99 ∷ 109 ∷ 100 ∷ []

-- `argv[idx]` is NULL right after the last argument, and past that out of bounds.
unfoldable pub cmd_para : Option (List StrHdr) → ℕ → Run Obj
cmd_para none idx = stop null_dereference
cmd_para (some argv) idx = elim (get_elem? argv idx) [
  | some s ↦ do b ← c_string s.val; ok (str_obj b)
  | none ↦ if idx == length argv then ok (str_obj []) else stop out_of_bounds
]

-- The copy of the string that an object prints as, with a newline.
unfoldable pub value_msg : Option (List ℕ) → Run (Option StrHdr)
value_msg none = str_cats_dup none newline
value_msg (some b) = do h ← str_new b; str_cats_dup (some h) newline

module _ (seed : List ℕ) where
  unfoldable pub cmd_func_set : SessCtx → Cmd → Run SessCtx
  cmd_func_set x c =
      let key = obj_key seed in
      if arity_fits c.arity x.sess.argc
      then (do
        k ← cmd_para x.sess.argv 1
        v ← cmd_para x.sess.argv 2
        d ← dict_set ⦃key = key⦄ x.cache_dict k (some v)
        sess_reply (record x { cache_dict = d }) success)
      else sess_reply x invalid_argc

  unfoldable pub cmd_func_get : SessCtx → Cmd → Run SessCtx
  cmd_func_get x c =
      let key = obj_key seed in
      if arity_fits c.arity x.sess.argc
      then (do
        k ← cmd_para x.sess.argv 1
        v ← dict_get ⦃key = key⦄ x.cache_dict k
        msg ← value_msg (obj_str v)
        write_some_str x msg)
      else sess_reply x invalid_argc

  unfoldable pub call_func : SessCtx → Cmd → Run SessCtx
  call_func x c = elim c.func [ func_get ↦ cmd_func_get x c | func_set ↦ cmd_func_set x c ]

  unfoldable pub process_cmd : SessCtx → Run SessCtx
  process_cmd x = do
    x' ← elim x.sess.cmd [ some c ↦ call_func x c | none ↦ sess_reply x invalid_cmd ]
    ok (sess_chstat x' sess_finish)

  -- The arguments of a line, their number and the command; a line with no token leaves them.
  unfoldable pub take_args : SessCtx → Option (List StrHdr) → Run SessCtx
  take_args x none = ok x
  take_args x (some []) = ok (record x { sess = record (x.sess) { argc = 0; argv = some [] } })
  take_args x (some (a ∷ argv)) = do
    c ← cmd_getcmd seed x.cmds (str_bytes a)
    ok (record x {
      sess = record (x.sess) { argc = length (a ∷ argv); argv = some (a ∷ argv); cmd = c };
    })

  unfoldable pub parse_line : SessCtx → Option StrHdr → Run SessCtx
  parse_line x none = ok x
  parse_line x (some line) = do
    args ← str_split (str_bytes line) 32
    x' ← take_args x args
    ok (sess_chstat x' sess_process_cmd)

  -- `atm_sess_parsing`.
  unfoldable pub parsing : SessCtx → Run SessCtx
  parsing x = do
    r ← conn_read_line (record x { sess = record (x.sess) { state_continue = false } })
    parse_line r.1 r.0

  -- The body of the loop of `atm_sess_process`; `none` is the return of `ATM_ERROR`.
  unfoldable pub sess_round : SessCtx → Run (Option SessCtx)
  sess_round x =
      let y = record x { sess = record (x.sess) { state_continue = false } } in
      elim y.sess.state [
        | sess_init ↦ ok (some (sess_chstat y sess_parsing))
        | sess_parsing ↦ do z ← parsing y; ok (some z)
        | sess_process_cmd ↦ do z ← process_cmd y; ok (some z)
        | sess_finish ↦ ok (some (sess_reset y))
        | sess_error ↦ ok none
      ]

  -- Whether the call returns `ATM_OK`, and what it leaves.
  unfoldable pub sess_loop : ℕ → SessCtx → Run (Bool × SessCtx)
  sess_loop zero x = stop out_of_fuel
  sess_loop (suc f) x = do
    r ← sess_round x
    elim r [
      | none ↦ ok (false, record x { sess = record (x.sess) { state_continue = false } })
      | some y ↦ elim y.sess.state_continue [ true ↦ sess_loop f y | false ↦ ok (true, y) ]
    ]

  -- From any state there are at most four rounds, one for each state before the last.
  unfoldable pub sess_process : SessCtx → Run (Bool × SessCtx)
  sess_process x = sess_loop 4 x
