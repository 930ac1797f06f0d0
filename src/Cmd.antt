-- ===== src/Cmd.antt =====
-- The commands of src/core/atm_cmd.c, as data: what each does is in `Sess`.
use atm_cache.Base.{ℕ, Bool, true, some, Option, List, [], ◌∷◌, ◌==◌, Run, shallow}
use atm_cache.Dict.Table.{Entry}
use atm_cache.Dict.Ops.{Dict, dict_new, dict_get}
use atm_cache.Dict.Fill.{set_all}
use atm_cache.Str.Order.{str_key}

pub data ℤ : Type 0 where
  pos negsuc : ℕ → ℤ

-- `atm_cmd_func_get` and `atm_cmd_func_set`.
pub data CmdFunc : Type 0 where
  func_get func_set : CmdFunc

pub record Cmd : Type 0 where
  pub name : List ℕ
  pub func : CmdFunc
  pub arity : ℤ

-- "get" and "set".
abbrev pub get_name : List ℕ
get_name = 103 ∷ 101 ∷ 116 ∷ []

abbrev pub set_name : List ℕ
set_name = 115 ∷ 101 ∷ 116 ∷ []

abbrev pub cmd_get : Cmd
cmd_get = record { name = get_name; func = func_get; arity = pos 2 }

abbrev pub cmd_set : Cmd
cmd_set = record { name = set_name; func = func_set; arity = negsuc 2 }

abbrev pub commands : List (Entry (List ℕ) Cmd)
commands =
    record { key = get_name; val = some cmd_get }
    ∷ record { key = set_name; val = some cmd_set }
    ∷ []

-- The seed is that of the hash.
unfoldable pub cmd_init : List ℕ → Run (Dict (List ℕ) Cmd)
cmd_init seed = let key = str_key seed in set_all ⦃key = key⦄ commands (dict_new shallow)

unfoldable pub cmd_getcmd : List ℕ → Dict (List ℕ) Cmd → List ℕ → Run (Option Cmd)
cmd_getcmd seed cmds name = let key = str_key seed in dict_get ⦃key = key⦄ cmds name

-- `cmd->arity < 0 || argc == cmd->arity`.
unfoldable pub arity_fits : ℤ → ℕ → Bool
arity_fits (pos n) argc = argc == n
arity_fits (negsuc n) argc = true
