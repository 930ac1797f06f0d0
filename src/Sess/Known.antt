-- ===== src/Sess/Known.antt =====
-- The commands that `atm_cmd_init` of src/core/atm_cmd.c puts in its dictionary are found in it.
use atm_cache.Base.{
  if◌then◌else◌, ℕ, ◌≤◌, ◌≡◌, refl, ap, ◌∙◌, Bool, true, false, Option, none, some, List, arith, ok,
  Returns, shallow,
}
use atm_cache.Dict.Table.Chain.{count, assoc}
use atm_cache.Dict.Table.Reads.{join}
use atm_cache.Dict.Fill.{dict_new-set_all}
use atm_cache.Dict.Queries.{dict_get-view}
use atm_cache.Str.{bytes_match, bytes_eq, bytes_cmp, strcmp}
use atm_cache.Str.Order.{str_key, match_symm, match_trans}
use atm_cache.Cmd.{Cmd, cmd_init, cmd_getcmd, commands, get_name, set_name, cmd_get, cmd_set}

-- What the dictionary of the commands has under a name.
abbrev pub command : List ℕ → Option Cmd
command name =
    if bytes_match get_name name
    then some cmd_get
    else if bytes_match set_name name
    then some cmd_set
    else none

different : bytes_match get_name set_name ≡ false
unfolding bytes_match bytes_eq bytes_cmp strcmp
different = refl

once : (seed name : List ℕ) → count ⦃key = str_key seed⦄ name commands ≤ 1
unfolding count
once seed name =
    ground (arith, different, match_symm set_name name, match_trans get_name name set_name)

joined :
    (a b : Bool)
    → join (if a then some (some cmd_get) else if b then some (some cmd_set) else none)
      ≡ (if a then some cmd_get else if b then some cmd_set else none)
joined true b = refl
joined false true = refl
joined false false = refl

pub cmd_init-command :
    (seed : List ℕ)
    → Returns (cmd_init seed) (λ d. (name : List ℕ) → cmd_getcmd seed d name ≡ ok (command name))
unfolding cmd_init cmd_getcmd assoc
cmd_init-command seed =
    let (d, run, (valid, reads, size)) =
      dict_new-set_all ⦃key = str_key seed⦄ shallow commands (once seed) (omega arith) in
    (
      d,
      run,
      λ name.
          dict_get-view ⦃key = str_key seed⦄ d valid name
          ∙ ap (λ o. ok (join o)) (reads name)
          ∙ ap (λ o. ok o) (joined (bytes_match get_name name) (bytes_match set_name name)),
    )
