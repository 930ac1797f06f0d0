-- ===== src/Sess/SetGet.antt =====
-- A value that a session of src/core/atm_sess.c sets is the value that it gets.
use mathlib.Core.Path.{subst}
use atm_cache.Base.{
  ◌^◌, ℕ, ◌+◌, ◌<◌, ◌≡◌, refl, ap, sym, ◌∙◌, Bool, true, some, List, [], ◌∷◌, ◌++◌, arith, length,
  length-append, replicate, ok, ◌>>=◌, Returns, if◌then◌else◌, inl, inr,
}
use atm_cache.Buf.Valid.{contents}
use atm_cache.Buf.Line.{is_newline}
use atm_cache.Buf.Lines.{after_ends}
use atm_cache.Dict.Table.Reads.{join}
use atm_cache.Dict.Valid.{IsDict, IsDense, dict_view, entry_count, max_entries}
use atm_cache.Dict.Update.{NotInOld}
use atm_cache.Arr.Valid.{append_assoc}
use atm_cache.Obj.{str_obj, obj_str, obj_key, same_value, obj_same}
use atm_cache.Cmd.{cmd_init, cmd_getcmd, cmd_get, cmd_set, get_name, set_name}
use atm_cache.Str.{bytes_match, bytes_eq, bytes_cmp, strcmp}
use atm_cache.Str.Words.{IsWord}
use atm_cache.Str.Join.{text}
use atm_cache.Str.Argv.{NoNul-word}
use atm_cache.Sess.{sess_init, SessCtx, reading, writing, newline, success, sess_process}
use atm_cache.Sess.Io.{IsLine, AreBufs}
use atm_cache.Sess.Rounds.{space}
use atm_cache.Sess.Serve.{IsRequest, line_of, Served, IsShort, shown, serve_set, serve_get}
use atm_cache.Sess.Known.{command, cmd_init-command}

word_bytes : (sep : ℕ) (w : List ℕ) → IsWord sep w → 0 < length w
word_bytes sep w (inl h) = h.1
word_bytes sep w (inr h) = omega (arith, ap length h.shape)

-- A line does not start with a newline character.
next_line : (l r : List ℕ) → IsLine l → 0 < length l → after_ends (l ++ r) ≡ l ++ r
next_line [] r h p = absurd (omega arith)
next_line (c ∷ l) r h p = rw h.0 refl

shown_word : (v : List ℕ) → 0 < length v → obj_str (some (str_obj v)) ≡ some v
unfolding obj_str
shown_word [] p = absurd (omega arith)
shown_word (c ∷ v) p = refl

command_set : command set_name ≡ some cmd_set
unfolding bytes_match bytes_eq bytes_cmp strcmp
command_set = refl

command_get : command get_name ≡ some cmd_get
unfolding bytes_match bytes_eq bytes_cmp strcmp
command_get = refl

known :
    (seed name : List ℕ) (x : SessCtx)
    → cmd_init seed ≡ ok x.cmds
    → cmd_getcmd seed x.cmds name ≡ ok (command name)
known seed name x e =
    let (d, run, finds) = cmd_init-command seed in
    let same : d ≡ x.cmds = cc (run, e) in
    subst (λ m. cmd_getcmd seed m name ≡ ok (command name)) same (finds name)

newline_is : is_newline 10 ≡ true
unfolding is_newline
newline_is = refl

chosen : {A : Type 0} (b : Bool) (a c : A) → b ≡ true → (if b then a else c) ≡ a
chosen b a c e = rw e refl

value-IsWord :
    (v : List ℕ) (n0 n1 n2 : ℕ) (k : List ℕ) (lead : ℕ)
    → IsRequest lead ((set_name, n0) ∷ (k, n1) ∷ (v, n2) ∷ [])
    → IsWord space v × (length v + 17 < 2 ^ 29)
value-IsWord v n0 n1 n2 k lead req = req.words.2.2

-- A session in the state `sess_init`, as a new one is and one that has served a line, with well-formed
-- buffers and fewer than 2 ^ 31 bytes to read: the line of a set and then that of a get of the same
-- key, each ended by a newline and shorter than 2 ^ 29 - 17 bytes. The cache is well formed, has fewer
-- than 2 ^ 27 entries, no bucket that is still to move is there without an entry, and the key is not in
-- the old table of a rehash. Two calls of `atm_sess_process` end normally and reply Success and then
-- the value, a line each; the session is in `sess_init` again, and what follows the two lines and
-- their newlines is still to be read.
pub sess_process-set_get :
    (seed : List ℕ) (x : SessCtx) (k v rest : List ℕ) (lead n0 n1 n2 lead' m0 m1 : ℕ)
    → x.sess.state ≡ sess_init
    → AreBufs x
    → cmd_init seed ≡ ok x.cmds
    → IsDict ⦃key = obj_key seed⦄ x.cache_dict
    → IsDense ⦃key = obj_key seed⦄ x.cache_dict
    → entry_count ⦃key = obj_key seed⦄ x.cache_dict < max_entries
    → NotInOld ⦃key = obj_key seed⦄ x.cache_dict.ht_active x.cache_dict.ht_backup (str_obj k)
    → IsRequest lead ((set_name, n0) ∷ (k, n1) ∷ (v, n2) ∷ [])
    → IsRequest lead' ((get_name, m0) ∷ (k, m1) ∷ [])
    → contents (reading x)
      ≡ line_of lead ((set_name, n0) ∷ (k, n1) ∷ (v, n2) ∷ [])
        ++ 10 ∷ (line_of lead' ((get_name, m0) ∷ (k, m1) ∷ []) ++ 10 ∷ rest)
    → Returns
        (sess_process seed x >>= λ r. sess_process seed r.1)
        (λ q. (q.0 ≡ true) × Served x (after_ends rest) (success ++ newline ++ v ++ newline) q.1)
sess_process-set_get seed x k v rest lead n0 n1 n2 lead' m0 m1 ready h cmds valid dense room out req
      req' is =
    let more : List ℕ = line_of lead' ((get_name, m0) ∷ (k, m1) ∷ []) ++ 10 ∷ rest in
    let found_set = known seed set_name x cmds ∙ ap (λ c. ok c) command_set in
    let (r, run, (_, s, u)) =
      serve_set seed x ready h lead 10 more newline_is k v n0 n1 n2 req is found_set valid dense
        room out in
    let some_line : 0 < length (line_of lead' ((get_name, m0) ∷ (k, m1) ∷ [])) =
      omega (
        arith,
        length-append (replicate lead' space) (text space ((get_name, m0) ∷ (k, m1) ∷ [])),
      ) in
    let is' : contents (reading r.1) ≡ more =
      s.unread
      ∙ next_line (line_of lead' ((get_name, m0) ∷ (k, m1) ∷ [])) (10 ∷ rest) req'.one_line
          some_line in
    let found_get =
      ap (λ c. cmd_getcmd seed c get_name) s.cmds
      ∙ known seed get_name x cmds
      ∙ ap (λ c. ok c) command_get in
    let word = value-IsWord v n0 n1 n2 k lead req in
    let value : obj_str (join (dict_view ⦃key = obj_key seed⦄ r.1.cache_dict (str_obj k)))
        ≡ some v =
      ap (λ o. obj_str (join o))
        (u.reads (str_obj k)
          ∙ chosen (same_value (str_obj k) (str_obj k)) (some (some (str_obj v)))
              (dict_view ⦃key = obj_key seed⦄ x.cache_dict (str_obj k)) (obj_same (str_obj k)))
      ∙ shown_word v (word_bytes space v word.0) in
    let small = subst (λ o. IsShort o) (sym value) (NoNul-word space v word.0, word.1) in
    let (q, run', (ok', t, _)) =
      serve_get seed r.1 s.ready s.bufs lead' 10 rest newline_is k m0 m1 req' is' found_get u.valid
        small in
    (
      q,
      ap (λ a. a >>= λ r. sess_process seed r.1) run ∙ run',
      (
        ok',
        record {
          ready = t.ready;
          bufs = t.bufs;
          unread = t.unread;
          replied =
              t.replied
              ∙ ap
                  (λ a.
                    a
                    ++ (shown (
                          obj_str
                            (join (dict_view ⦃key = obj_key seed⦄ r.1.cache_dict (str_obj k))))
                        ++ newline))
                  s.replied
              ∙ append_assoc (contents (writing x)) (success ++ newline) (
                  shown (obj_str (join (dict_view ⦃key = obj_key seed⦄ r.1.cache_dict (str_obj k))))
                  ++ newline)
              ∙ ap (λ o. contents (writing x) ++ (success ++ newline ++ (shown o ++ newline)))
                  value;
          cmds = t.cmds ∙ s.cmds;
        },
      ),
    )
