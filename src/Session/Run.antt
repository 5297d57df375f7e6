-- ===== src/Session/Run.antt =====
-- vty.c: `cmd_action_onbrk` with what it calls, `exec_hdl`, `help_hdl` and `tabl_hdl`, and the body
-- of the loop of `vty_main`. `none` as a result is undefined behaviour. Of a command's handler the
-- change of the mode, the prompts for passwords and the array of `print_haddr` are modelled; what it
-- prints is not, nor the prompts between pages, which Output has, nor the reading of the kernel's
-- answer, which Route has.

use opencli.Base.{
  ℕ, zero, suc, ◌+◌, Bool, true, false, ◌&&◌, Option, none, some, List, [], ◌∷◌, ◌==◌, ltb,
  if◌then◌else◌, Bytes, codes, length, cstr,
}
use opencli.Line.{max_cmdline}
use opencli.Line.Complete.{has_input, word_start, cmd_complete}
use opencli.History.{history_add}
use opencli.Command.{Act, find, complete, c_help, help}
use opencli.Interface.{Iface, if_lookup_by_name}
use opencli.Interface.Print.{print_haddr, haddr_size}
use opencli.Command.Table.{CmdId, cmd_enable, show_interfaces, spec, commands_init}
use opencli.Command.Mode.{
  CommandNode, HostConfig, cmd_get_cmdroot, cmd_set_vtymode, normal, enable, ask_password, handler,
}
use opencli.Lexer.{getline}
use opencli.Key.{Vty, h_ptr, put_history, reset_vty, again, broke, aborted, readline}
use opencli.Session.{Outcome, prints, executes, completes, selected}

-- Where a round of `vty_main` finds what it does not set itself: `crypt`, the configuration, what
-- stands behind the arrays `cmd_nodes` and `history`, the bytes typed at the prompts of `enable`, the
-- first, the second and the third, and `iface_list` as the kernel's answer leaves it.
pub record World : Type 0 where
  pub crypt : Bytes → Bytes → Bytes
  pub global_conf : HostConfig
  pub behind_nodes : CommandNode
  pub behind_history : Option Bytes
  pub keys : ℕ → Bytes
  pub ifaces : List Iface

-- `init_vty` sets `vty->privilege` to 0, and nothing changes it.
abbrev pub privilege : ℕ
privilege = 0

-- How a call ends: it returns, or it waits for bytes at a prompt for a password.
pub data Ran : Type 0 where
  done waits : Vty → Ran

abbrev pub ran_then : Option Ran → (Vty → Option Ran) → Option Ran
ran_then none k = none
ran_then (some (waits v)) k = some (waits v)
ran_then (some (done v)) k = k v

-- `ask_password` on the session: `on` goes on with whether it returned 0. Behind CTRL_C, for which
-- `readline` returns -1, it compares the line that `reset_vty` emptied.
unfoldable pub prompt_password : World → Bytes → Vty → (Bool → Vty → Option Ran) → Option Ran
prompt_password w keys v on = elim (readline (codes "\r") false (reset_vty v) keys) [
  | none ↦ none
  | some (again u out) ↦ some (waits u)
  | some (broke u c) ↦ on (ask_password w.crypt w.global_conf u.mode (cstr u.line.rl_buff)) u
  | some (aborted u) ↦ on (ask_password w.crypt w.global_conf u.mode (cstr u.line.rl_buff)) u
]

-- `if (failed)` behind the loop of `cmd_enable`.
unfoldable pub enabled : ℕ → Vty → Vty
enabled failed v = if failed == 0 then v else record v { mode = cmd_set_vtymode v.mode normal }

-- The loop of `cmd_enable` on the session, with `left = 2 - failed`.
unfoldable pub enable_loop : World → ℕ → ℕ → Vty → Option Ran
unfolding prompt_password enabled
enable_loop w zero failed v =
    prompt_password w (w.keys failed) v (λ ok u. some (done (enabled failed u)))
enable_loop w (suc left) failed v =
    prompt_password w (w.keys failed) v
      (λ ok u. if ok then some (done (enabled failed u)) else enable_loop w left (suc failed) u)

-- The interfaces that `show interfaces` prints; the name is `argv[2]`.
unfoldable pub printed : List Bytes → List Iface → List Iface
printed (a ∷ b ∷ name ∷ rest) l = elim (if_lookup_by_name name l) [
  | none ↦ []
  | some ifa ↦ ifa ∷ []
]
printed _ l = l

-- `print_haddr` stays within its array.
unfoldable pub all_fit : List Iface → Bool
all_fit [] = true
all_fit (ifa ∷ l) = ltb (length (print_haddr ifa.haddr)) haddr_size && all_fit l

-- `match->handler(vty)`, as far as it works on the session. The others only change the mode, or
-- print.
unfoldable pub run_handler : World → List Bytes → CmdId → Vty → Option Ran
unfolding enable_loop all_fit printed
run_handler w argv cmd_enable v =
    enable_loop w 2 0 (record v { mode = cmd_set_vtymode v.mode enable })
run_handler w argv show_interfaces v =
    if all_fit (printed argv w.ifaces) then some (done v) else none
run_handler w argv n v =
    some (done (record v { mode = handler w.crypt w.global_conf n (λ k. []) v.mode }))

-- The cases of the switch, with `cmd_execute` and `cmd_complete`. A name that `rl_buff` has no room for
-- is written behind it.
unfoldable pub carry_out : World → List Bytes → Outcome → Vty → Option Ran
unfolding run_handler
carry_out w argv (prints out) v = some (done v)
carry_out w argv (executes n) v = run_handler w argv n v
carry_out w argv (completes n) v =
    if ltb (word_start v.line.rl_buff v.line.rl_ptr + length (spec n).cmda + 1) max_cmdline
    then some (done (record v { line = cmd_complete v.line (spec n).cmda }))
    else none

unfoldable pub cmd_action_onbrk : World → Act → List Bytes → Vty → Option Ran
unfolding carry_out
cmd_action_onbrk w act argv v =
    elim (selected privilege act argv (cstr v.line.rl_buff)
      (commands_init (cmd_get_cmdroot w.behind_nodes v.mode))) [
        | none ↦ none
        | some o ↦ carry_out w argv o v
      ]

unfoldable pub exec_hdl : World → List Bytes → Vty → Option Ran
unfolding cmd_action_onbrk
exec_hdl w [] v = some (done (reset_vty v))
exec_hdl w (arg ∷ rest) v = elim (history_add w.behind_history (h_ptr v) (cstr v.line.rl_buff)) [
  | none ↦ none
  | some r ↦
      ran_then (cmd_action_onbrk w find (arg ∷ rest) (put_history v r.0 v.line))
        (λ u. some (done (reset_vty u)))
]

abbrev pub has_words : List Bytes → Bool
has_words [] = false
has_words (arg ∷ rest) = true

unfoldable pub help_hdl : World → List Bytes → Vty → Option Ran
help_hdl w argv v =
    if has_words argv && has_input v.line
    then cmd_action_onbrk w c_help argv v
    else cmd_action_onbrk w help argv v

unfoldable pub tabl_hdl : World → List Bytes → Vty → Option Ran
tabl_hdl w argv v =
    if has_words argv && has_input v.line then cmd_action_onbrk w complete argv v else some (done v)

-- The cursor at the end, and `old_ptr` at the start.
abbrev pub line_end : Vty → Vty
line_end v = record v { line = record v.line { rl_ptr = v.line.rl_index } }

abbrev pub redraw : Vty → Vty
redraw v = record v { line = record v.line { old_ptr = 0 } }

-- The body of the loop of `vty_main` behind `readline`, which ended at the byte `c`.
unfoldable pub on_break_char : World → ℕ → Vty → Option Ran
on_break_char w c v =
    let at_end = line_end v in
    let argv = getline (cstr v.line.rl_buff) in
    ran_then
      (if c == b'\r'
        then exec_hdl w argv at_end
        else if c == b'\t'
        then tabl_hdl w argv at_end
        else if c == b'?'
        then help_hdl w argv at_end
        else some (done at_end))
      (λ u. some (done (redraw u)))
