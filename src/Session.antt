-- ===== src/Session.antt =====
-- vty.c, what a break byte of `readline` leads to: `cmd_action_onbrk` up to its switch, with its
-- messages. `none` as a result is undefined behaviour.
pub mod Print
pub mod Break
pub mod Names
pub mod Ends
pub mod Run
pub mod Handlers
pub mod Loop
pub mod Main
pub mod Login
mod Tests
use mathlib.Core.Option
use opencli.Base.{
  ℕ, zero, suc, ◌+◌, ◌-◌, Bool, true, false, not, ◌&&◌, ◌||◌, Option, none, some, List, [], ◌∷◌,
  ◌++◌, ◌==◌, ltb, leb, if◌then◌else◌, Bytes, codes, length, take, replicate, cstr,
}
use opencli.Line.{Line, max_cmdline}
use opencli.Line.Complete.{has_input, word_start, cmd_complete}
use opencli.History.{history_add}
use opencli.Command.{
  Act, find, complete, c_help, help, CmdState, found, invalid, ambiguous, incomplete, is_completion,
  cmd_finder,
}
use opencli.Interface.{Iface, if_lookup_by_name}
use opencli.Interface.Print.{print_haddr, haddr_size}
use opencli.Command.Table.{
  CmdId, cmd_enable, show_interfaces, spec, has_handler, Head, commands_init, children,
}
use opencli.Command.Mode.{
  CommandNode, HostConfig, cmd_get_cmdroot, cmd_set_vtymode, normal, enable, ask_password, handler,
}
use opencli.Lexer.{getline}
use opencli.Key.{Vty, h_ptr, put_history, reset_vty, again, broke, aborted, readline}

-- `"%-.15s%s"`, in the loop of `cmd_print_matched`
unfoldable pub print_matched : ℕ → Bytes → ℕ → List CmdId → Bytes
print_matched privilege cmd p_count [] = []
print_matched privilege cmd p_count (n ∷ lst) =
    let skip = print_matched privilege cmd p_count lst in
    let left = if p_count - 1 == 0 then 5 else p_count - 1 in
    let rest = print_matched privilege cmd left lst in
    let gap = if not (p_count == 0) then codes "\t" else codes "\r\n" in
    if ltb privilege (spec n).privilege || not (is_completion cmd (spec n).cmda)
    then skip
    else take 15 (spec n).cmda ++ (gap ++ rest)

-- `m_count` of `cmd_print_matched`
unfoldable pub count_matched : ℕ → Bytes → List CmdId → ℕ
count_matched privilege cmd [] = 0
count_matched privilege cmd (n ∷ lst) =
    let rest = count_matched privilege cmd lst in
    if ltb privilege (spec n).privilege || not (is_completion cmd (spec n).cmda)
    then rest
    else rest + 1

unfoldable pub cmd_print_matched : ℕ → Bytes → List CmdId → Bytes
cmd_print_matched privilege cmd lst =
    print_matched privilege cmd 5 lst
    ++ ((if count_matched privilege cmd lst == 0 then codes "% Unrecognized command." else [])
        ++ codes "\r\n")

-- `"  %-17s%s\r\n"`
unfoldable pub cmd_print_args : ℕ → List CmdId → Bytes
cmd_print_args privilege [] = []
cmd_print_args privilege (n ∷ lst) =
    let rest = cmd_print_args privilege lst in
    let name = (spec n).cmda in
    if leb (spec n).privilege privilege
    then codes "  "
      ++ (name
          ++ (replicate (17 - length name) b' ' ++ ((spec n).summary ++ (codes "\r\n" ++ rest))))
    else rest

-- `act == HELP || act == C_HELP`
abbrev is_help : Act → Bool
is_help help = true
is_help c_help = true
is_help _ = false

-- `cmd_err_hld`, on the string in `rl_buff`
unfoldable pub cmd_err_hld : Act → CmdState → Bytes → Bytes
cmd_err_hld act incomplete line = codes "% Incomplete command.\r\n\r\n"
cmd_err_hld act invalid line =
    if is_help act
    then codes "% Unrecognized command.\r\n"
    else replicate (10 + length line - 1) b' '
      ++ codes "^\r\n% Invalid input detected at '^' marker.\r\n\r\n"
cmd_err_hld act ambiguous line = codes "% Ambiguous command:  \"" ++ (line ++ codes "\"\r\n")
cmd_err_hld act found line = []

-- What `cmd_action_onbrk` ends in: a message, the handler of a command, or a completion.
pub data Outcome : Type 0 where
  prints : Bytes → Outcome
  executes : CmdId → Outcome
  completes : CmdId → Outcome

-- `argv[argc - 1]`
abbrev last_word : Bytes → List Bytes → Bytes
last_word arg [] = arg
last_word arg (next ∷ rest) = last_word next rest

-- The switch on a command that was found.
unfoldable pub act_on : ℕ → Act → Bytes → List Bytes → CmdId → Outcome
act_on privilege c_help arg rest match =
    prints (cmd_print_matched privilege (last_word arg rest) (children match))
act_on privilege help arg rest match = prints (cmd_print_args privilege (children match))
act_on privilege find arg rest match =
    if has_handler match
    then executes match
    else prints
        (codes "% Type \"" ++ ((spec match).cmda ++ codes " ?\" for a list of subcommands\r\n"))
act_on privilege complete arg rest match = completes match

-- `cmd_action_onbrk` behind its first test, on what `cmd_finder` answers
unfoldable pub on_found :
    ℕ → Act → Bytes → List Bytes → Bytes → CmdState × Option CmdId → Option Outcome
on_found privilege act arg rest line (found, some match) =
    some (act_on privilege act arg rest match)
on_found privilege act arg rest line (found, none) = none
on_found privilege complete arg rest line (ret, match) = some (prints [])
on_found privilege act arg rest line (ret, match) = some (prints (cmd_err_hld act ret line))

-- `cmd_action_onbrk` up to its switch. Without words only `HELP` is defined: it lists the commands of
-- the mode.
unfoldable pub selected : ℕ → Act → List Bytes → Bytes → List CmdId → Option Outcome
selected privilege help [] line root = some (prints (cmd_print_args privilege root))
selected privilege act [] line root = none
selected privilege c_help (arg ∷ []) line root =
    some (prints (cmd_print_matched privilege arg root))
selected privilege act (arg ∷ rest) line root =
    on_found privilege act arg rest line (cmd_finder spec children act privilege arg rest root)
