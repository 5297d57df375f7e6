-- ===== src/Command/Table.antt =====
-- The commands of commands.c: what each CMD_DEFINE and CMD_DEFINE_FN declares, and
-- `commands_init`, which registers them.
pub mod Names
use opencli.Base.{
  ℕ, zero, suc, ◌≡◌, refl, Bool, true, false, List, [], ◌∷◌, ◌==◌, if◌then◌else◌, Bytes, codes,
}
use opencli.Command.{Spec, cmd_register}

-- The declared commands, by their C names.
pub data CmdId : Type 0 where
  cmd_show show_run show_run_interface show_ip show_interfaces : CmdId
  cmd_clear clr_counters show_debugging show_history show_clock show_users : CmdId
  cmd_debug debug_h225 debug_h245 debug_gktmp cmd_help help_editline : CmdId
  cmd_enable cmd_exit exit_config cmd_config config_interface exit_config_interface : CmdId

abbrev pub spec : CmdId → Spec
spec cmd_show = record {
  cmda = codes "show";
  summary = codes "Show running system information";
  privilege = 0;
  final = false;
}
spec show_run = record {
  cmda = codes "running-config";
  summary = codes "Current operating configuration";
  privilege = 0;
  final = false;
}
spec show_run_interface = record {
  cmda = codes "interface";
  summary = codes "Show interface configuration";
  privilege = 0;
  final = false;
}
spec show_ip = record {
  cmda = codes "ip";
  summary = codes "IP information";
  privilege = 0;
  final = true;
}
spec show_interfaces = record {
  cmda = codes "interfaces";
  summary = codes "Interface status and configuration";
  privilege = 0;
  final = true;
}
spec cmd_clear = record {
  cmda = codes "clear";
  summary = codes "Reset functions";
  privilege = 0;
  final = false;
}
spec clr_counters = record {
  cmda = codes "counters";
  summary = codes "Clear counters on one or all interfaces";
  privilege = 0;
  final = false;
}
spec show_debugging = record {
  cmda = codes "debugging";
  summary = codes "State of each debugging option";
  privilege = 0;
  final = false;
}
spec show_history = record {
  cmda = codes "history";
  summary = codes "Display the session command history";
  privilege = 0;
  final = false;
}
spec show_clock = record {
  cmda = codes "clock";
  summary = codes "Display the system clock";
  privilege = 0;
  final = false;
}
spec show_users = record {
  cmda = codes "users";
  summary = codes "Display information about terminal lines";
  privilege = 0;
  final = false;
}
spec cmd_debug = record {
  cmda = codes "debug";
  summary = codes "Debugging functions (see also 'undebug')";
  privilege = 0;
  final = false;
}
spec debug_h225 = record {
  cmda = codes "h225";
  summary = codes "H.225 Library Debugging";
  privilege = 0;
  final = true;
}
spec debug_h245 = record {
  cmda = codes "h245";
  summary = codes "H.245 Library Debugging";
  privilege = 0;
  final = true;
}
spec debug_gktmp = record {
  cmda = codes "GKTMP";
  summary = codes "GKTMP Library Debugging";
  privilege = 0;
  final = true;
}
spec cmd_help = record {
  cmda = codes "help";
  summary = codes "Description of the interactive help system";
  privilege = 0;
  final = false;
}
spec help_editline = record {
  cmda = codes "editline";
  summary = codes "Editline functions.";
  privilege = 1;
  final = false;
}
spec cmd_enable = record {
  cmda = codes "enable";
  summary = codes "Turn on privileged commands";
  privilege = 0;
  final = false;
}
spec cmd_exit = record {
  cmda = codes "exit";
  summary = codes "Exit from the EXEC";
  privilege = 0;
  final = false;
}
spec exit_config = record {
  cmda = codes "exit";
  summary = codes "Exit from configure mode";
  privilege = 0;
  final = false;
}
spec cmd_config = record {
  cmda = codes "configure";
  summary = codes "Enter configuration mode";
  privilege = 0;
  final = false;
}
spec config_interface = record {
  cmda = codes "interface";
  summary = codes "Select an interface to configure";
  privilege = 0;
  final = false;
}
spec exit_config_interface = record {
  cmda = codes "exit";
  summary = codes "Exit from interface configuration mode";
  privilege = 0;
  final = false;
}

-- `handler` is not NULL.
abbrev pub has_handler : CmdId → Bool
has_handler cmd_show = false
has_handler show_run_interface = false
has_handler cmd_clear = false
has_handler cmd_debug = false
has_handler _ = true

-- The heads of lists: the three of the modes, and the `child_lst` of each command.
pub data Head : Type 0 where
  exec_mode config_mode interf_mode : Head
  child_lst : CmdId → Head

abbrev cmd_number : CmdId → ℕ
cmd_number cmd_show = 0
cmd_number show_run = 1
cmd_number show_run_interface = 2
cmd_number show_ip = 3
cmd_number show_interfaces = 4
cmd_number cmd_clear = 5
cmd_number clr_counters = 6
cmd_number show_debugging = 7
cmd_number show_history = 8
cmd_number show_clock = 9
cmd_number show_users = 10
cmd_number cmd_debug = 11
cmd_number debug_h225 = 12
cmd_number debug_h245 = 13
cmd_number debug_gktmp = 14
cmd_number cmd_help = 15
cmd_number help_editline = 16
cmd_number cmd_enable = 17
cmd_number cmd_exit = 18
cmd_number exit_config = 19
cmd_number cmd_config = 20
cmd_number config_interface = 21
cmd_number exit_config_interface = 22

-- Two heads are the same address.
abbrev pub same_head : Head → Head → Bool
same_head exec_mode exec_mode = true
same_head config_mode config_mode = true
same_head interf_mode interf_mode = true
same_head (child_lst a) (child_lst b) = cmd_number a == cmd_number b
same_head _ _ = false

-- The lists in memory.
abbrev pub Lists : Type 0
Lists = Head → List CmdId

abbrev pub put : Head → List CmdId → Lists → Lists
put h lst lists = λ k. if same_head h k then lst else lists k

-- `cmd_register(h, cmd)`, which also empties the children of `cmd`.
unfoldable pub register : Head → CmdId → Lists → Lists
register h cmd lists = put h (cmd_register spec cmd (lists h)) (put (child_lst cmd) [] lists)

abbrev pub register_all : List (Head × CmdId) → Lists → Lists
register_all [] lists = lists
register_all (call ∷ calls) lists = register_all calls (register call.0 call.1 lists)

-- The calls of `commands_init`.
abbrev pub init_calls : List (Head × CmdId)
init_calls =
    (exec_mode, cmd_enable)
    ∷ (exec_mode, cmd_config)
    ∷ (exec_mode, cmd_exit)
    ∷ (exec_mode, cmd_show)
    ∷ (child_lst cmd_show, show_run)
    ∷ (child_lst show_run, show_run_interface)
    ∷ (child_lst cmd_show, show_ip)
    ∷ (child_lst cmd_show, show_interfaces)
    ∷ (child_lst cmd_show, show_debugging)
    ∷ (child_lst cmd_show, show_history)
    ∷ (child_lst cmd_show, show_clock)
    ∷ (child_lst cmd_show, show_users)
    ∷ (exec_mode, cmd_clear)
    ∷ (child_lst cmd_clear, clr_counters)
    ∷ (exec_mode, cmd_debug)
    ∷ (child_lst cmd_debug, debug_h225)
    ∷ (child_lst cmd_debug, debug_h245)
    ∷ (child_lst cmd_debug, debug_gktmp)
    ∷ (exec_mode, cmd_help)
    ∷ (child_lst cmd_help, help_editline)
    ∷ (config_mode, exit_config)
    ∷ (config_mode, config_interface)
    ∷ (interf_mode, exit_config_interface)
    ∷ []

-- LIST_HEAD, and the static `child_lst`: all lists are empty before.
abbrev pub no_commands : Lists
no_commands h = []

unfoldable pub commands_init : Lists
commands_init = register_all init_calls no_commands

abbrev pub children : CmdId → List CmdId
children n = commands_init (child_lst n)
