-- ===== src/Command/Tests.antt =====
-- The commands of commands.c: lines that a user may type.
use opencli.Base.{
  ℕ, zero, suc, ◌≡◌, ◌≢◌, ◌↔◌, refl, false, Option, none, some, List, [], ◌∷◌, arith, Bytes, codes,
  All,
}
use opencli.Command.{
  Act, find, c_help, CmdState, found, invalid, ambiguous, incomplete, cmd_is_completion,
  cmd_register, scan, more_args, cmd_finder,
}
use opencli.Command.Find.{Resolves, cmd_finder_iff}
use opencli.Command.Help.{Visible, cmd_finder-Visible}
use opencli.Command.Register.{IsSorted, cmd_register-IsSorted}
use opencli.Command.Table.{
  CmdId, cmd_show, show_interfaces, show_clock, cmd_help, cmd_enable, spec, exec_mode,
  commands_init, children, register,
}
use opencli.Command.Table.Names.{commands_init-IsOwnName, IsOwnName, visible}
use opencli.Command.Mode.{
  normal, enable, config, CommandNode, HostConfig, ask_password, ask_again, cmd_set_vtymode,
  cmd_enable_hdl, run_line,
}
use opencli.Command.Mode.Enable.{cmd_enable_hdl_iff}
use opencli.Command.Mode.Transition.{Transition, run_line-Transition}

abbrev exec : List CmdId
exec = commands_init exec_mode

abbrev run : Act → Bytes → List Bytes → CmdState × Option CmdId
run act arg rest = cmd_finder spec children act 0 arg rest exec

test_show_clock : run find (codes "sh") (codes "cl" ∷ []) ≡ (found, some show_clock)
unfolding cmd_finder scan more_args cmd_is_completion commands_init register cmd_register
test_show_clock = refl

test_ambiguous : run find (codes "e") [] ≡ (ambiguous, some cmd_enable)
unfolding cmd_finder scan more_args cmd_is_completion commands_init register cmd_register
test_ambiguous = refl

test_incomplete :
    run find (codes "show") (codes "interfaces" ∷ []) ≡ (incomplete, some show_interfaces)
unfolding cmd_finder scan more_args cmd_is_completion commands_init register cmd_register
test_incomplete = refl

test_editline : run find (codes "help") (codes "editline" ∷ []) ≡ (invalid, none)
unfolding cmd_finder scan more_args cmd_is_completion commands_init register cmd_register
test_editline = refl

find_is_whole : find ≢ c_help
find_is_whole e = absurd (ground arith)

cmd_finder_iff_example :
    (cmd_finder spec children find 0 (codes "sh") (codes "cl" ∷ []) exec ≡ (found, some show_clock))
    ↔ Resolves spec children find 0 (codes "sh") (codes "cl" ∷ []) exec show_clock
cmd_finder_iff_example =
    cmd_finder_iff spec children find 0 find_is_whole (codes "sh") (codes "cl" ∷ []) exec show_clock

cmd_finder-Visible_example :
    Visible spec children 0 (cmd_finder spec children find 0 (codes "e") [] exec).1
cmd_finder-Visible_example = cmd_finder-Visible spec children find 0 (codes "e") [] exec

two_commands-IsSorted : IsSorted spec (cmd_enable ∷ cmd_show ∷ [])
two_commands-IsSorted = ((refl, tt), (tt, tt))

cmd_register-IsSorted_example :
    IsSorted spec (cmd_register spec cmd_help (cmd_enable ∷ cmd_show ∷ []))
cmd_register-IsSorted_example =
    cmd_register-IsSorted spec cmd_help (cmd_enable ∷ cmd_show ∷ []) two_commands-IsSorted

commands_init-IsOwnName_example : All (IsOwnName exec) (visible exec)
commands_init-IsOwnName_example = commands_init-IsOwnName exec_mode

-- `global_conf`, without encryption.
abbrev conf : HostConfig
conf = record {
  encrypt = false;
  username = codes "cisco";
  passwd = codes "cisco";
  ena_passwd = codes "cisco";
}

abbrev no_crypt : Bytes → Bytes → Bytes
no_crypt key salt = key

abbrev nothing : CommandNode
nothing = record { mode = 0; cmd_ptr = exec_mode; prompt = [] }

-- The right password at the second prompt only.
abbrev second : ℕ → Bytes
second zero = codes "cosci"
second (suc k) = codes "cisco"

test_second : cmd_enable_hdl no_crypt conf second normal ≡ normal
unfolding cmd_enable_hdl ask_again ask_password cmd_set_vtymode
test_second = refl

cmd_enable_hdl_iff_example :
    (cmd_enable_hdl no_crypt conf second normal ≡ enable) ↔ (second 0 ≡ codes "cisco")
cmd_enable_hdl_iff_example = cmd_enable_hdl_iff no_crypt conf refl second normal

run_line-Transition_example :
    Transition
      (ask_password no_crypt conf enable (second 0))
      config
      (run_line no_crypt conf nothing 0 (codes "interface") [] second config)
run_line-Transition_example =
    run_line-Transition no_crypt conf second nothing 0 (codes "interface") [] config (omega arith)
