-- ===== src/Command/Table/Names.antt =====
-- The lists that `commands_init` of commands.c builds.
use opencli.Base.{ℕ, ◌≡◌, refl, leb, List, [], ◌∷◌, if◌then◌else◌, Bool-cases, inl, inr, All}
use opencli.Command.{cmd_register, cmd_is_completion}
use opencli.Command.Register.{IsSorted, cmd_register-IsSorted}
use opencli.Command.Find.{candidates}
use opencli.Command.Table.{
  CmdId, cmd_show, show_run, show_run_interface, show_ip, show_interfaces, cmd_clear, clr_counters,
  show_debugging, show_history, show_clock, show_users, cmd_debug, debug_h225, debug_h245,
  debug_gktmp, cmd_help, help_editline, cmd_enable, cmd_exit, exit_config, cmd_config,
  config_interface, exit_config_interface, spec, Head, exec_mode, config_mode, interf_mode,
  child_lst, same_head, Lists, register, register_all, init_calls, no_commands, commands_init,
}

register-AreSorted :
    (h : Head) (cmd : CmdId) (lists : Lists)
    → ((k : Head) → IsSorted spec (lists k))
    → (k : Head) → IsSorted spec (register h cmd lists k)
unfolding register
register-AreSorted h cmd lists sorted k = elim (Bool-cases (same_head h k)) [
  | inl e ↦ rw e (cmd_register-IsSorted spec cmd (lists h) (sorted h))
  | inr e ↦ elim (Bool-cases (same_head (child_lst cmd) k)) [
    | inl f ↦ rw (e, f) tt
    | inr f ↦ rw (e, f) (sorted k)
  ]
]

register_all-AreSorted :
    (calls : List (Head × CmdId)) (lists : Lists)
    → ((k : Head) → IsSorted spec (lists k))
    → (k : Head) → IsSorted spec (register_all calls lists k)
register_all-AreSorted [] lists sorted k = sorted k
register_all-AreSorted (call ∷ calls) lists sorted k =
    register_all-AreSorted calls (register call.0 call.1 lists)
      (register-AreSorted call.0 call.1 lists sorted) k

-- Every list that `commands_init` leaves, of a mode or below a command, is in the order of the
-- names.
pub commands_init-IsSorted : (h : Head) → IsSorted spec (commands_init h)
unfolding commands_init
commands_init-IsSorted h = register_all-AreSorted init_calls no_commands (λ k. tt) h

-- `init_vty` sets `vty->privilege` to 0, and nothing changes it.
abbrev pub vty_privilege : ℕ
vty_privilege = 0

-- The commands of a list that a session may run.
abbrev pub visible : List CmdId → List CmdId
visible [] = []
visible (n ∷ lst) = if leb (spec n).privilege vty_privilege then n ∷ visible lst else visible lst

-- The name of `n`, typed in full, is a completion of no other command of the list.
abbrev pub IsOwnName : List CmdId → CmdId → Type 0
IsOwnName lst n = candidates spec vty_privilege (spec n).cmda lst ≡ n ∷ []

-- In every list that `commands_init` leaves, the full name of a command that a session may run
-- names that command alone.
pub commands_init-IsOwnName :
    (h : Head) → All (IsOwnName (commands_init h)) (visible (commands_init h))
unfolding commands_init register cmd_register cmd_is_completion
commands_init-IsOwnName exec_mode = (refl, (refl, (refl, (refl, (refl, (refl, (refl, tt)))))))
commands_init-IsOwnName config_mode = (refl, (refl, tt))
commands_init-IsOwnName interf_mode = (refl, tt)
commands_init-IsOwnName (child_lst cmd_show) =
    (refl, (refl, (refl, (refl, (refl, (refl, (refl, tt)))))))
commands_init-IsOwnName (child_lst show_run) = (refl, tt)
commands_init-IsOwnName (child_lst show_run_interface) = tt
commands_init-IsOwnName (child_lst show_ip) = tt
commands_init-IsOwnName (child_lst show_interfaces) = tt
commands_init-IsOwnName (child_lst cmd_clear) = (refl, tt)
commands_init-IsOwnName (child_lst clr_counters) = tt
commands_init-IsOwnName (child_lst show_debugging) = tt
commands_init-IsOwnName (child_lst show_history) = tt
commands_init-IsOwnName (child_lst show_clock) = tt
commands_init-IsOwnName (child_lst show_users) = tt
commands_init-IsOwnName (child_lst cmd_debug) = (refl, (refl, (refl, tt)))
commands_init-IsOwnName (child_lst debug_h225) = tt
commands_init-IsOwnName (child_lst debug_h245) = tt
commands_init-IsOwnName (child_lst debug_gktmp) = tt
commands_init-IsOwnName (child_lst cmd_help) = tt
commands_init-IsOwnName (child_lst help_editline) = tt
commands_init-IsOwnName (child_lst cmd_enable) = tt
commands_init-IsOwnName (child_lst cmd_exit) = tt
commands_init-IsOwnName (child_lst exit_config) = tt
commands_init-IsOwnName (child_lst cmd_config) = tt
commands_init-IsOwnName (child_lst config_interface) = tt
commands_init-IsOwnName (child_lst exit_config_interface) = tt
