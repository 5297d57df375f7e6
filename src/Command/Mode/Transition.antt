-- ===== src/Command/Mode/Transition.antt =====
-- How the commands of commands.c move a session between its modes.
use opencli.Base.{
  ℕ, zero, suc, ◌≤◌, ◌≡◌, Bool, true, Option, none, some, List, inl, inr, arith, Bytes, All,
}
use opencli.Command.{
  find, CmdState, found, invalid, ambiguous, incomplete, cmd_finder, cmd_register,
}
use opencli.Command.Within.{OfResult, cmd_finder_within}
use opencli.Command.Table.{
  CmdId, cmd_show, show_run, show_run_interface, show_ip, show_interfaces, cmd_clear, clr_counters,
  show_debugging, show_history, show_clock, show_users, cmd_debug, debug_h225, debug_h245,
  debug_gktmp, cmd_help, help_editline, cmd_enable, cmd_exit, exit_config, cmd_config,
  config_interface, exit_config_interface, exec_mode, spec, commands_init, children, register,
}
use opencli.Command.Mode.{
  normal, enable, config, interf, max_mode, CommandNode, HostConfig, cmd_get_cmdroot,
  cmd_set_vtymode, ask_password, handler, cmd_execute, run_line,
}
use opencli.Command.Mode.Enable.{enable_cases}

-- The moves of a session, where `right` says whether the first password typed at a prompt is the
-- one of the privileged mode.
pub data Transition (right : Bool) : ℕ → ℕ → Type 0 where
  same : {mode : ℕ} → Transition right mode mode
  raise : {mode : ℕ} → mode ≤ enable → right ≡ true → Transition right mode enable
  lower : {mode : ℕ} → mode ≤ enable → Transition right mode normal
  configure : {mode : ℕ} → mode ≤ enable → Transition right mode config
  leave_config : Transition right config enable
  select : Transition right config interf
  leave_interf : Transition right interf config

module _ (crypt : Bytes → Bytes → Bytes) (global_conf : HostConfig) (typed : ℕ → Bytes) where
  abbrev pub right : Bool
  right = ask_password crypt global_conf enable (typed 0)

  abbrev Moves : ℕ → CmdId → Type 0
  Moves mode n = Transition right mode (cmd_execute crypt global_conf n typed mode)

  children-Moves : (mode : ℕ) (n : CmdId) → All (Moves mode) (children n)
  unfolding handler commands_init register cmd_register
  children-Moves mode cmd_show = (same, (same, (same, (same, (same, (same, (same, tt)))))))
  children-Moves mode show_run = (same, tt)
  children-Moves mode show_run_interface = tt
  children-Moves mode show_ip = tt
  children-Moves mode show_interfaces = tt
  children-Moves mode cmd_clear = (same, tt)
  children-Moves mode clr_counters = tt
  children-Moves mode show_debugging = tt
  children-Moves mode show_history = tt
  children-Moves mode show_clock = tt
  children-Moves mode show_users = tt
  children-Moves mode cmd_debug = (same, (same, (same, tt)))
  children-Moves mode debug_h225 = tt
  children-Moves mode debug_h245 = tt
  children-Moves mode debug_gktmp = tt
  children-Moves mode cmd_help = (same, tt)
  children-Moves mode help_editline = tt
  children-Moves mode cmd_enable = tt
  children-Moves mode cmd_exit = tt
  children-Moves mode exit_config = tt
  children-Moves mode cmd_config = tt
  children-Moves mode config_interface = tt
  children-Moves mode exit_config_interface = tt

  enable-Moves : (mode : ℕ) → mode ≤ enable → Moves mode cmd_enable
  unfolding handler
  enable-Moves mode h = elim (enable_cases crypt global_conf typed mode) [
    | inl (ok, e) ↦ rw e (raise h ok)
    | inr (bad, e) ↦ rw e (lower h)
  ]

  exec-Moves : (mode : ℕ) → mode ≤ enable → All (Moves mode) (commands_init exec_mode)
  unfolding handler cmd_set_vtymode commands_init register cmd_register
  exec-Moves mode h =
      (same, (configure h, (same, (enable-Moves mode h, (lower h, (same, (same, tt)))))))

  root-Moves :
      (beyond : CommandNode) (mode : ℕ)
      → mode ≤ max_mode
      → All (Moves mode) (commands_init (cmd_get_cmdroot beyond mode))
  unfolding handler cmd_set_vtymode commands_init register cmd_register
  root-Moves beyond zero h = exec-Moves normal (omega arith)
  root-Moves beyond (suc zero) h = exec-Moves enable (omega arith)
  root-Moves beyond (suc (suc zero)) h = (leave_config, (select, tt))
  root-Moves beyond (suc (suc (suc zero))) h = (leave_interf, tt)
  root-Moves beyond (suc (suc (suc (suc mode)))) h = absurd (omega arith)

  result-Moves :
      (mode : ℕ) (ret : CmdState) (match : Option CmdId)
      → OfResult spec children (Moves mode) match
      → Transition right mode (elim ret [
        | found ↦ elim match [ none ↦ mode | some n ↦ cmd_execute crypt global_conf n typed mode ]
        | invalid ↦ mode
        | ambiguous ↦ mode
        | incomplete ↦ mode
      ])
  result-Moves mode found none h = same
  result-Moves mode found (some n) h = h
  result-Moves mode invalid match h = same
  result-Moves mode ambiguous match h = same
  result-Moves mode incomplete match h = same

  -- Whatever line a session in a valid mode runs, it stays in its mode or makes one of these
  -- moves: `enable` with the right password from the two command modes, down, into the
  -- configuration from either of them, out of it into the privileged mode, and between it and the
  -- configuration of an interface.
  pub run_line-Transition :
      (beyond : CommandNode) (privilege : ℕ) (arg : Bytes) (rest : List Bytes) (mode : ℕ)
      → mode ≤ max_mode
      → Transition right mode (run_line crypt global_conf beyond privilege arg rest typed mode)
  unfolding run_line
  run_line-Transition beyond privilege arg rest mode h =
      let root = commands_init (cmd_get_cmdroot beyond mode) in
      let r = cmd_finder spec children find privilege arg rest root in
      result-Moves mode r.0 r.1 (
        cmd_finder_within spec children (Moves mode) (λ n _. children-Moves mode n) find privilege
          arg rest root (root-Moves beyond mode h))

  Transition-valid :
      {mode newmode : ℕ} → mode ≤ max_mode → Transition right mode newmode → newmode ≤ max_mode
  Transition-valid h same = h
  Transition-valid h (raise k ok) = omega arith
  Transition-valid h (lower k) = omega arith
  Transition-valid h (configure k) = omega arith
  Transition-valid h leave_config = omega arith
  Transition-valid h select = omega arith
  Transition-valid h leave_interf = omega arith

  -- A session never leaves the modes that `cmd_nodes` lists.
  pub run_line_valid :
      (beyond : CommandNode) (privilege : ℕ) (arg : Bytes) (rest : List Bytes) (mode : ℕ)
      → mode ≤ max_mode
      → run_line crypt global_conf beyond privilege arg rest typed mode ≤ max_mode
  run_line_valid beyond privilege arg rest mode h =
      Transition-valid h (run_line-Transition beyond privilege arg rest mode h)
