-- ===== src/Command/Mode.antt =====
-- The modes of commands.c, the handlers that change the mode, and what runs them:
-- `ask_password` and the parts of `cmd_action_onbrk` and `cmd_execute` (vty.c) that a carriage
-- return takes.
pub mod Enable
pub mod Transition
use opencli.Base.{
  ℕ, zero, suc, ◌≤◌, ◌≡◌, refl, Bool, true, false, not, Option, none, some, List, [], ◌∷◌, ◌==◌,
  leb, if◌then◌else◌, Bytes, codes, get_or, str_eq,
}
use opencli.Command.{find, CmdState, found, invalid, ambiguous, incomplete, cmd_finder}
use opencli.Command.Table.{
  CmdId, cmd_enable, cmd_exit, exit_config, cmd_config, config_interface, exit_config_interface,
  spec, has_handler, Head, exec_mode, config_mode, interf_mode, child_lst, commands_init, children,
}

-- `VTY_MODE`, whose values index `cmd_nodes`
abbrev pub normal : ℕ
normal = 0

abbrev pub enable : ℕ
enable = 1

abbrev pub config : ℕ
config = 2

abbrev pub interf : ℕ
interf = 3

abbrev pub max_mode : ℕ
max_mode = interf

-- `struct command_nodes`
pub record CommandNode : Type 0 where
  pub mode : ℕ
  pub cmd_ptr : Head
  pub prompt : Bytes

abbrev pub cmd_nodes : List CommandNode
cmd_nodes =
    record { mode = normal; cmd_ptr = exec_mode; prompt = codes ">" }
    ∷ record { mode = enable; cmd_ptr = exec_mode; prompt = codes "#" }
    ∷ record { mode = config; cmd_ptr = config_mode; prompt = codes "(config)#" }
    ∷ record { mode = interf; cmd_ptr = interf_mode; prompt = codes "(config-if)#" }
    ∷ []

-- What a read behind `cmd_nodes` gives, whatever it is.
module _ (beyond : CommandNode) where
  abbrev pub cmd_get_cmdroot : ℕ → Head
  cmd_get_cmdroot mode = (get_or cmd_nodes mode beyond).cmd_ptr

  abbrev pub cmd_mode_prompt : ℕ → Bytes
  cmd_mode_prompt mode = (get_or cmd_nodes mode beyond).prompt

-- `newmode >= MIN_MODE` holds of every number. The message goes to the standard output.
unfoldable pub cmd_set_vtymode : ℕ → ℕ → ℕ
cmd_set_vtymode mode newmode = if leb newmode max_mode then newmode else mode

-- `struct host_config`
pub record HostConfig : Type 0 where
  pub encrypt : Bool
  pub username : Bytes
  pub passwd : Bytes
  pub ena_passwd : Bytes

-- `crypt` of the C library, on the key and the salt.
module _ (crypt : Bytes → Bytes → Bytes) (global_conf : HostConfig) where
  -- `ask_password(vty) == 0`, where `typed` is what `readline` leaves in `rl_buff`
  unfoldable pub ask_password : ℕ → Bytes → Bool
  ask_password mode typed =
      let passwd = if mode == 0 then global_conf.passwd else global_conf.ena_passwd in
      if global_conf.encrypt then str_eq (crypt typed passwd) passwd else str_eq typed passwd

  -- The loop of `cmd_enable` with `left = 2 - failed`. It gives `failed` at the end. The answers to
  -- the prompts are `typed 0`, `typed 1`, ...
  unfoldable pub ask_again : ℕ → (ℕ → Bytes) → ℕ → ℕ → ℕ
  ask_again mode typed zero failed = failed
  ask_again mode typed (suc left) failed =
      let again = ask_again mode typed left (suc failed) in
      if ask_password mode (typed failed) then failed else again

  -- The handler of `enable`.
  unfoldable pub cmd_enable_hdl : (ℕ → Bytes) → ℕ → ℕ
  cmd_enable_hdl typed mode =
      let raised = cmd_set_vtymode mode enable in
      let failed = ask_again raised typed 2 0 in
      if failed == 0 then raised else cmd_set_vtymode raised normal

  -- `match->handler(vty)`: what it makes of `vty->mode`
  unfoldable pub handler : CmdId → (ℕ → Bytes) → ℕ → ℕ
  handler cmd_enable typed mode = cmd_enable_hdl typed mode
  handler cmd_exit typed mode = cmd_set_vtymode mode normal
  handler exit_config typed mode = cmd_set_vtymode mode enable
  handler cmd_config typed mode = cmd_set_vtymode mode config
  handler config_interface typed mode = cmd_set_vtymode mode interf
  handler exit_config_interface typed mode = cmd_set_vtymode mode config
  handler _ typed mode = mode

  -- `cmd_execute`: without a handler it prints a hint.
  abbrev pub cmd_execute : CmdId → (ℕ → Bytes) → ℕ → ℕ
  cmd_execute match typed mode = if has_handler match then handler match typed mode else mode

  -- `cmd_action_onbrk(vty, FIND)` on a line with words
  unfoldable pub run_line : CommandNode → ℕ → Bytes → List Bytes → (ℕ → Bytes) → ℕ → ℕ
  run_line beyond privilege arg rest typed mode =
      let root = commands_init (cmd_get_cmdroot beyond mode) in
      let (ret, match) = cmd_finder spec children find privilege arg rest root in
      elim ret [
        | found ↦ elim match [ none ↦ mode | some n ↦ cmd_execute n typed mode ]
        | invalid ↦ mode
        | ambiguous ↦ mode
        | incomplete ↦ mode
      ]
