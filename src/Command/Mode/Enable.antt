-- ===== src/Command/Mode/Enable.antt =====
-- `cmd_enable` of commands.c.
use opencli.Base.{
  ℕ, zero, suc, ◌≤◌, ◌≡◌, refl, ◌↔◌, ◌⊎◌, true, false, [], Bool-cases, inl, inr, arith, Bytes,
  str_eq_iff, codes,
}
use opencli.Command.{cmd_finder, scan, more_args, cmd_register, cmd_is_completion}
use opencli.Command.Table.{register, commands_init}
use opencli.Command.Mode.{
  normal, enable, CommandNode, HostConfig, cmd_set_vtymode, ask_password, ask_again, cmd_enable_hdl,
  handler, run_line,
}

module _ (crypt : Bytes → Bytes → Bytes) (global_conf : HostConfig) where
  pub enable_cases :
      (typed : ℕ → Bytes) (mode : ℕ)
      → ((ask_password crypt global_conf enable (typed 0) ≡ true)
          × (cmd_enable_hdl crypt global_conf typed mode ≡ enable))
        ⊎ ((ask_password crypt global_conf enable (typed 0) ≡ false)
            × (cmd_enable_hdl crypt global_conf typed mode ≡ normal))
  unfolding cmd_enable_hdl ask_again cmd_set_vtymode
  enable_cases typed mode = elim (Bool-cases (ask_password crypt global_conf enable (typed 0))) [
    | inl e ↦ inl (e, rw e)
    | inr e ↦ elim (Bool-cases (ask_password crypt global_conf enable (typed 1))) [
      | inl f ↦ inr (e, rw (e, f))
      | inr f ↦ inr (e, rw (e, f))
    ]
  ]

  ask_password_iff :
      global_conf.encrypt ≡ false
      → (typed : Bytes)
      → (ask_password crypt global_conf enable typed ≡ true) ↔ (typed ≡ global_conf.ena_passwd)
  unfolding ask_password
  ask_password_iff plain typed = rw plain (str_eq_iff typed global_conf.ena_passwd)

  -- Without encryption, `enable` enters the privileged mode exactly when the first password typed
  -- is the configured one, from any mode; the passwords that its further prompts ask for play no
  -- part.
  pub cmd_enable_hdl_iff :
      global_conf.encrypt ≡ false
      → (typed : ℕ → Bytes) (mode : ℕ)
      → (cmd_enable_hdl crypt global_conf typed mode ≡ enable) ↔ (typed 0 ≡ global_conf.ena_passwd)
  cmd_enable_hdl_iff plain typed mode =
      let asked = ask_password_iff plain (typed 0) in
      elim (enable_cases typed mode) [
        | inl (ok, e) ↦ (λ h. asked.0 ok, λ h. e)
        | inr (bad, e) ↦ (λ h. absurd (omega arith), λ h. absurd (ground (arith, asked.1 h)))
      ]

  -- `configure` and `exit` lead a session from the unprivileged mode or the privileged one to the
  -- privileged one, whatever the passwords are.
  pub run_line-exit :
      (beyond : CommandNode) (typed : ℕ → Bytes) (mode : ℕ)
      → mode ≤ enable
      → run_line crypt global_conf beyond 0
          (codes "exit")
          []
          typed
          (run_line crypt global_conf beyond 0 (codes "configure") [] typed mode)
        ≡ enable
  unfolding run_line cmd_finder scan more_args cmd_is_completion commands_init register cmd_register
      handler cmd_set_vtymode
  run_line-exit beyond typed zero h = refl
  run_line-exit beyond typed (suc zero) h = refl
  run_line-exit beyond typed (suc (suc mode)) h = absurd (omega arith)
