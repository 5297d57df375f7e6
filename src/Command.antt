-- ===== src/Command.antt =====
-- commands.c and commands.h: the command lists, `cmd_register`, `cmd_is_completion` and
-- `cmd_finder`. A command is whatever `C` is; `spec` gives its fields, and `children` its
-- `child_lst`.
pub mod Completion
pub mod Find
pub mod Help
pub mod Mode
pub mod Register
pub mod Table
pub mod Within
mod Tests
use opencli.Base.{
  ℕ, zero, suc, ◌+◌, ◌-◌, Bool, true, false, not, ◌&&◌, ◌||◌, Option, none, some, List, [], ◌∷◌,
  ◌++◌, ◌==◌, ltb, leb, if◌then◌else◌, Bytes, str_lt,
}

-- `enum ACT_ON_FINDER`
pub data Act : Type 0 where
  find complete c_help help : Act

-- `enum CMD_STATE`
pub data CmdState : Type 0 where
  found invalid ambiguous incomplete : CmdState

-- The fields of `CLI_CMD` besides the links and the handler.
pub record Spec : Type 0 where
  pub cmda : Bytes
  pub summary : Bytes
  pub privilege : ℕ
  pub final : Bool

-- `NULL`, or the rest of `real_cmd` behind `cmd`
unfoldable pub cmd_is_completion : Bytes → Bytes → Option Bytes
cmd_is_completion [] real_cmd = some real_cmd
cmd_is_completion (c ∷ cmd) [] = none
cmd_is_completion (c ∷ cmd) (d ∷ real_cmd) =
    let rest = cmd_is_completion cmd real_cmd in if c == d then rest else none

abbrev pub is_completion : Bytes → Bytes → Bool
is_completion cmd real_cmd = elim (cmd_is_completion cmd real_cmd) [ none ↦ false | some _ ↦ true ]

-- `argv[++i + adjuster]`, on the arguments behind `argv[i]`
unfoldable pub more_args : Act → List Bytes → Bool
more_args c_help (a ∷ b ∷ rest) = true
more_args c_help _ = false
more_args _ (a ∷ rest) = true
more_args _ [] = false

-- `act == FIND`
abbrev pub is_find : Act → Bool
is_find find = true
is_find _ = false

-- `*m_match` in the inner loop: NULL, a command, or a command and a second one behind it, at which
-- the loop returns `CMD_AMBIGUOUS`.
pub data Match (C : Type 0) : Type 0 where
  unmatched : Match C
  matched : C → Match C
  clash : C → Match C

module _ {C : Type 0} (spec : C → Spec) where
  -- Not passed over by the `continue` of `cmd_finder`.
  abbrev pub matches : ℕ → Bytes → C → Bool
  matches vty_privilege arg n =
      not (ltb vty_privilege (spec n).privilege || not (is_completion arg (spec n).cmda))

  -- The inner loop.
  unfoldable pub scan : ℕ → Bytes → Match C → List C → Match C
  scan vty_privilege arg m [] = m
  scan vty_privilege arg m (n ∷ lst) =
      let skip = scan vty_privilege arg m lst in
      let first = scan vty_privilege arg (matched n) lst in
      if matches vty_privilege arg n
      then elim m [ unmatched ↦ first | matched k ↦ clash k | clash k ↦ clash k ]
      else skip

  -- `cmd_register`: in front of the first command with a greater name.
  unfoldable pub cmd_register : C → List C → List C
  cmd_register cmd [] = cmd ∷ []
  cmd_register cmd (c ∷ lst) =
      let rest = cmd_register cmd lst in
      if str_lt (spec cmd).cmda (spec c).cmda then cmd ∷ c ∷ lst else c ∷ rest

  -- The loop of `cmd_finder` at `argv[i] = arg`, with what it leaves in `*m_match`.
  unfoldable pub cmd_finder :
      (C → List C) → Act → ℕ → Bytes → List Bytes → List C → CmdState × Option C
  unfolding more_args
  cmd_finder children act vty_privilege arg [] cmd_lst =
      elim (scan vty_privilege arg unmatched cmd_lst) [
        | clash k ↦ (ambiguous, some k)
        | unmatched ↦ (invalid, none)
        | matched n ↦
            if is_find act && (spec n).final then (incomplete, some n) else (found, some n)
      ]
  cmd_finder children act vty_privilege arg (next ∷ rest) cmd_lst =
      elim (scan vty_privilege arg unmatched cmd_lst) [
        | clash k ↦ (ambiguous, some k)
        | unmatched ↦ (invalid, none)
        | matched n ↦
            if is_find act && (spec n).final
            then (found, some n)
            else if more_args act (next ∷ rest)
            then cmd_finder children act vty_privilege next rest (children n)
            else (found, some n)
      ]
