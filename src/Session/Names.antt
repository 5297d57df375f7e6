-- ===== src/Session/Names.antt =====
-- The names of the commands of commands.c, as `cmd_complete` of vty.c writes them.
use opencli.Base.{
  ℕ, zero, suc, ◌≤◌, ◌≡◌, refl, Bool, true, false, not, ◌&&◌, ◌||◌, [], ◌∷◌, ◌==◌, arith, Bytes,
  length, All, IsText,
}
use opencli.Command.Table.{
  CmdId, cmd_show, show_run, show_run_interface, show_ip, show_interfaces, cmd_clear, clr_counters,
  show_debugging, show_history, show_clock, show_users, cmd_debug, debug_h225, debug_h245,
  debug_gktmp, cmd_help, help_editline, cmd_enable, cmd_exit, exit_config, cmd_config,
  config_interface, exit_config_interface, spec,
}
use opencli.Key.Typed.{IsPlainByte}

-- The longest name of a command.
abbrev pub longest : ℕ
longest = 14

-- At most `n` bytes, none of them NUL or a percent sign.
plain_name : ℕ → Bytes → Bool
plain_name n [] = true
plain_name zero (c ∷ s) = false
plain_name (suc n) (c ∷ s) = not (c == 0 || c == b'%') && plain_name n s

pub record IsName (n : ℕ) (s : Bytes) : Type 0 where
  pub is_text : IsText s
  pub plain : All IsPlainByte s
  pub short : length s ≤ n

plain_name-IsName : (n : ℕ) (s : Bytes) → plain_name n s ≡ true → IsName n s
unfolding plain_name
plain_name-IsName n [] h = record { is_text = tt; plain = tt; short = omega arith }
plain_name-IsName zero (c ∷ s) h = absurd (ground arith)
plain_name-IsName (suc n) (c ∷ s) h =
    let r = plain_name-IsName n s (ground arith) in
    record {
      is_text = (ground arith, r.is_text);
      plain = (ground arith, r.plain);
      short = omega (arith, r.short);
    }

name_checks : (n : CmdId) → plain_name longest (spec n).cmda ≡ true
unfolding plain_name
name_checks cmd_show = refl
name_checks show_run = refl
name_checks show_run_interface = refl
name_checks show_ip = refl
name_checks show_interfaces = refl
name_checks cmd_clear = refl
name_checks clr_counters = refl
name_checks show_debugging = refl
name_checks show_history = refl
name_checks show_clock = refl
name_checks show_users = refl
name_checks cmd_debug = refl
name_checks debug_h225 = refl
name_checks debug_h245 = refl
name_checks debug_gktmp = refl
name_checks cmd_help = refl
name_checks help_editline = refl
name_checks cmd_enable = refl
name_checks cmd_exit = refl
name_checks exit_config = refl
name_checks cmd_config = refl
name_checks config_interface = refl
name_checks exit_config_interface = refl

pub cmda-IsName : (n : CmdId) → IsName longest (spec n).cmda
cmda-IsName n = plain_name-IsName longest (spec n).cmda (name_checks n)
