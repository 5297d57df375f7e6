-- ===== src/Session/Tests.antt =====
-- Break bytes at a fresh session of vty.c.
use opencli.Base.{Bytes, true, ◌≡◌, ◌↔◌, refl, false, none, some, List, [], ◌∷◌, arith, codes}
use opencli.Command.{find, cmd_finder, scan, more_args, cmd_is_completion, cmd_register}
use opencli.Command.Table.{CmdId, exec_mode, commands_init, register}
use opencli.Key.Tests.{vty, vty-Ready}
use opencli.Session.{
  prints, cmd_print_matched, print_matched, count_matched, selected, on_found, act_on,
}
use opencli.Session.Run.{World, on_break_char}
use opencli.Session.Handlers.{GoesOn, Tame}
use opencli.Interface.Tests.{eth0}
use opencli.Command.Mode.{ask_password}
use opencli.Session.Login.{login, Admits, login_iff}
use opencli.Key.{Vty, reset_vty, readline, readline_loop, readline_step, finish}
use opencli.Key.Sound.{Sound}
use opencli.Session.Main.{cleared, init_vty, vty_round, Rooms, starts, Reaches-Sound}
use opencli.Session.Loop.{on_break_char-GoesOn}

abbrev exec : List CmdId
exec = commands_init exec_mode

abbrev world : World
world = record {
  crypt = λ key salt. key;
  global_conf = record {
    encrypt = false;
    username = codes "cisco";
    passwd = codes "cisco";
    ena_passwd = codes "cisco";
  };
  behind_nodes = record { mode = 0; cmd_ptr = exec_mode; prompt = [] };
  behind_history = none;
  keys = λ k. codes "cisco\r";
  ifaces = eth0 ∷ [];
}

world-Tame : Tame world
world-Tame = record {
  texts = λ k. ground arith;
  plain = λ k. ground arith;
  addresses = ground arith;
}

test_matched : cmd_print_matched 0 (codes "e") exec ≡ codes "enable\texit\t\r\n"
unfolding cmd_print_matched print_matched count_matched cmd_is_completion commands_init register
    cmd_register
test_matched = refl

test_hint :
    selected 0 find (codes "sh" ∷ []) (codes "sh") exec
    ≡ some (prints (codes "% Type \"show ?\" for a list of subcommands\r\n"))
unfolding selected on_found act_on cmd_finder scan more_args cmd_is_completion commands_init
    register cmd_register
test_hint = refl

on_break_char-GoesOn_example : GoesOn (on_break_char world 9 vty)
on_break_char-GoesOn_example =
    on_break_char-GoesOn world 9 {v = vty} world-Tame vty-Ready (λ e. omega arith)

-- A wrong password, a blank line, and the right one.
abbrev typed : List Bytes
typed = codes "cisco" ∷ codes "cosci" ∷ [] ∷ codes "cisco" ∷ codes "cisco" ∷ []

test_login : login world.crypt world.global_conf 0 typed ≡ some true
unfolding login ask_password
test_login = refl

login_iff_example :
    (login world.crypt world.global_conf 0 typed ≡ some true)
    ↔ Admits world.crypt world.global_conf 2 typed
login_iff_example = login_iff world.crypt world.global_conf typed

-- The first state of a session.
abbrev first : Vty
first = reset_vty (init_vty cleared)

-- A letter and a return.
first-Rooms : Rooms first (b'x' ∷ 13 ∷ [])
unfolding readline readline_loop readline_step finish reset_vty init_vty
first-Rooms = record { at_tab = λ u e. absurd (cc) }

Reaches-Sound_example : Sound (vty_round world first (b'x' ∷ 13 ∷ []))
Reaches-Sound_example =
    Reaches-Sound world first (b'x' ∷ 13 ∷ []) starts world-Tame (ground arith) (ground arith)
      first-Rooms
