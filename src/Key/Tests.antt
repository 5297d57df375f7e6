-- ===== src/Key/Tests.antt =====
-- Keys at a fresh session of vty.c with one command in its history.
use opencli.Base.{refl, true, false, none, some, [], ◌∷◌, arith, codes, replicate}
use opencli.Line.{Line, max_cmdline}
use opencli.Line.Zipper.{zipper}
use opencli.History.{History}
use opencli.Key.{Vty, readline_step, readline}
use opencli.Key.Typed.{Stored, Ready}
use opencli.Key.Sound.{Sound, readline_step-Sound, readline-Sound}

abbrev line : Line
line = record {
  hst_buff = replicate max_cmdline 0;
  rl_buff = replicate max_cmdline 0;
  old_buff = replicate max_cmdline 0;
  rl_index = 0;
  rl_ptr = 0;
  old_ptr = 0;
}

abbrev one : History
one = record { history = some (codes "exit") ∷ replicate 9 none; len = 1; pos = 1 }

abbrev pub vty : Vty
vty = record {
  line = line;
  exec_h = one;
  conf_h = one;
  h_conf = true;
  mode = 0;
  esc_char = false;
  esc_term = false;
}

one-Stored : Stored one
one-Stored = record {
  entries = codes "exit" ∷ [];
  keeps = record { rest = replicate 9 none; slots = refl; size = refl; count = refl };
  commands =
      (record { is_text = ground arith; no_percent = ground arith; short = omega arith }, tt);
  within = omega arith;
}

pub vty-Ready : Ready vty
vty-Ready = record {
  typed = record {
    z = zipper [] [];
    holds = record {
      junk = replicate 127 0;
      layout = refl;
      size = refl;
      cursor = refl;
      count = refl;
      text_before = tt;
      text_after = tt;
    };
    plain = (tt, tt);
  };
  exec = one-Stored;
  conf = one-Stored;
  saved = λ lt. absurd (omega arith);
}

-- The key for the entry before.
readline_step-Sound_example : Sound (readline_step (codes "\r") true vty 14)
readline_step-Sound_example =
    readline_step-Sound (codes "\r") true {v = vty} 14 vty-Ready (omega arith) (omega arith)

-- The arrow key up, a letter and a return.
readline-Sound_example : Sound (readline (codes "\r") true vty (27 ∷ b'[' ∷ b'A' ∷ b'x' ∷ 13 ∷ []))
readline-Sound_example =
    readline-Sound (codes "\r") true {v = vty} (27 ∷ b'[' ∷ b'A' ∷ b'x' ∷ 13 ∷ []) vty-Ready
      (ground arith) (ground arith)
