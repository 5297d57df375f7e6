-- ===== src/Line/Tests.antt =====
-- The editing functions of vty.c at the line `sh ip`.
use opencli.Base.{ℕ, ◌≡◌, refl, true, ◌++◌, arith, Bytes, codes, replicate}
use opencli.Line.{Line, max_cmdline, save_char}
use opencli.Line.Zipper.{Zipper, zipper, Holds}
use opencli.Line.Erase.{save_char-Holds}

abbrev sh_ip : Bytes
sh_ip = codes "sh ip"

-- `sh ip`, with the cursor at `at`
abbrev line : ℕ → Line
line at = record {
  hst_buff = replicate max_cmdline 0;
  rl_buff = sh_ip ++ replicate 123 0;
  old_buff = replicate max_cmdline 0;
  rl_index = 5;
  rl_ptr = at;
  old_ptr = 0;
}

abbrev in_between : Zipper
in_between = zipper (codes "hs") (codes " ip")

line-in_between : Holds (line 2) in_between
line-in_between = record {
  junk = replicate 122 0;
  layout = refl;
  size = refl;
  cursor = refl;
  count = refl;
  text_before = ground arith;
  text_after = ground arith;
}

save_char-Holds_example :
    Holds (save_char (line 2) b'o').0 (zipper (codes "ohs") (codes " ip"))
    × ((save_char (line 2) b'o').1 ≡ true)
save_char-Holds_example =
    save_char-Holds {v = line 2} {z = in_between} b'o' line-in_between (omega arith) (omega arith)
