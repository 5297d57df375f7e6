-- ===== src/Screen/Tests.antt =====
-- `rl_update` of vty.c after a byte was typed: the line is `sh`, the terminal still shows `s`.
use opencli.Base.{
  ℕ, ◌≢◌, ◌≤◌, ◌<◌, zero, suc, get_or, refl, inl, [], ◌++◌, arith, codes, replicate, length,
}
use opencli.Line.{Line, max_cmdline}
use opencli.Line.Zipper.{Zipper, zipper, Holds}
use opencli.Screen.{max_wbuffer, bs, rl_update}
use opencli.Screen.Terminal.{Terminal, receive_all}
use opencli.Screen.Redraw.{shown}
use opencli.Screen.Sync.{InSync, rl_update-InSync, rl_update_fits}

abbrev line : Line
line = record {
  hst_buff = replicate max_cmdline 0;
  rl_buff = codes "sh" ++ replicate 126 0;
  old_buff = codes "s" ++ replicate 127 0;
  rl_index = 2;
  rl_ptr = 2;
  old_ptr = 1;
}

abbrev typed : Zipper
typed = zipper (codes "hs") []

line-typed : Holds line typed
line-typed = record {
  junk = replicate 125 0;
  layout = refl;
  size = refl;
  cursor = refl;
  count = refl;
  text_before = ground arith;
  text_after = tt;
}

abbrev terminal : Terminal
terminal = record { cell = shown (codes "s"); column = 1 }

line-InSync : InSync line terminal (codes "s")
line-InSync = record {
  junk = replicate 126 0;
  holds = refl;
  is_text = ground arith;
  inside = omega arith;
  fits = omega arith;
  shows = record { column = refl; cells = λ j. refl };
}

line_plain : (j : ℕ) → j < 2 → get_or (codes "sh") j 0 ≢ bs
line_plain zero h = ground arith
line_plain (suc zero) h = ground arith
line_plain (suc (suc j)) h = absurd (omega arith)

rl_update-InSync_example :
    InSync (rl_update line).0 (receive_all terminal (rl_update line).1) (codes "sh")
    × Holds (rl_update line).0 typed
rl_update-InSync_example =
    rl_update-InSync {v = line} {z = typed} line-typed {t = terminal} {s = codes "s"} line-InSync
      line_plain (inl (omega arith))

rl_update_fits_example : length (rl_update line).1 ≤ max_wbuffer
rl_update_fits_example =
    rl_update_fits {v = line} {z = typed} {t = terminal} {s = codes "s"} line-typed line-InSync
