-- ===== src/Flex/Tests.antt =====
-- Lines for the scanner of lex.yy.c.
use opencli.Base.{◌≡◌, refl, true, false, none, List, [], ◌∷◌, Bytes, codes, cstr, inl, arith}
use opencli.Dfa.{
  default_chain, next_state, save_accepting, transit, match_loop, previous_state, try_nul_trans,
  find_action,
}
use opencli.Lexer.{getline}
use opencli.Flex.Lines.{IsIdle, lexscan-getline}
use opencli.Flex.{
  Flex, poke, ch_buf, load_buffer_state, switch_to_buffer, scan_buffer, scan_bytes, scan_string,
  delete_buffer, first_call, before_action, get_next_buffer,
}
use opencli.Flex.Scan.{
  Outcome, returned, goes_on, lexscan, rule, settle, get_previous_state, real_nul, at_end,
  end_of_buffer, match_from, act_from, scan_one, scan_loop,
}

-- The static variables before the first call.
abbrev pub zeroed : Flex
zeroed = record {
  current = none;
  c_buf_p = 0;
  n_chars = 0;
  hold_char = 0;
  text = 0;
  leng = 0;
  did_buffer_switch_on_eof = false;
  init = true;
  start = 0;
  regs = record { state = 0; cp = 0; last_state = 0; last_cpos = 0 };
  out = [];
}

abbrev args_of : Outcome → List Bytes
args_of (returned args s) = args
args_of (goes_on args s) = args
args_of _ = []

test_line :
    args_of (lexscan true zeroed (codes "show  ip;x "))
    ≡ codes "show" ∷ codes "ip" ∷ codes ";" ∷ codes "x" ∷ []
unfolding default_chain next_state save_accepting transit match_loop previous_state try_nul_trans
    find_action lexscan poke ch_buf load_buffer_state switch_to_buffer scan_buffer scan_bytes
    scan_string delete_buffer first_call before_action get_next_buffer rule settle
    get_previous_state real_nul at_end end_of_buffer match_from act_from scan_one scan_loop
test_line = refl

zeroed-IsIdle : IsIdle zeroed
zeroed-IsIdle = record { no_buffer = refl; begun = inl (refl, refl) }

lexscan-getline_example :
    (s' : Flex) × (lexscan true zeroed (codes "show ip")
      ≡ returned (getline (cstr (codes "show ip"))) s')
    × IsIdle s'
lexscan-getline_example = lexscan-getline zeroed (codes "show ip") zeroed-IsIdle (ground arith)
