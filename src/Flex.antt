-- ===== src/Flex.antt =====
-- lex.yy.c, the scanner that flex makes of lex.c: its static variables and buffers. A
-- `YY_BUFFER_STATE` is a record, of which the members that are read here are kept, and a pointer into
-- `yy_ch_buf` is its offset. malloc is taken to succeed.
pub mod Scan
mod Tests
pub mod Round
pub mod Rounds
pub mod Parts
pub mod Steps
pub mod Whole
pub mod Lines
use opencli.Base.{
  ℕ, zero, suc, ◌+◌, ◌-◌, ◌/◌, Bool, true, false, not, ◌||◌, Option, none, some, List, [], ◌∷◌,
  ◌++◌, ◌==◌, ltb, leb, if◌then◌else◌, Bytes, get_or, set, take, drop, length, cstr,
}
use opencli.Lexer.{max_args}
use opencli.Dfa.{yy_accept, Regs, match_loop, previous_state, try_nul_trans, find_action}

pub record Buffer : Type 0 where
  pub ch_buf : Bytes
  pub buf_pos : ℕ
  pub buf_size : ℕ
  pub n_chars : ℕ
  pub is_our_buffer : Bool
  pub fill_buffer : Bool
  -- `yy_buffer_status == YY_BUFFER_NEW`
  pub is_new : Bool

-- The static variables of the scanner, with the registers of `lexscan`, and what ECHO wrote to `yyout`.
pub record Flex : Type 0 where
  -- `YY_CURRENT_BUFFER`
  pub current : Option Buffer
  pub c_buf_p : ℕ
  pub n_chars : ℕ
  pub hold_char : ℕ
  pub text : ℕ
  pub leng : ℕ
  pub did_buffer_switch_on_eof : Bool
  pub init : Bool
  pub start : ℕ
  pub regs : Regs
  pub out : Bytes

-- A write to `yy_ch_buf` of the current buffer.
unfoldable pub poke : Flex → ℕ → ℕ → Flex
poke s p c = elim s.current [
  | none ↦ s
  | some b ↦ record s { current = some (record b { ch_buf = set b.ch_buf p c }) }
]

unfoldable pub ch_buf : Flex → Bytes
ch_buf s = elim s.current [ none ↦ [] | some b ↦ b.ch_buf ]

-- `yy_load_buffer_state`
unfoldable pub load_buffer_state : Flex → Flex
load_buffer_state s = elim s.current [
  | none ↦ s
  | some b ↦ record s {
    n_chars = b.n_chars;
    text = b.buf_pos;
    c_buf_p = b.buf_pos;
    hold_char = get_or b.ch_buf b.buf_pos 0;
  }
]

-- `yy_switch_to_buffer`, to a buffer that is new. Nothing refers to the one before it any more.
unfoldable pub switch_to_buffer : Flex → Buffer → Flex
unfolding load_buffer_state
switch_to_buffer s b = record (load_buffer_state (record s { current = some b })) {
  did_buffer_switch_on_eof = true;
}

-- `yy_scan_buffer`, which wants two NULs at the end of the array.
unfoldable pub scan_buffer : Flex → Bytes → Option Flex
unfolding switch_to_buffer
scan_buffer s base =
    let size = length base in
    if ltb size 2 || not (get_or base (size - 2) 0 == 0) || not (get_or base (size - 1) 0 == 0)
    then none
    else some (
        switch_to_buffer s (record {
          ch_buf = base;
          buf_pos = 0;
          buf_size = size - 2;
          n_chars = size - 2;
          is_our_buffer = false;
          fill_buffer = false;
          is_new = true;
        }))

-- `yy_scan_bytes`, over all of `bytes`; `none` is its fatal error.
unfoldable pub scan_bytes : Flex → Bytes → Option Flex
unfolding scan_buffer
scan_bytes s bytes = elim (scan_buffer s (bytes ++ 0 ∷ 0 ∷ [])) [
  | none ↦ none
  | some s' ↦ elim s'.current [
    | none ↦ none
    | some b ↦ some (record s' { current = some (record b { is_our_buffer = true }) })
  ]
]

-- `yy_scan_string`
unfoldable pub scan_string : Flex → Bytes → Option Flex
unfolding scan_bytes
scan_string s str = scan_bytes s (cstr str)

-- `yy_delete_buffer(YY_CURRENT_BUFFER)`
unfoldable pub delete_buffer : Flex → Flex
delete_buffer s = record s { current = none }

-- The first call: `if (yy_init)`. There is a current buffer here, that of `yy_scan_string`.
unfoldable pub first_call : Flex → Flex
unfolding load_buffer_state
first_call s =
    if s.init
    then load_buffer_state (record s { init = false; start = if s.start == 0 then 1 else s.start })
    else s

-- `YY_DO_BEFORE_ACTION`, for a match that begins at `bp`.
unfoldable pub before_action : ℕ → Flex → Flex
unfolding poke ch_buf
before_action bp s =
    poke
      (record s {
        text = bp;
        leng = s.regs.cp - bp;
        hold_char = get_or (ch_buf s) s.regs.cp 0;
        c_buf_p = s.regs.cp;
      })
      s.regs.cp 0

-- What `yy_get_next_buffer` comes to. `reads_on` is its way to read from a file.
pub data Eob : Type 0 where
  end_of_file last_match missed reads_on : Eob

unfoldable pub get_next_buffer : Flex → Eob
get_next_buffer s = elim s.current [
  | none ↦ missed
  | some b ↦
      if ltb (s.n_chars + 1) s.c_buf_p
      then missed
      else if b.fill_buffer
      then reads_on
      else if s.c_buf_p - s.text == 1
      then end_of_file
      else last_match
]
