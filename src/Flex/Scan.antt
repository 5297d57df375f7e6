-- ===== src/Flex/Scan.antt =====
-- lex.yy.c: the rounds of `lexscan` over the current buffer, with their actions.
use opencli.Base.{
  ℕ, zero, suc, ◌+◌, ◌-◌, ◌/◌, Bool, true, false, ◌||◌, Option, none, some, List, [], ◌∷◌, ◌++◌,
  ◌==◌, ltb, leb, if◌then◌else◌, Bytes, get_or, take, drop, length, cstr,
}
use opencli.Lexer.{max_args}
use opencli.Dfa.{yy_accept, match_loop, previous_state, try_nul_trans, find_action}
use opencli.Flex.{
  Flex, before_action, ch_buf, delete_buffer, end_of_file, first_call, get_next_buffer, last_match,
  missed, poke, reads_on, scan_string,
}

-- How a round of `lexscan` ends: by the next round, by its return, by a fatal error, by reading from
-- `yyin`, or not within the rounds given.
pub data Outcome : Type 0 where
  goes_on returned : List Bytes → Flex → Outcome
  fatal reads stuck : Outcome

-- The actions of the rules, and that of the end of the file, where `_argcount` is `length args`.
unfoldable pub rule : ℕ → List Bytes → Flex → Outcome
unfolding ch_buf delete_buffer
rule act args s =
    if act == 1
    then if ltb (length args) (max_args - 1)
      then goes_on (args ++ cstr (drop s.text (ch_buf s)) ∷ []) s
      else goes_on args s
    else if act == 2 || act == 7
    then returned args (delete_buffer s)
    else if act == 3 || act == 4
    then goes_on args s
    else if act == 5
    then goes_on args (record s { out = s.out ++ take s.leng (drop s.text (ch_buf s)) })
    else fatal

-- Where the action for the end of the buffer jumps to.
pub data Jump : Type 0 where
  to_match to_find_action to_end_of_file : Flex → Jump
  to_outcome : Outcome → Jump

-- `if (yy_buffer_status == YY_BUFFER_NEW)`
unfoldable pub settle : Flex → Flex
settle s = elim s.current [
  | none ↦ s
  | some b ↦
      if b.is_new
      then record s { n_chars = b.n_chars; current = some (record b { is_new = false }) }
      else s
]

-- `yy_get_previous_state`, from `yytext_ptr` to `yy_c_buf_p`.
unfoldable pub get_previous_state : Flex → Option Flex
unfolding ch_buf
get_previous_state s =
    elim (previous_state (s.c_buf_p - s.text) (ch_buf s)
      (record s.regs { state = s.start; cp = s.text })) [
        | none ↦ none
        | some r ↦ some (record s { regs = record r { cp = s.c_buf_p } })
      ]

-- `This was really a NUL.`
unfoldable pub real_nul : ℕ → Flex → Jump
unfolding get_previous_state
real_nul amount s = elim (get_previous_state (record s { c_buf_p = s.text + amount })) [
  | none ↦ to_outcome stuck
  | some s1 ↦ elim (try_nul_trans s1.regs) [
    | none ↦ to_outcome stuck
    | some (r, next) ↦
        if next == 0
        then to_find_action (record s1 { regs = r })
        else to_match (record s1 {
          c_buf_p = s1.c_buf_p + 1;
          regs = record r { state = next; cp = s1.c_buf_p + 1 };
        })
  ]
]

-- Behind the text, or at a NUL in it, where `wraps` is what `yywrap()` returns.
unfoldable pub at_end : Bool → ℕ → Flex → Jump
unfolding real_nul get_next_buffer get_previous_state
at_end wraps amount s =
    if leb s.c_buf_p s.n_chars then real_nul amount s else elim (get_next_buffer s) [
      | missed ↦ to_outcome fatal
      | reads_on ↦ to_outcome reads
      | end_of_file ↦
          if wraps
          then to_end_of_file (record s { did_buffer_switch_on_eof = false; c_buf_p = s.text })
          else to_outcome reads
      | last_match ↦ elim (get_previous_state (record s { c_buf_p = s.n_chars })) [
        | none ↦ to_outcome stuck
        | some s' ↦ to_find_action s'
      ]
    ]

-- `case YY_END_OF_BUFFER`
unfoldable pub end_of_buffer : Bool → Flex → Jump
unfolding poke settle at_end
end_of_buffer wraps s =
    at_end wraps (s.regs.cp - s.text - 1) (settle (poke s s.regs.cp s.hold_char))

-- The loop at `yy_match`.
unfoldable pub match_from : Flex → Option Flex
unfolding ch_buf
match_from s = elim (match_loop (length (ch_buf s)) (ch_buf s) s.regs) [
  | none ↦ none
  | some r ↦ some (record s { regs = r })
]

-- From `yy_find_action` to the end of the round, for a match that begins at `bp`; `fuel` bounds the
-- jumps back.
unfoldable pub act_from : Bool → ℕ → ℕ → List Bytes → Flex → Outcome
unfolding before_action poke rule end_of_buffer match_from
act_from wraps zero bp args s = stuck
act_from wraps (suc fuel) bp args s =
    let s1 = before_action bp (record s { regs = find_action s.regs }) in
    let act = get_or yy_accept s1.regs.state 0 in
    elim (act == 0) [
      | true ↦ act_from wraps fuel bp args (record (poke s1 s1.regs.cp s1.hold_char) {
        regs = record s1.regs { state = s1.regs.last_state; cp = s1.regs.last_cpos };
      })
      | false ↦ elim (act == 6) [
        | false ↦ rule act args s1
        | true ↦ elim (end_of_buffer wraps s1) [
          | to_outcome o ↦ o
          | to_end_of_file s2 ↦ rule (6 + (s2.start - 1) / 2 + 1) args s2
          | to_find_action s2 ↦ act_from wraps fuel s2.text args s2
          | to_match s2 ↦ elim (match_from s2) [
            | none ↦ stuck
            | some s3 ↦ act_from wraps fuel s3.text args s3
          ]
        ]
      ]
    ]

-- A round of `while (1)`.
unfoldable pub scan_one : Bool → List Bytes → Flex → Outcome
unfolding poke match_from act_from ch_buf
scan_one wraps args s =
    let s1 = poke s s.c_buf_p s.hold_char in
    elim (match_from (record s1 { regs = record s.regs { state = s.start; cp = s.c_buf_p } })) [
      | none ↦ stuck
      | some s2 ↦ act_from wraps (length (ch_buf s) + 2) s.c_buf_p args s2
    ]

unfoldable pub scan_loop : Bool → ℕ → List Bytes → Flex → Outcome
unfolding scan_one
scan_loop wraps zero args s = stuck
scan_loop wraps (suc fuel) args s = elim (scan_one wraps args s) [
  | goes_on args' s' ↦ scan_loop wraps fuel args' s'
  | returned args' s' ↦ returned args' s'
  | fatal ↦ fatal
  | reads ↦ reads
  | stuck ↦ stuck
]

-- `lexscan`: the arguments in front of the NULL, and the scanner behind. Each round takes a byte at
-- least, so that there are rounds enough.
unfoldable pub lexscan : Bool → Flex → Bytes → Outcome
unfolding scan_string scan_loop first_call
lexscan wraps s buffer = elim (scan_string s buffer) [
  | none ↦ fatal
  | some s1 ↦ scan_loop wraps (length (cstr buffer) + 1) [] (first_call s1)
]
