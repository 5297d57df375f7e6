-- ===== src/Dfa.antt =====
-- lex.yy.c, the automaton that flex makes of the rules of lex.c: the tables, and the loops that run
-- over them. A state is a number; the text is the buffer `yy_ch_buf`, and a pointer into it is its
-- offset.
pub mod Classes
pub mod Match
pub mod Ends
use opencli.Base.{
  ℕ, zero, suc, ◌+◌, Bool, true, false, Option, none, some, List, [], ◌∷◌, ◌++◌, ◌==◌, ltb, leb,
  if◌then◌else◌, Bytes, get_or, replicate, drop, length,
}

-- What action a state accepts with, 0 for none.
abbrev pub yy_accept : List ℕ
yy_accept = 0 ∷ 0 ∷ 0 ∷ 6 ∷ 4 ∷ 3 ∷ 5 ∷ 2 ∷ 1 ∷ 1 ∷ 3 ∷ 1 ∷ 0 ∷ []

-- The class of a byte.
abbrev pub yy_ec : List ℕ
yy_ec =
    replicate 1 0
    ++ replicate 8 1
    ++ replicate 1 2
    ++ replicate 1 3
    ++ replicate 2 1
    ++ replicate 1 4
    ++ replicate 18 1
    ++ replicate 1 2
    ++ replicate 5 1
    ++ replicate 1 5
    ++ replicate 1 1
    ++ replicate 3 5
    ++ replicate 2 1
    ++ replicate 13 6
    ++ replicate 1 1
    ++ replicate 2 5
    ++ replicate 1 1
    ++ replicate 1 5
    ++ replicate 2 1
    ++ replicate 26 6
    ++ replicate 6 1
    ++ replicate 26 6
    ++ replicate 1 1
    ++ replicate 1 5
    ++ replicate 131 1

abbrev pub yy_meta : List ℕ
yy_meta = 0 ∷ 1 ∷ 2 ∷ 1 ∷ 1 ∷ 1 ∷ 3 ∷ []

abbrev pub yy_base : List ℕ
yy_base = 0 ∷ 0 ∷ 0 ∷ 9 ∷ 10 ∷ 0 ∷ 10 ∷ 10 ∷ 10 ∷ 0 ∷ 0 ∷ 0 ∷ 10 ∷ 6 ∷ 4 ∷ []

abbrev pub yy_def : List ℕ
yy_def = 0 ∷ 12 ∷ 1 ∷ 12 ∷ 12 ∷ 13 ∷ 12 ∷ 12 ∷ 12 ∷ 14 ∷ 13 ∷ 14 ∷ 0 ∷ 12 ∷ 12 ∷ []

abbrev pub yy_nxt : List ℕ
yy_nxt = 0 ∷ 4 ∷ 5 ∷ 6 ∷ 7 ∷ 8 ∷ 9 ∷ 11 ∷ 10 ∷ 12 ∷ 3 ∷ 12 ∷ 12 ∷ 12 ∷ 12 ∷ 12 ∷ 12 ∷ []

abbrev pub yy_chk : List ℕ
yy_chk = 0 ∷ 1 ∷ 1 ∷ 1 ∷ 1 ∷ 1 ∷ 1 ∷ 14 ∷ 13 ∷ 3 ∷ 12 ∷ 12 ∷ 12 ∷ 12 ∷ 12 ∷ 12 ∷ 12 ∷ []

-- The state at which the scanner stops is the one whose base is 10; templates begin at 13.
abbrev pub jam_base : ℕ
jam_base = 10

-- `while (yy_chk[yy_base[state] + c] != state)`: the default states, and then the next one. A chain of
-- defaults has three states at most.
unfoldable pub default_chain : ℕ → ℕ → ℕ → Option ℕ
default_chain zero state c = none
default_chain (suc fuel) state c =
    let state' = get_or yy_def state 0 in
    let rest = default_chain fuel state' (if leb 13 state' then get_or yy_meta c 0 else c) in
    let at = get_or yy_base state 0 + c in
    if get_or yy_chk at 0 == state then some (get_or yy_nxt at 0) else rest

unfoldable pub next_state : ℕ → ℕ → Option ℕ
unfolding default_chain
next_state = default_chain 4

-- `yy_current_state`, `yy_cp`, `yy_last_accepting_state` and `yy_last_accepting_cpos`.
pub record Regs : Type 0 where
  pub state : ℕ
  pub cp : ℕ
  pub last_state : ℕ
  pub last_cpos : ℕ

-- `if (yy_accept[state])`
unfoldable pub save_accepting : Regs → Regs
save_accepting r =
    if get_or yy_accept r.state 0 == 0
    then r
    else record r { last_state = r.state; last_cpos = r.cp }

-- The transition on a byte of the class `c`.
unfoldable pub transit : ℕ → Regs → Option Regs
transit c r = elim (next_state r.state c) [
  | none ↦ none
  | some q ↦ some (record (save_accepting r) { state = q; cp = r.cp + 1 })
]

-- The loop at `yy_match`.
unfoldable pub match_loop : ℕ → Bytes → Regs → Option Regs
match_loop zero buf r = none
match_loop (suc fuel) buf r = elim (transit (get_or yy_ec (get_or buf r.cp 0) 0) r) [
  | none ↦ none
  | some r' ↦ elim (get_or yy_base r'.state 0 == jam_base) [
    | true ↦ some r'
    | false ↦ match_loop fuel buf r'
  ]
]

-- `yy_get_previous_state`, `count` bytes in front of `yy_c_buf_p`.
unfoldable pub previous_state : ℕ → Bytes → Regs → Option Regs
previous_state zero buf r = some r
previous_state (suc count) buf r =
    let here = get_or buf r.cp 0 in
    elim (transit (if here == 0 then 1 else get_or yy_ec here 0) r) [
      | none ↦ none
      | some r' ↦ previous_state count buf r'
    ]

-- `yy_try_NUL_trans`: the registers behind, and the next state, 0 for a jam.
unfoldable pub try_nul_trans : Regs → Option (Regs × ℕ)
try_nul_trans r = elim (next_state r.state 1) [
  | none ↦ none
  | some q ↦ some (save_accepting r, if q == 12 then 0 else q)
]

-- `yy_find_action`: backs up to the last state that accepted, where this one does not.
unfoldable pub find_action : Regs → Regs
find_action r =
    if get_or yy_accept r.state 0 == 0
    then record r { state = r.last_state; cp = r.last_cpos }
    else r
