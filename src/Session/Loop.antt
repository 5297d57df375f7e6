-- ===== src/Session/Loop.antt =====
-- The handlers of vty.c at a break byte, from a sound state of the session.

use opencli.Base.{
  ℕ, ◌+◌, ◌<◌, ◌≤◌, ◌≡◌, refl, Bool, true, not, List, [], ◌∷◌, arith, ◌==◌, ltb, Bool-cases, inl,
  inr, Bytes, length, cstr,
}
use opencli.Line.{Line, max_cmdline}
use opencli.Line.Zipper.{zipper, reverse_onto}
use opencli.Line.Everywhere.{rub_while-All, reverse_onto-All}
use opencli.Line.Complete.{
  word_start, word_start-Holds, cmd_complete, cmd_complete-Holds, has_input,
}
use opencli.Line.Rub.{rub_while}
use opencli.Command.{Act, find, complete, c_help, help}
use opencli.Command.Table.{CmdId, spec, commands_init}
use opencli.Command.Mode.{cmd_get_cmdroot}
use opencli.Key.{Vty}
use opencli.Lexer.{getline}
use opencli.Session.Names.{longest, cmda-IsName}
use opencli.Line.Kept.{SameSaved}
use opencli.Key.Typed.{same-Typed, IsPlainByte, Typed, Ready}
use opencli.Key.Ready.{edited-Ready}
use opencli.Key.Sound.{reset_vty-Ready}
use opencli.Session.{Outcome, prints, executes, completes, selected}
use opencli.Session.Run.{
  World, privilege, carry_out, cmd_action_onbrk, exec_hdl, help_hdl, tabl_hdl, redraw,
  on_break_char,
}
use opencli.Session.Break.{Fits, completion, selected-Defined}
use opencli.Session.Ends.{AtEnd, AtEnd-Typed, line_end-AtEnd, added-Ready}
use opencli.Session.Handlers.{GoesOn, finishes, ran_then-GoesOn, Tame, run_handler-GoesOn}

rub_short : (test : ℕ → Bool) (b : Bytes) → length (rub_while test b) ≤ length b
rub_short test [] = omega arith
rub_short test (c ∷ b) = elim (Bool-cases (test c)) [
  | inl e ↦ rw e (omega (arith, rub_short test b))
  | inr e ↦ rw e (omega arith)
]

-- The line leaves room for any command's name.
abbrev pub HasRoom : Line → Type 0
HasRoom l = l.rl_index + longest + 1 < max_cmdline

completed-Typed :
    {l : Line} (n : CmdId) → AtEnd l → HasRoom l → Typed (cmd_complete l (spec n).cmda)
completed-Typed {l} n a room =
    let name = cmda-IsName n in
    let kept = rub_while (λ c. not (c == b' ')) a.before in
    record {
      z = zipper (b' ' ∷ reverse_onto (spec n).cmda kept) [];
      holds =
          cmd_complete-Holds {v = l} a.before (spec n).cmda a.holds name.is_text
            (omega (arith, a.holds.count, name.short, rub_short (λ c. not (c == b' ')) a.before));
      plain = (
        (
          omega arith,
          reverse_onto-All IsPlainByte (spec n).cmda kept name.plain
              (rub_while-All IsPlainByte (λ c. not (c == b' ')) a.before a.plain),
        ),
        tt,
      );
    }

completed-SameSaved : (l : Line) (s : Bytes) → SameSaved l (cmd_complete l s)
unfolding cmd_complete
completed-SameSaved l s = refl

-- Carrying out anything, where a completion has room.
carry_out-GoesOn :
    (w : World) (argv : List Bytes) (act : Act) (out : Outcome) {v : Vty}
    → (act ≡ complete → AtEnd v.line × HasRoom v.line)
    → Fits act out
    → Tame w
    → Ready v
    → GoesOn (carry_out w argv out v)
unfolding carry_out
carry_out-GoesOn w argv act (prints s) room fits t r = finishes r
carry_out-GoesOn w argv act (executes n) room fits t r = run_handler-GoesOn w argv n t r
carry_out-GoesOn w argv act (completes n) {v} room completion t r =
    let (a, free) = room refl in
    let start = word_start-Holds a.before a.holds in
    let short : length (rub_while (λ c. not (c == b' ')) a.before) ≤ length a.before =
      rub_short (λ c. not (c == b' ')) a.before in
    let name = cmda-IsName n in
    let fits : ltb (word_start v.line.rl_buff v.line.rl_ptr + length (spec n).cmda + 1) max_cmdline
        ≡ true =
      ground (arith, start, short, name.short, a.holds.count, free) in
    rw fits (
      finishes
        (edited-Ready r (completed-Typed n a free) (completed-SameSaved v.line (spec n).cmda)))

pub cmd_action_onbrk-GoesOn :
    (w : World) (act : Act) (arg : Bytes) (rest : List Bytes) {v : Vty}
    → Tame w
    → (act ≡ complete → AtEnd v.line × HasRoom v.line)
    → Ready v
    → GoesOn (cmd_action_onbrk w act (arg ∷ rest) v)
unfolding cmd_action_onbrk
cmd_action_onbrk-GoesOn w act arg rest {v} t room r =
    let root = commands_init (cmd_get_cmdroot w.behind_nodes v.mode) in
    let (out, e, fits) = selected-Defined privilege act arg rest (cstr v.line.rl_buff) root in
    rw (cmd_action_onbrk, e) (carry_out-GoesOn w (arg ∷ rest) act out room fits t r)

module _ (w : World) (t : Tame w) where
  exec_hdl-GoesOn : (argv : List Bytes) {v : Vty} → Ready v → GoesOn (exec_hdl w argv v)
  unfolding exec_hdl
  exec_hdl-GoesOn [] r = finishes (reset_vty-Ready r)
  exec_hdl-GoesOn (arg ∷ rest) {v} r =
      let (h, b, e, r') = added-Ready w.behind_history r in
      rw (exec_hdl, e)
        (ran_then-GoesOn _ _
          (cmd_action_onbrk-GoesOn w find arg rest t (λ q. absurd (ground arith)) r')
          (λ u s. finishes (reset_vty-Ready s)))

  help_hdl-GoesOn : (argv : List Bytes) {v : Vty} → Ready v → GoesOn (help_hdl w argv v)
  unfolding help_hdl cmd_action_onbrk selected carry_out
  help_hdl-GoesOn [] r = finishes r
  help_hdl-GoesOn (arg ∷ rest) {v} r = elim (Bool-cases (has_input v.line)) [
    | inl e ↦ rw e (cmd_action_onbrk-GoesOn w c_help arg rest t (λ q. absurd (ground arith)) r)
    | inr e ↦ rw e (cmd_action_onbrk-GoesOn w help arg rest t (λ q. absurd (ground arith)) r)
  ]

  tabl_hdl-GoesOn :
      (argv : List Bytes) {v : Vty}
      → Ready v
      → AtEnd v.line
      → HasRoom v.line
      → GoesOn (tabl_hdl w argv v)
  unfolding tabl_hdl
  tabl_hdl-GoesOn [] r a room = finishes r
  tabl_hdl-GoesOn (arg ∷ rest) {v} r a room = elim (Bool-cases (has_input v.line)) [
    | inr e ↦ rw e (finishes r)
    | inl e ↦ rw e (cmd_action_onbrk-GoesOn w complete arg rest t (λ q. (a, room)) r)
  ]

pub redraw-Ready : {v : Vty} → Ready v → Ready (redraw v)
redraw-Ready r = edited-Ready r (same-Typed _ r.typed refl refl refl) refl

-- The body of the loop of `vty_main` is defined at every break byte in a sound state, and leaves, or
-- waits at a prompt for a password with, a sound state, when a tabulator finds room in the line for
-- the longest name of a command, the bytes typed at such a prompt are neither NUL nor a percent
-- sign, and no interface has a hardware address of more than eight bytes. The prompts between pages
-- and the reading of the kernel's answer for `show interfaces` are not part of it.
pub on_break_char-GoesOn :
    (w : World) (c : ℕ) {v : Vty}
    → Tame w
    → Ready v
    → (c ≡ b'\t' → HasRoom v.line)
    → GoesOn (on_break_char w c v)
unfolding on_break_char
on_break_char-GoesOn w c {v} t r room =
    let a = line_end-AtEnd r.typed in
    let at_end = edited-Ready r (AtEnd-Typed a) refl in
    let argv = getline (cstr v.line.rl_buff) in
    ran_then-GoesOn _ _
      (elim (Bool-cases (c == b'\r')) [
        | inl e ↦ rw e (exec_hdl-GoesOn w t argv at_end)
        | inr e ↦ elim (Bool-cases (c == b'\t')) [
          | inl f ↦ rw (e, f) (tabl_hdl-GoesOn w t argv at_end a (room (ground arith)))
          | inr f ↦ elim (Bool-cases (c == b'?')) [
            | inl g ↦ rw (e, f, g) (help_hdl-GoesOn w t argv at_end)
            | inr g ↦ rw (e, f, g) (finishes at_end)
          ]
        ]
      ])
      (λ u s. finishes (redraw-Ready s))
