-- ===== src/Session/Ends.antt =====
-- The line at a break byte in `vty_main` of vty.c, and its adding to the history.

use opencli.Base.{
  ◌≤◌, ◌≡◌, refl, ap, Bool, true, ◌||◌, Option, some, List, [], ◌∷◌, arith, leb, Bool-cases, inl,
  inr, Bytes, length, drop, All, All-append, cstr,
}
use opencli.Line.{Line}
use opencli.Line.Zipper.{zipper, Holds, Holds-cstr}
use opencli.Line.Move.{Holds-at, forward_while, forward_while-Moved}
use opencli.Line.Everywhere.{forward_while-Everywhere}
use opencli.History.{History, history_add, is_emptyline, max_history}
use opencli.History.Recent.{remember, last_is, is_new, history_add-remember}
use opencli.History.Walk.{IsCommand}
use opencli.Key.{Vty, h_ptr, put_history}
use opencli.Key.Typed.{IsPlainByte, Typed, Stored, Ready, typed-IsCommand}
use opencli.Key.Ready.{current, walked-Ready}

-- The cursor at the end of the line.
at_eol : (b r : Bytes) → (forward_while (λ _. true) b r).after ≡ []
at_eol b [] = refl
at_eol b (c ∷ r) = at_eol (c ∷ b) r

-- A line with the cursor at its end.
pub record AtEnd (l : Line) : Type 0 where
  pub before : Bytes
  pub holds : Holds l (zipper before [])
  pub plain : All IsPlainByte before

pub AtEnd-Typed : {l : Line} → AtEnd l → Typed l
AtEnd-Typed a = record { z = zipper a.before []; holds = a.holds; plain = (a.plain, tt) }

pub line_end-AtEnd : {l : Line} → Typed l → AtEnd (record l { rl_ptr = l.rl_index })
line_end-AtEnd {l} t =
    let w = forward_while (λ _. true) t.z.before t.z.after in
    let m = forward_while-Moved (λ _. true) t.z.before t.z.after in
    let nothing : w.after ≡ [] = at_eol t.z.before t.z.after in
    let whole : w ≡ zipper w.before [] = ap (zipper w.before) nothing in
    let at : l.rl_index ≡ length w.before =
      omega (arith, t.holds.count, m.sizes, ap length nothing) in
    record {
      before = w.before;
      holds = rw (← whole) (Holds-at l.rl_index t.holds m at);
      plain = (forward_while-Everywhere IsPlainByte (λ _. true) t.z.before t.z.after t.plain).0;
    }

-- The commands of a history are commands still when one is added.
drop-All : (es : List Bytes) → All IsCommand es → All IsCommand (drop 1 es)
drop-All [] h = tt
drop-All (e ∷ es) h = h.1

remember-All :
    (es : List Bytes) (cmd : Bytes)
    → All IsCommand es
    → IsCommand cmd
    → All IsCommand (remember es cmd)
remember-All es cmd h c = elim (Bool-cases (is_emptyline cmd || last_is es cmd)) [
  | inl e ↦ rw e h
  | inr e ↦ elim (Bool-cases (leb max_history (length es))) [
    | inl f ↦ rw (e, f) (All-append IsCommand (drop 1 es) (cmd ∷ []) (drop-All es h) (c, tt))
    | inr f ↦ rw (e, f) (All-append IsCommand es (cmd ∷ []) h (c, tt))
  ]
]

-- Adding the line to the history.
pub added-Ready :
    {v : Vty} (beyond : Option Bytes)
    → Ready v
    → (h : History) × (b : Bool) × (history_add beyond (h_ptr v) (cstr v.line.rl_buff)
        ≡ some (h, b))
      × Ready (put_history v h v.line)
added-Ready {v} beyond r =
    let s = current r in
    let cmd = cstr v.line.rl_buff in
    let c : IsCommand cmd = rw (Holds-cstr r.typed.holds) (typed-IsCommand r.typed) in
    let (h, added, keeps, new, same) =
      history_add-remember {h = h_ptr v} {es = s.entries} beyond cmd s.keeps in
    let b = is_new s.entries cmd in
    let stored : (h.pos ≤ h.len) → Stored h = λ within. record {
      entries = remember s.entries cmd;
      keeps = keeps;
      commands = remember-All s.entries cmd s.commands c;
      within = within;
    } in
    (
      h,
      b,
      added,
      elim (Bool-cases b) [
        | inl e ↦
            walked-Ready h v.line r r.typed (stored (omega (arith, new e)))
              (λ lt. absurd (omega (arith, new e)))
        | inr e ↦
            let q : h ≡ h_ptr v = same e in
            walked-Ready h v.line r r.typed (stored (rw q s.within)) (rw q r.saved)
      ],
    )
