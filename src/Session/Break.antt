-- ===== src/Session/Break.antt =====
-- What `cmd_action_onbrk` of vty.c comes to, on a line with words.
use opencli.Base.{
  ℕ, ◌≡◌, refl, Bool, true, false, ◌&&◌, Option, none, some, List, [], ◌∷◌, if◌then◌else◌,
  Bool-cases, inl, inr, Bytes,
}
use opencli.Command.{
  Act, find, complete, c_help, help, CmdState, found, invalid, ambiguous, incomplete, Match,
  unmatched, matched, clash, scan, is_find, more_args, cmd_finder,
}
use opencli.Command.Table.{CmdId, spec, children, has_handler}
use opencli.Session.{Outcome, prints, executes, completes, act_on, cmd_err_hld, on_found, selected}

-- CMD_FOUND comes with a command.
data Named : CmdState × Option CmdId → Type 0 where
  some_match : {ret : CmdState} {n : CmdId} → Named (ret, some n)
  no_match : Named (invalid, none)

answer-Named :
    (m : Match CmdId) (go_on : CmdId → CmdState × Option CmdId)
    → ((n : CmdId) → Named (go_on n))
    → Named (elim m as (λ k. CmdState × Option CmdId) [
      | unmatched ↦ (invalid, none)
      | matched n ↦ go_on n
      | clash k ↦ (ambiguous, some k)
    ])
answer-Named unmatched go_on h = no_match
answer-Named (matched n) go_on h = h n
answer-Named (clash k) go_on h = some_match

if-Named :
    (b : Bool) {x y : CmdState × Option CmdId} → Named x → Named y → Named (if b then x else y)
if-Named true s t = s
if-Named false s t = t

cmd_finder-Named :
    (act : Act) (v : ℕ) (arg : Bytes) (rest : List Bytes) (lst : List CmdId)
    → Named (cmd_finder spec children act v arg rest lst)
unfolding cmd_finder
cmd_finder-Named act v arg [] lst =
    answer-Named (scan spec v arg unmatched lst)
      (λ n. if is_find act && (spec n).final then (incomplete, some n) else (found, some n))
      (λ n. if-Named (is_find act && (spec n).final) some_match some_match)
cmd_finder-Named act v arg (next ∷ rest) lst =
    answer-Named (scan spec v arg unmatched lst)
      (λ n.
        if is_find act && (spec n).final
        then (found, some n)
        else if more_args act (next ∷ rest)
        then cmd_finder spec children act v next rest (children n)
        else (found, some n))
      (λ n. if-Named (is_find act && (spec n).final) some_match (
        if-Named (more_args act (next ∷ rest)) (cmd_finder-Named act v next rest (children n))
          some_match))

-- The kind of outcome that an action has.
pub data Fits : Act → Outcome → Type 0 where
  message : {act : Act} {out : Bytes} → Fits act (prints out)
  handler : {n : CmdId} → Fits find (executes n)
  completion : {n : CmdId} → Fits complete (completes n)

abbrev pub Defined : Act → Option Outcome → Type 0
Defined act o = (out : Outcome) × (o ≡ some out) × Fits act out

act_on-Fits :
    (privilege : ℕ) (act : Act) (arg : Bytes) (rest : List Bytes) (n : CmdId)
    → Fits act (act_on privilege act arg rest n)
unfolding act_on
act_on-Fits privilege c_help arg rest n = message
act_on-Fits privilege help arg rest n = message
act_on-Fits privilege complete arg rest n = completion
act_on-Fits privilege find arg rest n = elim (Bool-cases (has_handler n)) [
  | inl e ↦ rw e handler
  | inr e ↦ rw e message
]

on_found-Defined :
    (privilege : ℕ) (act : Act) (arg : Bytes) (rest : List Bytes) (line : Bytes)
    (r : CmdState × Option CmdId)
    → Named r
    → Defined act (on_found privilege act arg rest line r)
unfolding on_found
on_found-Defined privilege act arg rest line (found, some n) h =
    (act_on privilege act arg rest n, refl, act_on-Fits privilege act arg rest n)
on_found-Defined privilege act arg rest line (found, none) h = elim h [ ]
on_found-Defined privilege complete arg rest line (ret, match) h = (prints [], refl, message)
on_found-Defined privilege find arg rest line (ret, match) h =
    (prints (cmd_err_hld find ret line), refl, message)
on_found-Defined privilege help arg rest line (ret, match) h =
    (prints (cmd_err_hld help ret line), refl, message)
on_found-Defined privilege c_help arg rest line (ret, match) h =
    (prints (cmd_err_hld c_help ret line), refl, message)

-- On a line with words the switch has a command for every action; a handler is only run for FIND, and
-- a command only completed for COMPLETE.
pub selected-Defined :
    (privilege : ℕ) (act : Act) (arg : Bytes) (rest : List Bytes) (line : Bytes) (root : List CmdId)
    → Defined act (selected privilege act (arg ∷ rest) line root)
unfolding selected
selected-Defined privilege c_help arg [] line root = (_, refl, message)
selected-Defined privilege act arg rest line root =
    on_found-Defined privilege act arg rest line
      (cmd_finder spec children act privilege arg rest root)
      (cmd_finder-Named act privilege arg rest root)
