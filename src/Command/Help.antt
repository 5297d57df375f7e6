-- ===== src/Command/Help.antt =====
-- `cmd_finder` of commands.c: the user's level, and the action `C_HELP`.
use opencli.Base.{
  ℕ, ◌≤◌, ◌≡◌, refl, Bool, true, false, ◌&&◌, Option, none, some, List, [], ◌∷◌, ◌++◌, arith,
  if◌then◌else◌, Bool-cases, inl, inr, Bytes,
}
use opencli.Command.{
  Act, c_help, help, CmdState, found, invalid, ambiguous, incomplete, Spec, matches, Match,
  unmatched, matched, clash, scan, more_args, is_find, cmd_finder,
}

module _ {C : Type 0} (spec : C → Spec) (children : C → List C) where
  -- The user may see what `m_match` points to.
  abbrev pub Visible : ℕ → Option C → Type 0
  Visible v none = Unit
  Visible v (some n) = (spec n).privilege ≤ v

  abbrev match_of : Match C → Option C
  match_of unmatched = none
  match_of (matched n) = some n
  match_of (clash n) = some n

  matches-Visible : (v : ℕ) (arg : Bytes) (n : C) → matches spec v arg n ≡ true → Visible v (some n)
  matches-Visible v arg n e = ground arith

  pick-Visible :
      (v : ℕ) (k : Match C) (m : Match C)
      → Visible v (match_of k)
      → Visible v (match_of m)
      → Visible v (match_of (elim k [ unmatched ↦ m | matched j ↦ clash j | clash j ↦ clash j ]))
  pick-Visible v unmatched m h g = g
  pick-Visible v (matched j) m h g = h
  pick-Visible v (clash j) m h g = h

  scan-Visible :
      (v : ℕ) (arg : Bytes) (m : Match C) (lst : List C)
      → Visible v (match_of m)
      → Visible v (match_of (scan spec v arg m lst))
  unfolding scan
  scan-Visible v arg m [] h = h
  scan-Visible v arg m (n ∷ lst) h = elim (Bool-cases (matches spec v arg n)) [
    | inl e ↦
        let first = scan-Visible v arg (matched n) lst (matches-Visible v arg n e) in
        rw e (pick-Visible v m (scan spec v arg (matched n) lst) h first)
    | inr e ↦ rw e (scan-Visible v arg m lst h)
  ]

  -- What `cmd_finder` answers behind its inner loop, with `go_on` for a match.
  abbrev answer : Match C → (C → CmdState × Option C) → CmdState × Option C
  answer m go_on = elim m [
    | unmatched ↦ (invalid, none)
    | matched n ↦ go_on n
    | clash k ↦ (ambiguous, some k)
  ]

  answer_ap :
      (m : Match C) (f g : C → CmdState × Option C)
      → ((n : C) → f n ≡ g n)
      → answer m f ≡ answer m g
  answer_ap unmatched f g h = refl
  answer_ap (matched n) f g h = h n
  answer_ap (clash k) f g h = refl

  answer-Visible :
      (v : ℕ) (m : Match C) (go_on : C → CmdState × Option C)
      → Visible v (match_of m)
      → ((n : C) → (spec n).privilege ≤ v → Visible v (go_on n).1)
      → Visible v (answer m go_on).1
  answer-Visible v unmatched go_on h g = tt
  answer-Visible v (matched n) go_on h g = g n h
  answer-Visible v (clash k) go_on h g = h

  if-Visible :
      (v : ℕ) (b : Bool) (x y : CmdState × Option C)
      → Visible v x.1
      → Visible v y.1
      → Visible v (if b then x else y).1
  if-Visible v true x y h g = h
  if-Visible v false x y h g = g

  -- Whatever `cmd_finder` answers, the command it leaves in `*m_match` is none above the user's
  -- level.
  pub cmd_finder-Visible :
      (act : Act) (v : ℕ) (arg : Bytes) (rest : List Bytes) (lst : List C)
      → Visible v (cmd_finder spec children act v arg rest lst).1
  unfolding cmd_finder
  cmd_finder-Visible act v arg [] lst =
      answer-Visible v (scan spec v arg unmatched lst)
        (λ n. if is_find act && (spec n).final then (incomplete, some n) else (found, some n))
        (scan-Visible v arg unmatched lst tt)
        (λ n h.
          if-Visible v (is_find act && (spec n).final) (incomplete, some n) (found, some n) h h)
  cmd_finder-Visible act v arg (next ∷ rest) lst =
      answer-Visible v (scan spec v arg unmatched lst)
        (λ n.
          if is_find act && (spec n).final
          then (found, some n)
          else if more_args act (next ∷ rest)
          then cmd_finder spec children act v next rest (children n)
          else (found, some n))
        (scan-Visible v arg unmatched lst tt)
        (λ n h.
          let deeper = cmd_finder-Visible act v next rest (children n) in
          if-Visible v (is_find act && (spec n).final) (found, some n)
            (if more_args act (next ∷ rest)
              then cmd_finder spec children act v next rest (children n)
              else (found, some n))
            h
            (if-Visible v (more_args act (next ∷ rest))
              (cmd_finder spec children act v next rest (children n)) (found, some n) deeper h))

  more_args-c_help :
      (next : Bytes) (rest : List Bytes) (last : Bytes)
      → more_args c_help (next ∷ rest ++ last ∷ []) ≡ true
  unfolding more_args
  more_args-c_help next [] last = refl
  more_args-c_help next (third ∷ rest) last = refl

  -- `C_HELP` finds what `HELP` finds on the line without its last word.
  pub cmd_finder-c_help :
      (v : ℕ) (arg : Bytes) (rest : List Bytes) (last : Bytes) (lst : List C)
      → cmd_finder spec children c_help v arg (rest ++ last ∷ []) lst
        ≡ cmd_finder spec children help v arg rest lst
  unfolding cmd_finder more_args
  cmd_finder-c_help v arg [] last lst =
      answer_ap (scan spec v arg unmatched lst) (λ n. (found, some n)) (λ n. (found, some n))
        (λ n. refl)
  cmd_finder-c_help v arg (next ∷ rest) last lst =
      answer_ap (scan spec v arg unmatched lst)
        (λ n.
          if more_args c_help (next ∷ rest ++ last ∷ [])
          then cmd_finder spec children c_help v next (rest ++ last ∷ []) (children n)
          else (found, some n))
        (λ n. cmd_finder spec children help v next rest (children n))
        (λ n.
          let same = cmd_finder-c_help v next rest last (children n) in
          rw (more_args-c_help next rest last) same)
