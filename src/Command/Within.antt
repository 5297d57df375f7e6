-- ===== src/Command/Within.antt =====
-- `cmd_finder` of commands.c, and a property of the commands it can reach.
use opencli.Base.{
  ℕ, Bool, true, false, ◌&&◌, Option, none, some, List, [], ◌∷◌, if◌then◌else◌, Bool-cases, inl,
  inr, Bytes, All,
}
use opencli.Command.{
  Act, CmdState, found, invalid, ambiguous, incomplete, Spec, matches, Match, unmatched, matched,
  clash, scan, more_args, is_find, cmd_finder,
}

module _ {C : Type 0} (spec : C → Spec) (children : C → List C) (P : C → Type 0) where
  abbrev pub OfMatch : Match C → Type 0
  OfMatch unmatched = Unit
  OfMatch (matched n) = P n
  OfMatch (clash n) = P n

  abbrev pub OfResult : Option C → Type 0
  OfResult none = Unit
  OfResult (some n) = P n

  pick_within :
      (k m : Match C)
      → OfMatch k
      → OfMatch m
      → OfMatch (elim k [ unmatched ↦ m | matched j ↦ clash j | clash j ↦ clash j ])
  pick_within unmatched m h g = g
  pick_within (matched j) m h g = h
  pick_within (clash j) m h g = h

  pub scan_within :
      (v : ℕ) (arg : Bytes) (m : Match C) (lst : List C)
      → OfMatch m
      → All P lst
      → OfMatch (scan spec v arg m lst)
  unfolding scan
  scan_within v arg m [] h all = h
  scan_within v arg m (n ∷ lst) h all = elim (Bool-cases (matches spec v arg n)) [
    | inl e ↦
        let first = scan_within v arg (matched n) lst all.0 all.1 in
        rw e (pick_within m (scan spec v arg (matched n) lst) h first)
    | inr e ↦ rw e (scan_within v arg m lst h all.1)
  ]

  answer_within :
      (m : Match C) (go_on : C → CmdState × Option C)
      → OfMatch m
      → ((n : C) → P n → OfResult (go_on n).1)
      → OfResult
          (elim m as (λ k. CmdState × Option C) [
            | unmatched ↦ (invalid, none)
            | matched n ↦ go_on n
            | clash k ↦ (ambiguous, some k)
          ]).1
  answer_within unmatched go_on h g = tt
  answer_within (matched n) go_on h g = g n h
  answer_within (clash k) go_on h g = h

  if_within :
      (b : Bool) (x y : CmdState × Option C)
      → OfResult x.1
      → OfResult y.1
      → OfResult (if b then x else y).1
  if_within true x y h g = h
  if_within false x y h g = g

  -- What holds of the commands of a list, and of the children of every command it holds of, holds
  -- of the command that `cmd_finder` leaves in `*m_match`.
  pub cmd_finder_within :
      ((n : C) → P n → All P (children n))
      → (act : Act) (v : ℕ) (arg : Bytes) (rest : List Bytes) (lst : List C) → All P lst
      → OfResult (cmd_finder spec children act v arg rest lst).1
  unfolding cmd_finder
  cmd_finder_within closed act v arg [] lst all =
      answer_within (scan spec v arg unmatched lst)
        (λ n. if is_find act && (spec n).final then (incomplete, some n) else (found, some n))
        (scan_within v arg unmatched lst tt all)
        (λ n h. if_within (is_find act && (spec n).final) (incomplete, some n) (found, some n) h h)
  cmd_finder_within closed act v arg (next ∷ rest) lst all =
      answer_within (scan spec v arg unmatched lst)
        (λ n. if is_find act && (spec n).final then (found, some n) else go_on n)
        (scan_within v arg unmatched lst tt all)
        (λ n h.
          let deeper = cmd_finder_within closed act v next rest (children n) (closed n h) in
          if_within (is_find act && (spec n).final) (found, some n) (go_on n) h
            (if_within (more_args act (next ∷ rest))
              (cmd_finder spec children act v next rest (children n)) (found, some n) deeper h))
    where
      go_on : C → CmdState × Option C
      go_on n =
          if more_args act (next ∷ rest)
          then cmd_finder spec children act v next rest (children n)
          else (found, some n)
