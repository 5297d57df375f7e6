-- ===== src/Command/Find.antt =====
-- `cmd_finder` of commands.c, against the candidates of each word.
use opencli.Base.{
  ℕ, ◌≡◌, ◌≢◌, refl, sym, ◌∙◌, ap, ◌↔◌, ◌⊎◌, Bool, true, false, ◌&&◌, Option, none, some, List, [],
  ◌∷◌, arith, if◌then◌else◌, Bool-cases, inl, inr, Bytes,
}
use opencli.Command.{
  Act, find, complete, c_help, help, CmdState, found, invalid, ambiguous, incomplete, Spec, matches,
  Match, unmatched, matched, clash, scan, more_args, is_find, cmd_finder,
}

module _ {C : Type 0} (spec : C → Spec) where
  -- The commands of a list that the user may run and that `arg` begins.
  abbrev pub candidates : ℕ → Bytes → List C → List C
  candidates v arg [] = []
  candidates v arg (n ∷ lst) =
      if matches spec v arg n then n ∷ candidates v arg lst else candidates v arg lst

  -- What `scan` makes of the candidates.
  abbrev pub tally : List C → Match C
  tally [] = unmatched
  tally (n ∷ []) = matched n
  tally (n ∷ k ∷ lst) = clash n

  scan-matched :
      (v : ℕ) (arg : Bytes) (n : C) (lst : List C)
      → scan spec v arg (matched n) lst ≡ tally (n ∷ candidates v arg lst)
  unfolding scan
  scan-matched v arg n [] = refl
  scan-matched v arg n (k ∷ lst) = elim (Bool-cases (matches spec v arg k)) [
    | inl e ↦ rw e
    | inr e ↦ rw e (scan-matched v arg n lst)
  ]

  scan-tally :
      (v : ℕ) (arg : Bytes) (lst : List C)
      → scan spec v arg unmatched lst ≡ tally (candidates v arg lst)
  unfolding scan
  scan-tally v arg [] = refl
  scan-tally v arg (n ∷ lst) = elim (Bool-cases (matches spec v arg n)) [
    | inl e ↦ rw e (scan-matched v arg n lst)
    | inr e ↦ rw e (scan-tally v arg lst)
  ]

  module _ (children : C → List C) (act : Act) (v : ℕ) where
    abbrev stops : C → Bool
    stops n = is_find act && (spec n).final

    -- The line leads to the command `n`. Looking for a command to run stops at one that takes
    -- arguments, and wants one.
    pub data Resolves : Bytes → List Bytes → List C → C → Type 0 where
      last :
          {arg : Bytes} {lst : List C} {n : C}
          → candidates v arg lst ≡ n ∷ []
          → stops n ≡ false
          → Resolves arg [] lst n
      stop :
          {arg next : Bytes} {rest : List Bytes} {lst : List C} {n : C}
          → candidates v arg lst ≡ n ∷ []
          → stops n ≡ true
          → Resolves arg (next ∷ rest) lst n
      step :
          {arg next : Bytes} {rest : List Bytes} {lst : List C} {n m : C}
          → candidates v arg lst ≡ n ∷ []
          → stops n ≡ false
          → Resolves next rest (children n) m
          → Resolves arg (next ∷ rest) lst m

    -- For every action but `C_HELP` the loop goes on as long as there are words.
    abbrev pub IsWhole : Type 0
    IsWhole = act ≢ c_help

    more_args_whole :
        IsWhole → (next : Bytes) (rest : List Bytes) → more_args act (next ∷ rest) ≡ true
    unfolding more_args
    more_args_whole whole next rest = go act refl
      where
        go : (a : Act) → act ≡ a → more_args a (next ∷ rest) ≡ true
        go find e = refl
        go complete e = refl
        go help e = refl
        go c_help e = absurd (whole e)

    -- One word: the candidates decide what becomes of the search.
    finder_last :
        (arg : Bytes) (lst : List C)
        → cmd_finder spec children act v arg [] lst ≡ elim (tally (candidates v arg lst)) [
          | clash k ↦ (ambiguous, some k)
          | unmatched ↦ (invalid, none)
          | matched n ↦ if stops n then (incomplete, some n) else (found, some n)
        ]
    unfolding cmd_finder
    finder_last arg lst = rw (scan-tally v arg lst, cmd_finder)

    finder_step :
        IsWhole
        → (arg next : Bytes) (rest : List Bytes) (lst : List C)
        → cmd_finder spec children act v arg (next ∷ rest) lst
          ≡ elim (tally (candidates v arg lst)) [
            | clash k ↦ (ambiguous, some k)
            | unmatched ↦ (invalid, none)
            | matched n ↦
                if stops n
                then (found, some n)
                else cmd_finder spec children act v next rest (children n)
          ]
    unfolding cmd_finder
    finder_step whole arg next rest lst =
        rw (scan-tally v arg lst, cmd_finder) (go (tally (candidates v arg lst)))
      where
        go :
            (m : Match C)
            → ◌≡◌ {A = CmdState × Option C}
                (elim m [
                  | clash k ↦ (ambiguous, some k)
                  | unmatched ↦ (invalid, none)
                  | matched n ↦
                      if stops n
                      then (found, some n)
                      else if more_args act (next ∷ rest)
                      then cmd_finder spec children act v next rest (children n)
                      else (found, some n)
                ])
                (elim m [
                  | clash k ↦ (ambiguous, some k)
                  | unmatched ↦ (invalid, none)
                  | matched n ↦
                      if stops n
                      then (found, some n)
                      else cmd_finder spec children act v next rest (children n)
                ])
        go (clash k) = refl
        go unmatched = refl
        go (matched n) = rw (more_args_whole whole next rest)

    pub Resolves-found :
        {arg : Bytes} {rest : List Bytes} {lst : List C} {n : C}
        → IsWhole
        → Resolves arg rest lst n
        → cmd_finder spec children act v arg rest lst ≡ (found, some n)
    Resolves-found {arg} {lst} whole (last one go_on) = rw (finder_last arg lst, one, go_on)
    Resolves-found {arg} {lst} whole (stop {next} {rest} one s) =
        rw (finder_step whole arg next rest lst, one, s)
    Resolves-found {arg} {lst} whole (step {next} {rest} one go_on r) =
        rw (finder_step whole arg next rest lst, one, go_on) (Resolves-found whole r)

    same_found : {m n : C} → ◌≡◌ {A = CmdState × Option C} (found, some m) (found, some n) → m ≡ n
    same_found e = cc

    -- What is found on the last word, and on a word with others behind it.
    last_found :
        (cs : List C) (n : C)
        → ◌≡◌ {A = CmdState × Option C}
            (elim (tally cs) [
              | clash k ↦ (ambiguous, some k)
              | unmatched ↦ (invalid, none)
              | matched m ↦ if stops m then (incomplete, some m) else (found, some m)
            ])
            (found, some n)
        → (cs ≡ n ∷ []) × (stops n ≡ false)
    last_found [] n e = ground arith
    last_found (m ∷ []) n e = elim (Bool-cases (stops m)) [
      | inl s ↦ let e' = rw s at e in absurd (ground arith)
      | inr s ↦ let q : m ≡ n = same_found (rw s at e) in (ap (λ k. k ∷ []) q, ap stops (sym q) ∙ s)
    ]
    last_found (m ∷ k ∷ cs) n e = absurd (ground arith)

    step_found :
        (cs : List C) (n : C) (then_do : C → CmdState × Option C)
        → ◌≡◌ {A = CmdState × Option C}
            (elim (tally cs) [
              | clash k ↦ (ambiguous, some k)
              | unmatched ↦ (invalid, none)
              | matched m ↦ if stops m then (found, some m) else then_do m
            ])
            (found, some n)
        → (m : C) × (cs ≡ m ∷ [])
          × (((stops m ≡ true) × (m ≡ n)) ⊎ ((stops m ≡ false) × (then_do m ≡ (found, some n))))
    step_found [] n then_do e = absurd (ground arith)
    step_found (m ∷ []) n then_do e = (
      m,
      refl,
      elim (Bool-cases (stops m)) [
        | inl s ↦ inl (s, same_found (rw s at e))
        | inr s ↦ inr (s, rw s at e)
      ],
    )
    step_found (m ∷ k ∷ cs) n then_do e = absurd (ground arith)

    pub found-Resolves :
        (arg : Bytes) (rest : List Bytes) (lst : List C) (n : C)
        → IsWhole
        → cmd_finder spec children act v arg rest lst ≡ (found, some n)
        → Resolves arg rest lst n
    found-Resolves arg [] lst n whole e =
        let h = last_found (candidates v arg lst) n (sym (finder_last arg lst) ∙ e) in last h.0 h.1
    found-Resolves arg (next ∷ rest) lst n whole e =
        let (m, one, how) =
          step_found (candidates v arg lst) n
            (λ m. cmd_finder spec children act v next rest (children m))
            (sym (finder_step whole arg next rest lst) ∙ e) in
        elim how [
          | inl (s, q) ↦ stop (one ∙ ap (λ k. k ∷ []) q) (ap stops (sym q) ∙ s)
          | inr (s, deeper) ↦ step one s (found-Resolves next rest (children m) n whole deeper)
        ]

    -- For every action but `C_HELP`, `cmd_finder` answers CMD_FOUND with a command exactly when
    -- the line leads to it: each word begins exactly one command the user may run at its level,
    -- and, looking for a command to run, one that takes arguments is given some.
    pub cmd_finder_iff :
        IsWhole
        → (arg : Bytes) (rest : List Bytes) (lst : List C) (n : C)
        → (cmd_finder spec children act v arg rest lst ≡ (found, some n)) ↔ Resolves arg rest lst n
    cmd_finder_iff whole arg rest lst n =
        (found-Resolves arg rest lst n whole, Resolves-found whole)
