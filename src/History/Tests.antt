-- ===== src/History/Tests.antt =====
-- The history of vty.c with two commands in it, and a line being typed.
use opencli.Base.{
  ℕ, ◌≡◌, refl, true, false, none, some, List, [], ◌∷◌, ◌++◌, Bytes, codes, replicate,
}
use opencli.Line.{Line, max_cmdline}
use opencli.Line.Zipper.{Zipper, zipper}
use opencli.History.{History, is_emptyline, history_add}
use opencli.History.Recent.{Keeps, history_add-remember}

abbrev commands : List Bytes
commands = codes "show" ∷ codes "exit" ∷ []

-- At place `p`.
abbrev two_commands : ℕ → History
two_commands p = record {
  history = some (codes "show") ∷ some (codes "exit") ∷ replicate 8 none;
  len = 2;
  pos = p;
}

two_commands-Keeps : (p : ℕ) → Keeps (two_commands p) commands
two_commands-Keeps p = record { rest = replicate 8 none; slots = refl; size = refl; count = refl }

history_add-remember_example :
    (h' : History) × (history_add none (two_commands 2) (codes "help") ≡ some (h', true))
    × Keeps h' (codes "show" ∷ codes "exit" ∷ codes "help" ∷ [])
    × (true ≡ true → h'.pos ≡ h'.len)
    × (true ≡ false → h' ≡ two_commands 2)
unfolding is_emptyline
history_add-remember_example =
    history_add-remember {h = two_commands 2} {es = commands} none (codes "help")
      (two_commands-Keeps 2)

-- `he` is being typed, and was saved.
abbrev line : Line
line = record {
  hst_buff = codes "he" ++ replicate 126 0;
  rl_buff = codes "he" ++ replicate 126 0;
  old_buff = replicate max_cmdline 0;
  rl_index = 2;
  rl_ptr = 2;
  old_ptr = 0;
}

abbrev typed : Zipper
typed = zipper (codes "eh") []
