-- ===== src/Command/Completion.antt =====
-- `cmd_is_completion` of commands.c.
use opencli.Base.{◌≡◌, refl, ◌↔◌, some, [], ◌∷◌, ◌++◌, arith, Bytes}
use opencli.Command.{cmd_is_completion}

completion_sound :
    (cmd real_cmd rest : Bytes)
    → cmd_is_completion cmd real_cmd ≡ some rest
    → cmd ++ rest ≡ real_cmd
unfolding cmd_is_completion
completion_sound [] real_cmd rest e = cc
completion_sound (c ∷ cmd) [] rest e = absurd (ground arith)
completion_sound (c ∷ cmd) (d ∷ real_cmd) rest e =
    ground (arith, completion_sound cmd real_cmd rest)

completion_complete : (cmd rest : Bytes) → cmd_is_completion cmd (cmd ++ rest) ≡ some rest
unfolding cmd_is_completion
completion_complete [] rest = refl
completion_complete (c ∷ cmd) rest = ground (arith, completion_complete cmd rest)

-- `rest` is returned exactly when `cmd` followed by it is the command.
pub cmd_is_completion_iff :
    (cmd real_cmd rest : Bytes)
    → (cmd_is_completion cmd real_cmd ≡ some rest) ↔ (cmd ++ rest ≡ real_cmd)
cmd_is_completion_iff cmd real_cmd rest =
    (completion_sound cmd real_cmd rest, λ e. rw (← e) (completion_complete cmd rest))
