-- ===== src/Lexer/Tests.antt =====
-- Lines for the scanner of lex.c.
use opencli.Base.{◌≡◌, ◌-◌, refl, [], ◌∷◌, codes, take}
use opencli.Lexer.{max_args, is_word, is_special, flush, tokens, getline}
use opencli.Lexer.Words.{IsArgument, unwords, getline-unwords}

test_line : getline (codes "show  ip;x") ≡ codes "show" ∷ codes "ip" ∷ codes ";" ∷ codes "x" ∷ []
unfolding getline tokens flush is_word is_special
test_line = refl

show-IsArgument : IsArgument (codes "show")
unfolding is_word
show-IsArgument = record {
  some_bytes = λ e. absurd (cc);
  word = (refl, (refl, (refl, (refl, tt))));
}

getline-unwords_example :
    getline (unwords (codes "show" ∷ codes "show" ∷ []))
    ≡ take (max_args - 1) (codes "show" ∷ codes "show" ∷ [])
getline-unwords_example =
    getline-unwords (codes "show" ∷ codes "show" ∷ []) (show-IsArgument, (show-IsArgument, tt))
