-- ===== src/Lexer/Words.antt =====
-- The scanner of lex.c, on a line of words with blanks behind them.
use opencli.Base.{
  ◌-◌, ◌<◌, ◌≡◌, ◌≢◌, refl, sym, ◌∙◌, ap, true, List, [], ◌∷◌, ◌++◌, arith, Bytes, append_assoc,
  append-nil, length, length-take, take, All,
}
use opencli.Lexer.{max_args, is_word, is_special, flush, tokens, getline}

-- A word that the scanner takes whole.
pub record IsArgument (w : Bytes) : Type 0 where
  pub some_bytes : w ≢ []
  pub word : All (λ c. is_word c ≡ true) w

-- The words with a blank behind each.
abbrev pub unwords : List Bytes → Bytes
unwords [] = []
unwords (w ∷ ws) = w ++ b' ' ∷ unwords ws

pub tokens_word :
    (w seen text : Bytes)
    → All (λ c. is_word c ≡ true) w
    → tokens seen (w ++ text) ≡ tokens (seen ++ w) text
unfolding tokens
tokens_word [] seen text h = ap (λ s. tokens s text) (sym (append-nil seen))
tokens_word (c ∷ w) seen text h = rw h.0 (
    tokens_word w (seen ++ c ∷ []) text h.1
    ∙ ap (λ s. tokens s text) (append_assoc seen (c ∷ []) w))

tokens_blank : (w text : Bytes) → tokens w (b' ' ∷ text) ≡ flush w (tokens [] text)
unfolding tokens is_word is_special
tokens_blank w text = refl

pub flush_word : (w : Bytes) (args : List Bytes) → w ≢ [] → flush w args ≡ w ∷ args
unfolding flush
flush_word [] args h = absurd (h refl)
flush_word (c ∷ w) args h = refl

tokens-unwords : (ws : List Bytes) → All IsArgument ws → tokens [] (unwords ws) ≡ ws
tokens-unwords [] h = unfold tokens flush in refl
tokens-unwords (w ∷ ws) h =
    tokens_word w [] (b' ' ∷ unwords ws) h.0.word
    ∙ tokens_blank w (unwords ws)
    ∙ flush_word w (tokens [] (unwords ws)) h.0.some_bytes
    ∙ ap (◌∷◌ w) (tokens-unwords ws h.1)

-- A line of words with blanks behind them gives the words back, the first nine of them.
pub getline-unwords :
    (ws : List Bytes) → All IsArgument ws → getline (unwords ws) ≡ take (max_args - 1) ws
unfolding getline
getline-unwords ws h = ap (take (max_args - 1)) (tokens-unwords ws h)

-- `argv`, with the NULL behind the arguments, never holds more than its ten pointers.
pub getline_fits : (buff : Bytes) → length (getline buff) < max_args
unfolding getline
getline_fits buff = omega (arith, length-take (max_args - 1) (tokens [] buff))
