-- ===== src/Lexer.antt =====
-- lex.c, the scanner's rules: a run of the bytes of WORD is an argument, and so is a byte of SPECIAL;
-- a return ends the line, and all other bytes are passed over. flex makes the program of it that is
-- built.
mod Tests
pub mod Words
use opencli.Base.{
  ℕ, zero, suc, ◌-◌, Bool, true, false, not, ◌&&◌, ◌||◌, List, [], ◌∷◌, ◌++◌, ◌==◌, ltb, leb,
  if◌then◌else◌, Bytes, codes, length, take,
}

abbrev pub max_args : ℕ
max_args = 10

abbrev elem : ℕ → Bytes → Bool
elem c [] = false
elem c (d ∷ ds) = c == d || elem c ds

-- `[a-zA-Z0-9\/\.-]`
unfoldable pub is_word : ℕ → Bool
is_word c =
    leb b'a' c && leb c b'z'
    || leb b'A' c && leb c b'Z'
    || leb b'0' c && leb c b'9'
    || elem c (codes "/.-")

-- `[()><|&;*]`
unfoldable pub is_special : ℕ → Bool
is_special c = elem c (codes "()><|&;*")

-- The word that the bytes `w` make, if there are any.
unfoldable pub flush : Bytes → List Bytes → List Bytes
flush [] args = args
flush (c ∷ w) args = (c ∷ w) ∷ args

-- The matches of the first rule, where `w` is the word before the text.
unfoldable pub tokens : Bytes → Bytes → List Bytes
tokens w [] = flush w []
tokens w (c ∷ text) =
    let longer = tokens (w ++ c ∷ []) text in
    let rest = tokens [] text in
    if is_word c
    then longer
    else if is_special c
    then flush w ((c ∷ []) ∷ rest)
    else if c == b'\r'
    then flush w []
    else flush w rest

-- `getline`: the arguments in front of the NULL, as many as `args` has room for.
unfoldable pub getline : Bytes → List Bytes
getline buff = take (max_args - 1) (tokens [] buff)
