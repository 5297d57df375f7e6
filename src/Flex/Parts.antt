-- ===== src/Flex/Parts.antt =====
-- A text of lex.yy.c in parts: the runs of bytes of one class, and the words of lex.c in them.
use opencli.Base.{
  ℕ, zero, suc, ◌+◌, ◌-◌, ◌<◌, ◌≡◌, ◌≢◌, refl, ap, ◌∙◌, ◌⊎◌, inl, inr, true, false, Bool-cases,
  List, [], ◌∷◌, ◌++◌, ◌==◌, ltb, if◌then◌else◌, arith, Bytes, IsText, All, set, take, drop, length,
  length-append, set-append, cstr, cstr-append, append_assoc,
}
use opencli.Lexer.{max_args, is_word, is_special, flush, tokens}
use opencli.Lexer.Words.{tokens_word, flush_word}
use opencli.Dfa.Classes.{class, is_word-class, is_special-class, return-class}

-- `argv` with room for one more, or as it is.
abbrev pub push : List Bytes → Bytes → List Bytes
push args t = if ltb (length args) (max_args - 1) then args ++ t ∷ [] else args

-- The arguments, with those behind them that fit.
abbrev pub fill : List Bytes → List Bytes → List Bytes
fill args ts = args ++ take (max_args - 1 - length args) ts

pub fill-push :
    (args : List Bytes) (t : Bytes) (ts : List Bytes) → fill (push args t) ts ≡ fill args (t ∷ ts)
fill-push args t ts = elim (Bool-cases (ltb (length args) (max_args - 1))) [
  | inl e ↦
      let room : max_args - 1 - length args ≡ suc (max_args - 1 - length (args ++ t ∷ [])) =
        (let size = length-append args (t ∷ []) in ground arith) in
      rw (e, room) (append_assoc args (t ∷ []) _)
  | inr e ↦ let full : max_args - 1 - length args ≡ 0 = ground arith in rw (e, full) refl
]

abbrev pub IsByte : ℕ → Type 0
IsByte c = (c ≢ 0) × (c < 256)

-- The bytes at the start of a text that have the class `k`.
pub record Split (k : ℕ) (text : Bytes) : Type 0 where
  pub run : Bytes
  pub rest : Bytes
  pub splits : text ≡ run ++ rest
  pub inside : All (λ c. class c ≡ k) run
  pub outside : (rest ≡ []) ⊎ ((d : ℕ) × (rest' : Bytes) × (rest ≡ d ∷ rest') × (class d ≢ k))

pub split : (k : ℕ) (text : Bytes) → Split k text
split k [] = record { run = []; rest = []; splits = refl; inside = tt; outside = inl refl }
split k (c ∷ text) = elim (Bool-cases (class c == k)) [
  | inl e ↦
      let more = split k text in
      record {
        run = c ∷ more.run;
        rest = more.rest;
        splits = ap (◌∷◌ c) more.splits;
        inside = (ground arith, more.inside);
        outside = more.outside;
      }
  | inr e ↦ record {
    run = [];
    rest = c ∷ text;
    splits = refl;
    inside = tt;
    outside = inr (c, text, refl, ground arith);
  }
]

pub All-parts {ℓ} : (P : ℕ → Type ℓ) (xs ys : Bytes) → All P (xs ++ ys) → All P xs × All P ys
All-parts P [] ys h = (tt, h)
All-parts P (x ∷ xs) ys h = let (a, b) = All-parts P xs ys h.1 in ((h.0, a), b)

drop-set : (p k v : ℕ) (buf : Bytes) → drop p (set buf (p + k) v) ≡ set (drop p buf) k v
drop-set zero k v buf = let e : 0 + k ≡ k = omega arith in rw e refl
drop-set (suc p) k v [] = refl
drop-set (suc p) k v (x ∷ buf) =
    let e : suc p + k ≡ suc (p + k) = omega arith in rw e (drop-set p k v buf)

-- `yytext`, which ends at the NUL that is put behind the match.
pub yytext :
    (w : Bytes) (p d : ℕ) (buf rest : Bytes)
    → IsText w
    → drop p buf ≡ w ++ d ∷ rest
    → cstr (drop p (set buf (p + length w) 0)) ≡ w
yytext w p d buf rest hw hd =
    ap cstr
      (drop-set p (length w) 0 buf ∙ ap (λ b. set b (length w) 0) hd ∙ set-append w (d ∷ rest) 0)
    ∙ cstr-append w rest hw

-- A byte of no rule: blanks, and those that the rules pass over.
pub tokens_passed :
    (c : ℕ) (w text : Bytes)
    → IsByte c
    → class c == 4 ≡ false
    → class c == 5 ≡ false
    → class c == 6 ≡ false
    → tokens w (c ∷ text) ≡ flush w (tokens [] text)
unfolding tokens
tokens_passed c w text h n4 n5 n6 =
    let a : is_word c ≡ false = is_word-class c h.1 ∙ n6 in
    let b : is_special c ≡ false = is_special-class c h.1 ∙ n5 in
    let d : c == b'\r' ≡ false = return-class c h.1 ∙ n4 in rw (a, b, d) refl

pub tokens_special :
    (c : ℕ) (w text : Bytes)
    → IsByte c
    → class c ≡ 5
    → tokens w (c ∷ text) ≡ flush w ((c ∷ []) ∷ tokens [] text)
unfolding tokens
tokens_special c w text h e =
    let a : is_word c ≡ false = is_word-class c h.1 ∙ ap (λ k. k == 6) e in
    let b : is_special c ≡ true = is_special-class c h.1 ∙ ap (λ k. k == 5) e in rw (a, b) refl

pub tokens_return :
    (c : ℕ) (w text : Bytes) → IsByte c → class c ≡ 4 → tokens w (c ∷ text) ≡ flush w []
unfolding tokens
tokens_return c w text h e =
    let a : is_word c ≡ false = is_word-class c h.1 ∙ ap (λ k. k == 6) e in
    let b : is_special c ≡ false = is_special-class c h.1 ∙ ap (λ k. k == 5) e in
    let d : c == b'\r' ≡ true = return-class c h.1 ∙ ap (λ k. k == 4) e in rw (a, b, d) refl

-- A byte that is not of a word ends the one before it.
tokens-flush :
    (d : ℕ) (w text : Bytes)
    → IsByte d
    → class d ≢ 6
    → tokens w (d ∷ text) ≡ flush w (tokens [] (d ∷ text))
unfolding tokens flush
tokens-flush d w text h n6 =
    let a : is_word d ≡ false = is_word-class d h.1 ∙ ground arith in ground (arith, a)

pub tokens_words :
    (w text : Bytes)
    → w ≢ []
    → All (λ c. class c ≡ 6) w
    → All IsByte (w ++ text)
    → (text ≡ []) ⊎ ((d : ℕ) × (rest : Bytes) × (text ≡ d ∷ rest) × (class d ≢ 6))
    → tokens [] (w ++ text) ≡ w ∷ tokens [] text
tokens_words w text some_bytes hw hb end =
    let (bw, bt) = All-parts IsByte w text hb in
    tokens_word w [] text (words w bw hw) ∙ ends end bt ∙ flush_word w (tokens [] text) some_bytes
  where
    words : (w : Bytes) → All IsByte w → All (λ c. class c ≡ 6) w → All (λ c. is_word c ≡ true) w
    words [] b h = tt
    words (c ∷ w) b h = (is_word-class c b.0.1 ∙ ap (λ k. k == 6) h.0, words w b.1 h.1)

    ends :
        (text ≡ []) ⊎ ((d : ℕ) × (rest : Bytes) × (text ≡ d ∷ rest) × (class d ≢ 6))
        → All IsByte text
        → tokens w text ≡ flush w (tokens [] text)
    ends (inl e) b = rw e (unfold tokens flush in refl)
    ends (inr (d, rest, e, n6)) b = let b' = rw e at b in rw e (tokens-flush d w rest b'.0 n6)

pub tokens_blanks :
    (w text : Bytes)
    → All (λ c. class c ≡ 2) w
    → All IsByte (w ++ text)
    → tokens [] (w ++ text) ≡ tokens [] text
unfolding flush
tokens_blanks [] text hw hb = refl
tokens_blanks (c ∷ w) text hw hb =
    tokens_passed c [] (w ++ text) hb.0 (ap (λ k. k == 4) hw.0) (ap (λ k. k == 5) hw.0)
      (ap (λ k. k == 6) hw.0)
    ∙ tokens_blanks w text hw.1 hb.1
