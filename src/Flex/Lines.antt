-- ===== src/Flex/Lines.antt =====
-- `lexscan` of lex.yy.c on one line after another.
use opencli.Base.{
  suc, ◌+◌, ◌-◌, ◌<◌, ◌≡◌, ◌≢◌, refl, ap, ◌∙◌, ◌⊎◌, inl, inr, true, false, Bool-cases, none, some,
  [], ◌∷◌, ◌++◌, ◌==◌, ltb, arith, Bytes, All, get_or, set, length, length-append, get_or-append,
  cstr,
}
use opencli.Lexer.{getline}
use opencli.Flex.{
  Buffer, Flex, scan_string, scan_bytes, scan_buffer, switch_to_buffer, load_buffer_state,
  first_call,
}
use opencli.Flex.Scan.{returned, lexscan, scan_loop}
use opencli.Flex.Round.{scanning}
use opencli.Flex.Parts.{IsByte}
use opencli.Flex.Whole.{scan_loop-Returns}

-- Between two calls: before the first, or behind one.
pub record IsIdle (s : Flex) : Type 0 where
  pub no_buffer : s.current ≡ none
  pub begun : ((s.init ≡ true) × (s.start ≡ 0)) ⊎ ((s.init ≡ false) × (s.start ≡ 1))

cstr-IsByte : (buffer : Bytes) → All (λ c. c < 256) buffer → All IsByte (cstr buffer)
cstr-IsByte [] h = tt
cstr-IsByte (c ∷ buffer) h = elim (Bool-cases (c == 0)) [
  | inl e ↦ rw e tt
  | inr e ↦ let nz : c ≢ 0 = ground arith in rw e ((nz, h.0), cstr-IsByte buffer h.1)
]

abbrev two_nuls : Bytes → Bytes
two_nuls text = text ++ 0 ∷ 0 ∷ []

abbrev fresh_buffer : Bytes → Buffer
fresh_buffer text = record {
  ch_buf = two_nuls text;
  buf_pos = 0;
  buf_size = length (two_nuls text) - 2;
  n_chars = length (two_nuls text) - 2;
  is_our_buffer = true;
  fill_buffer = false;
  is_new = true;
}

abbrev loaded : Flex → Bytes → Flex
loaded s text = record s {
  current = some (fresh_buffer text);
  n_chars = length (two_nuls text) - 2;
  text = 0;
  c_buf_p = 0;
  hold_char = get_or (two_nuls text) 0 0;
  did_buffer_switch_on_eof = true;
}

last_nul : (text : Bytes) → get_or (two_nuls text) (suc (length text)) 0 ≡ 0
last_nul [] = refl
last_nul (c ∷ text) = last_nul text

scan_string-loaded :
    (s : Flex) (buffer : Bytes) → scan_string s buffer ≡ some (loaded s (cstr buffer))
unfolding scan_string scan_bytes scan_buffer switch_to_buffer load_buffer_state
scan_string-loaded s buffer =
    let text = cstr buffer in
    let size = length-append text (0 ∷ 0 ∷ []) in
    let long : ltb (length (two_nuls text)) 2 ≡ false = ground arith in
    let at : length (two_nuls text) - 2 ≡ length text = omega arith in
    let at' : length (two_nuls text) - 1 ≡ suc (length text) = omega arith in
    let first : get_or (two_nuls text) (length (two_nuls text) - 2) 0 ≡ 0 =
      rw at (get_or-append text (0 ∷ 0 ∷ []) 0) in
    let second : get_or (two_nuls text) (length (two_nuls text) - 1) 0 ≡ 0 =
      rw at' (last_nul text) in
    rw (scan_bytes, scan_buffer, long, first, second) refl

first_call-scanning :
    (s : Flex) (text : Bytes)
    → IsIdle s
    → (s' : Flex) × (first_call (loaded s text)
        ≡ scanning s'
            (fresh_buffer text)
            (two_nuls text)
            (length (two_nuls text) - 2)
            0
            (get_or (two_nuls text) 0 0)
            s.regs)
      × (s'.init ≡ false)
unfolding first_call load_buffer_state
first_call-scanning s text idle = elim idle.begun [
  | inl h ↦ (record (loaded s text) { init = false }, rw (h.0, h.1) refl, refl)
  | inr h ↦ (loaded s text, rw (h.0, h.1) refl, h.0)
]

set-get_or_same : (buf : Bytes) → set buf 0 (get_or buf 0 0) ≡ buf
set-get_or_same [] = refl
set-get_or_same (c ∷ buf) = refl

-- The scanner that flex made gives the arguments that the rules of lex.c give, for every C string, on
-- the first call and on each call behind another, where `yywrap` returns 1.
pub lexscan-getline :
    (s : Flex) (buffer : Bytes)
    → IsIdle s
    → All (λ c. c < 256) buffer
    → (s' : Flex) × (lexscan true s buffer ≡ returned (getline (cstr buffer)) s') × IsIdle s'
unfolding lexscan getline
lexscan-getline s buffer idle bytes =
    let text = cstr buffer in
    let size = length-append text (0 ∷ 0 ∷ []) in
    let (first, eq, begun) = first_call-scanning s text idle in
    let (s', runs, none_left, same, started) =
      scan_loop-Returns (length text + 1) text [] first (fresh_buffer text) (two_nuls text)
        (length (two_nuls text) - 2) 0 (get_or (two_nuls text) 0 0) s.regs
        (set-get_or_same (two_nuls text)) (omega arith) (cstr-IsByte buffer bytes) (omega arith) in
    (
      s',
      rw (lexscan, scan_string-loaded s buffer)
          (ap (scan_loop true (length text + 1) []) eq ∙ runs),
      record { no_buffer = none_left; begun = inr (same ∙ begun, started) },
    )
