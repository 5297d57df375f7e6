-- ===== src/Line.antt =====
-- vty.c, the line buffers of `CL_SOCK` and the editing primitives over them. A pointer into
-- `rl_buff` is its offset, and a call that returns 0 or -1 returns true or false.
pub mod Zipper
mod Shift
pub mod Erase
pub mod Rub
pub mod Move
pub mod Keys
pub mod Case
pub mod Complete
pub mod Everywhere
pub mod Kept
mod Tests
use opencli.Base.{
  ℕ, zero, suc, ◌+◌, ◌-◌, Bool, true, false, not, ◌&&◌, ◌||◌, ◌==◌, ltb, leb, if◌then◌else◌, Bytes,
  get_or, set,
}

abbrev pub max_cmdline : ℕ
max_cmdline = 128

pub record Line : Type 0 where
  pub hst_buff : Bytes
  pub rl_buff : Bytes
  pub old_buff : Bytes
  pub rl_index : ℕ
  pub rl_ptr : ℕ
  pub old_ptr : ℕ

-- `while (ptr != rl_ptr) { *ptr = *(ptr - 1); ptr--; }`, where `ptr` is `rl_ptr + k`
pub shift_right : Bytes → ℕ → ℕ → Bytes
shift_right buf p zero = buf
shift_right buf p (suc k) = shift_right (set buf (p + suc k) (get_or buf (p + k) 0)) p k

pub save_char : Line → ℕ → Line × Bool
unfolding shift_right
save_char v c = if leb (max_cmdline - 1) v.rl_index then (v, false) else (
  record v {
    rl_index = v.rl_index + 1;
    rl_buff = set (shift_right v.rl_buff v.rl_ptr (v.rl_index + 1 - v.rl_ptr)) v.rl_ptr c;
    rl_ptr = v.rl_ptr + 1;
  },
  true,
)

-- `while (*ptr != '\0') { *ptr = *(ptr + 1); ptr++; }`, a round for each byte of the buffer
pub shift_left : ℕ → Bytes → ℕ → Bytes
shift_left zero buf ptr = buf
shift_left (suc f) buf ptr =
    let rest = shift_left f (set buf ptr (get_or buf (ptr + 1) 0)) (ptr + 1) in
    if get_or buf ptr 0 == 0 then buf else rest

pub clear_char : Line → Line × Bool
unfolding shift_left
clear_char v = if v.rl_ptr == 0 then (v, false) else (
  record v {
    rl_index = v.rl_index - 1;
    rl_ptr = v.rl_ptr - 1;
    rl_buff = shift_left max_cmdline v.rl_buff (v.rl_ptr - 1);
  },
  true,
)

-- `*(rl_ptr - 1)`. At the start of `rl_buff` this reads the last byte of `hst_buff`, which stands
-- in front of it in `CL_SOCK`.
pub char_before : Line → ℕ
char_before v =
    if v.rl_ptr == 0
    then get_or v.hst_buff (max_cmdline - 1) 0
    else get_or v.rl_buff (v.rl_ptr - 1) 0

-- `while (test(*(rl_ptr - 1)) && !clear_char(vty));`
pub clear_while : (ℕ → Bool) → ℕ → Line → Line
clear_while test zero v = v
clear_while test (suc f) v =
    let (v', cleared) = clear_char v in
    let rest = clear_while test f v' in
    if test (char_before v) then (if cleared then rest else v') else v

-- The loops of `clear_word`, at most a round for each byte before the cursor and one more.
pub clear_word : Line → Line × Bool
unfolding clear_while
clear_word v =
    let v' = clear_while (λ c. c == b' ') (v.rl_ptr + 1) v in
    (clear_while (λ c. not (c == b' ')) (v'.rl_ptr + 1) v', true)

-- `while (clear_char(vty) != -1);`
pub clear_all : ℕ → Line → Line
clear_all zero v = v
clear_all (suc f) v =
    let (v', cleared) = clear_char v in let rest = clear_all f v' in if cleared then rest else v'

pub clear_line : Line → Line × Bool
unfolding clear_all
clear_line v = (clear_all (v.rl_ptr + 1) v, true)

unfoldable pub is_delimiter : ℕ → Bool
is_delimiter c = c == b' ' || c == b'-' || c == b'.' || c == b'/' || c == b'@'

-- `while (rl_ptr > rl_buff) rl_ptr--;`
pub to_bol : ℕ → ℕ
to_bol zero = zero
to_bol (suc p) = to_bol p

pub move_to_bol : Line → Line × Bool
unfolding to_bol
move_to_bol v = (record v { rl_ptr = to_bol v.rl_ptr }, true)

-- `while (*ptr != '\0' && test(*ptr)) ptr++;`, a round for each byte of the buffer
pub skip : (ℕ → Bool) → ℕ → Bytes → ℕ → ℕ
skip test zero buf p = p
skip test (suc f) buf p =
    let c = get_or buf p 0 in
    let rest = skip test f buf (p + 1) in if not (c == 0) && test c then rest else p

-- `while (ptr > rl_buff && test(*(ptr - 1))) ptr--;`
pub skip_back : (ℕ → Bool) → Bytes → ℕ → ℕ
skip_back test buf zero = zero
skip_back test buf (suc p) =
    let rest = skip_back test buf p in if test (get_or buf p 0) then rest else suc p

pub move_to_eol : Line → Line × Bool
unfolding skip
move_to_eol v = (record v { rl_ptr = skip (λ _. true) max_cmdline v.rl_buff v.rl_ptr }, true)

pub backward_char : Line → Line × Bool
backward_char v = (if ltb 0 v.rl_ptr then record v { rl_ptr = v.rl_ptr - 1 } else v, true)

pub forward_char : Line → Line × Bool
forward_char v =
    (if not (get_or v.rl_buff v.rl_ptr 0 == 0) then record v { rl_ptr = v.rl_ptr + 1 } else v, true)

-- The first loop of `forward_word` and of the three case functions.
pub skip_delimiters : Line → ℕ
unfolding skip is_delimiter
skip_delimiters v = skip is_delimiter max_cmdline v.rl_buff v.rl_ptr

pub forward_word : Line → Line × Bool
unfolding skip is_delimiter skip_delimiters
forward_word v = (
  record v { rl_ptr = skip (λ c. not (is_delimiter c)) max_cmdline v.rl_buff (skip_delimiters v) },
  true,
)

pub backward_word : Line → Line × Bool
unfolding skip_back is_delimiter
backward_word v =
    let p = skip_back is_delimiter v.rl_buff v.rl_ptr in
    (record v { rl_ptr = skip_back (λ c. not (is_delimiter c)) v.rl_buff p }, true)

-- `toupper` and `tolower` of the C locale.
unfoldable pub toupper : ℕ → ℕ
toupper c = if leb b'a' c && leb c b'z' then c - 32 else c

unfoldable pub tolower : ℕ → ℕ
tolower c = if leb b'A' c && leb c b'Z' then c + 32 else c

-- `while (*ptr != '\0' && !is_delimiter(*ptr)) { *ptr = f(*ptr); ptr++; }`
pub map_word : (ℕ → ℕ) → ℕ → Bytes → ℕ → Bytes × ℕ
map_word f zero buf p = (buf, p)
map_word f (suc n) buf p =
    let c = get_or buf p 0 in
    let rest = map_word f n (set buf p (f c)) (p + 1) in
    if not (c == 0) && not (is_delimiter c) then rest else (buf, p)

pub capitalize_word : Line → Line × Bool
capitalize_word v =
    let p = skip_delimiters v in
    let c = get_or v.rl_buff p 0 in
    let (buf, q) = map_word tolower max_cmdline (set v.rl_buff p (toupper c)) (p + 1) in
    if c == 0
    then (record v { rl_ptr = p }, true)
    else (record v { rl_buff = buf; rl_ptr = q }, true)

pub tolower_word : Line → Line × Bool
tolower_word v =
    let (buf, q) = map_word tolower max_cmdline v.rl_buff (skip_delimiters v) in
    (record v { rl_buff = buf; rl_ptr = q }, true)

pub touppper_word : Line → Line × Bool
touppper_word v =
    let (buf, q) = map_word toupper max_cmdline v.rl_buff (skip_delimiters v) in
    (record v { rl_buff = buf; rl_ptr = q }, true)

-- `delete_word` and `transpose_chars` are still empty in the source.
unfoldable pub delete_word : Line → Line × Bool
delete_word v = (v, true)

unfoldable pub transpose_chars : Line → Line × Bool
transpose_chars v = (v, true)
