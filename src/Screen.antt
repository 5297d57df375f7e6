-- ===== src/Screen.antt =====
-- vty.c, the redrawing of the input line: `rl_movecursor` and `rl_update`. The bytes that go to
-- `w_buff`, and from there to the client, are a list.
pub mod Terminal
pub mod Scan
pub mod Redraw
pub mod Sync
mod Tests
use opencli.Base.{
  ℕ, zero, suc, ◌+◌, ◌-◌, Bool, true, false, not, ◌&&◌, ◌||◌, [], ◌∷◌, ◌++◌, ◌==◌, ltb,
  if◌then◌else◌, Bytes, get_or, drop, replicate, length, cstr,
}
use opencli.Line.{Line}

abbrev pub max_wbuffer : ℕ
max_wbuffer = 1024

abbrev pub bs : ℕ
bs = 8

-- `while (to < *from) { *(*buff)++ = '\b'; (*from)--; }`
pub cursor_back : ℕ → ℕ → ℕ × Bytes
cursor_back to zero = (zero, [])
cursor_back to (suc from) =
    let rest = cursor_back to from in
    if ltb to (suc from) then (rest.0, bs ∷ rest.1) else (suc from, [])

-- `while (to > *from) *(*buff)++ = *(*from)++;`, which takes `to - *from` rounds
pub cursor_on : Bytes → ℕ → ℕ → ℕ × Bytes
cursor_on buf zero from = (from, [])
cursor_on buf (suc k) from =
    let rest = cursor_on buf k (from + 1) in (rest.0, get_or buf from 0 ∷ rest.1)

pub rl_movecursor : Bytes → ℕ → ℕ → ℕ × Bytes
rl_movecursor buf to from =
    let (from', out) = cursor_back to from in
    let (from'', out') = cursor_on buf (to - from') from' in
    if to == from then (from, []) else (from'', out ++ out')

-- The first loop: where it stops, and whether it stopped at a difference.
pub first_diff : Bytes → Bytes → ℕ → ℕ × Bool
first_diff (n ∷ new) (o ∷ old) i =
    let rest = first_diff new old (i + 1) in
    if n == 0 || o == 0 then (i, false) else if n == o then rest else (i, true)
first_diff _ _ i = (i, false)

-- `for (; *new && *old; new++, old++);`
pub shorter_end : Bytes → Bytes → ℕ → ℕ
shorter_end (n ∷ new) (o ∷ old) i =
    let rest = shorter_end new old (i + 1) in if n == 0 || o == 0 then i else rest
shorter_end _ _ i = i

-- `for (; *p; p++);`
pub nul_at : Bytes → ℕ → ℕ
nul_at [] i = i
nul_at (c ∷ cs) i = let rest = nul_at cs (i + 1) in if c == 0 then i else rest

-- The body of `if (*new || *old)`, both at `e`: what is sent, and `from`.
pub redraw_tail : Bytes → Bytes → ℕ → ℕ → ℕ × Bytes
redraw_tail new old e from =
    let to = nul_at (drop e new) e in
    let (from', out) = rl_movecursor new to from in
    let blanks = nul_at (drop e old) e - e in
    if not (get_or new e 0 == 0) || not (get_or old e 0 == 0)
    then (from' + blanks, out ++ replicate blanks b' ')
    else (from, [])

-- What `rl_update` sends, from the two buffers, `rl_ptr` and `old_ptr`.
pub update_bytes : (new old : Bytes) (at from : ℕ) → Bytes
update_bytes new old at from =
    let (i, differ) = first_diff new old 0 in
    let to = if differ then i else at in
    let (from1, out1) = rl_movecursor new to from in
    let e = shorter_end (drop i new) (drop i old) i in
    let (from2, out2) = redraw_tail new old e from1 in
    let (from3, out3) = rl_movecursor new at from2 in out1 ++ (out2 ++ out3)

-- `strcpy(dst, src)`
unfoldable pub strcpy : Bytes → Bytes → Bytes
strcpy dst src = cstr src ++ 0 ∷ drop (length (cstr src) + 1) dst

unfoldable pub rl_update : Line → Line × Bytes
rl_update v = (
  record v { old_buff = strcpy v.old_buff v.rl_buff; old_ptr = v.rl_ptr },
  update_bytes v.rl_buff v.old_buff v.rl_ptr v.old_ptr,
)
