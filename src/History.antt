-- ===== src/History.antt =====
-- vty.c, the command history: `struct history`, `history_add` and its helpers, and the keys that
-- walk through the entries. `none` as a result is undefined behaviour: a NULL pointer used as a
-- string, or a conversion for which `sprintf` has no argument.
pub mod Recent
pub mod Walk
pub mod Stay
mod Tests
use mathlib.Core.Option
use opencli.Base.{
  ℕ, zero, suc, ◌+◌, ◌-◌, Bool, true, false, not, ◌&&◌, Option, none, some, List, [], ◌∷◌, ◌++◌,
  ◌==◌, ltb, leb, if◌then◌else◌, Bytes, get_or, set, drop, length, cstr, str_eq,
}
use opencli.Line.{Line}
use opencli.Screen.{strcpy}

abbrev pub max_history : ℕ
max_history = 10

-- An element is a `char *`: NULL, or the string behind it.
pub record History : Type 0 where
  pub history : List (Option Bytes)
  pub len : ℕ
  pub pos : ℕ

-- `is_emptyline`: nothing but blanks
unfoldable pub is_emptyline : Bytes → Bool
is_emptyline [] = true
is_emptyline (c ∷ cs) = let rest = is_emptyline cs in if c == b' ' then rest else c == 0

-- `for (i = pos; i < MAX_HISTORY; i++) history[i] = history[i + 1];`, `k` rounds from `i`. The last
-- round reads behind the array, where it finds `beyond`.
unfoldable pub shift_down : Option Bytes → List (Option Bytes) → ℕ → ℕ → List (Option Bytes)
shift_down beyond hist i zero = hist
shift_down beyond hist i (suc k) =
    shift_down beyond (set hist i (get_or hist (i + 1) beyond)) (i + 1) k

unfoldable pub history_del : Option Bytes → History → ℕ → History
history_del beyond h pos = record h {
  len = h.len - 1;
  history = shift_down beyond h.history pos (max_history - pos);
}

-- `strcmp(history[len - 1], cmd) == 0`, with its guard
unfoldable pub repeats_last : History → Bytes → Option Bool
repeats_last h cmd =
    if ltb 0 h.len
    then Option.map (λ s. str_eq s cmd) (get_or h.history (h.len - 1) none)
    else some false

append_entry : History → Bytes → History
append_entry h cmd = record {
  history = set h.history h.len (some cmd);
  len = h.len + 1;
  pos = h.len + 1;
}

unfoldable pub history_add : Option Bytes → History → Bytes → Option (History × Bool)
unfolding append_entry
history_add beyond h cmd = if is_emptyline cmd then some (h, false) else elim (repeats_last h cmd) [
  | none ↦ none
  | some true ↦ some (h, false)
  | some false ↦
      some (append_entry (if leb max_history h.len then history_del beyond h 0 else h) cmd, true)
]

-- `history_clear` frees the entries; the pointers stay where they are.
unfoldable pub history_clear : History → History
history_clear h = record h { len = 0; pos = 0 }

pub hist_get_previous : History → History × Option Bytes
hist_get_previous h =
    if leb h.len (h.pos + 1)
    then (record h { pos = h.len }, none)
    else (record h { pos = h.pos + 1 }, get_or h.history (h.pos + 1) none)

pub hist_get_next : History → History × Option Bytes
hist_get_next h =
    if h.pos == 0
    then (h, none)
    else (record h { pos = h.pos - 1 }, get_or h.history (h.pos - 1) none)

-- What `sprintf(buf, fmt)` writes when there is no further argument.
unfoldable pub format_plain : Bytes → Option Bytes
format_plain [] = some []
format_plain (c ∷ []) = if c == b'%' then none else some (c ∷ [])
format_plain (c ∷ d ∷ cs) =
    let rest = format_plain (d ∷ cs) in
    let after = format_plain cs in
    if c == b'%'
    then (if d == b'%' then Option.map (◌∷◌ b'%') after else none)
    else Option.map (◌∷◌ c) rest

-- `hist_write_entry`: the command is the format string.
pub hist_write_entry : Line → Bytes → Option Line
hist_write_entry v cmd =
    Option.map
      (λ s. record v { rl_buff = strcpy v.rl_buff s; rl_index = length s; rl_ptr = length s })
      (format_plain cmd)

-- The new history and line, and whether the call returned 0.
pub history_prev : History → Line → Option (History × Line × Bool)
history_prev h v =
    let (h', cmd) = hist_get_previous h in
    let entry : Bytes = elim cmd [ none ↦ cstr v.hst_buff | some s ↦ s ] in
    if h.pos == h.len
    then some (h, v, false)
    else Option.map (λ v'. (h', v', true)) (hist_write_entry v entry)

pub history_next : History → Line → Option (History × Line × Bool)
history_next h v =
    let (h', cmd) = hist_get_next h in
    let saved =
      if h'.pos == h'.len - 1 then record v { hst_buff = strcpy v.hst_buff v.rl_buff } else v in
    elim cmd [
      | none ↦ some (h', v, false)
      | some s ↦ Option.map (λ v'. (h', v', true)) (hist_write_entry saved s)
    ]

-- `history_first` and `history_last` are still empty in the source.
pub history_first : History → Line → Option (History × Line × Bool)
history_first h v = some (h, v, true)

pub history_last : History → Line → Option (History × Line × Bool)
history_last h v = some (h, v, true)
