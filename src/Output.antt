-- ===== src/Output.antt =====
-- vty.c, V T Y  W R I T E: `vty_out` and its pages, from `automore_on` to `automore_output`, and what
-- a session begins with. What `vsnprintf` makes of the format is the argument of `vty_out`; the keys
-- that `telnet_getchar` reads are a list, and at its end the session is waiting. `int` is its 32-bit
-- pattern.
pub mod Pages
pub mod Keys
mod Tests
use opencli.Base.{
  ℕ, zero, suc, ◌+◌, ◌-◌, ◌%◌, ◌^◌, Bool, true, false, ◌||◌, Option, none, some, List, [], ◌∷◌,
  ◌++◌, ◌==◌, ltb, if◌then◌else◌, Bytes, codes, length, take, ◌>>=◌,
}
use opencli.Screen.{max_wbuffer}

-- A call of `sk_send_all`: text of the output, or what `ask_automore` sends.
pub data Send : Type 0 where
  text : Bytes → Send
  ask : Bytes → Send

-- The members of `CL_SOCK` that the pages use.
pub record More : Type 0 where
  pub paged_output : Bool
  pub ln_count : ℕ
  pub w_height : ℕ
  -- The keys that `telnet_getchar` will return, each with the `w_height` that it leaves, since a window
  -- size option may come before the key.
  pub keys : List (ℕ × ℕ)
  pub sends : List Send
  -- Whether a call of `sk_send_all` returns 0 and not -1, by the number of calls before it.
  pub works : ℕ → Bool

unfoldable pub automore_on : More → More
automore_on s = record s { paged_output = true }

unfoldable pub automore_off : More → More
automore_off s = record s { paged_output = false; ln_count = 0 }

pub data MoreOpts : Type 0 where
  more_line more_page more_abort : MoreOpts

unfoldable pub send : Send → More → More
send t s = record s { sends = s.sends ++ t ∷ [] }

-- `" --More-- "`, and what takes it away.
unfoldable pub prompt : More → More
unfolding send
prompt s =
    send
      (ask (
        codes
          "\u{8}\u{8}\u{8}\u{8}\u{8}\u{8}\u{8}\u{8}\u{8}        \u{8}\u{8}\u{8}\u{8}\u{8}\u{8}\u{8}\u{8}\u{8}"))
      (send (ask (codes " --More-- ")) s)

unfoldable pub more_help : Bytes
more_help = codes "Press RETURN for another line, SPACE for another page, anything else to quit\r\n"

-- `v - n`, on an `int`.
abbrev pub int_minus : ℕ → ℕ → ℕ
int_minus v n = (v + 2 ^ 32 - n) % 2 ^ 32

-- The loop of `ask_automore`, over the keys.
unfoldable pub ask_loop : List (ℕ × ℕ) → More → Option (More × MoreOpts)
ask_loop [] s = none
ask_loop ((c, height) ∷ keys) s =
    let s1 = record (prompt s) { keys = keys; w_height = height } in
    let again = ask_loop keys (send (ask more_help) s1) in
    if c == b'?'
    then again
    else if c == b' ' || c == b'Y' || c == b'y'
    then some (record s1 { ln_count = 0 }, more_page)
    else if c == b'\r'
    then some (record s1 { ln_count = int_minus height 2 }, more_line)
    else some (automore_off s1, more_abort)

unfoldable pub ask_automore : More → Option (More × MoreOpts)
ask_automore s = if s.ln_count == 0 then some (s, more_page) else ask_loop s.keys s

-- `if (*aux == '\n') vty->ln_count++;`
unfoldable pub count_line : ℕ → More → More
count_line c s = if c == b'\n' then record s { ln_count = (s.ln_count + 1) % 2 ^ 32 } else s

-- `if (ask_automore(vty) == MORE_ABORT) return -1;`, and the rest of the loop.
abbrev pub answered :
    Option (More × MoreOpts) → (More → Option (More × Bool)) → Option (More × Bool)
answered none rest = none
answered (some (s, more_abort)) rest = some (s, false)
answered (some (s, more_page)) rest = rest s
answered (some (s, more_line)) rest = rest s

-- The loop of `automore_output` from `aux`, with `chunk` from `ptr` to `aux`: the state, and whether
-- it did not return -1.
unfoldable pub automore_loop : Bytes → Bytes → More → Option (More × Bool)
automore_loop chunk [] s = some (send (text chunk) s, s.works (length s.sends))
automore_loop chunk (c ∷ aux) s =
    let s1 = count_line c s in
    let chunk' = chunk ++ c ∷ [] in
    let rest = automore_loop chunk' aux s1 in
    elim (s1.ln_count == int_minus s1.w_height 1) [
      | false ↦ rest
      | true ↦ answered (ask_automore (send (text chunk') s1)) (automore_loop [] aux)
    ]

-- `automore_output`, on the string in `w_buff`.
unfoldable pub automore_output : Bytes → More → Option (More × Bool)
automore_output = automore_loop []

-- `vty_out`, of a format that makes `out`. `none` is a read beyond `w_buff`, which holds the front of a
-- longer text, or waiting.
unfoldable pub vty_out : Bytes → More → Option More
vty_out out s =
    if s.paged_output
    then (automore_output (take (max_wbuffer - 1) out) s >>= λ r. some r.0)
    else if ltb (length out) max_wbuffer
    then some (send (text out) s)
    else none

-- `vty_start_options`: the string of telnet options, IAC DO and so on.
abbrev pub start_options : Bytes
start_options =
    255 ∷ 253 ∷ 3 ∷ 255 ∷ 253 ∷ 1 ∷ 255 ∷ 251 ∷ 1 ∷ 255 ∷ 251 ∷ 3 ∷ 255 ∷ 254 ∷ 34 ∷ 255 ∷ 253 ∷ 31
    ∷ []

unfoldable pub vty_start_options : More → Option More
vty_start_options = vty_out start_options
