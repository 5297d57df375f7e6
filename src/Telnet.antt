-- ===== src/Telnet.antt =====
-- vty.c, the telnet layer: `sb_clear`, `sb_add`, `hdl_iac_sb` and `telnet_cmd`, over `t_opt` and the
-- window limits of `CL_SOCK`. An `int` is its 32-bit pattern; `char` is signed, as with gcc on the
-- machines that the program is built for.
pub mod Stream
pub mod Buffer
pub mod Window
pub mod Escape
mod Tests
use Prim.Native.Nat.{bit_or}
use opencli.Base.{
  ℕ, zero, suc, ◌+◌, ◌-◌, ◌*◌, ◌%◌, ◌^◌, Bool, true, false, not, ◌&&◌, ◌||◌, ◌==◌, ltb, leb,
  if◌then◌else◌, Bytes, get_or, set,
}

abbrev pub iac : ℕ
iac = 255

abbrev pub sb : ℕ
sb = 250

abbrev pub se : ℕ
se = 240

abbrev pub telopt_naws : ℕ
telopt_naws = 31

-- `sizeof(sb_buff)`
abbrev pub sb_size : ℕ
sb_size = 16

-- `TELCMD_OK` of arpa/telnet.h: from `xEOF` to `IAC`
unfoldable pub telcmd_ok : ℕ → Bool
telcmd_ok c = leb c 255 && leb 236 c

-- `opt->state`, which holds 0, `IAC`, `SB` or `SE`
pub data OptState : Type 0 where
  idle in_iac in_sb in_se : OptState

pub record Telnet : Type 0 where
  pub sb_buff : Bytes
  pub sb_ptr : ℕ
  pub state : OptState
  pub w_width : ℕ
  pub w_height : ℕ

abbrev int_mod : ℕ
int_mod = 2 ^ 32

-- A `char` as an `int`.
unfoldable pub sign_extend : ℕ → ℕ
sign_extend c = if ltb c 128 then c else c + int_mod - 256

-- `hi << 8`, and then `|= lo`
unfoldable pub two_chars : ℕ → ℕ → ℕ
unfolding sign_extend
two_chars hi lo = bit_or ((sign_extend hi * 256) % int_mod) (sign_extend lo)

unfoldable pub sb_clear : Telnet → Telnet
sb_clear t = record t { sb_ptr = 0 }

unfoldable pub sb_add : Telnet → ℕ → Telnet
sb_add t c =
    if ltb t.sb_ptr sb_size
    then record t { sb_buff = set t.sb_buff t.sb_ptr c; sb_ptr = t.sb_ptr + 1 }
    else t

unfoldable pub hdl_iac_sb : Telnet → Telnet
hdl_iac_sb t =
    if get_or t.sb_buff 0 0 == telopt_naws && not (ltb t.sb_ptr 5)
    then record t {
      w_width = two_chars (get_or t.sb_buff 1 0) (get_or t.sb_buff 2 0);
      w_height = two_chars (get_or t.sb_buff 3 0) (get_or t.sb_buff 4 0);
    }
    else t

-- The switch over `opt->state`; the flag is the result, true for a byte that is no input.
unfoldable pub telnet_in : OptState → Telnet → ℕ → Telnet × Bool
telnet_in idle t c = if c == iac then (record t { state = in_iac }, true) else (t, false)
telnet_in in_iac t c =
    if c == iac
    then (t, false)
    else if c == sb
    then (sb_clear (record t { state = in_sb }), true)
    else if telcmd_ok c
    then (t, true)
    else (record t { state = idle }, true)
telnet_in in_sb t c = if c == iac then (record t { state = in_se }, true) else (sb_add t c, true)
telnet_in in_se t c =
    if not (c == se)
    then (sb_add (record t { state = in_sb }) c, true)
    else (record (hdl_iac_sb t) { state = idle }, true)

unfoldable pub telnet_cmd : Telnet → ℕ → Telnet × Bool
unfolding telnet_in sb_clear sb_add hdl_iac_sb
telnet_cmd t c = telnet_in t.state t c

-- `telnet_cmd(vty, c) || c == '\n' || c == '\0'`: the byte is passed over.
unfoldable pub passed_over : Telnet → ℕ → Bool
passed_over t c = (telnet_cmd t c).1 || c == b'\n' || c == 0
