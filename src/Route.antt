-- ===== src/Route.antt =====
-- route.c: the messages of a netlink socket. A message is a buffer of bytes, and a pointer into it is
-- its offset; numbers have the order of bytes of a little-endian machine. The macros `RTA_OK`,
-- `RTA_NEXT`, `NLMSG_OK` and `NLMSG_NEXT` are those of the kernel's headers, which also give the
-- constants.
pub mod Attributes
pub mod Parsed
pub mod Message
pub mod Link
pub mod Fields
pub mod Label
pub mod Answer
pub mod Requests
mod Tests
use opencli.Base.{
  ℕ, zero, suc, ◌+◌, ◌-◌, ◌*◌, ◌/◌, ◌%◌, ◌^◌, Bool, true, false, ◌&&◌, Option, none, some, List, [],
  ◌∷◌, ◌++◌, ◌==◌, ltb, leb, if◌then◌else◌, Bytes, get_or, set, take, drop, length, replicate,
}

unfoldable pub get_u16 : Bytes → ℕ → ℕ
get_u16 buf off = get_or buf off 0 + 256 * get_or buf (off + 1) 0

unfoldable pub get_u32 : Bytes → ℕ → ℕ
unfolding get_u16
get_u32 buf off = get_u16 buf off + 2 ^ 16 * get_u16 buf (off + 2)

-- `RTA_ALIGN` and `NLMSG_ALIGN`
abbrev pub align4 : ℕ → ℕ
align4 n = (n + 3) / 4 * 4

-- The size of `struct rtattr`.
abbrev pub rta_size : ℕ
rta_size = 4

-- `RTA_OK(rta, len)`. A `len` below zero, which `RTA_NEXT` can leave, is 0 here: both fail.
unfoldable pub rta_ok : Bytes → ℕ → ℕ → Bool
rta_ok buf rta len = leb rta_size len && leb rta_size (get_u16 buf rta) && leb (get_u16 buf rta) len

-- The loop of `netlink_parse_rtattr`; `tb` has the offsets of the attributes, or NULL.
unfoldable pub parse_loop : ℕ → Bytes → List (Option ℕ) → ℕ → ℕ → ℕ → Option (List (Option ℕ))
parse_loop zero buf tb maxattr rta len = none
parse_loop (suc fuel) buf tb maxattr rta len =
    let rta_type = get_u16 buf (rta + 2) in
    let tb' = if leb rta_type maxattr then set tb rta_type (some rta) else tb in
    let size = align4 (get_u16 buf rta) in
    let rest = parse_loop fuel buf tb' maxattr (rta + size) (len - size) in
    if rta_ok buf rta len then rest else some tb

-- `memset(tb, 0, sizeof(struct rtattr *) * maxattr)`
unfoldable pub clear_front : ℕ → List (Option ℕ) → List (Option ℕ)
clear_front n tb = replicate n none ++ drop n tb

-- `netlink_parse_rtattr`, on a `tb` of more than `maxattr` pointers. Each round takes four bytes at
-- least.
unfoldable pub netlink_parse_rtattr : Bytes → List (Option ℕ) → ℕ → ℕ → ℕ → Option (List (Option ℕ))
netlink_parse_rtattr buf tb maxattr rta len =
    parse_loop (len + 1) buf (clear_front maxattr tb) maxattr rta len

-- `RTA_DATA` with `RTA_PAYLOAD`
unfoldable pub rta_data : Bytes → ℕ → Bytes
rta_data buf rta = take (get_u16 buf rta - rta_size) (drop (rta + rta_size) buf)
