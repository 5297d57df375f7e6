-- ===== src/Interface/Print.antt =====
-- interface.c: what `show interfaces` prints, and the requests that fill the list of interfaces.
use opencli.Base.{
  ℕ, ◌+◌, ◌-◌, ◌/◌, ◌%◌, ◌^◌, Bool, true, false, ◌&&◌, Option, none, some, List, [], ◌∷◌, ◌++◌,
  ◌==◌, ltb, if◌then◌else◌, Bytes, codes, length, map,
}
use opencli.Interface.{
  Stats, InIfaddr, Iface, if_lookup_by_name, if_update_interface, if_add_interface, if_add_ifaddr,
}

-- `%02x` of a byte.
unfoldable pub hex_digit : ℕ → ℕ
hex_digit d = if ltb d 10 then b'0' + d else b'a' + (d - 10)

-- The loop of `print_haddr` from the index `i`, of `addrlen` bytes.
unfoldable pub haddr_from : ℕ → ℕ → Bytes → Bytes
haddr_from i addrlen [] = []
haddr_from i addrlen (c ∷ addr) =
    let rest = haddr_from (i + 1) addrlen addr in
    hex_digit (c / 16)
    ∷ hex_digit (c % 16)
    ∷ (if i % 2 == 1 && ltb (i + 1) addrlen then b'.' ∷ rest else rest)

-- `print_haddr`: the string that it leaves in `buf`, without the NUL.
unfoldable pub print_haddr : Bytes → Bytes
print_haddr addr = haddr_from 0 (length addr) addr

-- The size of the array that `if_print_stats` gives to `print_haddr`.
abbrev pub haddr_size : ℕ
haddr_size = 20

-- A call of `vty_out`: the format, and its arguments.
pub data Arg : Type 0 where
  str : Bytes → Arg
  num : ℕ → Arg

pub record VtyOut : Type 0 where
  pub format : Bytes
  pub args : List Arg

-- A flag of `ifa->flags`.
unfoldable pub has_flag : ℕ → Iface → Bool
has_flag bit ifa = ifa.flags / 2 ^ bit % 2 == 1

-- `stats(stat)`, a difference of two `unsigned long`.
unfoldable pub since_clear : (Stats → ℕ) → Iface → ℕ
since_clear stat ifa = (stat ifa.stats + 2 ^ 64 - stat ifa.old_stats) % 2 ^ 64

abbrev out : Bytes → List Arg → VtyOut
out format args = record { format = format; args = args }

-- The lines of `if_print_stats` about the interface.
unfoldable pub print_head : Iface → List VtyOut
print_head ifa =
    out (codes "%s is %s, line protocol is %s\r\n") (
      str ifa.name
      ∷ str (if has_flag 0 ifa then codes "up" else codes "down")
      ∷ str (if has_flag 6 ifa then codes "up" else codes "down")
      ∷ [])
    ∷ out (codes "  Hardware is %s, address is %s (bia %s)\r\n")
        (str (codes "Ethernet") ∷ str (print_haddr ifa.haddr) ∷ str (print_haddr ifa.haddr) ∷ [])
    ∷ []

-- The primary address, always first in the list.
unfoldable pub print_address : List InIfaddr → List VtyOut
print_address [] = []
print_address (p ∷ ps) =
    out (codes "  Internet address is %u.%u.%u.%u/%d\r\n")
      (map num p.ifa_address ++ num p.ifa_prefixlen ∷ [])
    ∷ []

unfoldable pub print_setup : Iface → List VtyOut
print_setup ifa =
    out (codes "  MTU %u bytes\r\n") (num ifa.mtu ∷ [])
    ∷ out (codes "  Encapsulation %s, loopback %s\r\n") (
        str (codes "Ethernet") ∷ str (if has_flag 3 ifa then codes "set" else codes "not set") ∷ [])
    ∷ out (codes "  Last clearing of \"show interface\" counters -FALTA-\r\n") []
    ∷ out (codes "  Queueing strategy: %s\r\n") (str ifa.qdisc ∷ [])
    ∷ []

-- A line of counters.
unfoldable pub counters : Bytes → List (Stats → ℕ) → Iface → VtyOut
counters format which ifa = out format (map (λ stat. num (since_clear stat ifa)) which)

unfoldable pub print_counters : Iface → List VtyOut
print_counters ifa =
    counters (codes "    %lu packets input, %lu bytes, %lu no buffer\r\n")
      ((λ s. s.rx_packets) ∷ (λ s. s.rx_bytes) ∷ (λ s. s.rx_dropped) ∷ []) ifa
    ∷ counters (codes "    Received %lu broadcasts\r\n") ((λ s. s.multicast) ∷ []) ifa
    ∷ counters (codes "    %lu input errors, %lu CRC, %lu frame, %lu overrun, %lu ignored\r\n")
        ((λ s. s.rx_errors)
          ∷ (λ s. s.rx_crc_errors)
          ∷ (λ s. s.rx_frame_errors)
          ∷ (λ s. s.rx_fifo_errors)
          ∷ (λ s. s.rx_missed_errors)
          ∷ [])
        ifa
    ∷ counters (codes "    %lu input packets with dribble condition detected\r\n")
        ((λ s. s.rx_length_errors) ∷ []) ifa
    ∷ counters (codes "    %lu packets output, %lu bytes, %lu underruns\r\n")
        ((λ s. s.tx_packets) ∷ (λ s. s.tx_bytes) ∷ (λ s. s.tx_fifo_errors) ∷ []) ifa
    ∷ counters (codes "    %lu output errors, %lu collisions, %lu interface resets\r\n")
        ((λ s. s.tx_errors) ∷ (λ s. s.collisions) ∷ (λ s. s.tx_carrier_errors) ∷ []) ifa
    ∷ counters (codes "    %lu aborted packets, %lu carrier errors\r\n")
        ((λ s. s.tx_aborted_errors) ∷ (λ s. s.tx_carrier_errors) ∷ []) ifa
    ∷ counters (codes "    %lu heartbeat failures, %lu window errors\r\n")
        ((λ s. s.tx_heartbeat_errors) ∷ (λ s. s.tx_window_errors) ∷ []) ifa
    ∷ []

unfoldable pub if_print_stats : Iface → List VtyOut
if_print_stats ifa =
    print_head ifa ++ print_address ifa.in_ifaddr ++ print_setup ifa ++ print_counters ifa

unfoldable pub show_all_ifaces : List Iface → List VtyOut
show_all_ifaces [] = []
show_all_ifaces (ifa ∷ l) = if_print_stats ifa ++ show_all_ifaces l

-- `rtnl_get_ifaces(if_update_interface)`, for the interfaces that the kernel tells of.
unfoldable pub if_refresh : List Iface → List Iface → List Iface
if_refresh [] l = l
if_refresh (k ∷ ks) l = if_refresh ks (if_update_interface k l)

-- `if_show_interface`: the list behind, what is printed, and whether it returned 0, not -1. The kernel
-- tells of `ks`, and `answered` says that its request did not fail. `none` for the name is NULL.
unfoldable pub if_show_interface :
    List Iface → Bool → Option Bytes → List Iface → List Iface × List VtyOut × Bool
if_show_interface ks false ifaname l = (if_refresh ks l, [], false)
if_show_interface ks true none l = (if_refresh ks l, show_all_ifaces (if_refresh ks l), true)
if_show_interface ks true (some ifaname) l = elim (if_lookup_by_name ifaname (if_refresh ks l)) [
  | none ↦ (if_refresh ks l, out (codes "Invalid Interface\r\n") [] ∷ [], false)
  | some ifa ↦ (if_refresh ks l, if_print_stats ifa, true)
]

unfoldable pub add_ifaces : List Iface → List Iface → List Iface
add_ifaces [] l = l
add_ifaces (k ∷ ks) l = add_ifaces ks (if_add_interface k l)

unfoldable pub add_ifaddrs : List (ℕ × InIfaddr) → List Iface → List Iface
add_ifaddrs [] l = l
add_ifaddrs ((index, a) ∷ addrs) l = add_ifaddrs addrs (if_add_ifaddr index a l)

-- `if_get_interfaces`: the list behind, and whether it returned 0, not -1. The Booleans say which of
-- the kernel's answers did not fail.
unfoldable pub if_get_interfaces :
    List Iface → Bool → List (ℕ × InIfaddr) → Bool → List Iface → List Iface × Bool
if_get_interfaces ks false addrs answered l = (add_ifaces ks l, false)
if_get_interfaces ks true addrs answered l = (add_ifaddrs addrs (add_ifaces ks l), answered)
