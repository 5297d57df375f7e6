-- ===== src/Interface.antt =====
-- interface.c and interface.h: the interfaces of the machine, with their addresses and counters. The
-- list `iface_list` is a list of records; an `unsigned long` has 64 bits. What comes from the kernel
-- is the argument of the functions.
pub mod Print
pub mod Counters
pub mod Address
pub mod Show
pub mod Tests
use opencli.Base.{
  ℕ, Option, none, some, List, [], ◌∷◌, ◌++◌, ◌==◌, if◌then◌else◌, Bytes, str_eq, map,
}

-- The counters of `struct net_device_stats` that are printed.
pub record Stats : Type 0 where
  pub rx_packets : ℕ
  pub rx_bytes : ℕ
  pub rx_dropped : ℕ
  pub multicast : ℕ
  pub rx_errors : ℕ
  pub rx_crc_errors : ℕ
  pub rx_frame_errors : ℕ
  pub rx_fifo_errors : ℕ
  pub rx_missed_errors : ℕ
  pub rx_length_errors : ℕ
  pub tx_packets : ℕ
  pub tx_bytes : ℕ
  pub tx_fifo_errors : ℕ
  pub tx_errors : ℕ
  pub collisions : ℕ
  pub tx_carrier_errors : ℕ
  pub tx_aborted_errors : ℕ
  pub tx_heartbeat_errors : ℕ
  pub tx_window_errors : ℕ

-- `struct in_ifaddr`. The addresses are their four bytes in memory.
pub record InIfaddr : Type 0 where
  pub ifa_label : Bytes
  pub ifa_family : ℕ
  pub ifa_local : Bytes
  pub ifa_address : Bytes
  pub ifa_broadcast : Bytes
  pub ifa_anycast : Bytes
  pub ifa_scope : ℕ
  pub ifa_flags : ℕ
  pub ifa_prefixlen : ℕ

-- `struct iface`; `haddr` has the `haddr_len` bytes that are in use.
pub record Iface : Type 0 where
  pub in_ifaddr : List InIfaddr
  pub name : Bytes
  pub qdisc : Bytes
  pub haddr : Bytes
  pub index : ℕ
  pub flags : ℕ
  pub hw_type : ℕ
  pub txqueuelen : ℕ
  pub mtu : ℕ
  pub weight : ℕ
  pub stats : Stats
  pub old_stats : Stats

unfoldable pub if_lookup_by_index : ℕ → List Iface → Option Iface
if_lookup_by_index index [] = none
if_lookup_by_index index (ifa ∷ l) =
    let rest = if_lookup_by_index index l in if ifa.index == index then some ifa else rest

unfoldable pub if_lookup_by_name : Bytes → List Iface → Option Iface
if_lookup_by_name name [] = none
if_lookup_by_name name (ifa ∷ l) =
    let rest = if_lookup_by_name name l in if str_eq ifa.name name then some ifa else rest

-- A write through the pointer that `if_lookup_by_index` returns, where it is not NULL.
unfoldable pub with_index : ℕ → (Iface → Iface) → List Iface → List Iface
with_index index f [] = []
with_index index f (ifa ∷ l) =
    let rest = with_index index f l in if ifa.index == index then f ifa ∷ l else ifa ∷ rest

-- `if_update_interface` on the interface found.
unfoldable pub updated : Iface → Iface → Iface
updated kiface iface = record iface {
  name = kiface.name;
  qdisc = kiface.qdisc;
  haddr = kiface.haddr;
  flags = kiface.flags;
  mtu = kiface.mtu;
  weight = kiface.weight;
  txqueuelen = kiface.txqueuelen;
  stats = kiface.stats;
}

unfoldable pub if_update_interface : Iface → List Iface → List Iface
if_update_interface kiface = with_index kiface.index (updated kiface)

abbrev pub zero_stats : Stats
zero_stats = record {
  rx_packets = 0;
  rx_bytes = 0;
  rx_dropped = 0;
  multicast = 0;
  rx_errors = 0;
  rx_crc_errors = 0;
  rx_frame_errors = 0;
  rx_fifo_errors = 0;
  rx_missed_errors = 0;
  rx_length_errors = 0;
  tx_packets = 0;
  tx_bytes = 0;
  tx_fifo_errors = 0;
  tx_errors = 0;
  collisions = 0;
  tx_carrier_errors = 0;
  tx_aborted_errors = 0;
  tx_heartbeat_errors = 0;
  tx_window_errors = 0;
}

unfoldable pub if_add_interface : Iface → List Iface → List Iface
if_add_interface kiface l = l ++ record kiface { in_ifaddr = []; old_stats = zero_stats } ∷ []

unfoldable pub if_add_ifaddr : ℕ → InIfaddr → List Iface → List Iface
if_add_ifaddr index kifaddr =
    with_index index (λ ifa. record ifa { in_ifaddr = ifa.in_ifaddr ++ kifaddr ∷ [] })

unfoldable pub if_clear_counters : List Iface → List Iface
if_clear_counters = map (λ (ifa : Iface). record ifa { old_stats = ifa.stats })
