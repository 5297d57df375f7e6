-- ===== src/Route/Link.antt =====
-- route.c: the handlers of one message, `rtnl_iface_get` and `rtnl_ifaddr_get`. The structures of the
-- kernel's headers are read at their offsets; of `struct net_device_stats` the reader is a parameter,
-- as are the largest types of attributes. `none` is undefined behaviour, a NULL that is followed or a
-- string that its array does not hold.

use opencli.Base.{
  ℕ, ◌+◌, ◌-◌, ◌%◌, ◌^◌, true, false, Option, none, some, List, [], ◌==◌, ltb, leb, if◌then◌else◌,
  Bytes, get_or, take, drop, length, cstr, ◌>>=◌,
}
use opencli.Interface.{Stats, InIfaddr, Iface, zero_stats}
use opencli.Route.{get_u16, get_u32, rta_size, netlink_parse_rtattr, rta_data}
use opencli.Route.Message.{nlmsg_len, nlmsg_type}

-- What a handler does: it returns 0, or -1, or what the callback makes of its argument.
pub data Got (A : Type 0) : Type 0 where
  skipped refused : Got A
  calls : A → Got A

-- `strcpy` from `off` into an array of `size` bytes.
unfoldable pub strcpy_to : ℕ → Bytes → ℕ → Option Bytes
strcpy_to size buff off =
    let s = cstr (drop off buff) in if ltb (length s) size then some s else none

-- `*(int *)RTA_DATA(rta)`, or 0 for a NULL where the code asks for it.
unfoldable pub u32_or_zero : Bytes → Option ℕ → ℕ
u32_or_zero buff none = 0
u32_or_zero buff (some rta) = get_u32 buff (rta + 4)

-- IFNAMSIZ, MAX_ADDR_LEN, and the size of `qdisc`.
abbrev pub ifnamsiz : ℕ
ifnamsiz = 16

abbrev pub max_addr_len : ℕ
max_addr_len = 32

abbrev pub qdisc_size : ℕ
qdisc_size = 50

-- The bytes of `*(struct net_device_stats *)RTA_DATA(rta)`, `stats_size` of them whatever the payload
-- is. They are to be within what is known of the memory.
unfoldable pub stats_at : ℕ → Bytes → ℕ → Option Bytes
stats_at stats_size buff rta =
    let here = drop (rta + rta_size) buff in
    if leb stats_size (length here) then some (take stats_size here) else none

module _ (stats_size : ℕ) (read_stats : Bytes → Stats) where
  -- The interface for the callback, with the attributes at `address`, `txqlen` and `stats`.
  unfoldable pub iface_from :
      Bytes
      → ℕ
      → List (Option ℕ)
      → (name qdisc : Bytes) (address txqlen : ℕ) (stats : Bytes) → Iface
  iface_from buff h tb name qdisc address txqlen stats = record {
    in_ifaddr = [];
    name = name;
    qdisc = qdisc;
    haddr = rta_data buff address;
    index = get_u32 buff (h + 20);
    flags = get_u32 buff (h + 24) % 2 ^ 20;
    hw_type = get_u16 buff (h + 18);
    txqueuelen = get_u32 buff (txqlen + 4);
    mtu = u32_or_zero buff (get_or tb 4 none);
    weight = u32_or_zero buff (get_or tb 15 none);
    stats = read_stats stats;
    old_stats = zero_stats;
  }

  -- `rtnl_iface_get` from the table on, for the message at `h`.
  unfoldable pub iface_of : Bytes → ℕ → List (Option ℕ) → Option (Got Iface)
  iface_of buff h tb = elim (get_or tb 3 none) [
    | none ↦ some refused
    | some name ↦ elim (get_or tb 1 none) [
      | none ↦ some refused
      | some address ↦ elim (ltb (length (rta_data buff address)) max_addr_len) [
        | false ↦ some refused
        | true ↦ do
          name' ← strcpy_to ifnamsiz buff (name + 4)
          qdisc ← get_or tb 6 none
          qdisc' ← strcpy_to qdisc_size buff (qdisc + 4)
          txqlen ← get_or tb 13 none
          stats ← get_or tb 7 none
          stats' ← stats_at stats_size buff stats
          some (calls (iface_from buff h tb name' qdisc' address txqlen stats'))
      ]
    ]
  ]

  -- `rtnl_iface_get`, for RTM_NEWLINK; `tb` is the table on the stack, and `ifla_max` is IFLA_MAX.
  unfoldable pub rtnl_iface_get : ℕ → List (Option ℕ) → Bytes → ℕ → Option (Got Iface)
  rtnl_iface_get ifla_max tb buff h =
      let parsed = netlink_parse_rtattr buff tb ifla_max (h + 32) (nlmsg_len buff h - 32) in
      if nlmsg_type buff h == 16
      then if ltb (nlmsg_len buff h) 32 then some refused else (parsed >>= iface_of buff h)
      else some skipped

-- Four bytes of an attribute that there is.
unfoldable pub address_at : Bytes → Option ℕ → Option Bytes
address_at buff none = none
address_at buff (some rta) = some (take 4 (drop (rta + 4) buff))

-- The same, or what stood there before.
unfoldable pub address_or : Bytes → Option ℕ → Bytes → Bytes
address_or buff none before = before
address_or buff (some rta) before = take 4 (drop (rta + 4) buff)

-- `rtnl_ifaddr_get` from the table on; `stack` is `in_ifaddr` before. The index of the interface goes
-- with it.
unfoldable pub ifaddr_of : InIfaddr → Bytes → ℕ → List (Option ℕ) → Option (Got (ℕ × InIfaddr))
ifaddr_of stack buff h tb = do
  label ← get_or tb 3 none
  label' ← strcpy_to ifnamsiz buff (label + 4)
  address ← address_at buff (get_or tb 1 none)
  home ← address_at buff (get_or tb 2 none)
  some (
      calls (
        get_u32 buff (h + 20),
        record {
          ifa_label = label';
          ifa_family = get_or buff (h + 16) 0;
          ifa_local = home;
          ifa_address = address;
          ifa_broadcast = address_or buff (get_or tb 4 none) stack.ifa_broadcast;
          ifa_anycast = address_or buff (get_or tb 5 none) stack.ifa_anycast;
          ifa_scope = get_or buff (h + 19) 0;
          ifa_flags = get_or buff (h + 18) 0;
          ifa_prefixlen = get_or buff (h + 17) 0;
        },
      ))

-- `rtnl_ifaddr_get`, for RTM_NEWADDR, where `ifa_max` is IFA_MAX.
unfoldable pub rtnl_ifaddr_get :
    ℕ → List (Option ℕ) → InIfaddr → Bytes → ℕ → Option (Got (ℕ × InIfaddr))
rtnl_ifaddr_get ifa_max tb stack buff h =
    let parsed = netlink_parse_rtattr buff tb ifa_max (h + 24) (nlmsg_len buff h - 24) in
    if nlmsg_type buff h == 20
    then if ltb (nlmsg_len buff h) 24 then some refused else (parsed >>= ifaddr_of stack buff h)
    else some skipped
