-- ===== src/Route/Tests.antt =====
-- Messages for route.c.
use opencli.Base.{
  ℕ, ◌+◌, ◌-◌, ◌<◌, ◌≡◌, refl, Option, none, some, List, [], ◌∷◌, ◌++◌, arith, Bytes, codes, length,
  replicate, All,
}
use opencli.Interface.{Stats, InIfaddr, Iface, zero_stats}
use opencli.Route.{get_u16, get_u32, netlink_parse_rtattr}
use opencli.Route.Attributes.{Attr, IsAttr, encode, last_payload, payload_of}
use opencli.Route.Parsed.{netlink_parse_rtattr-encode}
use opencli.Route.Message.{Ret, value, nlmsg_len, nlmsg_type, nlmsg_flags, nl_response_hld}
use opencli.Route.Answer.{nl_response_hld-stale}
use opencli.Route.Link.{calls, rtnl_iface_get, rtnl_ifaddr_get}
use opencli.Route.Fields.{Carries, rtnl_iface_get-calls}
use opencli.Route.Label.{rtnl_ifaddr_get-undefined}

abbrev attr : ℕ → Bytes → Attr
attr kind payload = record { kind = kind; payload = payload }

abbrev eth0 : List Attr
eth0 =
    attr 3 (codes "eth0" ++ 0 ∷ [])
    ∷ attr 6 (codes "pfifo" ++ 0 ∷ [])
    ∷ attr 1 (0 ∷ 18 ∷ 4 ∷ 5 ∷ 6 ∷ 7 ∷ [])
    ∷ attr 13 (100 ∷ 0 ∷ 0 ∷ 0 ∷ [])
    ∷ attr 7 (replicate 8 0)
    ∷ []

eth0-IsAttr : All IsAttr eth0
eth0-IsAttr = ground arith

abbrev table_of : ℕ → List (Option ℕ)
table_of n = replicate n none

netlink_parse_rtattr-encode_example :
    (tb' : List (Option ℕ)) × (netlink_parse_rtattr
        (encode eth0)
        (table_of 20)
        19
        0
        (length (encode eth0))
      ≡ some tb')
    × ((t : ℕ) → t < 19 → payload_of (encode eth0) tb' t ≡ last_payload t eth0 none)
    × (payload_of (encode eth0) tb' 19 ≡ last_payload 19 eth0 none)
netlink_parse_rtattr-encode_example =
    netlink_parse_rtattr-encode eth0 (encode eth0) [] (table_of 20) 19 0 eth0-IsAttr refl
      (ground arith)

-- A header of `kind` and as many zeros as there are in front of the attributes.
abbrev message : ℕ → ℕ → List Attr → Bytes
message kind head attrs =
    (head + length (encode attrs)) ∷ 0 ∷ 0 ∷ 0 ∷ kind ∷ (replicate (head - 5) 0 ++ encode attrs)

eth0-Carries : Carries (message 16 32 eth0) 0 16 32 eth0
unfolding nlmsg_len nlmsg_type get_u16 get_u32
eth0-Carries = record {
  is_kind = refl;
  whole = refl;
  rest = [];
  laid = refl;
  attributes = eth0-IsAttr;
}

abbrev no_stats : Bytes → Stats
no_stats bytes = zero_stats

rtnl_iface_get-calls_example :
    (iface : Iface) × (rtnl_iface_get 8 no_stats 19 (table_of 20) (message 16 32 eth0) 0
      ≡ some (calls iface))
    × (iface.name ≡ codes "eth0")
    × (iface.qdisc ≡ codes "pfifo")
    × (iface.haddr ≡ 0 ∷ 18 ∷ 4 ∷ 5 ∷ 6 ∷ 7 ∷ [])
    × (iface.index ≡ get_u32 (message 16 32 eth0) 20)
    × (iface.stats ≡ zero_stats)
rtnl_iface_get-calls_example =
    rtnl_iface_get-calls 8 no_stats 19 (table_of 20) (message 16 32 eth0) 0 eth0 eth0-Carries
      (ground arith) (ground arith) (codes "eth0") (codes "pfifo") (0 ∷ 18 ∷ 4 ∷ 5 ∷ 6 ∷ 7 ∷ [])
      (100 ∷ 0 ∷ 0 ∷ 0 ∷ []) (replicate 8 0) refl refl refl refl refl (ground arith) (ground arith)
      (ground arith) (ground arith) (ground arith) (ground arith)

abbrev no_ifaddr : InIfaddr
no_ifaddr = record {
  ifa_label = [];
  ifa_family = 0;
  ifa_local = [];
  ifa_address = [];
  ifa_broadcast = [];
  ifa_anycast = [];
  ifa_scope = 0;
  ifa_flags = 0;
  ifa_prefixlen = 0;
}

-- `::1` on the loopback interface.
abbrev loopback : List Attr
loopback = attr 1 (replicate 15 0 ++ 1 ∷ []) ∷ []

loopback-Carries : Carries (message 20 24 loopback) 0 20 24 loopback
unfolding nlmsg_len nlmsg_type get_u16 get_u32
loopback-Carries = record {
  is_kind = refl;
  whole = refl;
  rest = [];
  laid = refl;
  attributes = ground arith;
}

rtnl_ifaddr_get-undefined_example :
    rtnl_ifaddr_get 7 (table_of 8) no_ifaddr (message 20 24 loopback) 0 ≡ none
rtnl_ifaddr_get-undefined_example =
    rtnl_ifaddr_get-undefined 7 (table_of 8) no_ifaddr (message 20 24 loopback) 0 loopback
      loopback-Carries (ground arith) (ground arith) refl

-- A handler that notes the offsets of its messages.
abbrev note : Bytes → ℕ → List ℕ → Ret × List ℕ
note buff h seen = (value 7, seen ++ h ∷ [])

abbrev two : Bytes
two = 16 ∷ 0 ∷ 0 ∷ 0 ∷ 16 ∷ (replicate 11 0 ++ 20 ∷ 0 ∷ 0 ∷ 0 ∷ 16 ∷ replicate 15 0)

abbrev stale : Bytes
stale = 20 ∷ 0 ∷ 0 ∷ 0 ∷ 3 ∷ replicate 4091 0

nl_response_hld-stale_example : nl_response_hld note stale none [] ≡ some (value 0, [])
nl_response_hld-stale_example =
    nl_response_hld-stale note stale [] (unfold nlmsg_flags get_u16 in refl)
      (unfold nlmsg_type get_u16 in refl) (unfold nlmsg_len get_u32 get_u16 in ground arith)
      (unfold nlmsg_len get_u32 get_u16 in ground arith)
