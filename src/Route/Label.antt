-- ===== src/Route/Label.antt =====
-- `rtnl_ifaddr_get` of route.c, on an address without a label, such as one of IPv6.
use opencli.Base.{
  ℕ, ◌+◌, ◌-◌, ◌<◌, ◌≡◌, refl, ◌∙◌, false, Option, none, List, ltb, arith, Bytes, length,
}
use opencli.Interface.{InIfaddr}
use opencli.Route.Attributes.{Attr, encode, last_payload}
use opencli.Route.Parsed.{netlink_parse_rtattr-encode}
use opencli.Route.Message.{nlmsg_len}
use opencli.Route.Link.{ifaddr_of, rtnl_ifaddr_get}
use opencli.Route.Fields.{Carries, no_pointer}

-- A message about an address that has no label makes `rtnl_ifaddr_get` copy a string from NULL, which
-- is undefined.
pub rtnl_ifaddr_get-undefined :
    (ifa_max : ℕ) (tb : List (Option ℕ)) (stack : InIfaddr) (buff : Bytes) (h : ℕ)
    (attrs : List Attr)
    → Carries buff h 20 24 attrs
    → ifa_max < length tb
    → 3 < ifa_max
    → last_payload 3 attrs none ≡ none
    → rtnl_ifaddr_get ifa_max tb stack buff h ≡ none
unfolding rtnl_ifaddr_get ifaddr_of
rtnl_ifaddr_get-undefined ifa_max tb stack buff h attrs m room known no_label =
    let (tb', eq, says, last) =
      netlink_parse_rtattr-encode attrs buff m.rest tb ifa_max (h + 24) m.attributes m.laid room in
    let len : nlmsg_len buff h - 24 ≡ length (encode attrs) = omega (arith, m.whole) in
    let long : ltb (nlmsg_len buff h) 24 ≡ false = ground (arith, m.whole) in
    let null = no_pointer buff tb' 3 (says 3 known ∙ no_label) in
    rw (m.is_kind, long, len, eq, ifaddr_of, null) refl
