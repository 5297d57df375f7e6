-- ===== src/Route/Fields.antt =====
-- `rtnl_iface_get` and `rtnl_ifaddr_get` of route.c, on attributes that a sender has laid out.

use opencli.Base.{
  ℕ, ◌+◌, ◌-◌, ◌<◌, ◌≤◌, ◌≡◌, refl, sym, ap, ◌∙◌, ◌⊎◌, inl, inr, true, false, Option, none, some,
  Option-cases, List, [], ◌∷◌, ◌++◌, ltb, arith, Bytes, IsText, All, get_or, drop, length, cstr,
  cstr-append, take-append-drop, append_assoc,
}
use opencli.Interface.{Stats, Iface}
use opencli.Route.{get_u16, rta_size, get_u32, rta_data}
use opencli.Route.Attributes.{Attr, IsAttr, encode, last_payload, payload_of}
use opencli.Route.Parsed.{netlink_parse_rtattr-encode}
use opencli.Route.Message.{nlmsg_len, nlmsg_type}
use opencli.Base.{take, leb, zero, suc}
use opencli.Route.Link.{stats_at}
use opencli.Route.Link.{
  refused, calls, iface_from, strcpy_to, ifnamsiz, max_addr_len, qdisc_size, iface_of,
  rtnl_iface_get,
}

-- A message at `h` with the attributes `attrs`, of the type `kind`, with `head` bytes in front of them.
pub record Carries (buff : Bytes) (h kind head : ℕ) (attrs : List Attr) : Type 0 where
  pub is_kind : nlmsg_type buff h ≡ kind
  pub whole : nlmsg_len buff h ≡ head + length (encode attrs)
  pub rest : Bytes
  pub laid : drop (h + head) buff ≡ encode attrs ++ rest
  pub attributes : All IsAttr attrs

-- A pointer behind a payload.
pub pointer_of :
    (buff : Bytes) (tb : List (Option ℕ)) (t : ℕ) (payload : Bytes)
    → payload_of buff tb t ≡ some payload
    → (rta : ℕ) × (get_or tb t none ≡ some rta) × (rta_data buff rta ≡ payload)
pointer_of buff tb t payload h = elim (Option-cases (get_or tb t none)) [
  | inl e ↦ absurd (cc (rw e at h))
  | inr (rta, e) ↦ (rta, e, cc (rw e at h))
]

pub no_pointer :
    (buff : Bytes) (tb : List (Option ℕ)) (t : ℕ)
    → payload_of buff tb t ≡ none
    → get_or tb t none ≡ none
no_pointer buff tb t h = elim (Option-cases (get_or tb t none)) [
  | inl e ↦ e
  | inr (rta, e) ↦ absurd (cc (rw e at h))
]

-- A string in an attribute, with its NUL.
strcpy_to-payload :
    (size : ℕ) (buff s : Bytes) (rta : ℕ)
    → rta_data buff rta ≡ s ++ 0 ∷ []
    → IsText s
    → length s < size
    → strcpy_to size buff (rta + 4) ≡ some s
unfolding strcpy_to rta_data
strcpy_to-payload size buff s rta h text fits =
    let here = drop (rta + 4) buff in
    let k = get_u16 buff rta - rta_size in
    let e : here ≡ s ++ 0 ∷ drop k here =
      sym (take-append-drop k here)
      ∙ ap (λ v. v ++ drop k here) h
      ∙ append_assoc s (0 ∷ []) (drop k here) in
    let c : cstr here ≡ s = ap cstr e ∙ cstr-append s (drop k here) text in
    let short : ltb (length (cstr here)) size ≡ true = rw c (ground arith) in
    rw (strcpy_to, short) (ap some c)

take-take :
    (n k : ℕ) (xs : Bytes)
    → n ≤ length (take k xs)
    → (take n (take k xs) ≡ take n xs) × (n ≤ length xs)
take-take zero k xs h = (refl, omega arith)
take-take (suc n) zero xs h = absurd (omega (arith, h))
take-take (suc n) (suc k) [] h = absurd (omega (arith, h))
take-take (suc n) (suc k) (x ∷ xs) h =
    let (same, enough) = take-take n k xs (omega (arith, h)) in
    (ap (◌∷◌ x) same, omega (arith, enough))

-- A whole structure in an attribute.
stats_at-payload :
    (size : ℕ) (buff stats : Bytes) (rta : ℕ)
    → rta_data buff rta ≡ stats
    → size ≤ length stats
    → stats_at size buff rta ≡ some (take size stats)
unfolding stats_at rta_data
stats_at-payload size buff stats rta h enough =
    let here = drop (rta + rta_size) buff in
    let k = get_u16 buff rta - rta_size in
    let (same, all) = take-take size k here (rw h enough) in
    let whole : leb size (length here) ≡ true = ground (arith, all) in
    rw (stats_at, whole) (ap some (sym same ∙ ap (take size) h))

module _ (stats_size : ℕ) (read_stats : Bytes → Stats) (ifla_max : ℕ) (tb : List (Option ℕ))
    (buff : Bytes) (h : ℕ) (attrs : List Attr) (message : Carries buff h 16 32 attrs)
    (room : ifla_max < length tb) (known : 15 < ifla_max) where
  -- The table that `rtnl_iface_get` works on.
  table :
      (tb' : List (Option ℕ)) × (rtnl_iface_get stats_size read_stats ifla_max tb buff h
        ≡ iface_of stats_size read_stats buff h tb')
      × ((t : ℕ) → t < ifla_max → payload_of buff tb' t ≡ last_payload t attrs none)
  unfolding rtnl_iface_get
  table =
      let m = message in
      let (tb', eq, says, last) =
        netlink_parse_rtattr-encode attrs buff m.rest tb ifla_max (h + 32) m.attributes m.laid
          room in
      let len : nlmsg_len buff h - 32 ≡ length (encode attrs) = omega (arith, m.whole) in
      let long : ltb (nlmsg_len buff h) 32 ≡ false = ground (arith, m.whole) in
      (tb', rw (m.is_kind, long, len, eq) refl, says)

  without_address :
      (tb' : List (Option ℕ))
      → get_or tb' 1 none ≡ none
      → iface_of stats_size read_stats buff h tb' ≡ some refused
  unfolding iface_of
  without_address tb' e = elim (Option-cases (get_or tb' 3 none)) [
    | inl f ↦ rw (iface_of, f) refl
    | inr (name, f) ↦ rw (iface_of, f, e) refl
  ]

  too_long :
      (tb' : List (Option ℕ)) (address : ℕ)
      → get_or tb' 1 none ≡ some address
      → ltb (length (rta_data buff address)) max_addr_len ≡ false
      → iface_of stats_size read_stats buff h tb' ≡ some refused
  unfolding iface_of
  too_long tb' address e long = elim (Option-cases (get_or tb' 3 none)) [
    | inl f ↦ rw (iface_of, f) refl
    | inr (name, f) ↦ rw (iface_of, f, e, long) refl
  ]

  -- A message without a name or an address, or with an address of 32 bytes or more, is refused: no
  -- interface comes of it.
  pub rtnl_iface_get-refuses :
      (last_payload 3 attrs none ≡ none)
        ⊎ ((last_payload 1 attrs none ≡ none)
            ⊎ ((haddr : Bytes) × (last_payload 1 attrs none ≡ some haddr)
                × (max_addr_len ≤ length haddr)))
      → rtnl_iface_get stats_size read_stats ifla_max tb buff h ≡ some refused
  unfolding iface_of
  rtnl_iface_get-refuses why =
      let (tb', eq, says) = table in
      eq ∙ elim why [
        | inl no_name ↦ rw (iface_of, no_pointer buff tb' 3 (says 3 (omega arith) ∙ no_name)) refl
        | inr (inl no_address) ↦
            without_address tb' (no_pointer buff tb' 1 (says 1 (omega arith) ∙ no_address))
        | inr (inr (haddr, address, long)) ↦
            let (p1, e1, d1) = pointer_of buff tb' 1 _ (says 1 (omega arith) ∙ address) in
            too_long tb' p1 e1 (rw d1 (ground arith))
      ]

  -- From a message with the attributes that it needs, their strings and the address short enough for
  -- their arrays, `rtnl_iface_get` gives the callback an interface of the name, the queue, the
  -- hardware address and the counters that the attributes have, when the attribute of the counters
  -- holds a whole `struct net_device_stats`.
  pub rtnl_iface_get-calls :
      (name qdisc haddr txqlen stats : Bytes)
      → last_payload 3 attrs none ≡ some (name ++ 0 ∷ [])
      → last_payload 6 attrs none ≡ some (qdisc ++ 0 ∷ [])
      → last_payload 1 attrs none ≡ some haddr
      → last_payload 13 attrs none ≡ some txqlen
      → last_payload 7 attrs none ≡ some stats
      → IsText name
      → IsText qdisc
      → length name < ifnamsiz
      → length qdisc < qdisc_size
      → length haddr < max_addr_len
      → stats_size ≤ length stats
      → (iface : Iface) × (rtnl_iface_get stats_size read_stats ifla_max tb buff h
          ≡ some (calls iface))
        × (iface.name ≡ name)
        × (iface.qdisc ≡ qdisc)
        × (iface.haddr ≡ haddr)
        × (iface.index ≡ get_u32 buff (h + 20))
        × (iface.stats ≡ read_stats (take stats_size stats))
  unfolding iface_of iface_from
  rtnl_iface_get-calls name qdisc haddr txqlen stats hn hq ha ht hs tn tq fn fq fa enough =
      let (tb', eq, says) = table in
      let (p3, e3, d3) = pointer_of buff tb' 3 _ (says 3 (omega arith) ∙ hn) in
      let (p6, e6, d6) = pointer_of buff tb' 6 _ (says 6 (omega arith) ∙ hq) in
      let (p1, e1, d1) = pointer_of buff tb' 1 _ (says 1 (omega arith) ∙ ha) in
      let (p13, e13, d13) = pointer_of buff tb' 13 _ (says 13 (omega arith) ∙ ht) in
      let (p7, e7, d7) = pointer_of buff tb' 7 _ (says 7 (omega arith) ∙ hs) in
      let c3 = strcpy_to-payload ifnamsiz buff name p3 d3 tn fn in
      let c6 = strcpy_to-payload qdisc_size buff qdisc p6 d6 tq fq in
      let c7 = stats_at-payload stats_size buff stats p7 d7 enough in
      let short : ltb (length (rta_data buff p1)) max_addr_len ≡ true = rw d1 (ground arith) in
      (
        iface_from stats_size read_stats buff h tb' name qdisc p1 p13 (take stats_size stats),
        eq ∙ rw (iface_of, e3, e1, short, c3, e6, c6, e13, e7, c7) refl,
        refl,
        refl,
        d1,
        refl,
        refl,
      )
