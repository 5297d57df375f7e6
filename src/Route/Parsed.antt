-- ===== src/Route/Parsed.antt =====
-- `netlink_parse_rtattr` of route.c, on the attributes that a sender has laid out.
use mathlib.Core.Option
use opencli.Base.{
  ℕ, zero, suc, ◌+◌, ◌-◌, ◌<◌, ◌≤◌, ◌≡◌, refl, ap, ◌∙◌, true, false, Bool-cases, inl, inr, Option,
  none, some, List, [], ◌∷◌, ◌++◌, ◌==◌, leb, if◌then◌else◌, arith, Bytes, All, set, drop, length,
  replicate, length-append, length-replicate, length-drop, append_assoc, length-set,
}
use opencli.Route.{
  align4, rta_size, rta_ok, parse_loop, clear_front, netlink_parse_rtattr, rta_data,
}
use opencli.Route.Attributes.{
  Attr, IsAttr, encode_one, encode, last_payload, payload_of, length-encode_one, len_at, kind_at,
  data_at, next_at, get_or-set, get_or-clear_front, rta_ok-at,
}

-- The pointers behind an attribute.
abbrev noted : List (Option ℕ) → ℕ → ℕ → ℕ → List (Option ℕ)
noted tb maxattr kind p = if leb kind maxattr then set tb kind (some p) else tb

length-noted :
    (tb : List (Option ℕ)) (maxattr kind p : ℕ) → length (noted tb maxattr kind p) ≡ length tb
length-noted tb maxattr kind p = ground (arith, length-set tb kind (some p))

payload_of-noted :
    (buf : Bytes) (tb : List (Option ℕ)) (maxattr kind p t : ℕ) (payload : Bytes)
    → maxattr < length tb
    → t ≤ maxattr
    → rta_data buf p ≡ payload
    → payload_of buf (noted tb maxattr kind p) t
      ≡ (if kind == t then some payload else payload_of buf tb t)
payload_of-noted buf tb maxattr kind p t payload hm ht hp = elim (Bool-cases (leb kind maxattr)) [
  | inl e ↦
      let there = get_or-set tb kind t (some p) (ground arith) in
      elim (Bool-cases (kind == t)) [
        | inl f ↦ rw (e, there, f, hp) refl
        | inr f ↦ rw (e, there, f) refl
      ]
  | inr e ↦ let other : kind == t ≡ false = ground arith in rw (e, other) refl
]

-- The loop over attributes laid out from `p` on.
parse_loop-encode :
    (attrs : List Attr) (fuel : ℕ) (buf rest : Bytes) (tb : List (Option ℕ)) (maxattr p len : ℕ)
    → len ≡ length (encode attrs)
    → All IsAttr attrs
    → drop p buf ≡ encode attrs ++ rest
    → length attrs < fuel
    → maxattr < length tb
    → (tb' : List (Option ℕ)) × (parse_loop fuel buf tb maxattr p len ≡ some tb')
      × (length tb' ≡ length tb)
      × ((t : ℕ) → t ≤ maxattr → payload_of buf tb' t ≡ last_payload t attrs (payload_of buf tb t))
unfolding parse_loop
parse_loop-encode attrs zero buf rest tb maxattr p len hl oks hd hf hm = absurd (omega arith)
parse_loop-encode [] (suc fuel) buf rest tb maxattr p len hl oks hd hf hm =
    (tb, unfold rta_ok in rw (parse_loop, hl) refl, refl, λ t ht. refl)
parse_loop-encode (a ∷ attrs) (suc fuel) buf rest tb maxattr p len hl oks hd hf hm =
    let here : drop p buf ≡ encode_one a ++ (encode attrs ++ rest) =
      hd ∙ append_assoc (encode_one a) (encode attrs) rest in
    let tail = encode attrs ++ rest in
    let size = length a.payload + rta_size in
    let len_here = len_at buf p a tail oks.0 here in
    let kind_here = kind_at buf p a tail oks.0 here in
    let whole : len ≡ align4 size + length (encode attrs) =
      hl
      ∙ length-append (encode_one a) (encode attrs)
      ∙ ap (λ n. n + length (encode attrs)) (length-encode_one a) in
    let left : len - align4 size ≡ length (encode attrs) = omega arith in
    let more : rta_ok buf p len ≡ true =
      rta_ok-at buf p size len len_here (omega arith) (omega arith) in
    let (tb', eq, same, says) =
      parse_loop-encode attrs fuel buf rest (noted tb maxattr a.kind p) maxattr (p + align4 size)
        (length (encode attrs)) refl oks.1 (next_at buf p a tail oks.0 here) (omega arith)
        (omega (arith, length-noted tb maxattr a.kind p)) in
    (
      tb',
      rw (parse_loop, more, kind_here, len_here, left) eq,
      same ∙ length-noted tb maxattr a.kind p,
      λ t ht.
          says t ht
          ∙ ap (last_payload t attrs) (
              payload_of-noted buf tb maxattr a.kind p t a.payload hm ht
                (data_at buf p a tail oks.0 here)),
    )

length-encode : (attrs : List Attr) → length attrs ≤ length (encode attrs)
length-encode [] = omega arith
length-encode (a ∷ attrs) =
    omega
      (arith, length-encode attrs, length-append (encode_one a) (encode attrs), length-encode_one a)

length-clear_front :
    (n : ℕ) (tb : List (Option ℕ)) → n ≤ length tb → length (clear_front n tb) ≡ length tb
unfolding clear_front
length-clear_front n tb h = omega (
  arith,
  length-append (replicate n none) (drop n tb),
  length-replicate {A = Option ℕ} n none,
  length-drop n tb,
)

-- Given attributes laid out in a message, `netlink_parse_rtattr` says for each type below `maxattr` the
-- payload of the last attribute of that type, or NULL where there is none. For `maxattr` itself it says
-- the same where there is one, and else leaves what stood in `tb` before, which it does not clear.
pub netlink_parse_rtattr-encode :
    (attrs : List Attr) (buf rest : Bytes) (tb : List (Option ℕ)) (maxattr p : ℕ)
    → All IsAttr attrs
    → drop p buf ≡ encode attrs ++ rest
    → maxattr < length tb
    → (tb' : List (Option ℕ)) × (netlink_parse_rtattr buf tb maxattr p (length (encode attrs))
        ≡ some tb')
      × ((t : ℕ) → t < maxattr → payload_of buf tb' t ≡ last_payload t attrs none)
      × (payload_of buf tb' maxattr ≡ last_payload maxattr attrs (payload_of buf tb maxattr))
unfolding netlink_parse_rtattr
netlink_parse_rtattr-encode attrs buf rest tb maxattr p oks hd hm =
    let cleared = clear_front maxattr tb in
    let (tb', eq, same, says) =
      parse_loop-encode attrs (length (encode attrs) + 1) buf rest cleared maxattr p
        (length (encode attrs)) refl oks hd (omega (arith, length-encode attrs))
        (omega (arith, length-clear_front maxattr tb)) in
    (
      tb',
      eq,
      λ t ht.
          let low : leb maxattr t ≡ false = ground arith in
          says t (omega arith)
          ∙ ap (λ o. last_payload t attrs (Option.map (rta_data buf) o))
              (rw low at (get_or-clear_front maxattr t tb)),
      let high : leb maxattr maxattr ≡ true = ground arith in
          says maxattr (omega arith)
          ∙ ap (λ o. last_payload maxattr attrs (Option.map (rta_data buf) o))
              (rw high at (get_or-clear_front maxattr maxattr tb)),
    )
