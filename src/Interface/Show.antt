-- ===== src/Interface/Show.antt =====
-- `if_show_interface` of interface.c.
use opencli.Base.{
  ◌≡◌, ◌≢◌, ◌↔◌, refl, Bool, true, false, Option-cases, ◌⊎◌, inl, inr, Option, none, some, List, [],
  ◌∷◌, arith, Bytes, codes, All, str_eq_iff,
}
use opencli.Interface.{Iface, if_lookup_by_name}
use opencli.Interface.Print.{if_refresh, if_show_interface}

-- No interface has the name.
abbrev pub Unknown : Bytes → List Iface → Type 0
Unknown name = All (λ ifa. ifa.name ≢ name)

if_lookup_by_name-Unknown :
    (name : Bytes) (l : List Iface) → (if_lookup_by_name name l ≡ none) ↔ Unknown name l
unfolding if_lookup_by_name
if_lookup_by_name-Unknown name [] = ground arith
if_lookup_by_name-Unknown name (ifa ∷ l) =
    ground (arith, if_lookup_by_name-Unknown name l, str_eq_iff ifa.name name)

-- `if_show_interface` fails exactly when the request to the kernel fails, with nothing printed, or when
-- there is a name that no interface has behind the request, with a message.
pub if_show_interface_iff :
    (ks : List Iface) (answered : Bool) (ifaname : Option Bytes) (l : List Iface)
    → ((if_show_interface ks answered ifaname l).2 ≡ false) ↔ (
        (answered ≡ false) × ((if_show_interface ks answered ifaname l).1 ≡ [])
        ⊎ ((name : Bytes) × (answered ≡ true)
            × (ifaname ≡ some name)
            × Unknown name (if_refresh ks l)
            × ((if_show_interface ks answered ifaname l).1
                ≡ record { format = codes "Invalid Interface\r\n"; args = [] } ∷ [])))
unfolding if_show_interface
if_show_interface_iff ks false ifaname l = ground arith
if_show_interface_iff ks true none l = ground arith
if_show_interface_iff ks true (some name) l =
    elim (Option-cases (if_lookup_by_name name (if_refresh ks l))) [
      | inl e ↦
          let gone : Unknown name (if_refresh ks l) =
            (if_lookup_by_name-Unknown name (if_refresh ks l)).0 e in
          rw (if_show_interface, e) (λ h. inr (name, refl, refl, gone, refl), λ h. refl)
      | inr (ifa, e) ↦
          rw (if_show_interface, e)
            (
              λ h. absurd (cc),
              λ h. elim h [
                | inl x ↦ absurd (cc)
                | inr (n, a, f, gone, p) ↦
                    let same : name ≡ n = cc in
                    let lost : if_lookup_by_name name (if_refresh ks l) ≡ none =
                      (if_lookup_by_name-Unknown name (if_refresh ks l)).1 (rw same gone) in
                    absurd (cc)
              ],
            )
    ]
