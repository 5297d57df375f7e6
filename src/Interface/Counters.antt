-- ===== src/Interface/Counters.antt =====
-- The counters of interface.c, over `if_clear_counters` and `if_update_interface`.
use mathlib.Core.Option
use opencli.Base.{
  ℕ, ◌+◌, ◌-◌, ◌%◌, ◌^◌, ◌<◌, ◌≡◌, refl, ap, true, false, Bool-cases, inl, inr, some, List, [], ◌∷◌,
  ◌==◌, if◌then◌else◌, arith,
}
use opencli.Interface.{
  Stats, Iface, if_lookup_by_index, with_index, updated, if_update_interface, if_clear_counters,
}
use opencli.Interface.Print.{since_clear}

-- The interface that an index finds behind an update.
pub if_lookup_by_index-if_update_interface :
    (index : ℕ) (k : Iface) (l : List Iface)
    → if_lookup_by_index index (if_update_interface k l) ≡ (
        if k.index == index
        then Option.map (updated k) (if_lookup_by_index index l)
        else if_lookup_by_index index l)
unfolding if_lookup_by_index if_update_interface with_index updated
if_lookup_by_index-if_update_interface index k [] = elim (Bool-cases (k.index == index)) [
  | inl e ↦ rw e refl
  | inr e ↦ rw e refl
]
if_lookup_by_index-if_update_interface index k (ifa ∷ l) =
    let ih = if_lookup_by_index-if_update_interface index k l in
    elim (Bool-cases (ifa.index == k.index)) [
      | inl e ↦ elim (Bool-cases (k.index == index)) [
        | inl f ↦ let g : ifa.index == index ≡ true = ground arith in rw (e, f, g) refl
        | inr f ↦ let g : ifa.index == index ≡ false = ground arith in rw (e, f, g) refl
      ]
      | inr e ↦ elim (Bool-cases (ifa.index == index)) [
        | inl g ↦ let f : k.index == index ≡ false = ground arith in rw (e, f, g) refl
        | inr g ↦ rw (e, g) ih
      ]
    ]

-- The interface that an index finds behind the clearing of the counters.
if_lookup_by_index-if_clear_counters :
    (index : ℕ) (l : List Iface)
    → if_lookup_by_index index (if_clear_counters l)
      ≡ Option.map (λ (i : Iface). record i { old_stats = i.stats }) (if_lookup_by_index index l)
unfolding if_lookup_by_index if_clear_counters
if_lookup_by_index-if_clear_counters index [] = refl
if_lookup_by_index-if_clear_counters index (ifa ∷ l) =
    let ih = if_lookup_by_index-if_clear_counters index l in
    elim (Bool-cases (ifa.index == index)) [ inl e ↦ rw e refl | inr e ↦ rw e ih ]

-- What is printed of an interface that was found before its counters were cleared.
since_clear-if_update_interface :
    (stat : Stats → ℕ) (d : ℕ) (k ifa : Iface) (l : List Iface)
    → if_lookup_by_index k.index l ≡ some ifa
    → stat ifa.stats < 2 ^ 64
    → stat k.stats ≡ (stat ifa.stats + d) % 2 ^ 64
    → d < 2 ^ 64
    → Option.map
        (since_clear stat)
        (if_lookup_by_index k.index (if_update_interface k (if_clear_counters l)))
      ≡ some d
unfolding since_clear updated
since_clear-if_update_interface stat d k ifa l found small grown hd =
    let same : k.index == k.index ≡ true = ground arith in
    let wraps : (stat k.stats + 2 ^ 64 - stat ifa.stats) % 2 ^ 64 ≡ d = rw grown (omega arith) in
    rw
      (
        if_lookup_by_index-if_update_interface k.index k (if_clear_counters l),
        if_lookup_by_index-if_clear_counters k.index l,
        found,
        same,
      )
      (ap some wraps)

-- When the counters are cleared between two refreshes, `k0` and `k`, a counter as it is printed says how
-- much the kernel's counter has gone up from the first to the second refresh, not from the clear on,
-- also where it has wrapped in between, as long as it went up by less than 2 ^ 64.
pub since_clear-if_clear_counters :
    (stat : Stats → ℕ) (d : ℕ) (k0 k ifa : Iface) (l : List Iface)
    → if_lookup_by_index k.index l ≡ some ifa
    → k0.index ≡ k.index
    → stat k0.stats < 2 ^ 64
    → stat k.stats ≡ (stat k0.stats + d) % 2 ^ 64
    → d < 2 ^ 64
    → Option.map (since_clear stat) (
        if_lookup_by_index k.index
          (if_update_interface k (if_clear_counters (if_update_interface k0 l))))
      ≡ some d
unfolding updated
since_clear-if_clear_counters stat d k0 k ifa l found alike small grown hd =
    let same : k0.index == k.index ≡ true = ground arith in
    let refreshed : if_lookup_by_index k.index (if_update_interface k0 l) ≡ some (updated k0 ifa) =
      rw (if_lookup_by_index-if_update_interface k.index k0 l, same, found) refl in
    since_clear-if_update_interface stat d k (updated k0 ifa) (if_update_interface k0 l) refreshed
      small grown hd
