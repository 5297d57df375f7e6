-- ===== src/Interface/Tests.antt =====
-- An interface for interface.c, whose counter of bytes is about to wrap.
use mathlib.Core.Option
use opencli.Base.{
  ◌-◌, ◌^◌, ◌<◌, ◌≤◌, ◌≡◌, ◌↔◌, ◌⊎◌, refl, true, false, some, [], ◌∷◌, arith, Bytes, codes, length,
}
use opencli.Interface.{
  Iface, zero_stats, if_lookup_by_index, if_update_interface, if_clear_counters,
}
use opencli.Interface.Print.{
  since_clear, print_haddr, haddr_from, hex_digit, haddr_size, if_refresh, if_show_interface,
}
use opencli.Interface.Address.{print_haddr_fits}
use opencli.Interface.Counters.{since_clear-if_clear_counters}
use opencli.Interface.Show.{Unknown, if_show_interface_iff}

abbrev pub eth0 : Iface
eth0 = record {
  in_ifaddr = [];
  name = codes "eth0";
  qdisc = codes "pfifo";
  haddr = 0 ∷ 18 ∷ 171 ∷ 4 ∷ 255 ∷ 6 ∷ [];
  index = 2;
  flags = 65;
  hw_type = 1;
  txqueuelen = 100;
  mtu = 1500;
  weight = 0;
  stats = record zero_stats { rx_bytes = 2 ^ 64 - 3 };
  old_stats = zero_stats;
}

test_haddr : print_haddr eth0.haddr ≡ codes "0012.ab04.ff06"
unfolding print_haddr haddr_from hex_digit
test_haddr = refl

print_haddr_fits_example : (length (print_haddr eth0.haddr) < haddr_size) ↔ (length eth0.haddr ≤ 8)
print_haddr_fits_example = print_haddr_fits eth0.haddr

abbrev later : Iface
later = record eth0 { stats = record zero_stats { rx_bytes = 7 } }

found : if_lookup_by_index 2 (eth0 ∷ []) ≡ some eth0
unfolding if_lookup_by_index
found = refl

since_clear-if_clear_counters_example :
    Option.map (since_clear (λ s. s.rx_bytes)) (
      if_lookup_by_index 2
        (if_update_interface later (if_clear_counters (if_update_interface eth0 (eth0 ∷ [])))))
    ≡ some 10
since_clear-if_clear_counters_example =
    since_clear-if_clear_counters (λ s. s.rx_bytes) 10 eth0 later eth0 (eth0 ∷ []) found refl
      (ground arith) (ground arith) (ground arith)

if_show_interface_iff_example :
    ((if_show_interface (later ∷ []) true (some (codes "eth1")) (eth0 ∷ [])).2 ≡ false) ↔ (
      (true ≡ false)
        × ((if_show_interface (later ∷ []) true (some (codes "eth1")) (eth0 ∷ [])).1 ≡ [])
      ⊎ ((name : Bytes) × (true ≡ true)
          × (some (codes "eth1") ≡ some name)
          × Unknown name (if_refresh (later ∷ []) (eth0 ∷ []))
          × ((if_show_interface (later ∷ []) true (some (codes "eth1")) (eth0 ∷ [])).1
              ≡ record { format = codes "Invalid Interface\r\n"; args = [] } ∷ [])))
if_show_interface_iff_example =
    if_show_interface_iff (later ∷ []) true (some (codes "eth1")) (eth0 ∷ [])
