-- ===== src/Interface/Address.antt =====
-- `print_haddr` of interface.c, and the array it writes to.
use opencli.Base.{ℕ, suc, ◌+◌, ◌-◌, ◌*◌, ◌/◌, ◌<◌, ◌≤◌, ◌≡◌, ◌↔◌, [], ◌∷◌, arith, Bytes, length}
use opencli.Interface.Print.{haddr_from, print_haddr, haddr_size}

-- There is a dot behind each odd index but the last one.
length-haddr_from :
    (i n c : ℕ) (addr : Bytes)
    → n ≡ i + suc (length addr)
    → length (haddr_from i n (c ∷ addr)) + i / 2 ≡ 2 * suc (length addr) + (n - 1) / 2
unfolding haddr_from
length-haddr_from i n c [] h = ground arith
length-haddr_from i n c (d ∷ addr) h =
    ground (arith, length-haddr_from (i + 1) n d addr (omega arith))

-- The text of a hardware address fits into the array that `if_print_stats` gives it, with its NUL,
-- exactly when the address has at most eight bytes.
pub print_haddr_fits : (addr : Bytes) → (length (print_haddr addr) < haddr_size) ↔ (length addr ≤ 8)
unfolding print_haddr
print_haddr_fits [] = unfold haddr_from in ground arith
print_haddr_fits (c ∷ addr) =
    ground (arith, length-haddr_from 0 (suc (length addr)) c addr (omega arith))
