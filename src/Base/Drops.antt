-- ===== src/Base/Drops.antt =====
-- Lists read at an index, by what `drop` leaves there.
use Prim.Native.Nat.{ℕ, zero, suc, ◌+◌}
use mathlib.Core.Path.{◌≡◌}
use mathlib.Core.List.{List, [], ◌∷◌, ◌++◌}
use native.Mathlib.Omega.{arith}
use opencli.Base.Lists.{length, get_or, drop}

-- The element at `p`, and what is behind it.
pub get_or-drop :
    (buf : List ℕ) (p c : ℕ) (rest : List ℕ) → drop p buf ≡ c ∷ rest → get_or buf p 0 ≡ c
get_or-drop [] zero c rest h = cc
get_or-drop [] (suc p) c rest h = cc
get_or-drop (x ∷ buf) zero c rest h = cc
get_or-drop (x ∷ buf) (suc p) c rest h = get_or-drop buf p c rest h

pub drop_next :
    (buf : List ℕ) (p c : ℕ) (rest : List ℕ) → drop p buf ≡ c ∷ rest → drop (p + 1) buf ≡ rest
drop_next [] zero c rest h = cc
drop_next [] (suc p) c rest h = cc
drop_next (x ∷ buf) zero c rest h = cc
drop_next (x ∷ buf) (suc p) c rest h =
    let e : suc p + 1 ≡ suc (p + 1) = omega arith in rw e (drop_next buf p c rest h)

pub drop_more :
    (w : List ℕ) (p : ℕ) (buf rest : List ℕ)
    → drop p buf ≡ w ++ rest
    → drop (p + length w) buf ≡ rest
drop_more [] p buf rest h = let e : p + 0 ≡ p = omega arith in rw e h
drop_more (c ∷ w) p buf rest h =
    let e : p + suc (length w) ≡ p + 1 + length w = omega arith in
    rw e (drop_more w (p + 1) buf rest (drop_next buf p c (w ++ rest) h))
