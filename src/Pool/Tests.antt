-- ===== src/Pool/Tests.antt =====
-- Two sessions for the pool of vty.c: that at 5 is idle, that at 6 is active.
use opencli.Base.{◌≡◌, refl, true, some, [], ◌∷◌, arith}
use opencli.Links.{put}
use opencli.Pool.{Pool, new_vty, vty_close}
use opencli.Pool.Invariant.{Sessions}
use opencli.Base.{ℕ, ◌+◌, ◌-◌, List, drop, length, map}
use opencli.Pool.{max_clients}
use opencli.Pool.Accept.{served, vty_thread, vty_thread-Sessions}
use opencli.Pool.Reach.{connects, starts, steps, Holds, Reaches-Holds, new_vty-vty_close}

abbrev pool : Pool
pool = record {
  links = record {
    next = put (put (put (put (λ k. 0) 1 5) 5 1) 2 6) 6 2;
    prev = put (put (put (put (λ k. 0) 1 5) 5 1) 2 6) 6 2;
  };
  fd = λ k. 0;
}

pool-Sessions : Sessions pool (5 ∷ []) (6 ∷ [])
pool-Sessions = record {
  idle_ring = record { chain = (refl, refl, (refl, refl, tt)); distinct = ground arith };
  active_ring = record { chain = (refl, refl, (refl, refl, tt)); distinct = ground arith };
  apart = ground arith;
  idle_some = ground arith;
  active_some = ground arith;
}

new_vty-vty_close_example :
    (p' : Pool) × (vty_close 6 pool ≡ some p') × ((new_vty true 9 p').1 ≡ true)
new_vty-vty_close_example = new_vty-vty_close pool 6 9 (5 ∷ []) [] [] pool-Sessions

pool-Holds : Holds 2 pool
pool-Holds = record { idle = 5 ∷ []; active = 6 ∷ []; sessions = pool-Sessions; count = refl }

Reaches-Holds_example : Holds 2 (new_vty true 9 pool).0
Reaches-Holds_example =
    Reaches-Holds 2 pool (new_vty true 9 pool).0 pool-Holds
      (steps pool _ starts (connects pool true 9))

-- The heads alone.
abbrev heads : Pool
heads = record {
  links = record { next = put (put (λ k. 0) 1 1) 2 2; prev = put (put (λ k. 0) 1 1) 2 2 };
  fd = λ k. 0;
}

heads-Sessions : Sessions heads [] []
heads-Sessions = record {
  idle_ring = record { chain = (refl, refl, tt); distinct = ground arith };
  active_ring = record { chain = (refl, refl, tt); distinct = ground arith };
  apart = ground arith;
  idle_some = tt;
  active_some = tt;
}

-- What malloc gives, and the descriptors of eleven connections.
abbrev addresses : List ℕ
addresses = 11 ∷ 12 ∷ 13 ∷ 14 ∷ 15 ∷ 16 ∷ 17 ∷ 18 ∷ 19 ∷ 20 ∷ []

abbrev descriptors : List ℕ
descriptors = 4 ∷ 5 ∷ 6 ∷ 7 ∷ 8 ∷ 9 ∷ 10 ∷ 11 ∷ 12 ∷ 13 ∷ 14 ∷ []

vty_thread-Sessions_example :
    (idle active : List ℕ) × Sessions
      (vty_thread addresses (map served descriptors) heads).0
      idle
      active
    × ((vty_thread addresses (map served descriptors) heads).1 ≡ drop max_clients descriptors)
    × (length idle ≡ max_clients - length descriptors)
    × (length idle + length active ≡ max_clients)
vty_thread-Sessions_example =
    vty_thread-Sessions heads addresses descriptors heads-Sessions (ground arith) (ground arith)
      (ground arith) refl
