-- ===== src/Pool/Accept.antt =====
-- vty.c: the loop of `vty_acceptor`, which is that of `vty_thread` too, over the connections that come.
use opencli.Base.{
  ℕ, zero, suc, ◌+◌, ◌-◌, ◌≢◌, ◌≡◌, refl, sym, ◌∙◌, ap, inl, Bool, true, List, [], ◌∷◌, arith, drop,
  length, map, if◌then◌else◌, All,
}
use opencli.Pool.{Pool, max_clients, idl_vtys, act_vtys, new_vty, alloc_vtys}
use opencli.Pool.Invariant.{Sessions, new_vty-Sessions, new_vty-refuses}
use opencli.Pool.Reach.{alloc_vtys-Sessions}
use opencli.Links.Ring.{Fresh, Distinct}

-- `vty_acceptor`: the sessions behind, and the descriptors that it closed. A connection is its
-- descriptor, and whether `pthread_create` can make a thread for it; behind the last one `sk_accept`
-- returns -1.
unfoldable pub vty_acceptor : List (ℕ × Bool) → Pool → Pool × List ℕ
vty_acceptor [] p = (p, [])
vty_acceptor ((nfd, created) ∷ more) p =
    let r = new_vty created nfd p in
    let rest = vty_acceptor more r.0 in if r.1 then rest else (rest.0, nfd ∷ rest.1)

-- `vty_thread`, where malloc gives the addresses `vtys` and the sockets are set up.
unfoldable pub vty_thread : List ℕ → List (ℕ × Bool) → Pool → Pool × List ℕ
vty_thread vtys connections p = vty_acceptor connections (alloc_vtys vtys p)

-- A connection for which there is a thread.
abbrev pub served : ℕ → ℕ × Bool
served nfd = (nfd, true)

drop_none : (n : ℕ) → drop {A = ℕ} n [] ≡ []
drop_none zero = refl
drop_none (suc n) = refl

-- With a thread for each, the connections are taken in as long as there are idle sessions, in their
-- order, and all others are closed.
pub vty_acceptor-Sessions :
    (fds : List ℕ) (p : Pool) (idle active : List ℕ)
    → Sessions p idle active
    → (idle' active' : List ℕ) × Sessions (vty_acceptor (map served fds) p).0 idle' active'
      × ((vty_acceptor (map served fds) p).1 ≡ drop (length idle) fds)
      × (length idle' ≡ length idle - length fds)
      × (length idle' + length active' ≡ length idle + length active)
unfolding vty_acceptor
vty_acceptor-Sessions [] p idle active s =
    (idle, active, s, sym (drop_none (length idle)), omega arith, refl)
vty_acceptor-Sessions (nfd ∷ fds) p [] active s =
    let (refused, s1) = new_vty-refuses p true nfd [] active s (inl refl) in
    let (idle', active', s2, closed, left, all) =
      vty_acceptor-Sessions fds (new_vty true nfd p).0 [] active s1 in
    (idle', active', rw refused s2, rw refused (ap (λ l. nfd ∷ l) closed), omega (arith, left), all)
vty_acceptor-Sessions (nfd ∷ fds) p (v ∷ idle) active s =
    let (accepted, s1, fd) = new_vty-Sessions p v nfd idle active s in
    let (idle', active', s2, closed, left, all) =
      vty_acceptor-Sessions fds (new_vty true nfd p).0 idle (v ∷ active) s1 in
    (idle', active', rw accepted s2, rw accepted closed, omega (arith, left), omega (arith, all))

-- With a thread for each connection, the server takes in the first `MAX_CLIENTS` of those that come
-- before a session ends, and closes all others.
pub vty_thread-Sessions :
    (p : Pool) (vtys fds : List ℕ)
    → Sessions p [] []
    → Distinct vtys
    → All (λ v. Fresh v (idl_vtys ∷ act_vtys ∷ [])) vtys
    → All (λ v. 0 ≢ v) vtys
    → length vtys ≡ max_clients
    → (idle active : List ℕ) × Sessions (vty_thread vtys (map served fds) p).0 idle active
      × ((vty_thread vtys (map served fds) p).1 ≡ drop max_clients fds)
      × (length idle ≡ max_clients - length fds)
      × (length idle + length active ≡ max_clients)
unfolding vty_thread
vty_thread-Sessions p vtys fds none_yet distinct fresh some_vtys enough =
    let (all, s, size) = alloc_vtys-Sessions p vtys [] none_yet distinct fresh some_vtys in
    let ten : length all ≡ max_clients = omega (arith, size, enough) in
    let (idle, active, s', closed, left, sum) =
      vty_acceptor-Sessions fds (alloc_vtys vtys p) all [] s in
    (
      idle,
      active,
      s',
      closed ∙ ap (λ n. drop n fds) ten,
      omega (arith, left, ten),
      omega (arith, sum, ten),
    )
