-- ===== src/Pool.antt =====
-- vty.c, the sessions of the server: `idl_vtys` and `act_vtys`, with `alloc_vtys`, `new_vty` and
-- `vty_close`. A session is its address, which stands for that of its `conn_list`. `pthread_create` is
-- a Boolean, whether it made a thread.
pub mod Invariant
pub mod Reach
pub mod Accept
mod Tests
use opencli.Base.{
  ℕ, zero, suc, Bool, true, false, Option, none, some, List, [], ◌∷◌, ◌==◌, ◌||◌, if◌then◌else◌,
}
use opencli.Links.{Store, list_del, list_empty, list_add, move_to_tail}

-- The addresses of the two heads.
abbrev pub idl_vtys : ℕ
idl_vtys = 1

abbrev pub act_vtys : ℕ
act_vtys = 2

abbrev pub max_clients : ℕ
max_clients = 10

-- The lists, and of each session the descriptor of its connection.
pub record Pool : Type 0 where
  pub links : Store
  pub fd : ℕ → ℕ

-- The first part of `new_vty`: the session is taken out of `idl_vtys`, and made anew. `M_ZERO` also
-- clears the members of `conn_list`, which `list_del` has made NULL.
unfoldable pub take_vty : Pool → ℕ → ℕ → Pool
take_vty p vty nfd = record {
  links = list_del p.links vty;
  fd = λ k. if k == vty then nfd else p.fd k;
}

-- The last line of `new_vty`.
unfoldable pub enlist : Pool → ℕ → Pool
enlist p vty = record p { links = list_add p.links vty act_vtys }

-- `new_vty`, where the thread that it starts does not end before it returns: the state, and whether it
-- returned 0, not -1.
unfoldable pub new_vty : Bool → ℕ → Pool → Pool × Bool
new_vty created nfd p =
    let vty = p.links.next idl_vtys in
    let taken = take_vty p vty nfd in
    if list_empty p.links idl_vtys
    then (p, false)
    else if created
    then (enlist taken vty, true)
    else (record taken { links = list_add taken.links vty idl_vtys }, false)

-- `vty_close`. `none` is undefined: a pointer of `conn_list` is NULL.
unfoldable pub vty_close : ℕ → Pool → Option Pool
vty_close vty p =
    if (p.links.next vty == 0) || (p.links.prev vty == 0)
    then none
    else some (record p { links = move_to_tail p.links vty idl_vtys })

-- `alloc_vtys`, where malloc gives the addresses `vtys`.
unfoldable pub alloc_vtys : List ℕ → Pool → Pool
alloc_vtys [] p = p
alloc_vtys (n ∷ vtys) p = alloc_vtys vtys (record p { links = list_add p.links n idl_vtys })
