-- ===== src/Pool/Invariant.antt =====
-- The two lists of sessions of vty.c, over `new_vty` and `vty_close`.
use opencli.Base.{
  ℕ, ◌≡◌, ◌≢◌, refl, sym, ◌⊎◌, inl, inr, Bool, true, false, none, some, List, [], ◌∷◌, ◌++◌, ◌==◌,
  arith, All, All-append,
}
use opencli.Links.{list_del, list_empty, list_add, move_to_tail}
use opencli.Links.Ring.{Fresh, Ring, last_of}
use opencli.Links.Cut.{first_of, neighbours, list_del-Ring}
use opencli.Links.Move.{
  Apart, target_kept, move_to_tail-Ring, All-last, All-first, All-node, All-cut, others,
}
use opencli.Links.Front.{Apart-sym, list_add-Ring, list_add-elsewhere}
use opencli.Pool.{Pool, idl_vtys, act_vtys, take_vty, enlist, new_vty, vty_close}

-- The sessions without a client and those with one: two lists that have no session in common, and no
-- session is at NULL.
pub record Sessions (p : Pool) (idle active : List ℕ) : Type 0 where
  pub idle_ring : Ring p.links idl_vtys idle
  pub active_ring : Ring p.links act_vtys active
  pub apart : Apart (idl_vtys ∷ idle) (act_vtys ∷ active)
  pub idle_some : All (λ v. 0 ≢ v) idle
  pub active_some : All (λ v. 0 ≢ v) active

-- A session that is in neither list.
pub record Taken (p : Pool) (v : ℕ) (idle active : List ℕ) : Type 0 where
  pub rest : Sessions p idle active
  pub not_idle : Fresh v (idl_vtys ∷ idle)
  pub not_active : Fresh v (act_vtys ∷ active)
  pub not_null : 0 ≢ v

take_vty-Taken :
    (p : Pool) (v nfd : ℕ) (idle active : List ℕ)
    → Sessions p (v ∷ idle) active
    → Taken (take_vty p v nfd) v idle active
unfolding take_vty
take_vty-Taken p v nfd idle active s = record {
  rest = record {
    idle_ring = list_del-Ring p.links v idl_vtys [] idle s.idle_ring;
    active_ring =
        target_kept p.links v idl_vtys act_vtys [] idle active s.idle_ring s.active_ring s.apart;
    apart = (s.apart.0, s.apart.1.1);
    idle_some = s.idle_some.1;
    active_some = s.active_some;
  };
  not_idle = ((λ e. s.idle_ring.distinct.0.0 (sym e)), s.idle_ring.distinct.1.0);
  not_active = s.apart.1.0;
  not_null = s.idle_some.0;
}

enlist-Sessions :
    (p : Pool) (v : ℕ) (idle active : List ℕ)
    → Taken p v idle active
    → Sessions (enlist p v) idle (v ∷ active)
unfolding enlist
enlist-Sessions p v idle active t =
    let s = t.rest in
    record {
      idle_ring =
          list_add-elsewhere p.links v act_vtys idl_vtys active idle s.active_ring s.idle_ring
            s.apart t.not_idle;
      active_ring = list_add-Ring p.links v act_vtys active s.active_ring t.not_active;
      apart =
          (let other = Apart-sym (idl_vtys ∷ idle) (act_vtys ∷ active) s.apart in
            Apart-sym (act_vtys ∷ v ∷ active) (idl_vtys ∷ idle) (other.0, (t.not_idle, other.1)));
      idle_some = s.idle_some;
      active_some = (t.not_null, s.active_some);
    }

pub give_back-Sessions :
    (p : Pool) (v : ℕ) (idle active : List ℕ)
    → Taken p v idle active
    → Sessions (record p { links = list_add p.links v idl_vtys }) (v ∷ idle) active
give_back-Sessions p v idle active t =
    let s = t.rest in
    record {
      idle_ring = list_add-Ring p.links v idl_vtys idle s.idle_ring t.not_idle;
      active_ring =
          list_add-elsewhere p.links v idl_vtys act_vtys idle active s.idle_ring s.active_ring
            (Apart-sym (idl_vtys ∷ idle) (act_vtys ∷ active) s.apart) t.not_active;
      apart = (s.apart.0, (t.not_active, s.apart.1));
      idle_some = (t.not_null, s.idle_some);
      active_some = s.active_some;
    }

-- With a session idle and a thread made, `new_vty` gives the connection to the first idle session,
-- which becomes the first active one, and returns 0.
pub new_vty-Sessions :
    (p : Pool) (v nfd : ℕ) (idle active : List ℕ)
    → Sessions p (v ∷ idle) active
    → ((new_vty true nfd p).1 ≡ true)
      × Sessions (new_vty true nfd p).0 idle (v ∷ active)
      × ((new_vty true nfd p).0.fd v ≡ nfd)
unfolding new_vty list_empty
new_vty-Sessions p v nfd idle active s =
    let first : p.links.next idl_vtys ≡ v = s.idle_ring.chain.0 in
    let some_idle : v == idl_vtys ≡ false = ground (arith, s.idle_ring.distinct.0.0) in
    rw (new_vty, first, some_idle)
      (
        refl,
        enlist-Sessions (take_vty p v nfd) v idle active (take_vty-Taken p v nfd idle active s),
        unfold enlist take_vty in ground arith,
      )

-- When no session is idle, or the thread cannot be made, `new_vty` returns -1, and the same sessions
-- are idle and active as before.
pub new_vty-refuses :
    (p : Pool) (created : Bool) (nfd : ℕ) (idle active : List ℕ)
    → Sessions p idle active
    → (idle ≡ []) ⊎ (created ≡ false)
    → ((new_vty created nfd p).1 ≡ false) × Sessions (new_vty created nfd p).0 idle active
unfolding new_vty list_empty
new_vty-refuses p created nfd [] active s why =
    let none_idle : p.links.next idl_vtys == idl_vtys ≡ true =
      ground (arith, s.idle_ring.chain.0) in
    rw (new_vty, none_idle) (refl, s)
new_vty-refuses p created nfd (v ∷ idle) active s (inl e) = absurd (cc)
new_vty-refuses p created nfd (v ∷ idle) active s (inr e) =
    let first : p.links.next idl_vtys ≡ v = s.idle_ring.chain.0 in
    let some_idle : v == idl_vtys ≡ false = ground (arith, s.idle_ring.distinct.0.0) in
    rw (new_vty, first, some_idle, e)
      (
        refl,
        give_back-Sessions (take_vty p v nfd) v idle active (take_vty-Taken p v nfd idle active s),
      )

flip : (v : ℕ) (l : List ℕ) → All (λ c. c ≢ v) l → Fresh v l
flip v [] h = tt
flip v (b ∷ l) h = ((λ e. h.0 (sym e)), flip v l h.1)

cut_each : (v : ℕ) (l m xs : List ℕ) → Apart xs (l ++ v ∷ m) → Apart xs (l ++ m)
cut_each v l m [] h = tt
cut_each v l m (c ∷ xs) h = (All-cut (λ b. c ≢ b) v l m h.0, cut_each v l m xs h.1)

-- `vty_close` of an active session follows no NULL, and puts the session behind the idle ones.
pub vty_close-Sessions :
    (p : Pool) (v : ℕ) (idle l m : List ℕ)
    → Sessions p idle (l ++ v ∷ m)
    → (p' : Pool) × (vty_close v p ≡ some p') × Sessions p' (idle ++ v ∷ []) (l ++ m)
unfolding vty_close
vty_close-Sessions p v idle l m s =
    let (back, on) = neighbours p.links v act_vtys act_vtys l m s.active_ring.chain in
    let some_act : 0 ≢ act_vtys = ground arith in
    let next_some : 0 ≢ first_of m act_vtys =
      All-first (λ c. 0 ≢ c) v act_vtys l m s.active_some some_act in
    let prev_some : 0 ≢ last_of act_vtys l =
      All-last (λ c. 0 ≢ c) act_vtys v l m (some_act, s.active_some) in
    let next_set : p.links.next v == 0 ≡ false = ground (arith, on, next_some) in
    let prev_set : p.links.prev v == 0 ≡ false = ground (arith, back, prev_some) in
    let (active_ring, idle_ring) =
      move_to_tail-Ring p.links v act_vtys idl_vtys l m idle s.active_ring s.idle_ring
        (Apart-sym (idl_vtys ∷ idle) (act_vtys ∷ l ++ v ∷ m) s.apart) in
    let v_new : Fresh v (act_vtys ∷ l ++ m) =
      flip v (act_vtys ∷ l ++ m) (others v (act_vtys ∷ l) m s.active_ring.distinct) in
    (
      record p { links = move_to_tail p.links v idl_vtys },
      rw (vty_close, next_set, prev_set) refl,
      record {
        idle_ring = idle_ring;
        active_ring = active_ring;
        apart =
            All-append _ (idl_vtys ∷ idle) (v ∷ [])
              (cut_each v (act_vtys ∷ l) m (idl_vtys ∷ idle) s.apart) (v_new, tt);
        idle_some =
            All-append _ idle (v ∷ []) s.idle_some (All-node (λ c. 0 ≢ c) v l m s.active_some, tt);
        active_some = All-cut (λ c. 0 ≢ c) v l m s.active_some;
      },
    )

-- A session whose thread ends before `new_vty` has put it into `act_vtys` is closed by way of NULL.
pub vty_close-undefined : (p : Pool) (v nfd : ℕ) → vty_close v (take_vty p v nfd) ≡ none
unfolding vty_close take_vty list_del
vty_close-undefined p v nfd = ground arith
