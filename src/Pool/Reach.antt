-- ===== src/Pool/Reach.antt =====
-- The states of the pool of sessions of vty.c, from the start of the server.
use mathlib.Core.Path.{subst}
use opencli.Base.{
  ℕ, ◌+◌, ◌≡◌, ◌≢◌, refl, sym, ap, ◌∙◌, Bool, true, false, some, List, [], ◌∷◌, ◌++◌, inl, inr,
  arith, All, length, length-append,
}
use opencli.Links.{Store, list_add}
use opencli.Links.Ring.{Ring, Chain, Distinct, Fresh}
use opencli.Pool.{Pool, idl_vtys, act_vtys, new_vty, vty_close, alloc_vtys}
use opencli.Pool.Invariant.{
  Sessions, Taken, give_back-Sessions, new_vty-Sessions, new_vty-refuses, vty_close-Sessions,
}

-- What happens to the pool: a connection comes, or the thread of a session ends.
pub data Step : Pool → Pool → Type 0 where
  connects : (p : Pool) (created : Bool) (nfd : ℕ) → Step p (new_vty created nfd p).0
  ends :
      (p p' : Pool) (v : ℕ) (idle l m : List ℕ)
      → Sessions p idle (l ++ v ∷ m)
      → vty_close v p ≡ some p'
      → Step p p'

pub data Reaches (p : Pool) : Pool → Type 0 where
  starts : Reaches p p
  steps : (q r : Pool) → Reaches p q → Step q r → Reaches p r

-- `n` sessions, some of them active.
pub record Holds (n : ℕ) (p : Pool) : Type 0 where
  pub idle : List ℕ
  pub active : List ℕ
  pub sessions : Sessions p idle active
  pub count : length idle + length active ≡ n

-- A list of nodes is determined by the store.
Chain-unique :
    (s : Store) (a h : ℕ) (l l' : List ℕ)
    → Chain s (a ∷ l ++ h ∷ [])
    → Chain s (a ∷ l' ++ h ∷ [])
    → Fresh h l
    → Fresh h l'
    → l ≡ l'
Chain-unique s a h [] [] c c' f f' = refl
Chain-unique s a h [] (b ∷ l') c c' f f' = absurd (f'.0 (sym c.0 ∙ c'.0))
Chain-unique s a h (b ∷ l) [] c c' f f' = absurd (f.0 (sym c'.0 ∙ c.0))
Chain-unique s a h (b ∷ l) (b' ∷ l') c c' f f' =
    let same : b ≡ b' = sym c.0 ∙ c'.0 in
    let c'' : Chain s (b ∷ l' ++ h ∷ []) =
      subst (λ x. Chain s (x ∷ l' ++ h ∷ [])) (sym same) c'.2 in
    let rest = Chain-unique s b h l l' c.2 c'' f.1 f'.1 in rw (same, rest) refl

Ring-unique : (s : Store) (list : ℕ) (l l' : List ℕ) → Ring s list l → Ring s list l' → l ≡ l'
Ring-unique s list l l' r r' =
    Chain-unique s list list l l' r.chain r'.chain r.distinct.0 r'.distinct.0

new_vty-by_idle :
    (n nfd : ℕ) (p : Pool) (created : Bool) (idle active : List ℕ)
    → Sessions p idle active
    → length idle + length active ≡ n
    → Holds n (new_vty created nfd p).0
new_vty-by_idle n nfd p created [] active s e = record {
  idle = [];
  active = active;
  sessions = (new_vty-refuses p created nfd [] active s (inl refl)).1;
  count = e;
}
new_vty-by_idle n nfd p false (v ∷ idle) active s e = record {
  idle = v ∷ idle;
  active = active;
  sessions = (new_vty-refuses p false nfd (v ∷ idle) active s (inr refl)).1;
  count = e;
}
new_vty-by_idle n nfd p true (v ∷ idle) active s e = record {
  idle = idle;
  active = v ∷ active;
  sessions = (new_vty-Sessions p v nfd idle active s).1;
  count = omega arith;
}

ends-Holds :
    (n : ℕ) (p p' : Pool) (v : ℕ) (idle l m : List ℕ)
    → Holds n p
    → Sessions p idle (l ++ v ∷ m)
    → vty_close v p ≡ some p'
    → Holds n p'
ends-Holds n p p' v idle l m h s e =
    let (q, eq, closed) = vty_close-Sessions p v idle l m s in
    let same_idle = Ring-unique p.links idl_vtys h.idle idle h.sessions.idle_ring s.idle_ring in
    let same_active =
      Ring-unique p.links act_vtys h.active (l ++ v ∷ m) h.sessions.active_ring s.active_ring in
    let same : q ≡ p' = cc in
    let size_idle : length h.idle ≡ length idle = ap length same_idle in
    let size_active : length h.active ≡ length (l ++ v ∷ m) = ap length same_active in
    record {
      idle = idle ++ v ∷ [];
      active = l ++ m;
      sessions = rw same at closed;
      count = omega (
        arith,
        h.count,
        size_idle,
        size_active,
        length-append idle (v ∷ []),
        length-append l (v ∷ m),
        length-append l m,
      );
    }

-- Whatever connections come and sessions end, the server has its sessions in two lists that have none
-- in common, `n` together, so that no more than `n` are ever active.
pub Reaches-Holds : (n : ℕ) (p q : Pool) → Holds n p → Reaches p q → Holds n q
Reaches-Holds n p q h starts = h
Reaches-Holds n p q h (steps r q' before (connects _ created nfd)) =
    let k = Reaches-Holds n p r h before in
    new_vty-by_idle n nfd r created k.idle k.active k.sessions k.count
Reaches-Holds n p q h (steps r q' before (ends _ _ v idle l m s e)) =
    ends-Holds n r q v idle l m (Reaches-Holds n p r h before) s e

-- Behind the end of a session the next connection is taken in, when a thread can be made for it.
pub new_vty-vty_close :
    (p : Pool) (v nfd : ℕ) (idle l m : List ℕ)
    → Sessions p idle (l ++ v ∷ m)
    → (p' : Pool) × (vty_close v p ≡ some p') × ((new_vty true nfd p').1 ≡ true)
new_vty-vty_close p v nfd idle l m s =
    let (p', eq, closed) = vty_close-Sessions p v idle l m s in
    (p', eq, accepts p' (idle ++ v ∷ []) closed (some_idle idle))
  where
    some_idle : (idle : List ℕ) → idle ++ v ∷ [] ≢ []
    some_idle [] e = cc
    some_idle (x ∷ xs) e = cc

    accepts :
        (p' : Pool) (idle' : List ℕ)
        → Sessions p' idle' (l ++ m)
        → idle' ≢ []
        → (new_vty true nfd p').1 ≡ true
    accepts p' [] closed h = absurd (h refl)
    accepts p' (x ∷ xs) closed h = (new_vty-Sessions p' x nfd xs (l ++ m) closed).0

Fresh-cons :
    (v : ℕ) (vtys idle : List ℕ)
    → All (λ b. v ≢ b) vtys
    → All (λ w. Fresh w (idl_vtys ∷ act_vtys ∷ idle)) vtys
    → All (λ w. Fresh w (idl_vtys ∷ act_vtys ∷ v ∷ idle)) vtys
Fresh-cons v [] idle d f = tt
Fresh-cons v (w ∷ vtys) idle d f =
    ((f.0.0, (f.0.1.0, ((λ e. d.0 (sym e)), f.0.1.1))), Fresh-cons v vtys idle d.1 f.1)

-- `alloc_vtys` makes as many idle sessions as malloc gives addresses.
pub alloc_vtys-Sessions :
    (p : Pool) (vtys idle : List ℕ)
    → Sessions p idle []
    → Distinct vtys
    → All (λ v. Fresh v (idl_vtys ∷ act_vtys ∷ idle)) vtys
    → All (λ v. 0 ≢ v) vtys
    → (idle' : List ℕ) × Sessions (alloc_vtys vtys p) idle' []
      × (length idle' ≡ length vtys + length idle)
unfolding alloc_vtys
alloc_vtys-Sessions p [] idle s d f nz = (idle, s, omega arith)
alloc_vtys-Sessions p (v ∷ vtys) idle s d f nz =
    let taken : Taken p v idle [] = record {
      rest = s;
      not_idle = (f.0.0, f.0.1.1);
      not_active = (f.0.1.0, tt);
      not_null = nz.0;
    } in
    let (idle', s', size) =
      alloc_vtys-Sessions (record p { links = list_add p.links v idl_vtys }) vtys (v ∷ idle)
        (give_back-Sessions p v idle [] taken) d.1 (Fresh-cons v vtys idle d.0 f.1) nz.1 in
    (idle', s', omega (arith, size))
