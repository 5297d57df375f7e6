-- ===== src/Links/Cut.antt =====
-- `list_del` of lists.h, on the rings of a store.
use opencli.Base.{ℕ, ◌≡◌, ◌≢◌, sym, ◌∙◌, List, [], ◌∷◌, ◌++◌, arith}
use opencli.Links.{Store, put, list_del}
use opencli.Links.Ring.{Chain, Distinct, Fresh, Ring, last_of}

abbrev pub first_of : List ℕ → ℕ → ℕ
first_of [] h = h
first_of (a ∷ l) h = a

-- The store behind `list_del`, with the neighbours `p` and `q` of `node` named.
abbrev pub joined : Store → (node p q : ℕ) → Store
joined s node p q = record {
  next = put (put s.next p q) node 0;
  prev = put (put s.prev q p) node 0;
}

Fresh-node : (c node : ℕ) (l m : List ℕ) → Fresh c (l ++ node ∷ m) → c ≢ node
Fresh-node c node [] m h = h.0
Fresh-node c node (a ∷ l) m h = Fresh-node c node l m h.1

Fresh-first : (c node h : ℕ) (l m : List ℕ) → Fresh c (l ++ node ∷ m) → c ≢ h → c ≢ first_of m h
Fresh-first c node h [] [] f ne = ne
Fresh-first c node h [] (b ∷ m) f ne = f.1.0
Fresh-first c node h (a ∷ l) m f ne = Fresh-first c node h l m f.1 ne

Fresh-last : (c node b : ℕ) (l m : List ℕ) → Fresh c (b ∷ l ++ node ∷ m) → c ≢ last_of b l
Fresh-last c node b [] m f = f.0
Fresh-last c node b (d ∷ l) m f = Fresh-last c node d l m f.1

pub Fresh-same : (c d : ℕ) (l : List ℕ) → c ≡ d → Fresh d l → Fresh c l
Fresh-same c d [] e f = tt
Fresh-same c d (a ∷ l) e f = (λ e'. f.0 (sym e ∙ e'), Fresh-same c d l e f.1)

-- A chain away from the place is as it was.
pub kept-Chain :
    (s : Store) (node p q a h : ℕ) (l : List ℕ)
    → Chain s (a ∷ l ++ h ∷ [])
    → Fresh node (a ∷ l)
    → Fresh p (a ∷ l)
    → Fresh q l
    → node ≢ h
    → q ≢ h
    → Chain (joined s node p q) (a ∷ l ++ h ∷ [])
kept-Chain s node p q a h [] c fn fp fq nh qh =
    (ground (arith, c.0, fn.0, fp.0), ground (arith, c.1), tt)
kept-Chain s node p q a h (b ∷ l) c fn fp fq nh qh = (
  ground (arith, c.0, fn.0, fp.0),
  ground (arith, c.1, fn.1.0, fq.0),
  kept-Chain s node p q b h l c.2 fn.1 fp.1 fq.1 nh qh,
)

cut-Chain :
    (s : Store) (node p q a h : ℕ) (l m : List ℕ)
    → Chain s (a ∷ (l ++ node ∷ m) ++ h ∷ [])
    → Distinct (a ∷ l ++ node ∷ m)
    → Fresh h (l ++ node ∷ m)
    → p ≡ last_of a l
    → q ≡ first_of m h
    → Chain (joined s node p q) (a ∷ (l ++ m) ++ h ∷ [])
cut-Chain s node p q a h [] [] c d f ep eq = (ground (arith, d.0.0), ground (arith, f.0), tt)
cut-Chain s node p q a h [] (b ∷ m) c d f ep eq = (
  ground (arith, d.0.0),
  ground (arith, d.1.0.0),
  kept-Chain s node p q b h m c.2.2 d.1.0 (Fresh-same p a (b ∷ m) ep d.0.1)
      (Fresh-same q b m eq d.1.1.0) (λ e. f.0 (sym e)) (λ e. f.1.0 (sym e ∙ eq)),
)
cut-Chain s node p q a h (b ∷ l) m c d f ep eq =
    let not_p : a ≢ last_of b l = Fresh-last a node b l m d.0 in
    let not_node : a ≢ node = Fresh-node a node (b ∷ l) m d.0 in
    let not_q : b ≢ first_of m h = Fresh-first b node h l m d.1.0 (λ e. f.0 (sym e)) in
    let b_node : b ≢ node = Fresh-node b node l m d.1.0 in
    (ground (arith, c.0), ground (arith, c.1), cut-Chain s node p q b h l m c.2 d.1 f.1 ep eq)

-- What `node` points to in a chain.
pub neighbours :
    (s : Store) (node a h : ℕ) (l m : List ℕ)
    → Chain s (a ∷ (l ++ node ∷ m) ++ h ∷ [])
    → (s.prev node ≡ last_of a l) × (s.next node ≡ first_of m h)
neighbours s node a h [] [] c = (c.1, c.2.0)
neighbours s node a h [] (b ∷ m) c = (c.1, c.2.0)
neighbours s node a h (b ∷ l) m c = neighbours s node b h l m c.2

cut-Fresh : (c node : ℕ) (l m : List ℕ) → Fresh c (l ++ node ∷ m) → Fresh c (l ++ m)
cut-Fresh c node [] m f = f.1
cut-Fresh c node (a ∷ l) m f = (f.0, cut-Fresh c node l m f.1)

cut-Distinct : (node : ℕ) (l m : List ℕ) → Distinct (l ++ node ∷ m) → Distinct (l ++ m)
cut-Distinct node [] m d = d.1
cut-Distinct node (a ∷ l) m d = (cut-Fresh a node l m d.0, cut-Distinct node l m d.1)

-- `list_del` takes a node out of a list, and leaves the others in their order.
pub list_del-Ring :
    (s : Store) (node list : ℕ) (l m : List ℕ)
    → Ring s list (l ++ node ∷ m)
    → Ring (list_del s node) list (l ++ m)
unfolding list_del
list_del-Ring s node list l m r =
    let (back, on) = neighbours s node list list l m r.chain in
    record {
      chain =
          cut-Chain s node (s.prev node) (s.next node) list list l m r.chain r.distinct r.distinct.0
            back on;
      distinct = cut-Distinct node (list ∷ l) m r.distinct;
    }
