-- ===== src/Links/Move.antt =====
-- `move_to_tail` and `list_empty` of lists.h, on the rings of a store.
use opencli.Base.{ℕ, ◌≡◌, ◌≢◌, ◌↔◌, refl, sym, ◌∙◌, true, List, [], ◌∷◌, ◌++◌, arith, All}
use opencli.Links.{Store, list_del, list_empty, list_add_between, list_add_tail, move_to_tail}
use opencli.Links.Ring.{Chain, Distinct, Fresh, Ring, last_of, prev-last_of, list_add_tail-Ring}
use opencli.Links.Cut.{first_of, Fresh-same, neighbours, kept-Chain, list_del-Ring}

-- No node of `l` is one of `m`.
abbrev pub Apart : List ℕ → List ℕ → Type 0
Apart l m = All (λ c. Fresh c m) l

module _ (P : ℕ → Type 0) where
  pub All-last : (a node : ℕ) (l m : List ℕ) → All P (a ∷ l ++ node ∷ m) → P (last_of a l)
  All-last a node [] m h = h.0
  All-last a node (b ∷ l) m h = All-last b node l m h.1

  pub All-node : (node : ℕ) (l m : List ℕ) → All P (l ++ node ∷ m) → P node
  All-node node [] m h = h.0
  All-node node (a ∷ l) m h = All-node node l m h.1

  pub All-first : (node h : ℕ) (l m : List ℕ) → All P (l ++ node ∷ m) → P h → P (first_of m h)
  All-first node h [] [] f p = p
  All-first node h [] (b ∷ m) f p = f.1.0
  All-first node h (a ∷ l) m f p = All-first node h l m f.1 p

  pub All-cut : (node : ℕ) (l m : List ℕ) → All P (l ++ node ∷ m) → All P (l ++ m)
  All-cut node [] m f = f.1
  All-cut node (a ∷ l) m f = (f.0, All-cut node l m f.1)

pub Fresh-flip : (node : ℕ) (l : List ℕ) → Fresh node l → All (λ c. c ≢ node) l
Fresh-flip node [] f = tt
Fresh-flip node (a ∷ l) f = (λ e. f.0 (sym e), Fresh-flip node l f.1)

pub others : (node : ℕ) (l m : List ℕ) → Distinct (l ++ node ∷ m) → All (λ c. c ≢ node) (l ++ m)
others node [] m d = Fresh-flip node m d.0
others node (a ∷ l) m d = (All-node (λ c. a ≢ c) node l m d.0, others node l m d.1)

last-Fresh : (c a : ℕ) (l : List ℕ) → Fresh c (a ∷ l) → c ≢ last_of a l
last-Fresh c a [] f = f.0
last-Fresh c a (b ∷ l) f = last-Fresh c b l f.1

-- Adding a node elsewhere leaves a chain as it is.
pub elsewhere-Chain :
    (s : Store) (node p q a h : ℕ) (l : List ℕ)
    → Chain s (a ∷ l ++ h ∷ [])
    → All (λ c. c ≢ node) (a ∷ l)
    → All (λ c. (c ≢ p) × (c ≢ q)) (a ∷ l)
    → h ≢ node
    → h ≢ q
    → Chain (list_add_between s node p q) (a ∷ l ++ h ∷ [])
unfolding list_add_between
elsewhere-Chain s node p q a h [] c fn f hn hq =
    (ground (arith, c.0, fn.0, f.0), ground (arith, c.1), tt)
elsewhere-Chain s node p q a h (b ∷ l) c fn f hn hq = (
  ground (arith, c.0, fn.0, f.0),
  ground (arith, c.1, fn.1.0, f.1.0),
  elsewhere-Chain s node p q b h l c.2 fn.1 f.1 hn hq,
)

away :
    (list p : ℕ) (z l : List ℕ)
    → p ≡ last_of list z
    → Apart l (list ∷ z)
    → All (λ c. (c ≢ p) × (c ≢ list)) l
away list p z [] e f = tt
away list p z (a ∷ l) e f = ((λ q. last-Fresh a list z f.0 (q ∙ e), f.0.0), away list p z l e f.1)

module _ (s : Store) (node list list' : ℕ) (l m l' : List ℕ) (r : Ring s list (l ++ node ∷ m))
    (r' : Ring s list' l') (apart : Apart (list ∷ l ++ node ∷ m) (list' ∷ l')) where
  pub node-Fresh : Fresh node (list' ∷ l')
  node-Fresh = All-node (λ c. Fresh c (list' ∷ l')) node l m apart.1

  pub target_kept : Ring (list_del s node) list' l'
  unfolding list_del
  target_kept =
      let P : ℕ → Type 0 = λ c. Fresh c (list' ∷ l') in
      let (back, on) = neighbours s node list list l m r.chain in
      let p_fresh : Fresh (s.prev node) (list' ∷ l') =
        Fresh-same _ _ (list' ∷ l') back (All-last P list node l m apart) in
      let q_fresh : Fresh (s.next node) (list' ∷ l') =
        Fresh-same _ _ (list' ∷ l') on (All-first P node list l m apart.1 apart.0) in
      record {
        chain =
            kept-Chain s node (s.prev node) (s.next node) list' list' l' r'.chain node-Fresh p_fresh
              q_fresh.1 node-Fresh.0 q_fresh.0;
        distinct = r'.distinct;
      }

  -- `move_to_tail` takes a node out of one list and puts it behind the nodes of another one that has
  -- no node in common with the first: both are lists again, all other nodes in their order.
  pub move_to_tail-Ring :
      Ring (move_to_tail s node list') list (l ++ m)
      × Ring (move_to_tail s node list') list' (l' ++ node ∷ [])
  unfolding move_to_tail list_add_tail
  move_to_tail-Ring =
      let s' : Store = list_del s node in
      let cut : Ring s' list (l ++ m) = list_del-Ring s node list l m r in
      let tail : s'.prev list' ≡ last_of list' l' =
        prev-last_of s' list' list' l' target_kept.chain in
      let free : All (λ c. (c ≢ s'.prev list') × (c ≢ list')) (list ∷ l ++ m) =
        away list' (s'.prev list') l' (list ∷ l ++ m) tail
          (apart.0, All-cut (λ c. Fresh c (list' ∷ l')) node l m apart.1) in
      let not_node = others node (list ∷ l) m r.distinct in
      (
        record {
          chain =
              elsewhere-Chain s' node (s'.prev list') list' list list (l ++ m) cut.chain not_node
                free not_node.0 apart.0.0;
          distinct = cut.distinct;
        },
        unfold list_add_tail in list_add_tail-Ring s' node list' l' target_kept node-Fresh,
      )

-- `list_empty` tells whether a list has nodes.
pub list_empty-Ring :
    (s : Store) (list : ℕ) (l : List ℕ) → Ring s list l → (list_empty s list ≡ true) ↔ (l ≡ [])
unfolding list_empty
list_empty-Ring s list [] r = (λ e. refl, λ e. ground (arith, r.chain.0))
list_empty-Ring s list (a ∷ l) r =
    (λ e. absurd (ground (arith, r.chain.0, r.distinct.0.0)), λ e. absurd (ground arith))
