-- ===== src/Links/Ring.antt =====
-- The rings of lists.h as lists of nodes, and `list_add_tail` on them.
use opencli.Base.{ℕ, ◌≡◌, ◌≢◌, sym, List, [], ◌∷◌, ◌++◌, arith, All}
use opencli.Links.{Store, list_add_between, list_add_tail}

-- Each node points to the one behind it, and that one back.
abbrev pub Chain : Store → List ℕ → Type 0
Chain s [] = Unit
Chain s (a ∷ []) = Unit
Chain s (a ∷ b ∷ l) = (s.next a ≡ b) × (s.prev b ≡ a) × Chain s (b ∷ l)

abbrev pub Distinct : List ℕ → Type 0
Distinct [] = Unit
Distinct (a ∷ l) = All (λ b. a ≢ b) l × Distinct l

-- `node` is none of the nodes.
abbrev pub Fresh : ℕ → List ℕ → Type 0
Fresh node = All (λ b. node ≢ b)

-- The list at the address `list` has the nodes `l`, in this order.
pub record Ring (s : Store) (list : ℕ) (l : List ℕ) : Type 0 where
  pub chain : Chain s (list ∷ l ++ list ∷ [])
  pub distinct : Distinct (list ∷ l)

abbrev pub last_of : ℕ → List ℕ → ℕ
last_of a [] = a
last_of a (b ∷ l) = last_of b l

last_of-Fresh : (c b : ℕ) (l : List ℕ) → Fresh c (b ∷ l) → c ≢ last_of b l
last_of-Fresh c b [] h = h.0
last_of-Fresh c b (d ∷ l) h = last_of-Fresh c d l h.1

pub prev-last_of :
    (s : Store) (a q : ℕ) (l : List ℕ) → Chain s (a ∷ l ++ q ∷ []) → s.prev q ≡ last_of a l
prev-last_of s a q [] h = h.1
prev-last_of s a q (b ∷ l) h = prev-last_of s b q l h.2

-- A node put in at the end of a chain, in front of `q`.
grown-Chain :
    (s : Store) (node p q a : ℕ) (l : List ℕ)
    → Chain s (a ∷ l ++ q ∷ [])
    → Distinct (a ∷ l)
    → Fresh node (a ∷ l)
    → Fresh q l
    → node ≢ q
    → p ≡ last_of a l
    → Chain (list_add_between s node p q) (a ∷ (l ++ node ∷ []) ++ q ∷ [])
unfolding list_add_between
grown-Chain s node p q a [] h d f g ne e =
    (ground (arith, f.0), ground arith, (ground (arith, f.0), ground arith, tt))
grown-Chain s node p q a (b ∷ l) h d f g ne e =
    let behind : a ≢ last_of b l = last_of-Fresh a b l d.0 in
    (
      ground (arith, h.0, f.0),
      ground (arith, h.1, f.1.0, g.0),
      grown-Chain s node p q b l h.2 d.1 f.1 g.1 ne e,
    )

Fresh-snoc : (c node : ℕ) (l : List ℕ) → Fresh c l → c ≢ node → Fresh c (l ++ node ∷ [])
Fresh-snoc c node [] h ne = (ne, tt)
Fresh-snoc c node (a ∷ l) h ne = (h.0, Fresh-snoc c node l h.1 ne)

append-Distinct : (node : ℕ) (l : List ℕ) → Distinct l → Fresh node l → Distinct (l ++ node ∷ [])
append-Distinct node [] d f = (tt, tt)
append-Distinct node (a ∷ l) d f =
    (Fresh-snoc a node l d.0 (λ e. f.0 (sym e)), append-Distinct node l d.1 f.1)

-- `list_add_tail` puts a new node behind the nodes of a list.
pub list_add_tail-Ring :
    (s : Store) (node list : ℕ) (l : List ℕ)
    → Ring s list l
    → Fresh node (list ∷ l)
    → Ring (list_add_tail s node list) list (l ++ node ∷ [])
unfolding list_add_tail
list_add_tail-Ring s node list l r f = record {
  chain =
      grown-Chain s node (s.prev list) list list l r.chain r.distinct f r.distinct.0 f.0
        (prev-last_of s list list l r.chain);
  distinct = append-Distinct node (list ∷ l) r.distinct f;
}
