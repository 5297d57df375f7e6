-- ===== src/Links/Rotate.antt =====
-- The rings of lists.h seen from another of their nodes.
use opencli.Base.{ℕ, ◌≡◌, sym, List, [], ◌∷◌, ◌++◌, append_assoc, append-nil, All-append}
use opencli.Links.{Store, list_add_tail}
use opencli.Links.Ring.{Chain, Distinct, Fresh, Ring, list_add_tail-Ring}

Chain-front : (s : Store) (xs ys : List ℕ) (c : ℕ) → Chain s (xs ++ c ∷ ys) → Chain s (xs ++ c ∷ [])
Chain-front s [] ys c h = tt
Chain-front s (a ∷ []) ys c h = (h.0, h.1, tt)
Chain-front s (a ∷ b ∷ xs) ys c h = (h.0, h.1, Chain-front s (b ∷ xs) ys c h.2)

Chain-back : (s : Store) (xs ys : List ℕ) (c : ℕ) → Chain s (xs ++ c ∷ ys) → Chain s (c ∷ ys)
Chain-back s [] ys c h = h
Chain-back s (a ∷ []) ys c h = h.2
Chain-back s (a ∷ b ∷ xs) ys c h = Chain-back s (b ∷ xs) ys c h.2

Chain-glue :
    (s : Store) (xs ys : List ℕ) (c : ℕ)
    → Chain s (xs ++ c ∷ [])
    → Chain s (c ∷ ys)
    → Chain s (xs ++ c ∷ ys)
Chain-glue s [] ys c h k = k
Chain-glue s (a ∷ []) ys c h k = (h.0, h.1, k)
Chain-glue s (a ∷ b ∷ xs) ys c h k = (h.0, h.1, Chain-glue s (b ∷ xs) ys c h.2 k)

Fresh-front : (a : ℕ) (xs ys : List ℕ) → Fresh a (xs ++ ys) → Fresh a xs
Fresh-front a [] ys h = tt
Fresh-front a (x ∷ xs) ys h = (h.0, Fresh-front a xs ys h.1)

Fresh-back : (a : ℕ) (xs ys : List ℕ) → Fresh a (xs ++ ys) → Fresh a ys
Fresh-back a [] ys h = h
Fresh-back a (x ∷ xs) ys h = Fresh-back a xs ys h.1

-- A node put in somewhere else.
Distinct-insert :
    (a : ℕ) (xs ys : List ℕ) → Fresh a (xs ++ ys) → Distinct (xs ++ ys) → Distinct (xs ++ a ∷ ys)
Distinct-insert a [] ys f d = (f, d)
Distinct-insert a (x ∷ xs) ys f d = (
  All-append _ xs (a ∷ ys) (Fresh-front x xs ys d.0) ((λ e. f.0 (sym e)), Fresh-back x xs ys d.0),
  Distinct-insert a xs ys f.1 d.1,
)

pub Distinct-swap : (xs ys : List ℕ) → Distinct (xs ++ ys) → Distinct (ys ++ xs)
Distinct-swap [] ys d = rw (append-nil ys) d
Distinct-swap (x ∷ xs) ys d =
    Distinct-insert x ys xs (All-append _ ys xs (Fresh-back x xs ys d.0) (Fresh-front x xs ys d.0))
      (Distinct-swap xs ys d.1)

-- A ring, from another of its nodes.
pub Ring-rotate :
    (s : Store) (a b : ℕ) (xs ys : List ℕ) → Ring s a (xs ++ b ∷ ys) → Ring s b (ys ++ a ∷ xs)
Ring-rotate s a b xs ys r =
    let there : Chain s ((a ∷ xs) ++ b ∷ (ys ++ a ∷ [])) =
      rw (← append_assoc xs (b ∷ ys) (a ∷ [])) r.chain in
    let back : Chain s ((b ∷ ys) ++ a ∷ (xs ++ b ∷ [])) =
      Chain-glue s (b ∷ ys) (xs ++ b ∷ []) a (Chain-back s (a ∷ xs) (ys ++ a ∷ []) b there)
        (Chain-front s (a ∷ xs) (ys ++ a ∷ []) b there) in
    record {
      chain = rw (append_assoc ys (a ∷ xs) (b ∷ [])) back;
      distinct = Distinct-swap (a ∷ xs) (b ∷ ys) r.distinct;
    }

Fresh-swap : (c : ℕ) (xs ys : List ℕ) → Fresh c (xs ++ ys) → Fresh c (ys ++ xs)
Fresh-swap c xs ys f = All-append _ ys xs (Fresh-back c xs ys f) (Fresh-front c xs ys f)

-- `list_add_tail` in front of a node of a list.
pub list_add_tail-before :
    (s : Store) (node list at : ℕ) (xs ys : List ℕ)
    → Ring s list (xs ++ at ∷ ys)
    → Fresh node (list ∷ xs ++ at ∷ ys)
    → Ring (list_add_tail s node at) list (xs ++ node ∷ at ∷ ys)
list_add_tail-before s node list at xs ys r f =
    let turned : Ring (list_add_tail s node at) at ((ys ++ list ∷ xs) ++ node ∷ []) =
      list_add_tail-Ring s node at (ys ++ list ∷ xs) (Ring-rotate s list at xs ys r)
        (Fresh-swap node (list ∷ xs) (at ∷ ys) f) in
    let e : ys ++ list ∷ xs ++ node ∷ [] ≡ ys ++ list ∷ (xs ++ node ∷ []) =
      append_assoc ys (list ∷ xs) (node ∷ []) in
    let back : Ring (list_add_tail s node at) list ((xs ++ node ∷ []) ++ at ∷ ys) =
      Ring-rotate (list_add_tail s node at) at list ys (xs ++ node ∷ []) (rw e at turned) in
    rw (append_assoc xs (node ∷ []) (at ∷ ys)) at back
