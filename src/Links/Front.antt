-- ===== src/Links/Front.antt =====
-- `list_add` of lists.h, on the rings of a store.
use opencli.Base.{ℕ, ◌≡◌, ◌≢◌, sym, ap, ◌∙◌, List, [], ◌∷◌, All}
use opencli.Links.{Store, list_add_between, list_add_tail, list_add}
use opencli.Links.Ring.{Fresh, Ring, list_add_tail-Ring}
use opencli.Links.Rotate.{list_add_tail-before}
use opencli.Links.Cut.{first_of}
use opencli.Links.Move.{Apart, elsewhere-Chain, Fresh-flip}

Apart-nil : (l : List ℕ) → Apart l []
Apart-nil [] = tt
Apart-nil (a ∷ l) = (tt, Apart-nil l)

Apart-cons : (a : ℕ) (l m : List ℕ) → All (λ c. c ≢ a) l → Apart l m → Apart l (a ∷ m)
Apart-cons a [] m f h = tt
Apart-cons a (c ∷ l) m f h = ((f.0, h.0), Apart-cons a l m f.1 h.1)

pub Apart-sym : (l m : List ℕ) → Apart l m → Apart m l
Apart-sym [] m h = Apart-nil m
Apart-sym (a ∷ l) m h = Apart-cons a m l (Fresh-flip a m h.0) (Apart-sym l m h.1)

pub next-first_of :
    (s : Store) (list : ℕ) (l : List ℕ) → Ring s list l → s.next list ≡ first_of l list
next-first_of s list [] r = r.chain.0
next-first_of s list (b ∷ l) r = r.chain.0

-- `list_add` puts a new node in front of the nodes of a list.
pub list_add-Ring :
    (s : Store) (node list : ℕ) (l : List ℕ)
    → Ring s list l
    → Fresh node (list ∷ l)
    → Ring (list_add s node list) list (node ∷ l)
unfolding list_add list_add_tail
list_add-Ring s node list [] r f =
    let e : s.next list ≡ s.prev list = r.chain.0 ∙ sym r.chain.1 in
    let same : list_add s node list ≡ list_add_tail s node list =
      ap (list_add_between s node list) r.chain.0
      ∙ ap (λ p. list_add_between s node p list) (sym r.chain.1) in
    rw same (list_add_tail-Ring s node list [] r f)
list_add-Ring s node list (b ∷ l) r f =
    let same : list_add s node list ≡ list_add_tail s node b =
      ap (list_add_between s node list) r.chain.0
      ∙ ap (λ p. list_add_between s node p b) (sym r.chain.1) in
    rw same (list_add_tail-before s node list b [] l r f)

-- Nodes that are none of a list's.
away_from :
    (list q : ℕ) (l m : List ℕ)
    → q ≡ first_of l list
    → Apart m (list ∷ l)
    → All (λ c. (c ≢ list) × (c ≢ q)) m
away_from list q l [] e h = tt
away_from list q [] (c ∷ m) e h = ((h.0.0, λ z. h.0.0 (z ∙ e)), away_from list q [] m e h.1)
away_from list q (b ∷ l) (c ∷ m) e h =
    ((h.0.0, λ z. h.0.1.0 (z ∙ e)), away_from list q (b ∷ l) m e h.1)

-- `list_add` leaves another list as it is.
pub list_add-elsewhere :
    (s : Store) (node list list' : ℕ) (l l' : List ℕ)
    → Ring s list l
    → Ring s list' l'
    → Apart (list' ∷ l') (list ∷ l)
    → Fresh node (list' ∷ l')
    → Ring (list_add s node list) list' l'
unfolding list_add
list_add-elsewhere s node list list' l l' r r' apart fresh =
    let q = next-first_of s list l r in
    let free = away_from list (s.next list) l (list' ∷ l') q apart in
    let not_node = Fresh-flip node (list' ∷ l') fresh in
    record {
      chain =
          elsewhere-Chain s node list (s.next list) list' list' l' r'.chain not_node free not_node.0
            free.0.1;
      distinct = r'.distinct;
    }
