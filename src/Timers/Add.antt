-- ===== src/Timers/Add.antt =====
-- `__add_timer` of timers.c.
use opencli.Base.{
  ℕ, zero, suc, ◌^◌, ◌<◌, ◌≤◌, ◌≡◌, refl, ap, ◌↔◌, ◌⊎◌, inl, inr, true, false, Bool-cases, some,
  List, [], ◌∷◌, ◌++◌, ◌==◌, arith, All, length, append-nil, All-append,
}
use opencli.Links.{Store, list_add_tail}
use opencli.Links.Ring.{Ring, Chain, Fresh, list_add_tail-Ring}
use opencli.Links.Rotate.{list_add_tail-before}
use opencli.Timers.{Timers, timers, time_after, first_after, add_timer}

-- In the first half of the range of the clock the test is that of the numbers.
pub time_after-ltb : (a b : ℕ) → a < 2 ^ 63 → b < 2 ^ 63 → (time_after a b ≡ true) ↔ (b < a)
unfolding time_after
time_after-ltb a b ha hb = ground arith

-- The head of a list, or what is behind it.
abbrev pub head_or : List ℕ → ℕ → ℕ
head_or [] d = d
head_or (t ∷ l) d = t

module _ {W : Type 0} (s : Timers W) (when : ℕ) where
  -- The entry found: no entry in front of it is later, and it is later itself, if it is not the head.
  pub record Place (l : List ℕ) (at : ℕ) : Type 0 where
    pub front : List ℕ
    pub back : List ℕ
    pub splits : l ≡ front ++ back
    pub at_back : at ≡ head_or back timers
    pub not_later : All (λ t. time_after (s.expires t) when ≡ false) front
    pub later : (back ≡ []) ⊎ (time_after (s.expires at) when ≡ true)

  first_after-Place :
      (fuel a : ℕ) (l : List ℕ)
      → Chain s.links (a ∷ l ++ timers ∷ [])
      → Fresh timers l
      → length l < fuel
      → (at : ℕ) × (first_after fuel s (s.links.next a) when ≡ some at) × Place l at
  unfolding first_after
  first_after-Place zero a l h f hf = absurd (omega arith)
  first_after-Place (suc fuel) a [] h f hf = (
    timers,
    rw (first_after, h.0) refl,
    record {
      front = [];
      back = [];
      splits = refl;
      at_back = refl;
      not_later = tt;
      later = inl refl;
    },
  )
  first_after-Place (suc fuel) a (b ∷ l) h f hf =
      let inner : b == timers ≡ false = ground (arith, f.0) in
      elim (Bool-cases (time_after (s.expires b) when)) [
        | inl e ↦ (
          b,
          rw (first_after, h.0, inner, e) refl,
          record {
            front = [];
            back = b ∷ l;
            splits = refl;
            at_back = refl;
            not_later = tt;
            later = inr e;
          },
        )
        | inr e ↦
            let (at, eq, place) = first_after-Place fuel b l h.2 f.1 (omega arith) in
            (
              at,
              rw (first_after, h.0, inner, e) eq,
              record {
                front = b ∷ place.front;
                back = place.back;
                splits = ap (◌∷◌ b) place.splits;
                at_back = place.at_back;
                not_later = (e, place.not_later);
                later = place.later;
              },
            )
      ]

-- A new entry in front of the first of `back`, or of the head.
added-Ring :
    (links : Store) (node at : ℕ) (front back : List ℕ)
    → at ≡ head_or back timers
    → Ring links timers (front ++ back)
    → Fresh node (timers ∷ front ++ back)
    → Ring (list_add_tail links node at) timers (front ++ node ∷ back)
added-Ring links node at front [] e r f =
    rw e (rw (append-nil front) at (list_add_tail-Ring links node timers (front ++ []) r f))
added-Ring links node at front (b ∷ back) e r f =
    rw e (list_add_tail-before links node timers b front back r f)

abbrev pub Sorted : (ℕ → ℕ) → List ℕ → Type 0
Sorted f [] = Unit
Sorted f (a ∷ l) = All (λ b. f a ≤ f b) l × Sorted f l

-- The list has the timers `l`, from the first to expire to the last, and the clock does not wrap.
pub record Queue {W : Type 0} (s : Timers W) (l : List ℕ) : Type 0 where
  pub ring : Ring s.links timers l
  pub sorted : Sorted s.expires l
  pub near : All (λ t. s.expires t < 2 ^ 63) l

module _ (f : ℕ → ℕ) (e : ℕ) where
  -- What the tests of the loop say of the numbers.
  pub front-le :
      (l : List ℕ)
      → e < 2 ^ 63
      → All (λ t. f t < 2 ^ 63) l
      → All (λ t. time_after (f t) e ≡ false) l
      → All (λ t. f t ≤ e) l
  front-le [] he hn h = tt
  front-le (t ∷ l) he hn h =
      (ground (arith, time_after-ltb (f t) e hn.0 he, h.0), front-le l he hn.1 h.1)

  pub All-lt : (d : ℕ) (l : List ℕ) → e < d → All (λ b. d ≤ f b) l → All (λ b. e < f b) l
  All-lt d [] h a = tt
  All-lt d (b ∷ l) h a = (omega (arith, a.0), All-lt d l h a.1)

  back-lt :
      (l : List ℕ)
      → e < 2 ^ 63
      → All (λ t. f t < 2 ^ 63) l
      → Sorted f l
      → (l ≡ []) ⊎ (time_after (f (head_or l timers)) e ≡ true)
      → All (λ t. e < f t) l
  back-lt [] he hn hs h = tt
  back-lt (t ∷ l) he hn hs (inl z) = absurd (cc)
  back-lt (t ∷ l) he hn hs (inr h) =
      let behind : e < f t = ground (arith, time_after-ltb (f t) e hn.0 he) in
      (behind, All-lt (f t) l behind hs.0)

pub All-le {ℓ} : (P Q : ℕ → Type ℓ) (l : List ℕ) → ((t : ℕ) → P t → Q t) → All P l → All Q l
All-le P Q [] h a = tt
All-le P Q (t ∷ l) h a = (h t a.0, All-le P Q l h a.1)

All-split {ℓ} : (P : ℕ → Type ℓ) (xs ys : List ℕ) → All P (xs ++ ys) → All P xs × All P ys
All-split P [] ys h = (tt, h)
All-split P (x ∷ xs) ys h = let (a, b) = All-split P xs ys h.1 in ((h.0, a), b)

Sorted-back : (f : ℕ → ℕ) (xs ys : List ℕ) → Sorted f (xs ++ ys) → Sorted f ys
Sorted-back f [] ys h = h
Sorted-back f (x ∷ xs) ys h = Sorted-back f xs ys h.1

insert-Sorted :
    (f : ℕ → ℕ) (node : ℕ) (front back : List ℕ)
    → Sorted f (front ++ back)
    → All (λ t. f t ≤ f node) front
    → All (λ t. f node < f t) back
    → Sorted f (front ++ node ∷ back)
insert-Sorted f node [] back s hf hb = (All-le _ _ back (λ t h. omega arith) hb, s)
insert-Sorted f node (a ∷ front) back s hf hb =
    let (x, y) = All-split _ front back s.0 in
    (All-append _ front (node ∷ back) x (hf.0, y), insert-Sorted f node front back s.1 hf.1 hb)

-- `__add_timer` puts a new timer behind those that expire no later than it and in front of those that
-- expire later, and the list stays sorted, when no expiry is 2 ^ 63 or more; a round for each timer and
-- one more are enough.
pub add_timer-Queue :
    {W : Type 0} (s : Timers W) (timer fuel : ℕ) (l : List ℕ)
    → Queue s l
    → Fresh timer (timers ∷ l)
    → s.expires timer < 2 ^ 63
    → length l < fuel
    → (s' : Timers W) × (front back : List ℕ) × (add_timer fuel s timer ≡ some s')
      × (l ≡ front ++ back)
      × Queue s' (front ++ timer ∷ back)
      × All (λ t. s.expires t ≤ s.expires timer) front
      × All (λ t. s.expires timer < s.expires t) back
unfolding add_timer
add_timer-Queue s timer fuel l queue fresh near enough =
    let when = s.expires timer in
    let (at, eq, place) =
      first_after-Place s when fuel timers l queue.ring.chain queue.ring.distinct.0 enough in
    let front = place.front in
    let back = place.back in
    let split = place.splits in
    let (near_front, near_back) = All-split _ front back (rw split at queue.near) in
    let sorted : Sorted s.expires (front ++ back) = rw split at queue.sorted in
    let before = front-le s.expires when front near near_front place.not_later in
    let behind =
      back-lt s.expires when back near near_back (Sorted-back s.expires front back sorted)
        (rw place.at_back at place.later) in
    (
      record s { links = list_add_tail s.links timer at },
      front,
      back,
      rw (add_timer, eq) refl,
      split,
      record {
        ring =
            added-Ring s.links timer at front back place.at_back (rw split at queue.ring)
              (rw split at fresh);
        sorted = insert-Sorted s.expires timer front back sorted before behind;
        near = All-append _ front (timer ∷ back) near_front (near, near_back);
      },
      before,
      behind,
    )
