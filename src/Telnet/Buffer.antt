-- ===== src/Telnet/Buffer.antt =====
-- `telnet_getchar` of vty.c, against the bytes of the connection.
use opencli.Base.{
  ℕ, zero, suc, ◌+◌, ◌-◌, ◌<◌, ◌≤◌, ◌≡◌, refl, sym, ◌∙◌, ap, false, Option, none, some, List, [],
  ◌∷◌, ◌++◌, arith, ◌==◌, if◌then◌else◌, Bool-cases, inl, inr, Bytes, get_or, take, drop, length,
  length-append, All,
}
use opencli.Telnet.{Telnet, telnet_cmd, passed_over}
use opencli.Telnet.Stream.{
  Input, max_rbuffer, b_getchar, fill, refill, n_getchar, telnet_getchar, pending, Feeds,
}

cons_head : (a b : ℕ) (xs ys : Bytes) → a ∷ xs ≡ b ∷ ys → a ≡ b
cons_head a b xs ys e = cc

cons_tail : (a b : ℕ) (xs ys : Bytes) → a ∷ xs ≡ b ∷ ys → xs ≡ ys
cons_tail a b xs ys e = cc

take-drop_step :
    (buf : Bytes) (p n k : ℕ)
    → n ≡ suc k
    → p + n ≤ length buf
    → take n (drop p buf) ≡ get_or buf p 0 ∷ take k (drop (p + 1) buf)
take-drop_step [] p n k e h = absurd (omega arith)
take-drop_step (x ∷ buf) zero n k e h = rw e
take-drop_step (x ∷ buf) (suc p) n k e h =
    let next : suc p + 1 ≡ suc (p + 1) = omega arith in
    rw next (take-drop_step buf p n k e (omega arith))

take_all : (s t : Bytes) → take (length s) (s ++ t) ≡ s
take_all [] t = refl
take_all (x ∷ s) t = ap (◌∷◌ x) (take_all s t)

b_getchar-Feeds :
    {i : Input} (c : ℕ) (bs : Bytes)
    → Feeds i (c ∷ bs)
    → 0 < i.s_count
    → ((b_getchar i).0 ≡ c) × Feeds (b_getchar i).1 bs
unfolding b_getchar
b_getchar-Feeds {i} c bs f lt =
    let k = i.s_count - 1 in
    let step = take-drop_step i.s_buff i.s_ptr i.s_count k (omega arith) f.room in
    let all : get_or i.s_buff i.s_ptr 0 ∷ (take k (drop (i.s_ptr + 1) i.s_buff) ++ pending i.net)
        ≡ c ∷ bs =
      ap (λ l. l ++ pending i.net) (sym step) ∙ f.left in
    (
      cons_head _ c _ bs all,
      record { left = cons_tail _ c _ bs all; room = omega (arith, f.room); pieces = f.pieces },
    )

-- With an empty buffer all that is left is on the way.
waiting : {i : Input} {bs : Bytes} → Feeds i bs → i.s_count ≡ 0 → pending i.net ≡ bs
waiting {i} f empty = ap (λ n. take n (drop i.s_ptr i.s_buff) ++ pending i.net) (sym empty) ∙ f.left

fill-Feeds :
    (i : Input) (piece : Bytes) (rest : List Bytes) (bs : Bytes)
    → piece ++ pending rest ≡ bs
    → All (λ p. 0 < length p × (length p ≤ max_rbuffer)) rest
    → Feeds (fill i piece rest) bs
unfolding fill
fill-Feeds i piece rest bs e all = record {
  left = ap (λ l. l ++ pending rest) (take_all piece (drop (length piece) i.s_buff)) ∙ e;
  room = omega (arith, length-append piece (drop (length piece) i.s_buff));
  pieces = all;
}

refill-Feeds :
    (i : Input) (net : List Bytes) (c : ℕ) (bs : Bytes)
    → pending net ≡ c ∷ bs
    → All (λ p. 0 < length p × (length p ≤ max_rbuffer)) net
    → (i' : Input) × (refill net i ≡ some (c, i')) × Feeds i' bs
unfolding refill
refill-Feeds i [] c bs e all = absurd (cc)
refill-Feeds i (piece ∷ rest) c bs e all =
    let some_bytes : (length piece == 0) ≡ false = ground (arith, all.0) in
    let filled = fill-Feeds i piece rest (c ∷ bs) e all.1 in
    let (got, next) = b_getchar-Feeds c bs filled (unfold fill in all.0.0) in
    ((b_getchar (fill i piece rest)).1, rw (some_bytes, sym got), next)

n_getchar-some :
    {i : Input} (c : ℕ) (bs : Bytes)
    → Feeds i (c ∷ bs)
    → (i' : Input) × (n_getchar i ≡ some (c, i')) × Feeds i' bs
unfolding n_getchar
n_getchar-some {i} c bs f = elim (Bool-cases (i.s_count == 0)) [
  | inl empty ↦
      let (i', got, next) = refill-Feeds i i.net c bs (waiting f (ground arith)) f.pieces in
      (i', rw (empty, got), next)
  | inr more ↦
      let (got, next) = b_getchar-Feeds c bs f (ground arith) in
      ((b_getchar i).1, rw (more, sym got), next)
]

pending_nil :
    (net : List Bytes) (i : Input)
    → pending net ≡ []
    → All (λ p. 0 < length p × (length p ≤ max_rbuffer)) net
    → refill net i ≡ none
unfolding refill
pending_nil [] i e all = refl
pending_nil ([] ∷ rest) i e all = absurd (omega arith)
pending_nil ((x ∷ piece) ∷ rest) i e all = absurd (cc)

n_getchar-none : {i : Input} → Feeds i [] → n_getchar i ≡ none
unfolding n_getchar
n_getchar-none {i} f = elim (Bool-cases (i.s_count == 0)) [
  | inl empty ↦ rw (empty, pending_nil i.net i (waiting f (ground arith)) f.pieces)
  | inr more ↦
      let step = take-drop_step i.s_buff i.s_ptr i.s_count (i.s_count - 1) (ground arith) f.room in
      let none_left : get_or i.s_buff i.s_ptr 0
            ∷ (take (i.s_count - 1) (drop (i.s_ptr + 1) i.s_buff) ++ pending i.net)
          ≡ [] =
        ap (λ l. l ++ pending i.net) (sym step) ∙ f.left in
      cc none_left
]

-- The next byte of input in a connection, the telnet commands before it carried out.
unfoldable pub next_data : Telnet → Bytes → Option (ℕ × Telnet × Bytes)
next_data t [] = none
next_data t (c ∷ cs) =
    let rest = next_data (telnet_cmd t c).0 cs in
    if passed_over t c then rest else some (c, (telnet_cmd t c).0, cs)

-- `r` is what reading byte after byte gives.
pub data Reads : Option (ℕ × Telnet × Input) → Option (ℕ × Telnet × Bytes) → Type 0 where
  closed : Reads none none
  got :
      {c : ℕ} {t : Telnet} {i : Input} {bs : Bytes}
      → Feeds i bs
      → Reads (some (c, t, i)) (some (c, t, bs))

-- Given a round for every byte that is left, `telnet_getchar` returns the first byte of the
-- connection that is input, with the state that the commands before it lead to and the bytes behind
-- it still to be read, or finds the connection closed when there is none, however the bytes are cut
-- into pieces.
pub telnet_getchar-Reads :
    (f : ℕ) (t : Telnet) {i : Input} (bs : Bytes)
    → Feeds i bs
    → length bs < f
    → Reads (telnet_getchar f t i) (next_data t bs)
unfolding telnet_getchar next_data
telnet_getchar-Reads zero t bs feeds lt = absurd (omega arith)
telnet_getchar-Reads (suc f) t [] feeds lt = rw (n_getchar-none feeds, telnet_getchar) closed
telnet_getchar-Reads (suc f) t (c ∷ bs) feeds lt =
    let (i', read, next) = n_getchar-some c bs feeds in
    rw (read, telnet_getchar)
      (elim (Bool-cases (passed_over t c)) [
        | inl over ↦ rw over (telnet_getchar-Reads f (telnet_cmd t c).0 bs next (omega arith))
        | inr data_byte ↦ rw data_byte (got next)
      ])
