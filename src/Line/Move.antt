-- ===== src/Line/Move.antt =====
-- The loops of the movements of vty.c, on the text and the cursor.
use opencli.Base.{
  ℕ, zero, suc, ◌+◌, ◌<◌, ◌≡◌, refl, ◌∙◌, ap, Bool, [], ◌∷◌, ◌++◌, arith, if◌then◌else◌, Bool-cases,
  inl, inr, Bytes, IsText, length,
}
use opencli.Line.{Line, max_cmdline, skip, skip_back}
use opencli.Line.Zipper.{reverse_onto, Zipper, zipper, Holds, get_or-reverse_onto}
use opencli.Line.Erase.{Holds-junk}

-- The cursor passes bytes while `test` holds.
abbrev pub forward_while : (ℕ → Bool) → Bytes → Bytes → Zipper
forward_while test b [] = zipper b []
forward_while test b (c ∷ r) = if test c then forward_while test (c ∷ b) r else zipper b (c ∷ r)

abbrev pub backward_while : (ℕ → Bool) → Bytes → Bytes → Zipper
backward_while test [] r = zipper [] r
backward_while test (c ∷ b) r = if test c then backward_while test b (c ∷ r) else zipper (c ∷ b) r

-- `w` is `z` with the cursor at another place of the same text.
pub record Moved (z w : Zipper) : Type 0 where
  pub same :
      (tail : Bytes)
      → reverse_onto z.before (z.after ++ tail) ≡ reverse_onto w.before (w.after ++ tail)
  pub sizes : length z.before + length z.after ≡ length w.before + length w.after
  pub texts : IsText z.before → IsText z.after → IsText w.before × IsText w.after

pub Moved-refl : (z : Zipper) → Moved z z
Moved-refl z = record { same = λ tail. refl; sizes = refl; texts = λ h k. (h, k) }

-- One byte to the right, and the rest of a way.
pub Moved-forward :
    (c : ℕ) (b r : Bytes) (w : Zipper) → Moved (zipper (c ∷ b) r) w → Moved (zipper b (c ∷ r)) w
Moved-forward c b r w m = record {
  same = m.same;
  sizes = omega (arith, m.sizes);
  texts = λ h k. m.texts (k.0, h) k.1;
}

pub Moved-backward :
    (c : ℕ) (b r : Bytes) (w : Zipper) → Moved (zipper b (c ∷ r)) w → Moved (zipper (c ∷ b) r) w
Moved-backward c b r w m = record {
  same = m.same;
  sizes = omega (arith, m.sizes);
  texts = λ h k. m.texts h.1 (h.0, k);
}

pub Moved-trans : (x y z : Zipper) → Moved x y → Moved y z → Moved x z
Moved-trans x y z m n = record {
  same = λ tail. m.same tail ∙ n.same tail;
  sizes = m.sizes ∙ n.sizes;
  texts = λ h k. let (h', k') = m.texts h k in n.texts h' k';
}

pub forward_while-Moved :
    (test : ℕ → Bool) (b r : Bytes) → Moved (zipper b r) (forward_while test b r)
forward_while-Moved test b [] = Moved-refl (zipper b [])
forward_while-Moved test b (c ∷ r) = elim (Bool-cases (test c)) [
  | inl e ↦ rw e (Moved-forward c b r _ (forward_while-Moved test (c ∷ b) r))
  | inr e ↦ rw e (Moved-refl (zipper b (c ∷ r)))
]

pub backward_while-Moved :
    (test : ℕ → Bool) (b r : Bytes) → Moved (zipper b r) (backward_while test b r)
backward_while-Moved test [] r = Moved-refl (zipper [] r)
backward_while-Moved test (c ∷ b) r = elim (Bool-cases (test c)) [
  | inl e ↦ rw e (Moved-backward c b r _ (backward_while-Moved test b (c ∷ r)))
  | inr e ↦ rw e (Moved-refl (zipper (c ∷ b) r))
]

-- A new place of the cursor, written to `rl_ptr`.
pub Holds-at :
    {v : Line} {z w : Zipper} (p : ℕ)
    → Holds v z
    → Moved z w
    → p ≡ length w.before
    → Holds (record v { rl_ptr = p }) w
Holds-at p h m at =
    let (tb, tr) = m.texts h.text_before h.text_after in
    record {
      junk = h.junk;
      layout = h.layout ∙ m.same (0 ∷ h.junk);
      size = h.size;
      cursor = at;
      count = h.count ∙ m.sizes;
      text_before = tb;
      text_after = tr;
    }

skip_buf :
    (test : ℕ → Bool) (f : ℕ) (b r junk : Bytes) (p : ℕ)
    → p ≡ length b
    → IsText r
    → length r < f
    → skip test f (reverse_onto b (r ++ 0 ∷ junk)) p ≡ length (forward_while test b r).before
unfolding skip
skip_buf test zero b r junk p e h lt = absurd (omega arith)
skip_buf test (suc f) b [] junk p e h lt = ground (arith, get_or-reverse_onto b (0 ∷ junk) p 0)
skip_buf test (suc f) b (c ∷ r) junk p e h lt = ground (
  arith,
  h.0,
  get_or-reverse_onto b (c ∷ (r ++ 0 ∷ junk)) p 0,
  skip_buf test f (c ∷ b) r junk (p + 1),
)

-- The loop ends where `forward_while` does, at any place of the same text.
pub skip-forward_while :
    (test : ℕ → Bool) {v : Line} {z w : Zipper} (p : ℕ)
    → Holds v z
    → Moved z w
    → p ≡ length w.before
    → skip test max_cmdline v.rl_buff p ≡ length (forward_while test w.before w.after).before
skip-forward_while test {v} {z} {w} p h m e =
    rw (h.layout, m.same (0 ∷ h.junk))
      (skip_buf test max_cmdline w.before w.after h.junk p e (m.texts h.text_before h.text_after).1
        (omega (arith, Holds-junk h, m.sizes)))

skip_back_buf :
    (test : ℕ → Bool) (b r : Bytes) (p : ℕ)
    → p ≡ length b
    → skip_back test (reverse_onto b r) p ≡ length (backward_while test b r).before
unfolding skip_back
skip_back_buf test [] r zero e = refl
skip_back_buf test [] r (suc p) e = absurd (omega arith)
skip_back_buf test (c ∷ b) r zero e = absurd (omega arith)
skip_back_buf test (c ∷ b) r (suc p) e =
    ground (arith, get_or-reverse_onto b (c ∷ r) p 0, skip_back_buf test b (c ∷ r) p)

backward_while_tail :
    (test : ℕ → Bool) (b r tail : Bytes)
    → (backward_while test b (r ++ tail)).before ≡ (backward_while test b r).before
backward_while_tail test [] r tail = refl
backward_while_tail test (c ∷ b) r tail = elim (Bool-cases (test c)) [
  | inl e ↦ rw e (backward_while_tail test b (c ∷ r) tail)
  | inr e ↦ rw e
]

pub skip_back-backward_while :
    (test : ℕ → Bool) {v : Line} {z w : Zipper} (p : ℕ)
    → Holds v z
    → Moved z w
    → p ≡ length w.before
    → skip_back test v.rl_buff p ≡ length (backward_while test w.before w.after).before
skip_back-backward_while test {v} {z} {w} p h m e =
    rw (h.layout, m.same (0 ∷ h.junk))
      (skip_back_buf test w.before (w.after ++ 0 ∷ h.junk) p e
        ∙ ap length (backward_while_tail test w.before w.after (0 ∷ h.junk)))
