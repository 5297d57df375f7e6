-- ===== src/Line/Everywhere.antt =====
-- Properties of every byte of a line, over the editing functions of vty.c.
use opencli.Base.{ℕ, Bool, [], ◌∷◌, Bool-cases, inl, inr, Bytes, All}
use opencli.Line.{toupper, tolower}
use opencli.Line.Zipper.{reverse_onto, Zipper, zipper, text}
use opencli.Line.Rub.{rub_while}
use opencli.Line.Move.{forward_while, backward_while}
use opencli.Line.Keys.{is_word, left, right}
use opencli.Line.Case.{case_word, capitalize}

module _ (P : ℕ → Type 0) where
  abbrev pub Everywhere : Zipper → Type 0
  Everywhere z = All P z.before × All P z.after

  pub reverse_onto-All : (b ys : Bytes) → All P b → All P ys → All P (reverse_onto b ys)
  reverse_onto-All [] ys h k = k
  reverse_onto-All (x ∷ b) ys h k = reverse_onto-All b (x ∷ ys) h.1 (h.0, k)

  pub text-All : (z : Zipper) → Everywhere z → All P (text z)
  text-All z e = reverse_onto-All z.before z.after e.0 e.1

  pub rub_while-All : (test : ℕ → Bool) (b : Bytes) → All P b → All P (rub_while test b)
  rub_while-All test [] h = tt
  rub_while-All test (c ∷ b) h = elim (Bool-cases (test c)) [
    | inl e ↦ rw e (rub_while-All test b h.1)
    | inr e ↦ rw e h
  ]

  pub forward_while-Everywhere :
      (test : ℕ → Bool) (b r : Bytes)
      → Everywhere (zipper b r)
      → Everywhere (forward_while test b r)
  forward_while-Everywhere test b [] h = h
  forward_while-Everywhere test b (c ∷ r) h = elim (Bool-cases (test c)) [
    | inl e ↦ rw e (forward_while-Everywhere test (c ∷ b) r ((h.1.0, h.0), h.1.1))
    | inr e ↦ rw e h
  ]

  pub backward_while-Everywhere :
      (test : ℕ → Bool) (b r : Bytes)
      → Everywhere (zipper b r)
      → Everywhere (backward_while test b r)
  backward_while-Everywhere test [] r h = h
  backward_while-Everywhere test (c ∷ b) r h = elim (Bool-cases (test c)) [
    | inl e ↦ rw e (backward_while-Everywhere test b (c ∷ r) (h.0.1, (h.0.0, h.1)))
    | inr e ↦ rw e h
  ]

  pub case_word-Everywhere :
      (f : ℕ → ℕ) (b r : Bytes)
      → ((c : ℕ) → P c → P (f c))
      → Everywhere (zipper b r)
      → Everywhere (case_word f b r)
  case_word-Everywhere f b [] keep h = h
  case_word-Everywhere f b (c ∷ r) keep h = elim (Bool-cases (is_word c)) [
    | inl e ↦ rw e (case_word-Everywhere f (f c ∷ b) r keep ((keep c h.1.0, h.0), h.1.1))
    | inr e ↦ rw e h
  ]

  pub capitalize-Everywhere :
      (b r : Bytes)
      → ((c : ℕ) → P c → P (tolower c))
      → ((c : ℕ) → P c → P (toupper c))
      → Everywhere (zipper b r)
      → Everywhere (capitalize b r)
  capitalize-Everywhere b [] lo up h = h
  capitalize-Everywhere b (c ∷ r) lo up h =
      case_word-Everywhere tolower (toupper c ∷ b) r lo ((up c h.1.0, h.0), h.1.1)

  pub left-Everywhere : (b r : Bytes) → Everywhere (zipper b r) → Everywhere (left b r)
  left-Everywhere [] r h = h
  left-Everywhere (c ∷ b) r h = (h.0.1, (h.0.0, h.1))

  pub right-Everywhere : (b r : Bytes) → Everywhere (zipper b r) → Everywhere (right b r)
  right-Everywhere b [] h = h
  right-Everywhere b (c ∷ r) h = ((h.1.0, h.0), h.1.1)
