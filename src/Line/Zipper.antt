-- ===== src/Line/Zipper.antt =====
-- The line as an editor means it: the text before the cursor, backwards, and the text behind it.
-- `Holds` says that the buffers of a `Line` represent such a pair.
use opencli.Base.{
  ℕ, suc, ◌+◌, ◌≡◌, refl, [], ◌∷◌, ◌++◌, arith, Bytes, IsText, get_or, set, length, cstr,
  cstr-append,
}
use opencli.Line.{Line, max_cmdline}

abbrev pub reverse_onto : Bytes → Bytes → Bytes
reverse_onto [] ys = ys
reverse_onto (x ∷ xs) ys = reverse_onto xs (x ∷ ys)

pub record Zipper : Type 0 where
  pub before : Bytes
  pub after : Bytes

abbrev pub zipper : Bytes → Bytes → Zipper
zipper b r = record { before = b; after = r }

-- The whole text.
abbrev pub text : Zipper → Bytes
text z = reverse_onto z.before z.after

pub record Holds (v : Line) (z : Zipper) : Type 0 where
  pub junk : Bytes
  pub layout : v.rl_buff ≡ reverse_onto z.before (z.after ++ 0 ∷ junk)
  pub size : length v.rl_buff ≡ max_cmdline
  pub cursor : v.rl_ptr ≡ length z.before
  pub count : v.rl_index ≡ length z.before + length z.after
  pub text_before : IsText z.before
  pub text_after : IsText z.after

-- What stands behind `length b` bytes, `n` being the place `i` of it.
pub get_or-reverse_onto :
    (b ys : Bytes) (n i : ℕ) → n ≡ length b + i → get_or (reverse_onto b ys) n 0 ≡ get_or ys i 0
get_or-reverse_onto [] ys n i e = ground arith
get_or-reverse_onto (x ∷ b) ys n i e = get_or-reverse_onto b (x ∷ ys) n (suc i) (omega arith)

pub set-reverse_onto :
    (b ys : Bytes) (n i v : ℕ)
    → n ≡ length b + i
    → set (reverse_onto b ys) n v ≡ reverse_onto b (set ys i v)
set-reverse_onto [] ys n i v e = ground arith
set-reverse_onto (x ∷ b) ys n i v e = set-reverse_onto b (x ∷ ys) n (suc i) v (omega arith)

pub length-reverse_onto : (b ys : Bytes) → length (reverse_onto b ys) ≡ length b + length ys
length-reverse_onto [] ys = omega arith
length-reverse_onto (x ∷ b) ys = omega (arith, length-reverse_onto b (x ∷ ys))

pub reverse_onto-append : (b ys zs : Bytes) → reverse_onto b (ys ++ zs) ≡ reverse_onto b ys ++ zs
reverse_onto-append [] ys zs = refl
reverse_onto-append (x ∷ b) ys zs = reverse_onto-append b (x ∷ ys) zs

pub reverse_onto-IsText : (b ys : Bytes) → IsText b → IsText ys → IsText (reverse_onto b ys)
reverse_onto-IsText [] ys h k = k
reverse_onto-IsText (x ∷ b) ys h k = reverse_onto-IsText b (x ∷ ys) h.1 (h.0, k)

-- The string in the buffer is the whole text.
pub Holds-cstr : {v : Line} {z : Zipper} → Holds v z → cstr v.rl_buff ≡ text z
Holds-cstr {v} {z} h =
    rw (h.layout, reverse_onto-append z.before z.after (0 ∷ h.junk))
      (cstr-append (text z) h.junk
        (reverse_onto-IsText z.before z.after h.text_before h.text_after))
