-- ===== src/Line/Shift.antt =====
-- The two copying loops of `save_char` and `clear_char`.
use opencli.Base.{
  ℕ, zero, suc, ◌+◌, ◌<◌, ◌≡◌, ◌≢◌, refl, sym, ◌∙◌, ap, [], ◌∷◌, ◌++◌, arith, Bytes, IsText, get_or,
  set, length,
}
use opencli.Line.{shift_right, shift_left}
use opencli.Line.Zipper.{reverse_onto, get_or-reverse_onto, set-reverse_onto}

get_or-set_ne : (xs : Bytes) (i j v : ℕ) → i ≢ j → get_or (set xs i v) j 0 ≡ get_or xs j 0
get_or-set_ne [] i j v h = refl
get_or-set_ne (x ∷ xs) zero zero v h = absurd (h refl)
get_or-set_ne (x ∷ xs) zero (suc j) v h = refl
get_or-set_ne (x ∷ xs) (suc i) zero v h = refl
get_or-set_ne (x ∷ xs) (suc i) (suc j) v h = get_or-set_ne xs i j v (λ e. h (ap suc e))

shift_right_step :
    (xs : Bytes) (p k n m : ℕ)
    → n ≡ p + suc k
    → m ≡ p + k
    → shift_right xs p (suc k) ≡ shift_right (set xs n (get_or xs m 0)) p k
unfolding shift_right
shift_right_step xs p k n m e e' = rw (e, e')

-- The last round of the loop, at the lowest place, set apart.
shift_right_last :
    (k : ℕ) (xs : Bytes) (p : ℕ)
    → shift_right xs p (suc k) ≡ set (shift_right xs (suc p) k) (suc p) (get_or xs p 0)
shift_right_last zero xs p =
    shift_right_step xs p zero (suc p) p (omega arith) (omega arith) ∙ unfold shift_right in refl
shift_right_last (suc k) xs p =
    let n : ℕ = suc p + suc k in
    let m : ℕ = suc p + k in
    let ys : Bytes = set xs n (get_or xs m 0) in
    shift_right_step xs p (suc k) n m (omega arith) (omega arith)
    ∙ shift_right_last k ys p
    ∙ rw (get_or-set_ne xs n p (get_or xs m 0) (omega arith))
        (rw (shift_right_step xs (suc p) k n m refl refl))

shift_right-cons :
    (k : ℕ) (x : ℕ) (xs : Bytes) (p : ℕ) → shift_right (x ∷ xs) (suc p) k ≡ x ∷ shift_right xs p k
shift_right-cons zero x xs p = unfold shift_right in refl
shift_right-cons (suc k) x xs p =
    shift_right_step (x ∷ xs) (suc p) k (suc (p + suc k)) (suc (p + k)) (omega arith) (omega arith)
    ∙ shift_right-cons k x (set xs (p + suc k) (get_or xs (p + k) 0)) p
    ∙ ap (◌∷◌ x) (sym (shift_right_step xs p k (p + suc k) (p + k) refl refl))

-- The loop of `save_char` and the write that follows it insert one byte in front of `w` and drop
-- the byte behind it.
pub set-shift_right :
    (w : Bytes) (y v : ℕ) (rest : Bytes)
    → set (shift_right (w ++ y ∷ rest) 0 (length w)) 0 v ≡ v ∷ (w ++ rest)
set-shift_right [] y v rest = unfold shift_right in refl
set-shift_right (a ∷ w) y v rest =
    rw
      (
        shift_right_last (length w) (a ∷ (w ++ y ∷ rest)) 0,
        shift_right-cons (length w) a (w ++ y ∷ rest) 0,
      )
      (ap (λ l. v ∷ l) (set-shift_right w y a rest))

pub shift_right-reverse_onto :
    (k : ℕ) (b ys : Bytes) (p : ℕ)
    → p ≡ length b
    → shift_right (reverse_onto b ys) p k ≡ reverse_onto b (shift_right ys 0 k)
shift_right-reverse_onto zero b ys p e = unfold shift_right in refl
shift_right-reverse_onto (suc k) b ys p e =
    rw
      (
        shift_right_step (reverse_onto b ys) p k (p + suc k) (p + k) refl refl,
        get_or-reverse_onto b ys (p + k) k (omega arith),
        set-reverse_onto b ys (p + suc k) (suc k) (get_or ys k 0) (omega arith),
        shift_right_step ys 0 k (suc k) k (omega arith) (omega arith),
      )
      (shift_right-reverse_onto k b (set ys (suc k) (get_or ys k 0)) p e)

pub shift_left-reverse_onto :
    (f : ℕ) (b ys : Bytes) (n i : ℕ)
    → n ≡ length b + i
    → shift_left f (reverse_onto b ys) n ≡ reverse_onto b (shift_left f ys i)
unfolding shift_left
shift_left-reverse_onto zero b ys n i e = refl
shift_left-reverse_onto (suc f) b ys n i e = ground (
  arith,
  get_or-reverse_onto b ys n i e,
  get_or-reverse_onto b ys (n + 1) (i + 1) (omega arith),
  set-reverse_onto b ys n i (get_or ys (i + 1) 0) e,
  shift_left-reverse_onto f b (set ys i (get_or ys (i + 1) 0)) (n + 1) (i + 1),
)

-- The loop of `clear_char` drops the byte at the cursor.
pub shift_left-drop :
    (f : ℕ) (a : ℕ) (w junk : Bytes)
    → IsText (a ∷ w)
    → length w + 1 < f
    → shift_left f (a ∷ (w ++ 0 ∷ junk)) 0 ≡ w ++ 0 ∷ 0 ∷ junk
unfolding shift_left
shift_left-drop zero a w junk h lt = absurd (omega arith)
shift_left-drop (suc zero) a [] junk h lt = absurd (omega arith)
shift_left-drop (suc (suc f)) a [] junk h lt = ground arith
shift_left-drop (suc f) a (c ∷ w) junk h lt = ground (
  arith,
  h.0,
  shift_left-reverse_onto f (c ∷ []) (c ∷ (w ++ 0 ∷ junk)) 1 0 refl,
  shift_left-drop f c w junk h.1 (omega arith),
)
