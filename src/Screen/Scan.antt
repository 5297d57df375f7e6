-- ===== src/Screen/Scan.antt =====
-- The scanning loops of `rl_update`, on two buffers that hold the texts `new` and `old`.
use opencli.Base.{
  ℕ, zero, suc, ◌+◌, ◌<◌, ◌≤◌, ◌≡◌, ◌≢◌, refl, ◌∙◌, Bool, true, false, [], ◌∷◌, ◌++◌, ◌==◌,
  if◌then◌else◌, Bytes, arith, get_or, drop, length, IsText, length-drop,
}
use Prim.Native.Nat.{min}
use opencli.Screen.{first_diff, shorter_end, nul_at}

-- How far the texts agree, and whether they differ before one of them ends.
abbrev pub common : Bytes → Bytes → ℕ
common [] old = 0
common (n ∷ new) [] = 0
common (n ∷ new) (o ∷ old) = if n == o then suc (common new old) else 0

abbrev pub differs : Bytes → Bytes → Bool
differs [] old = false
differs (n ∷ new) [] = false
differs (n ∷ new) (o ∷ old) = if n == o then differs new old else true

pub first_diff-common :
    (new old jn jo : Bytes) (i : ℕ)
    → IsText new
    → IsText old
    → first_diff (new ++ 0 ∷ jn) (old ++ 0 ∷ jo) i ≡ (i + common new old, differs new old)
unfolding first_diff
first_diff-common [] [] jn jo i hn ho = ground arith
first_diff-common [] (o ∷ old) jn jo i hn ho = ground arith
first_diff-common (n ∷ new) [] jn jo i hn ho = ground arith
first_diff-common (n ∷ new) (o ∷ old) jn jo i hn ho =
    ground (arith, hn.0, ho.0, first_diff-common new old jn jo (i + 1) hn.1 ho.1)

pub shorter_end-min :
    (new old jn jo : Bytes) (i : ℕ)
    → IsText new
    → IsText old
    → shorter_end (new ++ 0 ∷ jn) (old ++ 0 ∷ jo) i ≡ i + min (length new) (length old)
unfolding shorter_end
shorter_end-min [] [] jn jo i hn ho = ground arith
shorter_end-min [] (o ∷ old) jn jo i hn ho = ground arith
shorter_end-min (n ∷ new) [] jn jo i hn ho = ground arith
shorter_end-min (n ∷ new) (o ∷ old) jn jo i hn ho =
    ground (arith, hn.0, ho.0, shorter_end-min new old jn jo (i + 1) hn.1 ho.1)

pub nul_at-length : (s j : Bytes) (i : ℕ) → IsText s → nul_at (s ++ 0 ∷ j) i ≡ i + length s
unfolding nul_at
nul_at-length [] j i h = ground arith
nul_at-length (c ∷ s) j i h = ground (arith, h.0, nul_at-length s j (i + 1) h.1)

pub drop-append : (k : ℕ) (s t : Bytes) → k ≤ length s → drop k (s ++ t) ≡ drop k s ++ t
drop-append zero s t h = refl
drop-append (suc k) [] t h = absurd (omega arith)
drop-append (suc k) (c ∷ s) t h = drop-append k s t (omega arith)

pub drop-IsText : (k : ℕ) (s : Bytes) → IsText s → IsText (drop k s)
drop-IsText zero s h = h
drop-IsText (suc k) [] h = tt
drop-IsText (suc k) (c ∷ s) h = drop-IsText k s h.1

pub nul_at-drop :
    (s j : Bytes) (e : ℕ) → IsText s → e ≤ length s → nul_at (drop e (s ++ 0 ∷ j)) e ≡ length s
nul_at-drop s j e h le =
    rw (drop-append e s (0 ∷ j) le)
      (nul_at-length (drop e s) j e (drop-IsText e s h) ∙ omega (arith, length-drop e s))

-- From a place that both texts reach.
pub shorter_end-drop :
    (new old jn jo : Bytes) (k : ℕ)
    → IsText new
    → IsText old
    → k ≤ length new
    → k ≤ length old
    → shorter_end (drop k (new ++ 0 ∷ jn)) (drop k (old ++ 0 ∷ jo)) k
      ≡ min (length new) (length old)
shorter_end-drop new old jn jo k tn to le le' =
    rw (drop-append k new (0 ∷ jn) le, drop-append k old (0 ∷ jo) le')
      (shorter_end-min (drop k new) (drop k old) jn jo k (drop-IsText k new tn)
          (drop-IsText k old to)
        ∙ omega (arith, length-drop k new, length-drop k old))

pub common-le : (new old : Bytes) → (common new old ≤ length new) × (common new old ≤ length old)
common-le [] old = omega arith
common-le (n ∷ new) [] = omega arith
common-le (n ∷ new) (o ∷ old) = ground (arith, common-le new old)

pub common-agree :
    (new old : Bytes) (j : ℕ) → j < common new old → get_or new j b' ' ≡ get_or old j b' '
common-agree [] old j h = absurd (omega arith)
common-agree (n ∷ new) [] j h = absurd (omega arith)
common-agree (n ∷ new) (o ∷ old) zero h = ground arith
common-agree (n ∷ new) (o ∷ old) (suc j) h = ground (arith, common-agree new old j)

-- With no difference one text begins with the other.
pub common_no_diff :
    (new old : Bytes) → differs new old ≡ false → common new old ≡ min (length new) (length old)
common_no_diff [] old h = omega arith
common_no_diff (n ∷ new) [] h = omega arith
common_no_diff (n ∷ new) (o ∷ old) h = ground (arith, common_no_diff new old)

pub common_diff :
    (new old : Bytes)
    → differs new old ≡ true
    → (common new old < length new)
      × (common new old < length old)
      × (get_or new (common new old) b' ' ≢ get_or old (common new old) b' ')
common_diff [] old h = absurd (cc)
common_diff (n ∷ new) [] h = absurd (cc)
common_diff (n ∷ new) (o ∷ old) h = ground (arith, common_diff new old)

-- A text read in its buffer.
pub get_or_text : (s j : Bytes) (i d : ℕ) → i < length s → get_or (s ++ 0 ∷ j) i 0 ≡ get_or s i d
get_or_text [] j i d h = absurd (omega arith)
get_or_text (c ∷ s) j zero d h = refl
get_or_text (c ∷ s) j (suc i) d h = get_or_text s j i d (omega arith)

pub get_or_nul : (s j : Bytes) → get_or (s ++ 0 ∷ j) (length s) 0 ≡ 0
get_or_nul [] j = refl
get_or_nul (c ∷ s) j = get_or_nul s j

pub get_or_past : (s : Bytes) (i d : ℕ) → length s ≤ i → get_or s i d ≡ d
get_or_past [] i d h = refl
get_or_past (c ∷ s) zero d h = absurd (omega arith)
get_or_past (c ∷ s) (suc i) d h = get_or_past s i d (omega arith)

pub get_or-ne_zero : (s j : Bytes) (i : ℕ) → IsText s → i < length s → get_or (s ++ 0 ∷ j) i 0 ≢ 0
get_or-ne_zero [] j i h lt = absurd (omega arith)
get_or-ne_zero (c ∷ s) j zero h lt = h.0
get_or-ne_zero (c ∷ s) j (suc i) h lt = get_or-ne_zero s j i h.1 (omega arith)
