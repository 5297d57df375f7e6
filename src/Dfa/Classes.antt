-- ===== src/Dfa/Classes.antt =====
-- The table `yy_ec` of lex.yy.c, against the rules of lex.c.
use opencli.Base.{
  ℕ, zero, suc, ◌+◌, ◌<◌, ◌≤◌, ◌≡◌, ◌≢◌, refl, inl, inr, Bool, true, ◌&&◌, ◌||◌, not, ◌==◌, ltb,
  if◌then◌else◌, Bool-cases, arith, get_or,
}
use opencli.Lexer.{is_word, is_special}
use opencli.Dfa.{yy_ec}

-- A test of the numbers from `i`, `n` of them.
abbrev holds_from : ℕ → ℕ → (ℕ → Bool) → Bool
holds_from zero i p = true
holds_from (suc n) i p = p i && holds_from n (suc i) p

pub holds_from-test :
    (n i c : ℕ) (p : ℕ → Bool) → holds_from n i p ≡ true → i ≤ c → c < i + n → p c ≡ true
holds_from-test zero i c p h lo hi = absurd (omega arith)
holds_from-test (suc n) i c p h lo hi = elim (Bool-cases (i == c)) [
  | inl e ↦ ground (arith)
  | inr e ↦ ground (arith, holds_from-test n (suc i) c p)
]

-- What the rules of lex.c say of a byte: 0 is the end of the buffer.
unfoldable pub class : ℕ → ℕ
class c =
    if c == 0
    then 0
    else if c == b'\n'
    then 3
    else if c == b'\r'
    then 4
    else if c == b'\t' || c == b' '
    then 2
    else if is_special c
    then 5
    else if is_word c
    then 6
    else 1

all_bytes : holds_from 256 0 (λ k. get_or yy_ec k 0 == class k) ≡ true
unfolding class is_word is_special
all_bytes = refl

-- The table has for each byte the class that the rules give it.
pub yy_ec-class : (c : ℕ) → c < 256 → get_or yy_ec c 0 ≡ class c
yy_ec-class c h =
    ground
      (arith, holds_from-test 256 0 c (λ k. get_or yy_ec k 0 == class k) all_bytes (omega arith))

abbrev iff : Bool → Bool → Bool
iff a b = if a then b else not b

iff-≡ : (a b : Bool) → iff a b ≡ true → a ≡ b
iff-≡ a b h = ground arith

all_word : holds_from 256 0 (λ k. iff (is_word k) (class k == 6)) ≡ true
unfolding class is_word is_special
all_word = refl

all_special : holds_from 256 0 (λ k. iff (is_special k) (class k == 5)) ≡ true
unfolding class is_word is_special
all_special = refl

all_return : holds_from 256 0 (λ k. iff (k == b'\r') (class k == 4)) ≡ true
unfolding class is_word is_special
all_return = refl

all_low : holds_from 256 0 (λ k. ltb (class k) 7) ≡ true
unfolding class is_word is_special
all_low = refl

-- The tests of the rules, by the class.
pub is_word-class : (c : ℕ) → c < 256 → is_word c ≡ (class c == 6)
is_word-class c h =
    iff-≡ (is_word c) (class c == 6)
      (holds_from-test 256 0 c (λ k. iff (is_word k) (class k == 6)) all_word (omega arith) h)

pub is_special-class : (c : ℕ) → c < 256 → is_special c ≡ (class c == 5)
is_special-class c h =
    iff-≡ (is_special c) (class c == 5)
      (holds_from-test 256 0 c (λ k. iff (is_special k) (class k == 5)) all_special (omega arith) h)

pub return-class : (c : ℕ) → c < 256 → (c == b'\r') ≡ (class c == 4)
return-class c h =
    iff-≡ (c == b'\r') (class c == 4)
      (holds_from-test 256 0 c (λ k. iff (k == b'\r') (class k == 4)) all_return (omega arith) h)

pub class-lt : (c : ℕ) → c < 256 → class c < 7
class-lt c h =
    ground (arith, holds_from-test 256 0 c (λ k. ltb (class k) 7) all_low (omega arith) h)

pub class-nonzero : (c : ℕ) → c ≢ 0 → class c ≢ 0
unfolding class
class-nonzero c h = ground arith
