-- ===== src/Route/Attributes.antt =====
-- The attributes of route.c as a sender lays them out, and what `RTA_DATA` and the like read of them.
use mathlib.Core.Option
use opencli.Base.{
  ℕ, zero, suc, ◌+◌, ◌-◌, ◌/◌, ◌%◌, ◌^◌, ◌<◌, ◌≤◌, ◌≡◌, refl, sym, ap, ◌∙◌, true, false, Option,
  none, some, List, [], ◌∷◌, ◌++◌, ◌==◌, leb, if◌then◌else◌, arith, Bytes, get_or, set, take, drop,
  length, replicate, length-append, length-replicate, append_assoc, get_or-drop, drop_next,
  drop_more,
}
use opencli.Route.{get_u16, align4, rta_size, rta_ok, clear_front, rta_data}

-- An attribute: its type and its payload.
pub record Attr : Type 0 where
  pub kind : ℕ
  pub payload : Bytes

pub record IsAttr (a : Attr) : Type 0 where
  pub short : length a.payload + rta_size < 2 ^ 16
  pub small : a.kind < 2 ^ 16

-- The bytes of an attribute, filled up to a multiple of four.
abbrev pub encode_one : Attr → Bytes
encode_one a =
    let len = length a.payload + rta_size in
    len % 256
    ∷ len / 256
    ∷ a.kind % 256
    ∷ a.kind / 256
    ∷ (a.payload ++ replicate (align4 len - len) 0)

abbrev pub encode : List Attr → Bytes
encode [] = []
encode (a ∷ attrs) = encode_one a ++ encode attrs

-- The payload of the last attribute of a type, or `before`.
abbrev pub last_payload : ℕ → List Attr → Option Bytes → Option Bytes
last_payload t [] before = before
last_payload t (a ∷ attrs) before =
    last_payload t attrs (if a.kind == t then some a.payload else before)

-- What `tb` says of the type `t`.
abbrev pub payload_of : Bytes → List (Option ℕ) → ℕ → Option Bytes
payload_of buf tb t = Option.map (rta_data buf) (get_or tb t none)

pub length-encode_one : (a : Attr) → length (encode_one a) ≡ align4 (length a.payload + rta_size)
length-encode_one a =
    let len = length a.payload + rta_size in
    omega (
      arith,
      length-append a.payload (replicate (align4 len - len) 0),
      length-replicate {A = ℕ} (align4 len - len) 0,
    )

take-append : (xs ys : Bytes) → take (length xs) (xs ++ ys) ≡ xs
take-append [] ys = refl
take-append (x ∷ xs) ys = ap (◌∷◌ x) (take-append xs ys)

pub get_or-set :
    (tb : List (Option ℕ)) (k t : ℕ) (v : Option ℕ)
    → k < length tb
    → get_or (set tb k v) t none ≡ (if k == t then v else get_or tb t none)
get_or-set [] k t v h = absurd (omega arith)
get_or-set (x ∷ tb) zero zero v h = refl
get_or-set (x ∷ tb) zero (suc t) v h = let e : 0 == suc t ≡ false = ground arith in rw e refl
get_or-set (x ∷ tb) (suc k) zero v h = let e : suc k == 0 ≡ false = ground arith in rw e refl
get_or-set (x ∷ tb) (suc k) (suc t) v h =
    let e : suc k == suc t ≡ (k == t) = ground arith in rw e (get_or-set tb k t v (omega arith))

drop-nil : (n : ℕ) → drop {A = Option ℕ} n [] ≡ []
drop-nil zero = refl
drop-nil (suc n) = refl

pub get_or-clear_front :
    (n t : ℕ) (tb : List (Option ℕ))
    → get_or (clear_front n tb) t none ≡ (if leb n t then get_or tb t none else none)
unfolding clear_front
get_or-clear_front zero t tb = let e : leb 0 t ≡ true = ground arith in rw e refl
get_or-clear_front (suc n) zero tb = let e : leb (suc n) 0 ≡ false = ground arith in rw e refl
get_or-clear_front (suc n) (suc t) [] =
    let e : leb (suc n) (suc t) ≡ leb n t = ground arith in
    let ih : get_or (replicate n none ++ []) t none ≡ (if leb n t then none else none) =
      ap (λ d. get_or (replicate n none ++ d) t none) (sym (drop-nil n))
      ∙ get_or-clear_front n t [] in
    rw e ih
get_or-clear_front (suc n) (suc t) (x ∷ tb) =
    let e : leb (suc n) (suc t) ≡ leb n t = ground arith in rw e (get_or-clear_front n t tb)

-- An attribute at the offset `p`.
module _ (buf : Bytes) (p : ℕ) (a : Attr) (rest : Bytes) (ok : IsAttr a)
    (here : drop p buf ≡ encode_one a ++ rest) where
  abbrev len : ℕ
  len = length a.payload + rta_size

  pub len_at : get_u16 buf p ≡ len
  unfolding get_u16
  len_at =
      let first = get_or-drop buf p (len % 256) _ here in
      let second = get_or-drop buf (p + 1) (len / 256) _ (drop_next buf p (len % 256) _ here) in
      omega (arith, first, second)

  pub kind_at : get_u16 buf (p + 2) ≡ a.kind
  unfolding get_u16
  kind_at =
      let at2 = drop_more (len % 256 ∷ len / 256 ∷ []) p buf _ here in
      let first = get_or-drop buf (p + 2) (a.kind % 256) _ at2 in
      let second = get_or-drop buf (p + 2 + 1) (a.kind / 256) _ (drop_next buf (p + 2) _ _ at2) in
      omega (arith, first, second)

  pub data_at : rta_data buf p ≡ a.payload
  unfolding rta_data
  data_at =
      let body =
        drop_more (len % 256 ∷ len / 256 ∷ a.kind % 256 ∷ a.kind / 256 ∷ []) p buf _ here
        ∙ append_assoc a.payload (replicate (align4 len - len) 0) rest in
      let size : get_u16 buf p - 4 ≡ length a.payload = omega (arith, len_at) in
      rw (size, body) (take-append a.payload _)

  pub next_at : drop (p + align4 len) buf ≡ rest
  next_at =
      ap (λ n. drop (p + n) buf) (sym (length-encode_one a))
      ∙ drop_more (encode_one a) p buf rest here

pub rta_ok-at :
    (buf : Bytes) (p size len : ℕ)
    → get_u16 buf p ≡ size
    → 4 ≤ size
    → size ≤ len
    → rta_ok buf p len ≡ true
unfolding rta_ok
rta_ok-at buf p size len h lo hi = ground arith
