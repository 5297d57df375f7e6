-- ===== src/Route/Answer.antt =====
-- `nl_response_hld` of route.c: on the messages of an answer, and where `sk_recv` fails.
use opencli.Base.{
  ℕ, suc, ◌+◌, ◌-◌, ◌/◌, ◌%◌, ◌^◌, ◌<◌, ◌≤◌, ◌≡◌, ◌≢◌, refl, ap, true, none, some, List, [], ◌∷◌,
  ◌==◌, leb, arith, Bytes,
}
use opencli.Route.Message.{
  bufflen, nlmsg_size, Ret, negative, minus_one, value, nlmsg_len, nlmsg_type, nlmsg_flags,
  nlmsg_ok, returns, on_message, message_loop, nl_response_hld,
}

-- The `left` bytes from `h` on are messages at the offsets `hs`, none of them the end or an error.
abbrev pub Laid : Bytes → ℕ → ℕ → List ℕ → Type 0
Laid buff h left [] = left ≡ 0
Laid buff h left (m ∷ hs) =
    (m ≡ h)
    × (nlmsg_size ≤ nlmsg_len buff h)
    × (nlmsg_len buff h ≤ left)
    × (nlmsg_len buff h % 4 ≡ 0)
    × (nlmsg_type buff h ≢ 2)
    × (nlmsg_type buff h ≢ 3)
    × Laid buff (h + nlmsg_len buff h) (left - nlmsg_len buff h) hs

nlmsg_ok-true :
    (buff : Bytes) (h bcount : ℕ)
    → nlmsg_size ≤ nlmsg_len buff h
    → nlmsg_len buff h ≤ bcount
    → h + nlmsg_size ≤ bufflen
    → nlmsg_ok buff h bcount ≡ some true
unfolding nlmsg_ok
nlmsg_ok-true buff h bcount a b c =
    let p : leb nlmsg_size bcount ≡ true = ground arith in
    let q : leb (h + nlmsg_size) bufflen ≡ true = ground arith in
    let r : leb nlmsg_size (nlmsg_len buff h) ≡ true = ground arith in
    let s : leb (nlmsg_len buff h) bcount ≡ true = ground arith in rw (p, q, r, s) refl

module _ {S : Type 0} (handler : Bytes → ℕ → S → Ret × S) where
  -- The handler on one message after another, up to the first negative result.
  abbrev pub handle_all : Bytes → List ℕ → Ret → S → Ret × S
  handle_all buff [] ret s = (ret, s)
  handle_all buff (h ∷ hs) ret s = elim (handler buff h s).0 [
    | negative n ↦ (minus_one, (handler buff h s).1)
    | value n ↦ handle_all buff hs (value n) (handler buff h s).1
  ]

  pub handle_all-value :
      (buff : Bytes) (h : ℕ) (hs : List ℕ) (ret : Ret) (s s' : S) (n : ℕ)
      → handler buff h s ≡ (value n, s')
      → handle_all buff (h ∷ hs) ret s ≡ handle_all buff hs (value n) s'
  handle_all-value buff h hs ret s s' n e =
      let a : (handler buff h s).0 ≡ value n = ap (λ p. p.0) e in
      let b : (handler buff h s).1 ≡ s' = ap (λ p. p.1) e in
      rw (handle_all, a) (ap (handle_all buff hs (value n)) b)

  message_loop-done :
      (fuel : ℕ) (buff : Bytes) (bcount : ℕ) (s : S)
      → nlmsg_type buff 0 ≡ 3
      → nlmsg_size ≤ nlmsg_len buff 0
      → nlmsg_len buff 0 ≤ bcount
      → message_loop handler (suc fuel) buff 0 bcount (value 0) s ≡ some (value 0, s)
  unfolding message_loop on_message
  message_loop-done fuel buff bcount s end lo hi =
      let e = nlmsg_ok-true buff 0 bcount lo hi (omega arith) in
      let on : on_message handler buff 0 (value 0) s ≡ returns (value 0) s =
        rw (on_message, end) refl in
      rw (message_loop, e, on) refl

  -- Where `sk_recv` fails, the check of its result does not notice, since `bcount` is unsigned: when
  -- the stack holds what reads as the end of an answer, `nl_response_hld` returns 0.
  pub nl_response_hld-stale :
      (stack : Bytes) (s : S)
      → nlmsg_flags stack 0 / 32 % 2 ≡ 0
      → nlmsg_type stack 0 ≡ 3
      → nlmsg_size ≤ nlmsg_len stack 0
      → nlmsg_len stack 0 < 2 ^ 32
      → nl_response_hld handler stack none s ≡ some (value 0, s)
  unfolding nl_response_hld
  nl_response_hld-stale stack s whole end lo hi =
      let untruncated : nlmsg_flags stack 0 / 32 % 2 == 0 ≡ true = ground arith in
      let done = message_loop-done bufflen stack (2 ^ 64 - 1) s end lo (omega arith) in
      rw (nl_response_hld, untruncated) done
