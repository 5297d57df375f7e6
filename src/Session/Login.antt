-- ===== src/Session/Login.antt =====
-- `login` of vty.c, on the lines that are typed at its prompts. `none` is a session that waits for
-- the next line.
use opencli.Base.{
  ℕ, zero, suc, ◌+◌, ◌≡◌, ◌≢◌, ◌↔◌, refl, Bool, true, false, Option, none, some, List, [], ◌∷◌,
  arith, ◌==◌, if◌then◌else◌, Bool-cases, inl, inr, Bytes, str_eq, str_eq_iff,
}
use opencli.Command.Mode.{HostConfig, normal, ask_password}

module _ (crypt : Bytes → Bytes → Bytes) (global_conf : HostConfig) where
  -- `user_lookup(username) == 0`
  abbrev pub user_lookup : Bytes → Bool
  user_lookup username = str_eq username global_conf.username

  -- `login`, with the number of failures before: true for 0, false for -1. A line that is read into
  -- `username` may be the last one, and the password still to come.
  unfoldable pub login : ℕ → List Bytes → Option Bool
  login failed [] = none
  login failed ([] ∷ lines) = login failed lines
  login failed ((c ∷ name) ∷ []) =
      if user_lookup (c ∷ name) then none else if failed == 2 then some false else none
  login failed ((c ∷ name) ∷ passwd ∷ lines) =
      let unknown = login (failed + 1) (passwd ∷ lines) in
      let refused = login (failed + 1) lines in
      if user_lookup (c ∷ name)
      then if ask_password crypt global_conf normal passwd
        then some true
        else if failed == 2
        then some false
        else refused
      else if failed == 2
      then some false
      else unknown

  -- The lines get in, with `spare` failures at most: blank lines at the first prompt do not count, an
  -- unknown name or a wrong password does.
  pub data Admits : ℕ → List Bytes → Type 0 where
    blank : {spare : ℕ} {lines : List Bytes} → Admits spare lines → Admits spare ([] ∷ lines)
    stranger :
        {spare : ℕ} {lines : List Bytes} (name : Bytes)
        → name ≢ []
        → name ≢ global_conf.username
        → Admits spare lines
        → Admits (suc spare) (name ∷ lines)
    wrong :
        {spare : ℕ} {lines : List Bytes} (name passwd : Bytes)
        → name ≢ []
        → name ≡ global_conf.username
        → ask_password crypt global_conf normal passwd ≡ false
        → Admits spare lines
        → Admits (suc spare) (name ∷ passwd ∷ lines)
    right :
        {spare : ℕ} {lines : List Bytes} (name passwd : Bytes)
        → name ≢ []
        → name ≡ global_conf.username
        → ask_password crypt global_conf normal passwd ≡ true
        → Admits spare (name ∷ passwd ∷ lines)

  known : (name : Bytes) → name ≡ global_conf.username → user_lookup name ≡ true
  known name e = (str_eq_iff name global_conf.username).1 e

  unknown : (name : Bytes) → name ≢ global_conf.username → user_lookup name ≡ false
  unknown name ne = elim (Bool-cases (user_lookup name)) [
    | inl e ↦ absurd (ne ((str_eq_iff name global_conf.username).0 e))
    | inr e ↦ e
  ]

  not_yet : (failed spare : ℕ) → failed + suc spare ≡ 2 → (failed == 2) ≡ false
  not_yet failed spare sum = ground arith

  some_name : (c : ℕ) (name : Bytes) → ◌≢◌ {A = Bytes} (c ∷ name) []
  some_name c name e = absurd (ground arith)

  Admits-login :
      (failed spare : ℕ) (lines : List Bytes)
      → failed + spare ≡ 2
      → Admits spare lines
      → login failed lines ≡ some true
  unfolding login
  Admits-login failed spare lines sum (blank a) = Admits-login failed spare _ sum a
  Admits-login failed spare lines sum (stranger [] some_name other a) = absurd (some_name refl)
  Admits-login failed (suc spare) lines sum (stranger {lines = []} (c ∷ name) s other a) =
      elim a [ ]
  Admits-login failed (suc spare) lines sum (stranger {lines = p ∷ ps} (c ∷ name) s other a) =
      rw (unknown (c ∷ name) other, not_yet failed spare sum)
        (Admits-login (failed + 1) spare (p ∷ ps) (omega arith) a)
  Admits-login failed spare lines sum (wrong [] passwd s user w a) = absurd (s refl)
  Admits-login failed (suc spare) lines sum (wrong {lines = ls} (c ∷ name) passwd s user w a) =
      rw (known (c ∷ name) user, w, not_yet failed spare sum)
        (Admits-login (failed + 1) spare ls (omega arith) a)
  Admits-login failed spare lines sum (right [] passwd s user ok) = absurd (s refl)
  Admits-login failed spare lines sum (right (c ∷ name) passwd s user ok) =
      rw (known (c ∷ name) user, ok)

  -- What is left of `login` when a name or a password was refused.
  refused :
      (failed spare : ℕ) (lines : List Bytes) (P : Type 0)
      → failed + spare ≡ 2
      → (if failed == 2 then some false else login (failed + 1) lines) ≡ some true
      → ((k : ℕ) → spare ≡ suc k → login (failed + 1) lines ≡ some true → P)
      → P
  refused failed zero lines P sum e on =
      let all : failed ≡ 2 = omega arith in
      let e' : ◌≡◌ {A = Option Bool} (some false) (some true) = rw all at e in absurd (ground arith)
  refused failed (suc k) lines P sum e on = on k refl (rw (not_yet failed k sum) at e)

  login-Admits :
      (failed spare : ℕ) (lines : List Bytes)
      → failed + spare ≡ 2
      → login failed lines ≡ some true
      → Admits spare lines
  unfolding login
  login-Admits failed spare [] sum e = absurd (ground arith)
  login-Admits failed spare ([] ∷ lines) sum e = blank (login-Admits failed spare lines sum e)
  login-Admits failed spare ((c ∷ name) ∷ []) sum e =
      absurd (elim (Bool-cases (user_lookup (c ∷ name))) [
        | inl u ↦ let e' = rw u at e in cc
        | inr u ↦ elim (Bool-cases (failed == 2)) [
          | inl f ↦ let e' = rw (u, f) at e in ground arith
          | inr f ↦ let e' = rw (u, f) at e in cc
        ]
      ])
  login-Admits failed spare ((c ∷ name) ∷ passwd ∷ lines) sum e =
      elim (Bool-cases (user_lookup (c ∷ name))) [
        | inl u ↦
            let user = (str_eq_iff (c ∷ name) global_conf.username).0 u in
            elim (Bool-cases (ask_password crypt global_conf normal passwd)) [
              | inl a ↦ right (c ∷ name) passwd (some_name c name) user a
              | inr a ↦ refused failed spare lines _ sum (rw (u, a) at e) (λ k is rec. rw is (
                  wrong (c ∷ name) passwd (some_name c name) user a
                    (login-Admits (failed + 1) k lines (omega arith) rec)))
            ]
        | inr u ↦
            let other : ◌≢◌ {A = Bytes} (c ∷ name) global_conf.username =
              λ q. absurd (ground (arith, (known (c ∷ name) q))) in
            refused failed spare (passwd ∷ lines) _ sum (rw u at e) (λ k is rec. rw is (
              stranger (c ∷ name) (some_name c name) other
                (login-Admits (failed + 1) k (passwd ∷ lines) (omega arith) rec)))
      ]

  -- `login` lets a session in exactly when the lines typed give the name and its password before the
  -- third failure.
  pub login_iff : (lines : List Bytes) → (login 0 lines ≡ some true) ↔ Admits 2 lines
  login_iff lines = (login-Admits 0 2 lines refl, Admits-login 0 2 lines refl)
