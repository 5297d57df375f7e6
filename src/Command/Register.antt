-- ===== src/Command/Register.antt =====
-- `cmd_register` of commands.c, and the order of `strcmp`.
use opencli.Base.{
  ◌≡◌, refl, ap, true, false, List, [], ◌∷◌, ◌++◌, arith, Bool-cases, inl, inr, Bytes, All, str_lt,
}
use opencli.Command.{Spec, cmd_register}

-- `strcmp` orders strings.
str_lt_asym : (a b : Bytes) → str_lt a b ≡ true → str_lt b a ≡ false
str_lt_asym (x ∷ a) (y ∷ b) h = ground (arith, str_lt_asym a b)
str_lt_asym [] [] h = refl
str_lt_asym [] (y ∷ b) h = refl
str_lt_asym (x ∷ a) [] h = absurd (ground arith)

-- `a ≤ b` and `b ≤ c` give `a ≤ c`, where `x ≤ y` is `strcmp(y, x) >= 0`.
str_lt_trans : (a b c : Bytes) → str_lt b a ≡ false → str_lt c b ≡ false → str_lt c a ≡ false
str_lt_trans [] [] c h k = k
str_lt_trans [] (y ∷ b) [] h k = refl
str_lt_trans [] (y ∷ b) (z ∷ c) h k = refl
str_lt_trans (x ∷ a) [] c h k = absurd (ground arith)
str_lt_trans (x ∷ a) (y ∷ b) [] h k = absurd (ground arith)
str_lt_trans (x ∷ a) (y ∷ b) (z ∷ c) h k = ground (arith, str_lt_trans a b c)

module _ {C : Type 0} (spec : C → Spec) where
  -- `a` may stand in front of `b`.
  abbrev pub Before : C → C → Type 0
  Before a b = str_lt (spec b).cmda (spec a).cmda ≡ false

  -- Each command is in front of all that follow.
  abbrev pub IsSorted : List C → Type 0
  IsSorted [] = Unit
  IsSorted (c ∷ lst) = All (Before c) lst × IsSorted lst

  All-weaken : (a b : C) (lst : List C) → Before a b → All (Before b) lst → All (Before a) lst
  All-weaken a b [] le h = tt
  All-weaken a b (c ∷ lst) le h =
      (str_lt_trans (spec a).cmda (spec b).cmda (spec c).cmda le h.0, All-weaken a b lst le h.1)

  All-cmd_register :
      (P : C → Type 0) (cmd : C) (lst : List C)
      → P cmd
      → All P lst
      → All P (cmd_register spec cmd lst)
  unfolding cmd_register
  All-cmd_register P cmd [] p h = (p, tt)
  All-cmd_register P cmd (c ∷ lst) p h = elim (Bool-cases (str_lt (spec cmd).cmda (spec c).cmda)) [
    | inl e ↦ rw e (p, h)
    | inr e ↦ rw e (h.0, All-cmd_register P cmd lst p h.1)
  ]

  -- Registering a command keeps the list sorted by name.
  pub cmd_register-IsSorted :
      (cmd : C) (lst : List C) → IsSorted lst → IsSorted (cmd_register spec cmd lst)
  unfolding cmd_register
  cmd_register-IsSorted cmd [] h = (tt, tt)
  cmd_register-IsSorted cmd (c ∷ lst) h = elim (Bool-cases (str_lt (spec cmd).cmda (spec c).cmda)) [
    | inl e ↦
        let le = str_lt_asym (spec cmd).cmda (spec c).cmda e in
        rw e ((le, All-weaken cmd c lst le h.0), h)
    | inr e ↦ rw e (All-cmd_register (Before c) cmd lst e h.0, cmd_register-IsSorted cmd lst h.1)
  ]

  -- The commands in front of which `cmd` does not go.
  abbrev pub StaysBehind : C → C → Type 0
  StaysBehind cmd c = str_lt (spec cmd).cmda (spec c).cmda ≡ false

  -- `cmd` goes in front of what is left.
  abbrev pub GoesBefore : C → List C → Type 0
  GoesBefore cmd [] = Unit
  GoesBefore cmd (c ∷ lst) = str_lt (spec cmd).cmda (spec c).cmda ≡ true

  -- Registering a command takes the list apart at the first greater name, and changes nothing
  -- else: it goes behind the commands with names that are not greater, and in front of what follows.
  pub cmd_register_splits :
      (cmd : C) (lst : List C)
      → (front : List C) × (back : List C) × (lst ≡ front ++ back)
        × (cmd_register spec cmd lst ≡ front ++ cmd ∷ back)
        × All (StaysBehind cmd) front
        × GoesBefore cmd back
  unfolding cmd_register
  cmd_register_splits cmd [] = ([], [], refl, refl, tt, tt)
  cmd_register_splits cmd (c ∷ lst) =
      let (front, back, same, new, behind, ahead) = cmd_register_splits cmd lst in
      elim (Bool-cases (str_lt (spec cmd).cmda (spec c).cmda)) [
        | inl e ↦ ([], c ∷ lst, refl, rw e, tt, e)
        | inr e ↦ (c ∷ front, back, ap (◌∷◌ c) same, rw (e, new), (e, behind), ahead)
      ]
