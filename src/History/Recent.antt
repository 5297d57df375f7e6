-- ===== src/History/Recent.antt =====
-- `history_add` of vty.c, against a list of the last commands.
use opencli.Base.{
  ℕ, zero, suc, ◌+◌, ◌-◌, ◌<◌, ◌≤◌, ◌≡◌, refl, sym, ◌∙◌, ap, Bool, true, false, not, ◌||◌, Option,
  none, some, List, [], ◌∷◌, ◌++◌, map, arith, ltb, leb, if◌then◌else◌, Bool-cases, inl, inr, Bytes,
  get_or, set, drop, length, length-append, length-set, str_eq, append-nil,
}
use opencli.History.{
  History, max_history, is_emptyline, shift_down, history_del, repeats_last, append_entry,
  history_add,
}

-- `h` holds the commands `es`, the oldest first.
pub record Keeps (h : History) (es : List Bytes) : Type 0 where
  pub rest : List (Option Bytes)
  pub slots : h.history ≡ map some es ++ rest
  pub size : length h.history ≡ max_history
  pub count : h.len ≡ length es

abbrev pub last_is : List Bytes → Bytes → Bool
last_is [] cmd = false
last_is (e ∷ []) cmd = str_eq e cmd
last_is (e ∷ f ∷ es) cmd = last_is (f ∷ es) cmd

-- What a new command makes of the list.
abbrev pub remember : List Bytes → Bytes → List Bytes
remember es cmd =
    if is_emptyline cmd || last_is es cmd
    then es
    else (if leb max_history (length es) then drop 1 es else es) ++ cmd ∷ []

shift_down_step :
    (beyond : Option Bytes) (hist : List (Option Bytes)) (i j k : ℕ)
    → j ≡ i + 1
    → shift_down beyond hist i (suc k) ≡ shift_down beyond (set hist i (get_or hist j beyond)) j k
unfolding shift_down
shift_down_step beyond hist i j k e = rw e

shift_down-cons :
    (beyond y : Option Bytes) (hist : List (Option Bytes)) (i k : ℕ)
    → shift_down beyond (y ∷ hist) (suc i) k ≡ y ∷ shift_down beyond hist i k
shift_down-cons beyond y hist i zero = unfold shift_down in refl
shift_down-cons beyond y hist i (suc k) =
    shift_down_step beyond (y ∷ hist) (suc i) (suc (suc i)) k (omega arith)
    ∙ shift_down-cons beyond y (set hist i (get_or hist (suc i) beyond)) (suc i) k
    ∙ ap (◌∷◌ y) (sym (shift_down_step beyond hist i (suc i) k (omega arith)))

-- The loop moves every element one place down and puts what it found behind the array last.
shift_down-tail :
    (beyond x : Option Bytes) (hist : List (Option Bytes)) (n : ℕ)
    → n ≡ suc (length hist)
    → shift_down beyond (x ∷ hist) 0 n ≡ hist ++ beyond ∷ []
shift_down-tail beyond x hist zero e = absurd (omega arith)
shift_down-tail beyond x [] (suc n) e =
    let e' : n ≡ 0 = omega arith in rw e' (unfold shift_down in refl)
shift_down-tail beyond x (y ∷ hist) (suc n) e =
    shift_down_step beyond (x ∷ y ∷ hist) 0 1 n (omega arith)
    ∙ shift_down-cons beyond y (y ∷ hist) 0 n
    ∙ ap (◌∷◌ y) (shift_down-tail beyond y hist n (omega arith))

length-map : (es : List Bytes) → length (map some es) ≡ length es
length-map [] = refl
length-map (e ∷ es) = ap suc (length-map es)

map_snoc :
    (es : List Bytes) (cmd : Bytes) (rest : List (Option Bytes))
    → map some es ++ some cmd ∷ rest ≡ map some (es ++ cmd ∷ []) ++ rest
map_snoc [] cmd rest = refl
map_snoc (e ∷ es) cmd rest = ap (◌∷◌ (some e)) (map_snoc es cmd rest)

set_behind :
    (es : List Bytes) (cmd : Bytes) (r : Option Bytes) (rest : List (Option Bytes)) (n : ℕ)
    → n ≡ length es
    → set (map some es ++ r ∷ rest) n (some cmd) ≡ map some es ++ some cmd ∷ rest
set_behind [] cmd r rest n e = rw e
set_behind (x ∷ es) cmd r rest zero e = absurd (omega arith)
set_behind (x ∷ es) cmd r rest (suc n) e =
    ap (◌∷◌ (some x)) (set_behind es cmd r rest n (omega arith))

last_slot :
    (es : List Bytes) (e cmd : Bytes) (rest : List (Option Bytes)) (n : ℕ)
    → n ≡ length es
    → (s : Bytes) × (get_or (map some (e ∷ es) ++ rest) n none ≡ some s)
      × (last_is (e ∷ es) cmd ≡ str_eq s cmd)
last_slot [] e cmd rest n is = (e, rw is, refl)
last_slot (f ∷ es) e cmd rest zero is = absurd (omega arith)
last_slot (f ∷ es) e cmd rest (suc n) is = last_slot es f cmd rest n (omega arith)

repeats_last-last_is :
    {h : History} (es : List Bytes) (cmd : Bytes)
    → Keeps h es
    → repeats_last h cmd ≡ some (last_is es cmd)
unfolding repeats_last
repeats_last-last_is {h} [] cmd k =
    let none_yet : ltb 0 h.len ≡ false = ground (arith, k.count) in rw none_yet
repeats_last-last_is {h} (e ∷ es) cmd k =
    let some_yet : ltb 0 h.len ≡ true = ground (arith, k.count) in
    let (s, at, is) = last_slot es e cmd k.rest (h.len - 1) (omega (arith, k.count)) in
    rw (some_yet, k.slots, at, is)

Keeps-sizes :
    {h : History} {es : List Bytes} (k : Keeps h es) → length es + length k.rest ≡ max_history
Keeps-sizes {es} k =
    omega (arith, k.size, ap length k.slots, length-append (map some es) k.rest, length-map es)

append_at :
    (h : History) (es : List Bytes) (cmd : Bytes) (rest : List (Option Bytes))
    → h.history ≡ map some es ++ rest
    → length h.history ≡ max_history
    → h.len ≡ length es
    → length es < max_history
    → length es + length rest ≡ max_history
    → Keeps (append_entry h cmd) (es ++ cmd ∷ [])
unfolding append_entry
append_at h es cmd [] slots size count room sizes = absurd (omega arith)
append_at h es cmd (r ∷ rest) slots size count room sizes = record {
  rest = rest;
  slots = rw slots (set_behind es cmd r rest h.len count ∙ map_snoc es cmd rest);
  size = length-set h.history h.len (some cmd) ∙ size;
  count = omega (arith, count, length-append es (cmd ∷ []));
}

append-Keeps :
    {h : History} {es : List Bytes} (cmd : Bytes)
    → Keeps h es
    → length es < max_history
    → Keeps (append_entry h cmd) (es ++ cmd ∷ [])
append-Keeps {h} {es} cmd k room =
    append_at h es cmd k.rest k.slots k.size k.count room (Keeps-sizes k)

nil_of_zero : (xs : List (Option Bytes)) → length xs ≡ 0 → xs ≡ []
nil_of_zero [] e = refl
nil_of_zero (x ∷ xs) e = absurd (omega arith)

-- On a full history the oldest command goes, whatever stands behind the array.
del-Keeps :
    {h : History} (beyond : Option Bytes) (e : Bytes) (es : List Bytes)
    → Keeps h (e ∷ es)
    → max_history ≤ length (e ∷ es)
    → Keeps (history_del beyond h 0) es
unfolding history_del
del-Keeps {h} beyond e es k full =
    let sizes = Keeps-sizes k in
    let slots : h.history ≡ some e ∷ map some es =
      k.slots ∙ rw (nil_of_zero k.rest (omega (arith, sizes))) (append-nil _) in
    let moved : shift_down beyond h.history 0 max_history ≡ map some es ++ beyond ∷ [] = rw slots (
      shift_down-tail beyond (some e) (map some es) max_history
        (omega (arith, sizes, length-map es))) in
    record {
      rest = beyond ∷ [];
      slots = moved;
      size =
          ap length moved
          ∙ omega (arith, sizes, length-append (map some es) (beyond ∷ []), length-map es);
      count = omega (arith, k.count);
    }

-- The cut that makes room for one more.
abbrev trimmed : List Bytes → List Bytes
trimmed es = if leb max_history (length es) then drop 1 es else es

trim-Keeps :
    {h : History} (beyond : Option Bytes) (es : List Bytes)
    → Keeps h es
    → Keeps (if leb max_history h.len then history_del beyond h 0 else h) (trimmed es)
      × (length (trimmed es) < max_history)
trim-Keeps {h} beyond [] k =
    let e : leb max_history h.len ≡ false = ground (arith, k.count) in rw e (k, omega arith)
trim-Keeps {h} beyond (x ∷ es) k = elim (Bool-cases (leb max_history (length (x ∷ es)))) [
  | inl full ↦
      let e : leb max_history h.len ≡ true = ground (arith, k.count) in
      rw (e, full) (del-Keeps beyond x es k (ground arith), omega (arith, Keeps-sizes k))
  | inr room ↦
      let e : leb max_history h.len ≡ false = ground (arith, k.count) in
      rw (e, room) (k, ground arith)
]

-- What `history_add` answers: whether the command was new.
abbrev pub is_new : List Bytes → Bytes → Bool
is_new es cmd = not (is_emptyline cmd || last_is es cmd)

-- `history_add` never reads a NULL entry, and whatever stands behind the array, it makes the list of
-- the last ten commands out of the list before: a blank line and a repetition of the last command
-- change nothing, any other command goes last and ends a walk through the entries.
pub history_add-remember :
    {h : History} {es : List Bytes} (beyond : Option Bytes) (cmd : Bytes)
    → Keeps h es
    → (h' : History) × (history_add beyond h cmd ≡ some (h', is_new es cmd))
      × Keeps h' (remember es cmd)
      × (is_new es cmd ≡ true → h'.pos ≡ h'.len)
      × (is_new es cmd ≡ false → h' ≡ h)
unfolding history_add append_entry
history_add-remember {h} {es} beyond cmd k = elim (Bool-cases (is_emptyline cmd)) [
  | inl blank ↦ (h, rw blank, rw blank k, λ e. ground arith, λ e. refl)
  | inr text ↦ elim (Bool-cases (last_is es cmd)) [
    | inl same ↦ (
      h,
      rw (text, repeats_last-last_is es cmd k, same),
      rw (text, same) k,
      λ e. ground arith,
      λ e. refl,
    )
    | inr new ↦
        let (trim, room) = trim-Keeps beyond es k in
        (
          append_entry (if leb max_history h.len then history_del beyond h 0 else h) cmd,
          rw (text, repeats_last-last_is es cmd k, new),
          rw (text, new) (append-Keeps cmd trim room),
          λ _. refl,
          λ e. ground arith,
        )
  ]
]
