-- ===== src/Output/Keys.antt =====
-- The prompts of `automore_output` in vty.c, on keys that ask for more.
use opencli.Base.{
  ℕ, suc, ◌≤◌, ◌≡◌, ◌≢◌, refl, ap, ◌∙◌, inl, inr, Bool, true, false, Bool-cases, ◌||◌, Option, some,
  List, [], ◌∷◌, ◌++◌, ◌==◌, arith, Bytes, All, length,
}
use opencli.Output.Pages.{shown, Shows, waits, whole, part, automore_output-Shows}
use opencli.Output.{
  text, More, MoreOpts, more_line, more_page, more_abort, send, prompt, ask_loop, ask_automore,
  count_line, automore_loop, automore_output, answered, int_minus,
}

-- A key that asks for another page or line.
abbrev pub IsMore : ℕ × ℕ → Type 0
IsMore (c, height) = (c == b' ' || c == b'Y' || c == b'y' || c == b'\r') ≡ true

-- There is a key left for every byte of the output.
abbrev Enough : List (ℕ × ℕ) → ℕ → Type 0
Enough keys n = All IsMore keys × (n ≤ length keys)

ask_loop-more :
    (keys : List (ℕ × ℕ)) (n : ℕ) (s : More)
    → Enough keys (suc n)
    → (s' : More) × (o : MoreOpts) × (ask_loop keys s ≡ some (s', o))
      × (o ≢ more_abort)
      × Enough s'.keys n
      × (s'.works ≡ s.works)
unfolding ask_loop prompt
ask_loop-more [] n s (more, enough) = absurd (omega (arith, enough))
ask_loop-more ((c, height) ∷ keys) n s (more, enough) =
    let s1 : More = record (prompt s) { keys = keys; w_height = height } in
    let no_help : c == b'?' ≡ false = ground (arith, more.0) in
    elim (Bool-cases (c == b' ' || c == b'Y' || c == b'y')) [
      | inl f ↦ (
        record s1 { ln_count = 0 },
        more_page,
        rw (ask_loop, no_help, f) refl,
        (λ z. cc),
        (more.1, omega arith),
        refl,
      )
      | inr f ↦
          let line : c == b'\r' ≡ true = ground (arith, more.0) in
          (
            record s1 { ln_count = int_minus height 2 },
            more_line,
            rw (ask_loop, no_help, f, line) refl,
            (λ z. cc),
            (more.1, omega arith),
            refl,
          )
    ]

ask_automore-more :
    (n : ℕ) (s : More)
    → Enough s.keys (suc n)
    → (s' : More) × (o : MoreOpts) × (ask_automore s ≡ some (s', o))
      × (o ≢ more_abort)
      × Enough s'.keys n
      × (s'.works ≡ s.works)
unfolding ask_automore
ask_automore-more n s enough = elim (Bool-cases (s.ln_count == 0)) [
  | inl e ↦ (
    s,
    more_page,
    rw (ask_automore, e) refl,
    (λ z. cc),
    (enough.0, omega (arith, enough.1)),
    refl,
  )
  | inr e ↦
      let (s', o, eq, ne, left, kept) = ask_loop-more s.keys n s enough in
      (s', o, rw (ask_automore, e) eq, ne, left, kept)
]

count_line-keys : (c : ℕ) (s : More) → (count_line c s).keys ≡ s.keys
unfolding count_line
count_line-keys c s = elim (Bool-cases (c == b'\n')) [ inl e ↦ rw e refl | inr e ↦ rw e refl ]

count_line-works : (c : ℕ) (s : More) → (count_line c s).works ≡ s.works
unfolding count_line
count_line-works c s = elim (Bool-cases (c == b'\n')) [ inl e ↦ rw e refl | inr e ↦ rw e refl ]

-- Every call of `sk_send_all` succeeds.
abbrev pub AllSent : (ℕ → Bool) → Type 0
AllSent works = (n : ℕ) → works n ≡ true

answered-more :
    (s : More) (o : MoreOpts) (rest : More → Option (More × Bool))
    → o ≢ more_abort
    → answered (some (s, o)) rest ≡ rest s
answered-more s more_page rest ne = refl
answered-more s more_line rest ne = refl
answered-more s more_abort rest ne = absurd (ne refl)

automore_loop-returns :
    (chunk aux : Bytes) (s : More)
    → Enough s.keys (length aux)
    → AllSent s.works
    → (s' : More) × (automore_loop chunk aux s ≡ some (s', true))
unfolding automore_loop send
automore_loop-returns chunk [] s enough sent =
    (send (text chunk) s, ap (λ b. some (send (text chunk) s, b)) (sent (length s.sends)))
automore_loop-returns chunk (c ∷ aux) s enough sent =
    let s1 = count_line c s in
    let chunk' = chunk ++ c ∷ [] in
    let sent1 : AllSent s1.works = rw (count_line-works c s) sent in
    let kept : Enough s1.keys (suc (length aux)) = rw (count_line-keys c s) enough in
    elim (Bool-cases (s1.ln_count == int_minus s1.w_height 1)) [
      | inl e ↦
          let (s2, o, eq, ne, left, same) =
            ask_automore-more (length aux) (send (text chunk') s1) kept in
          let (s3, done) = automore_loop-returns [] aux s2 left (rw same sent1) in
          (s3, rw (automore_loop, e, eq) (answered-more s2 o (automore_loop [] aux) ne ∙ done))
      | inr e ↦
          let (s3, done) =
            automore_loop-returns chunk' aux s1 (kept.0, omega (arith, kept.1)) sent1 in
          (s3, rw (automore_loop, e) done)
    ]

Shows-whole :
    (before buf : Bytes) (o : Option (More × Bool)) (s' : More)
    → Shows before buf o
    → o ≡ some (s', true)
    → shown s'.sends ≡ before ++ buf
Shows-whole before buf o s' waits h = absurd (cc)
Shows-whole before buf o s' (whole s last e f) h = let same : s ≡ s' = cc in rw same at e
Shows-whole before buf o s' (part s t rest e f g) h = absurd (cc)

-- When each key typed asks for more, there is one for every byte, and every call of `sk_send_all`
-- succeeds, `automore_output` shows the whole output and does not return -1.
pub automore_output-returns :
    (buf : Bytes) (s : More)
    → All IsMore s.keys
    → length buf ≤ length s.keys
    → AllSent s.works
    → (s' : More) × (automore_output buf s ≡ some (s', true))
      × (shown s'.sends ≡ shown s.sends ++ buf)
unfolding automore_output
automore_output-returns buf s more enough sent =
    let (s', done) = automore_loop-returns [] buf s (more, enough) sent in
    (
      s',
      done,
      Shows-whole (shown s.sends) buf (automore_output buf s) s' (automore_output-Shows buf s) done,
    )
