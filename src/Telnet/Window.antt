-- ===== src/Telnet/Window.antt =====
-- The window size option of `telnet_cmd` and `hdl_iac_sb` of vty.c.
use opencli.Base.{
  Bool-cases, inl, inr, ℕ, zero, suc, ◌+◌, ◌-◌, ◌*◌, ◌^◌, ◌<◌, ◌≤◌, ◌≡◌, ◌≢◌, refl, sym, ◌∙◌, ap,
  Bool, true, false, [], ◌∷◌, arith, ◌==◌, ==_iff, if◌then◌else◌, Bytes, length, length-set,
}
use opencli.Telnet.{
  Telnet, OptState, idle, in_iac, in_sb, in_se, iac, sb, se, sb_size, telopt_naws, two_chars,
  sb_add, sb_clear, hdl_iac_sb, telnet_in, telnet_cmd,
}

-- `sb_ptr` stays within `sb_buff`.
pub record IsSafe (t : Telnet) : Type 0 where
  pub size : length t.sb_buff ≡ sb_size
  pub within : t.sb_ptr ≤ sb_size

sb_add-IsSafe : {t : Telnet} (c : ℕ) → IsSafe t → IsSafe (sb_add t c)
unfolding sb_add
sb_add-IsSafe {t} c s = ground (arith, length-set t.sb_buff t.sb_ptr c)

hdl_iac_sb-IsSafe : {t : Telnet} → IsSafe t → IsSafe (hdl_iac_sb t)
unfolding hdl_iac_sb
hdl_iac_sb-IsSafe {t} s = ground arith

telnet_in-IsSafe : (o : OptState) {t : Telnet} (c : ℕ) → IsSafe t → IsSafe (telnet_in o t c).0
unfolding telnet_in sb_clear
telnet_in-IsSafe idle {t} c s = ground arith
telnet_in-IsSafe in_iac {t} c s = ground arith
telnet_in-IsSafe in_sb {t} c s = ground (arith, sb_add-IsSafe {t = t} c s)
telnet_in-IsSafe in_se {t} c s =
    let again : IsSafe (record t { state = in_sb }) = record { size = s.size; within = s.within } in
    ground
      (arith, sb_add-IsSafe {t = record t { state = in_sb }} c again, hdl_iac_sb-IsSafe {t = t} s)

telnet_cmd_in : (t : Telnet) (c : ℕ) → telnet_cmd t c ≡ telnet_in t.state t c
unfolding telnet_cmd
telnet_cmd_in t c = refl

-- From a state whose pointer is within `sb_buff` no byte makes the machine write beyond it.
pub telnet_cmd-IsSafe : {t : Telnet} (c : ℕ) → IsSafe t → IsSafe (telnet_cmd t c).0
telnet_cmd-IsSafe {t} c s = rw (telnet_cmd_in t c) (telnet_in-IsSafe t.state c s)

-- The machine over a run of bytes, and the bytes of input among them.
unfoldable pub telnet_run : Telnet → Bytes → Telnet × Bytes
telnet_run t [] = (t, [])
telnet_run t (c ∷ cs) =
    let (t', out) = telnet_run (telnet_cmd t c).0 cs in
    if (telnet_cmd t c).1 then (t', out) else (t', c ∷ out)

-- A test on all pairs of 7-bit numbers.
row : (ℕ → Bool) → ℕ → Bool
row test zero = true
row test (suc n) = let rest = row test n in if test n then rest else false

row-at : (test : ℕ → Bool) (n : ℕ) → row test n ≡ true → (x : ℕ) → x < n → test x ≡ true
unfolding row
row-at test zero passed x lt = absurd (omega arith)
row-at test (suc n) passed x lt = elim (Bool-cases (x == n)) [
  | inl last ↦ ground arith
  | inr other ↦ row-at test n (ground arith) x (ground arith)
]

grid : (ℕ → ℕ → Bool) → Bool
grid test = row (λ hi. row (test hi) 128) 128

grid-at :
    (test : ℕ → ℕ → Bool) → grid test ≡ true → (hi lo : ℕ) → hi < 128 → lo < 128 → test hi lo ≡ true
unfolding grid
grid-at test passed hi lo h k =
    row-at (test hi) 128 (row-at (λ i. row (test i) 128) 128 passed hi h) lo k

small_grid : grid (λ hi lo. two_chars hi lo == hi * 256 + lo) ≡ true
unfolding grid row two_chars
small_grid = refl

negative_grid : grid (λ hi k. two_chars hi (k + 128) == k + 2 ^ 32 - 128) ≡ true
unfolding grid row two_chars
negative_grid = refl

pub two_chars_small : (hi lo : ℕ) → hi < 128 → lo < 128 → two_chars hi lo ≡ hi * 256 + lo
two_chars_small hi lo h k = (==_iff _ _).0 (grid-at _ small_grid hi lo h k)

pub two_chars_negative :
    (hi lo : ℕ) → hi < 128 → 128 ≤ lo → lo < 256 → two_chars hi lo ≡ lo + 2 ^ 32 - 256
two_chars_negative hi lo h ge lt =
    let k = lo - 128 in
    let at : k + 128 ≡ lo = omega arith in
    let found : two_chars hi (k + 128) ≡ k + 2 ^ 32 - 128 =
      (==_iff _ _).0 (grid-at _ negative_grid hi k h (omega arith)) in
    let same : k + 2 ^ 32 - 128 ≡ lo + 2 ^ 32 - 256 = omega arith in
    ap (two_chars hi) (sym at) ∙ found ∙ same

abbrev pub naws : ℕ → ℕ → ℕ → ℕ → Bytes
naws a b c d = iac ∷ sb ∷ telopt_naws ∷ a ∷ b ∷ c ∷ d ∷ iac ∷ se ∷ []

abbrev machine : Bytes → ℕ → OptState → ℕ → ℕ → Telnet
machine buf p o w h = record { sb_buff = buf; sb_ptr = p; state = o; w_width = w; w_height = h }

five_of :
    (buf : Bytes)
    → 5 ≤ length buf
    → (x0 : ℕ) × (x1 : ℕ) × (x2 : ℕ) × (x3 : ℕ) × (x4 : ℕ) × (rest : Bytes) × (buf
        ≡ x0 ∷ x1 ∷ x2 ∷ x3 ∷ x4 ∷ rest)
five_of (x0 ∷ x1 ∷ x2 ∷ x3 ∷ x4 ∷ rest) h = (x0, x1, x2, x3, x4, rest, refl)
five_of [] h = absurd (omega arith)
five_of (x0 ∷ []) h = absurd (omega arith)
five_of (x0 ∷ x1 ∷ []) h = absurd (omega arith)
five_of (x0 ∷ x1 ∷ x2 ∷ []) h = absurd (omega arith)
five_of (x0 ∷ x1 ∷ x2 ∷ x3 ∷ []) h = absurd (omega arith)

naws_run :
    (x0 x1 x2 x3 x4 : ℕ) (rest : Bytes) (p w h a b c d : ℕ)
    → a ≢ iac
    → b ≢ iac
    → c ≢ iac
    → d ≢ iac
    → telnet_run (machine (x0 ∷ x1 ∷ x2 ∷ x3 ∷ x4 ∷ rest) p idle w h) (naws a b c d)
      ≡ (machine (telopt_naws ∷ a ∷ b ∷ c ∷ d ∷ rest) 5 idle (two_chars a b) (two_chars c d), [])
unfolding telnet_run telnet_cmd
naws_run x0 x1 x2 x3 x4 rest p w h a b c d na nb nc nd =
    let ea : (a == iac) ≡ false = ground arith in
    let eb : (b == iac) ≡ false = ground arith in
    let ec : (c == iac) ≡ false = ground arith in
    let ed : (d == iac) ≡ false = ground arith in rw ea (rw eb (rw ec (rw ed)))

module _ {t : Telnet} (s : IsSafe t) (fresh : t.state ≡ idle) where
  -- A window size option whose bytes are no `IAC` is carried out whole from the first state: no byte
  -- of it is input, the width and the height are set, and the machine is back in its first state.
  pub naws-two_chars :
      (a b c d : ℕ)
      → a ≢ iac
      → b ≢ iac
      → c ≢ iac
      → d ≢ iac
      → let (t', out) = telnet_run t (naws a b c d) in
        (out ≡ [])
        × (t'.state ≡ idle)
        × (t'.w_width ≡ two_chars a b)
        × (t'.w_height ≡ two_chars c d)
  naws-two_chars a b c d na nb nc nd =
      let (x0, x1, x2, x3, x4, rest, e) = five_of t.sb_buff (omega (arith, s.size)) in
      let ran = naws_run x0 x1 x2 x3 x4 rest t.sb_ptr t.w_width t.w_height a b c d na nb nc nd in
      let buf : Bytes = x0 ∷ x1 ∷ x2 ∷ x3 ∷ x4 ∷ rest in
      let is : t ≡ machine buf t.sb_ptr idle t.w_width t.w_height = λ i. record {
        sb_buff = e i;
        sb_ptr = t.sb_ptr;
        state = fresh i;
        w_width = t.w_width;
        w_height = t.w_height;
      } in
      let whole = ap (λ m. telnet_run m (naws a b c d)) is ∙ ran in
      (
        ap (λ q. q.1) whole,
        ap (λ q. q.0.state) whole,
        ap (λ q. q.0.w_width) whole,
        ap (λ q. q.0.w_height) whole,
      )

  -- In the first state, window sizes whose bytes are below 128 arrive as they are.
  pub naws_small :
      (a b c d : ℕ)
      → a < 128
      → b < 128
      → c < 128
      → d < 128
      → let t' = (telnet_run t (naws a b c d)).0 in
        (t'.w_width ≡ a * 256 + b) × (t'.w_height ≡ c * 256 + d)
  naws_small a b c d la lb lc ld =
      let all = naws-two_chars a b c d (omega arith) (omega arith) (omega arith) (omega arith) in
      (all.2 ∙ two_chars_small a b la lb, all.3 ∙ two_chars_small c d lc ld)

  -- In the first state, a width whose low byte is from 128 to 254 arrives as a negative number, when
  -- the other bytes are below 128.
  pub naws_negative :
      (a b c d : ℕ)
      → a < 128
      → 128 ≤ b
      → b < 255
      → c < 128
      → d < 128
      → (telnet_run t (naws a b c d)).0.w_width ≡ 2 ^ 32 - (256 - b)
  naws_negative a b c d la ge lb lc ld =
      let all = naws-two_chars a b c d (omega arith) (omega arith) (omega arith) (omega arith) in
      let same : b + 2 ^ 32 - 256 ≡ 2 ^ 32 - (256 - b) = omega arith in
      all.2 ∙ two_chars_negative a b la ge (omega arith) ∙ same
