-- ===== src/Timers/Due.antt =====
-- `increment_time` of timers.c.
use opencli.Base.{
  ℕ, zero, suc, ◌+◌, ◌%◌, ◌^◌, ◌<◌, ◌≤◌, ◌≡◌, refl, ◌↔◌, ap, ◌∙◌, inl, inr, true, false, Bool-cases,
  some, List, [], ◌∷◌, ◌++◌, ◌==◌, arith, All, length,
}
use opencli.Links.{Store, list_del}
use opencli.Links.Ring.{Chain}
use opencli.Links.Cut.{list_del-Ring}
use opencli.Timers.{Timers, timers, time_before, clear_use, fire, run_due, increment_time}
use opencli.Timers.Add.{Queue, head_or, time_after-ltb, All-lt}

time_before-lt : (a b : ℕ) → a < 2 ^ 63 → b < 2 ^ 63 → (time_before a b ≡ true) ↔ (a < b)
unfolding time_before
time_before-lt a b ha hb = time_after-ltb b a hb ha

next-head_or :
    (links : Store) (t : ℕ) (l : List ℕ)
    → Chain links (t ∷ l ++ timers ∷ [])
    → links.next t ≡ head_or l timers
next-head_or links t [] h = h.0
next-head_or links t (b ∷ l) h = h.0

module _ {W : Type 0} (call : ℕ → Timers W → Timers W) where
  -- The functions of the timers do not work on the timers and the clock.
  pub record Quiet : Type 0 where
    pub links : (t : ℕ) (s : Timers W) → (call t s).links ≡ s.links
    pub expires : (t : ℕ) (s : Timers W) → (call t s).expires ≡ s.expires
    pub jiffies : (t : ℕ) (s : Timers W) → (call t s).jiffies ≡ s.jiffies

  -- The timers of a list taken out and run, one after another.
  abbrev pub fire_all : List ℕ → Timers W → Timers W
  fire_all [] s = s
  fire_all (t ∷ l) s = fire_all l (fire call t s)

  fire-Queue :
      (s : Timers W) (t : ℕ) (l : List ℕ) → Quiet → Queue s (t ∷ l) → Queue (fire call t s) l
  unfolding fire clear_use
  fire-Queue s t l quiet q =
      let s' : Timers W = clear_use t (record s { links = list_del s.links t }) in
      record {
        ring = rw (quiet.links t s') (list_del-Ring s.links t timers [] l q.ring);
        sorted = rw (quiet.expires t s') q.sorted.1;
        near = rw (quiet.expires t s') q.near.1;
      }

  fire-expires : (s : Timers W) (t : ℕ) → Quiet → (fire call t s).expires ≡ s.expires
  unfolding fire clear_use
  fire-expires s t quiet = quiet.expires t (clear_use t (record s { links = list_del s.links t }))

  fire-jiffies : (s : Timers W) (t : ℕ) → Quiet → (fire call t s).jiffies ≡ s.jiffies
  unfolding fire clear_use
  fire-jiffies s t quiet = quiet.jiffies t (clear_use t (record s { links = list_del s.links t }))

  -- The rounds from the first timer that is left.
  run_due-Queue :
      (fuel now i : ℕ) (s : Timers W) (l : List ℕ)
      → Quiet
      → Queue s l
      → i ≡ head_or l timers
      → s.jiffies ≡ now
      → now < 2 ^ 63
      → length l < fuel
      → (due later : List ℕ) × (l ≡ due ++ later)
        × (run_due call fuel i s ≡ some (fire_all due s))
        × Queue (fire_all due s) later
        × All (λ t. s.expires t ≤ now) due
        × All (λ t. now < s.expires t) later
  unfolding run_due
  run_due-Queue zero now i s l quiet q hi hj hn hf = absurd (omega arith)
  run_due-Queue (suc fuel) now i s [] quiet q hi hj hn hf =
      ([], [], refl, rw (run_due, hi) refl, q, tt, tt)
  run_due-Queue (suc fuel) now i s (t ∷ l) quiet q hi hj hn hf =
      let inner : t == timers ≡ false = ground (arith, q.ring.distinct.0.0) in
      elim (Bool-cases (time_before s.jiffies (s.expires t))) [
        | inl e ↦
            let behind : now < s.expires t =
              ground (arith, time_before-lt s.jiffies (s.expires t) (rw hj hn) q.near.0) in
            (
              [],
              t ∷ l,
              refl,
              rw (run_due, hi, inner, e) refl,
              q,
              tt,
              (behind, All-lt s.expires now (s.expires t) l behind q.sorted.0),
            )
        | inr e ↦
            let reached : s.expires t ≤ now =
              ground (arith, time_before-lt s.jiffies (s.expires t) (rw hj hn) q.near.0) in
            let same = fire-expires s t quiet in
            let (due, later, split, eq, queue, before, behind) =
              run_due-Queue fuel now (s.links.next t) (fire call t s) l quiet
                (fire-Queue s t l quiet q) (next-head_or s.links t l q.ring.chain.2)
                (fire-jiffies s t quiet ∙ hj) hn (omega arith) in
            (
              t ∷ due,
              later,
              ap (◌∷◌ t) split,
              rw (run_due, hi, inner, e) eq,
              queue,
              (reached, rw same at before),
              rw same at behind,
            )
      ]

  -- `increment_time` runs the timers that the new time has reached, from the first to expire to the
  -- last, and no other, and those that are left are a sorted list, when the functions of the timers
  -- leave the timers and the clock alone, and neither an expiry nor the new time is 2 ^ 63 or more; a
  -- round for each timer and one more are enough.
  pub increment_time-Queue :
      (s : Timers W) (inc fuel : ℕ) (l : List ℕ)
      → Quiet
      → Queue s l
      → s.jiffies + inc < 2 ^ 63
      → length l < fuel
      → (due later : List ℕ) × (l ≡ due ++ later)
        × (increment_time call fuel s inc
            ≡ some (fire_all due (record s { jiffies = s.jiffies + inc })))
        × Queue (fire_all due (record s { jiffies = s.jiffies + inc })) later
        × All (λ t. s.expires t ≤ s.jiffies + inc) due
        × All (λ t. s.jiffies + inc < s.expires t) later
  unfolding increment_time
  increment_time-Queue s inc fuel l quiet q hn hf =
      let wraps : (s.jiffies + inc) % 2 ^ 64 ≡ s.jiffies + inc = omega arith in
      let s' : Timers W = record s { jiffies = s.jiffies + inc } in
      let (due, later, split, eq, queue, before, behind) =
        run_due-Queue fuel (s.jiffies + inc) (s.links.next timers) s' l quiet
          (record { ring = q.ring; sorted = q.sorted; near = q.near })
          (next-head_or s.links timers l q.ring.chain) refl hn hf in
      (due, later, split, rw (increment_time, wraps) eq, queue, before, behind)
