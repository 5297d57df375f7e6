-- ===== src/Timers/Unused.antt =====
-- `__del_timer` of timers.c, on a timer that `__add_timer` put in.
use opencli.Base.{ℕ, ◌≡◌, refl, sym, ap, Bool, false, inl, inr, none, some, Option-cases, arith}
use opencli.Timers.{Timers, timers, init_timer, clear_use, first_after, add_timer, del_timer}

add_timer-use_set :
    {W : Type 0} (s s' : Timers W) (timer fuel : ℕ)
    → add_timer fuel s timer ≡ some s'
    → s'.use_set ≡ s.use_set
unfolding add_timer
add_timer-use_set s s' timer fuel h =
    elim (Option-cases (first_after fuel s (s.links.next timers) (s.expires timer))) [
      | inl e ↦ absurd (cc (rw (add_timer, e) at h))
      | inr (at, e) ↦
          let h' = rw (add_timer, e) at h in
          sym (ap (λ o. elim o [ none ↦ s.use_set | some t ↦ t.use_set ]) h')
    ]

-- A timer that was initialised and then added is not deleted: `__del_timer` returns 0 and changes
-- nothing, whatever `should_i_fail_once` answers.
pub del_timer-unused :
    {W : Type 0} (s s' : Timers W) (timer fuel : ℕ) (fails : Bool)
    → add_timer fuel (init_timer s timer) timer ≡ some s'
    → del_timer fails s' timer ≡ (s', 0)
unfolding del_timer init_timer clear_use
del_timer-unused s s' timer fuel fails h =
    let same = add_timer-use_set (init_timer s timer) s' timer fuel h in
    let unused : s'.use_set timer ≡ false = rw same (ground arith) in rw unused refl
