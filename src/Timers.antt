-- ===== src/Timers.antt =====
-- timers.c: the list of timers by their expiry, and the clock that runs them. A timer is its address,
-- which is that of its `entry`; `unsigned long` has 64 bits. A timer's function, `should_i_fail_once`
-- and the iteration macros are not in the repository: the first two are parameters.
pub mod Add
pub mod Due
pub mod Unused
mod Tests
use opencli.Base.{
  ℕ, zero, suc, ◌+◌, ◌-◌, ◌%◌, ◌^◌, Bool, true, false, Option, none, some, ◌==◌, ltb, leb,
  if◌then◌else◌,
}
use opencli.Links.{Store, list_del, list_add, list_add_tail}

-- The addresses of `__timers` and `__running_timers`.
abbrev pub timers : ℕ
timers = 1

abbrev pub running : ℕ
running = 2

-- The timers and the clock; `world` is what the functions of the timers work on.
pub record Timers (W : Type 0) : Type 0 where
  pub links : Store
  pub expires : ℕ → ℕ
  -- `timer->use`, which is not NULL.
  pub use_set : ℕ → Bool
  pub jiffies : ℕ
  pub world : W

-- `time_after(a, b)`: `(long)b - (long)a < 0`.
unfoldable pub time_after : ℕ → ℕ → Bool
time_after a b = leb (2 ^ 63) ((b + 2 ^ 64 - a) % 2 ^ 64)

unfoldable pub time_before : ℕ → ℕ → Bool
time_before a b = time_after b a

module _ {W : Type 0} where
  unfoldable pub clear_use : ℕ → Timers W → Timers W
  clear_use t s = record s { use_set = λ k. if k == t then false else s.use_set k }

  -- `__init_timer`, of which `use` is read later.
  unfoldable pub init_timer : Timers W → ℕ → Timers W
  unfolding clear_use
  init_timer s timer = clear_use timer s

  -- The loop of `__add_timer`: the first entry that expires behind `when`, or the head.
  unfoldable pub first_after : ℕ → Timers W → ℕ → ℕ → Option ℕ
  first_after zero s pos when = none
  first_after (suc fuel) s pos when =
      let rest = first_after fuel s (s.links.next pos) when in
      if pos == timers then some pos else if time_after (s.expires pos) when then some pos else rest

  -- `__add_timer`, with `fuel` rounds for its loop.
  unfoldable pub add_timer : ℕ → Timers W → ℕ → Option (Timers W)
  add_timer fuel s timer = elim (first_after fuel s (s.links.next timers) (s.expires timer)) [
    | none ↦ none
    | some at ↦ some (record s { links = list_add_tail s.links timer at })
  ]

  -- `__del_timer`, where `fails` is what `should_i_fail_once` answers.
  unfoldable pub del_timer : Bool → Timers W → ℕ → Timers W × ℕ
  unfolding clear_use
  del_timer fails s timer =
      if s.use_set timer
      then if fails
        then (record s { links = list_add (list_del s.links timer) timer running }, 0)
        else (clear_use timer (record s { links = list_del s.links timer }), 1)
      else (s, 0)

  unfoldable pub timer_pending : Timers W → ℕ → Bool
  timer_pending s timer = ltb s.jiffies (s.expires timer)

  -- `t->function(t->data)`
  module _ (call : ℕ → Timers W → Timers W) where
    -- The loop of `do_running_timers` from `t`, with `next` saved.
    unfoldable pub run_running : ℕ → ℕ → Timers W → Option (Timers W)
    run_running zero t s = none
    run_running (suc fuel) t s =
        let next = s.links.next t in
        let rest = run_running fuel next (call t (record s { links = list_del s.links t })) in
        if t == running then some s else rest

    -- The state, and whether it returned 0, not -1.
    unfoldable pub do_running_timers : ℕ → Timers W → Option (Timers W × Bool)
    do_running_timers fuel s = elim (run_running fuel (s.links.next running) s) [
      | none ↦ none
      | some s' ↦ some (s', if s.links.next running == running then false else true)
    ]

    -- The body of the loop of `increment_time`.
    unfoldable pub fire : ℕ → Timers W → Timers W
    unfolding clear_use
    fire t s = call t (clear_use t (record s { links = list_del s.links t }))

    unfoldable pub run_due : ℕ → ℕ → Timers W → Option (Timers W)
    run_due zero i s = none
    run_due (suc fuel) i s =
        let rest = run_due fuel (s.links.next i) (fire i s) in
        if i == timers then some s else if time_before s.jiffies (s.expires i) then some s else rest

    -- `increment_time`, with `fuel` rounds for its loop.
    unfoldable pub increment_time : ℕ → Timers W → ℕ → Option (Timers W)
    increment_time fuel s inc =
        run_due fuel (s.links.next timers) (record s { jiffies = (s.jiffies + inc) % 2 ^ 64 })
