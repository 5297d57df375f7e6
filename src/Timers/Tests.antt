-- ===== src/Timers/Tests.antt =====
-- Three timers for timers.c: those at 10 and 11 are in the list, that at 12 is not.
use opencli.Base.{
  ℕ, ◌<◌, ◌≤◌, ◌≡◌, refl, false, true, if◌then◌else◌, ◌==◌, Option, some, none, List, [], ◌∷◌, ◌++◌,
  All, arith,
}
use opencli.Links.{put, list_add_tail, list_del}
use opencli.Timers.{
  Timers, time_after, time_before, first_after, add_timer, init_timer, del_timer, increment_time,
  run_due, fire, clear_use,
}
use opencli.Timers.Add.{Queue, add_timer-Queue}
use opencli.Timers.Due.{Quiet, fire_all, increment_time-Queue}
use opencli.Timers.Unused.{del_timer-unused}

abbrev clock : Timers (List ℕ)
clock = record {
  links = record {
    next = put (put (put (λ k. 0) 1 10) 10 11) 11 1;
    prev = put (put (put (λ k. 0) 1 11) 11 10) 10 1;
  };
  expires = λ k. if k == 10 then 5 else if k == 11 then 9 else 7;
  use_set = λ k. true;
  jiffies = 3;
  world = [];
}

-- A function that notes the timer.
abbrev note : ℕ → Timers (List ℕ) → Timers (List ℕ)
note t s = record s { world = s.world ++ t ∷ [] }

note-Quiet : Quiet note
note-Quiet = record { links = λ t s. refl; expires = λ t s. refl; jiffies = λ t s. refl }

clock-Queue : Queue clock (10 ∷ 11 ∷ [])
clock-Queue = record {
  ring = record { chain = (refl, refl, (refl, refl, (refl, refl, tt))); distinct = ground arith };
  sorted = ground arith;
  near = ground arith;
}

add_timer-Queue_example :
    (s' : Timers (List ℕ)) × (front back : List ℕ) × (add_timer 3 clock 12 ≡ some s')
    × (10 ∷ 11 ∷ [] ≡ front ++ back)
    × Queue s' (front ++ 12 ∷ back)
    × All (λ t. clock.expires t ≤ clock.expires 12) front
    × All (λ t. clock.expires 12 < clock.expires t) back
add_timer-Queue_example =
    add_timer-Queue clock 12 3 (10 ∷ 11 ∷ []) clock-Queue (ground arith) (ground arith)
      (ground arith)

increment_time-Queue_example :
    (due later : List ℕ) × (10 ∷ 11 ∷ [] ≡ due ++ later)
    × (increment_time note 3 clock 4 ≡ some (fire_all note due (record clock { jiffies = 7 })))
    × Queue (fire_all note due (record clock { jiffies = 7 })) later
    × All (λ t. clock.expires t ≤ 7) due
    × All (λ t. 7 < clock.expires t) later
increment_time-Queue_example =
    increment_time-Queue note clock 4 3 (10 ∷ 11 ∷ []) note-Quiet clock-Queue (ground arith)
      (ground arith)

abbrev world_of : Option (Timers (List ℕ)) → List ℕ
world_of (some s) = s.world
world_of none = []

test_increment : world_of (increment_time note 3 clock 6) ≡ 10 ∷ 11 ∷ []
unfolding increment_time run_due fire clear_use time_before time_after list_del
test_increment = refl

abbrev added : Timers (List ℕ)
added = record clock {
  links = list_add_tail clock.links 12 11;
  use_set = λ k. if k == 12 then false else true;
}

adds : add_timer 3 (init_timer clock 12) 12 ≡ some added
unfolding add_timer init_timer clear_use first_after time_after
adds = refl

del_timer-unused_example : del_timer false added 12 ≡ (added, 0)
del_timer-unused_example = del_timer-unused clock added 12 3 false adds
