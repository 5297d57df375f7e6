-- ===== src/History/Stay.antt =====
-- `history_next` and `history_prev` of vty.c at the ends of the history.
use opencli.Base.{◌≡◌, refl, true, false, some, ◌==◌, arith}
use opencli.Line.{Line}
use opencli.History.{
  History, hist_get_next, history_next, history_prev, history_first, history_last,
}

-- At the first entry, and behind the last one, the keys ring the bell.
pub history_next_stays :
    (h : History) (v : Line) → h.pos ≡ 0 → history_next h v ≡ some (h, v, false)
unfolding history_next hist_get_next
history_next_stays h v e = rw e

pub history_prev_stays :
    (h : History) (v : Line) → h.pos ≡ h.len → history_prev h v ≡ some (h, v, false)
unfolding history_prev
history_prev_stays h v e = let e' : (h.pos == h.len) ≡ true = ground arith in rw e'

pub history_first_stays : (h : History) (v : Line) → history_first h v ≡ some (h, v, true)
unfolding history_first
history_first_stays h v = refl

pub history_last_stays : (h : History) (v : Line) → history_last h v ≡ some (h, v, true)
unfolding history_last
history_last_stays h v = refl
