-- ===== src/Session/Main.antt =====
-- vty.c: `init_vty`, and the loop of `vty_main` as a whole, from a session that `new_vty` has cleared.

use opencli.Base.{
  ℕ, ◌≡◌, refl, Bool, true, false, Option, none, some, [], ◌∷◌, arith, Bytes, codes, replicate, All,
  IsText,
}
use opencli.Line.{max_cmdline}
use opencli.Line.Zipper.{zipper}
use opencli.History.{max_history, history_clear}
use opencli.Key.{Vty, Next, again, broke, aborted, reset_vty, readline}
use opencli.Key.Typed.{IsPlainByte, Stored, Ready}
use opencli.Key.Ready.{edited-Ready}
use opencli.Key.Sound.{Sound, goes_on, breaks, aborts, reset_vty-Ready, readline-Sound}
use opencli.Session.Run.{World, Ran, done, waits, line_end, redraw, on_break_char}
use opencli.Session.Ends.{AtEnd-Typed, line_end-AtEnd}
use opencli.Session.Handlers.{GoesOn, finishes, waiting, Tame}
use opencli.Session.Loop.{HasRoom, on_break_char-GoesOn, redraw-Ready}

-- `M_ZERO(vty)` of `new_vty`. Pointers into buffers are NULL until `reset_vty` sets them.
abbrev pub cleared : Vty
cleared = record {
  line = record {
    hst_buff = replicate max_cmdline 0;
    rl_buff = replicate max_cmdline 0;
    old_buff = replicate max_cmdline 0;
    rl_index = 0;
    rl_ptr = 0;
    old_ptr = 0;
  };
  exec_h = record { history = replicate max_history none; len = 0; pos = 0 };
  conf_h = record { history = replicate max_history none; len = 0; pos = 0 };
  h_conf = false;
  mode = 0;
  esc_char = false;
  esc_term = false;
}

-- `init_vty`, for the members that are modelled.
unfoldable pub init_vty : Vty → Vty
init_vty v = record v { exec_h = history_clear v.exec_h; conf_h = history_clear v.conf_h; mode = 0 }

-- The bytes at which the `readline` of `vty_main` ends.
abbrev pub break_chars : Bytes
break_chars = b'\r' ∷ b'\t' ∷ b'?' ∷ []

-- Behind the break byte `c`, when what it leads to has run.
abbrev ran : Option Ran → ℕ → Option Next
ran none c = none
ran (some (done u)) c = some (broke u c)
ran (some (waits u)) c = some (again u [])

-- A round of the loop of `vty_main`, on the bytes that its `readline` reads. Behind CTRL_C, for which
-- `readline` returns -1, no handler is called.
unfoldable pub vty_round : World → Vty → Bytes → Option Next
vty_round w v cs = elim (readline break_chars true v cs) [
  | none ↦ none
  | some (again v' out) ↦ some (again v' out)
  | some (broke v' c) ↦ ran (on_break_char w c v') c
  | some (aborted v') ↦ some (aborted (redraw (line_end v')))
]

-- A tabulator ends `readline` in a line that has room for a completion.
pub record Rooms (v : Vty) (cs : Bytes) : Type 0 where
  pub at_tab : (u : Vty) → readline break_chars true v cs ≡ some (broke u b'\t') → HasRoom u.line

-- The states of a session between two calls of `readline`, where the bytes of the lines, of the prompts
-- of `login` and of those of `enable` are neither NUL nor percent signs, each tabulator found room, and
-- no interface had a hardware address of more than eight bytes.
pub data Reaches : Vty → Type 0 where
  starts : Reaches (reset_vty (init_vty cleared))
  -- A line at a prompt of `login`.
  prompts :
      (v v' : Vty) (doecho : Bool) (cs : Bytes) (c : ℕ)
      → Reaches v
      → IsText cs
      → All IsPlainByte cs
      → readline (codes "\r") doecho v cs ≡ some (broke v' c)
      → Reaches (reset_vty v')
  rounds :
      (w : World) (v v' : Vty) (cs : Bytes) (c : ℕ)
      → Reaches v
      → Tame w
      → IsText cs
      → All IsPlainByte cs
      → Rooms v cs
      → vty_round w v cs ≡ some (broke v' c)
      → Reaches v'
  cancels :
      (w : World) (v v' : Vty) (cs : Bytes)
      → Reaches v
      → Tame w
      → IsText cs
      → All IsPlainByte cs
      → Rooms v cs
      → vty_round w v cs ≡ some (aborted v')
      → Reaches v'

Sound-broke : {v : Vty} {c : ℕ} (o : Option Next) → Sound o → o ≡ some (broke v c) → Ready v
Sound-broke o (goes_on r) e = absurd (cc)
Sound-broke {v} {c} o (breaks {v = u} r) e = let same : u ≡ v = cc in rw same at r
Sound-broke o (aborts r) e = absurd (cc)

Sound-aborted : {v : Vty} (o : Option Next) → Sound o → o ≡ some (aborted v) → Ready v
Sound-aborted o (goes_on r) e = absurd (cc)
Sound-aborted o (breaks r) e = absurd (cc)
Sound-aborted {v} o (aborts {v = u} r) e = let same : u ≡ v = cc in rw same at r

cleared-Ready : Ready (init_vty cleared)
unfolding init_vty history_clear
cleared-Ready = record {
  typed = record {
    z = zipper [] [];
    holds = record {
      junk = replicate 127 0;
      layout = refl;
      size = refl;
      cursor = refl;
      count = refl;
      text_before = tt;
      text_after = tt;
    };
    plain = (tt, tt);
  };
  exec = empty;
  conf = empty;
  saved = λ lt. absurd (omega arith);
}
  where
    empty : Stored (record { history = replicate max_history none; len = 0; pos = 0 })
    empty = record {
      entries = [];
      keeps = record { rest = replicate max_history none; slots = refl; size = refl; count = refl };
      commands = tt;
      within = omega arith;
    }

ran-Sound : (o : Option Ran) (c : ℕ) → GoesOn o → Sound (ran o c)
ran-Sound o c (finishes r) = breaks r
ran-Sound o c (waiting r) = goes_on r

vty_round-Sound :
    (w : World) {v : Vty} (cs : Bytes)
    → Ready v
    → Tame w
    → IsText cs
    → All IsPlainByte cs
    → Rooms v cs
    → Sound (vty_round w v cs)
unfolding vty_round
vty_round-Sound w {v} cs r tame text plain rooms =
    after (readline break_chars true v cs) (readline-Sound break_chars true cs r text plain)
      rooms.at_tab
  where
    after :
        (o : Option Next)
        → Sound o
        → ((u : Vty) → o ≡ some (broke u b'\t') → HasRoom u.line)
        → Sound (elim o [
          | none ↦ none
          | some (again v' out) ↦ some (again v' out)
          | some (broke v' c) ↦ ran (on_break_char w c v') c
          | some (aborted v') ↦ some (aborted (redraw (line_end v')))
        ])
    after o (goes_on r) h = goes_on r
    after o (breaks {v = u} {c = c} r) h =
        ran-Sound _ c (on_break_char-GoesOn w c tame r (λ e. h u (rw e refl)))
    after o (aborts r) h =
        aborts (redraw-Ready (edited-Ready r (AtEnd-Typed (line_end-AtEnd r.typed)) refl))

Reaches-Ready : {v : Vty} → Reaches v → Ready v
Reaches-Ready starts = reset_vty-Ready cleared-Ready
Reaches-Ready (prompts v v' doecho cs c before text plain e) =
    reset_vty-Ready
      (Sound-broke _ (readline-Sound (codes "\r") doecho cs (Reaches-Ready before) text plain) e)
Reaches-Ready (rounds w v v' cs c before tame text plain rooms e) =
    Sound-broke _ (vty_round-Sound w cs (Reaches-Ready before) tame text plain rooms) e
Reaches-Ready (cancels w v v' cs before tame text plain rooms e) =
    Sound-aborted _ (vty_round-Sound w cs (Reaches-Ready before) tame text plain rooms) e

-- A session that has come from the cleared one through its login and rounds of the loop of
-- `vty_main` always has a next round that is defined and leaves, or waits with, a sound state, as
-- long as, in all these rounds and in the next, the bytes typed, at the prompts for passwords too,
-- are neither NUL nor percent signs, each tabulator finds room for a completion, and no interface
-- has a hardware address of more than eight bytes. The prompts between pages and the reading of the
-- kernel's answer for `show interfaces` are not part of it.
pub Reaches-Sound :
    (w : World) (v : Vty) (cs : Bytes)
    → Reaches v
    → Tame w
    → IsText cs
    → All IsPlainByte cs
    → Rooms v cs
    → Sound (vty_round w v cs)
Reaches-Sound w v cs before tame text plain rooms =
    vty_round-Sound w cs (Reaches-Ready before) tame text plain rooms
