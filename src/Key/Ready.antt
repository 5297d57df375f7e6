-- ===== src/Key/Ready.antt =====
-- The walk through the history, from a sound state of a session of vty.c to another.
use mathlib.Core.Option
use opencli.Base.{
  ℕ, zero, suc, ◌+◌, ◌<◌, ◌≡◌, refl, Bool, true, false, Option, some, List, [], arith, ltb,
  Bool-cases, inl, inr, Bytes, All, cstr,
}
use opencli.Line.{Line}
use opencli.Line.Zipper.{text, Holds}
use opencli.Line.Everywhere.{reverse_onto-All}
use opencli.Line.Kept.{SameSaved}
use opencli.History.{History, history_next, history_prev}
use opencli.History.Walk.{IsCommand, Moves, at_end, line_at, history_next-Moves, history_prev-Moves}
use opencli.Key.{next, prev, Vty, h_ptr, put_history, press}
use opencli.History.Walk.{line_at-IsCommand}
use opencli.History.Stay.{history_next_stays, history_prev_stays}
use opencli.Key.Typed.{IsPlainByte, Typed, Stored, Ready, typed-IsCommand}

pub edited-Ready :
    {v : Vty} {l : Line} → Ready v → Typed l → SameSaved v.line l → Ready (record v { line = l })
edited-Ready {v} {l} r t same = record {
  typed = t;
  exec = r.exec;
  conf = r.conf;
  saved = λ lt. rw same (r.saved lt);
}

pub current : {v : Vty} → Ready v → Stored (h_ptr v)
current {v} r = elim (Bool-cases v.h_conf) [ inl e ↦ rw e r.conf | inr e ↦ rw e r.exec ]

-- The history and the line after a step of the walk.
pub walked-Ready :
    {v : Vty} (h : History) (l : Line)
    → Ready v
    → Typed l
    → Stored h
    → (h.pos < h.len → IsCommand (cstr l.hst_buff))
    → Ready (put_history v h l)
unfolding put_history
walked-Ready {v} h l r t s saved = elim (Bool-cases v.h_conf) [
  | inl e ↦ rw e record { typed = t; exec = r.exec; conf = s; saved = saved }
  | inr e ↦ rw e record { typed = t; exec = s; conf = r.conf; saved = saved }
]

at_end-Typed : {l : Line} (s : Bytes) → IsCommand s → Holds l (at_end s) → Typed l
at_end-Typed s c h = record {
  z = at_end s;
  holds = h;
  plain = (reverse_onto-All IsPlainByte s [] c.no_percent tt, tt);
}

-- A call that gave a result, in a sound state.
abbrev pub Gives : Option (Vty × Bool) → Type 0
Gives o = (v : Vty) × (ok : Bool) × (o ≡ some (v, ok)) × Ready v

pub Gives-edited :
    {v : Vty} (r : Line × Bool)
    → Ready v
    → Typed r.0
    → SameSaved v.line r.0
    → Gives (some (record v { line = r.0 }, r.1))
Gives-edited {v} r ready t same = (record v { line = r.0 }, r.1, refl, edited-Ready ready t same)

-- The call `f` of the history, with what it gives.
Gives-walked :
    (v : Vty) (o : Option (History × Line × Bool)) (h : History) (l : Line) (ok : Bool)
    → o ≡ some (h, l, ok)
    → Ready (put_history v h l)
    → Gives (Option.map (λ q. (put_history v q.0 q.1, q.2)) o)
Gives-walked v o h l ok e ready = (put_history v h l, ok, rw e, ready)

-- A step of the walk that goes on.
Gives-moved :
    {v : Vty} (es : List Bytes) (saved : Bytes) (p : ℕ) (o : Option (History × Line × Bool))
    → Ready v
    → All IsCommand es
    → IsCommand saved
    → Moves (h_ptr v) es saved p o
    → Gives (Option.map (λ q. (put_history v q.0 q.1, q.2)) o)
Gives-moved {v} es saved p o ready commands c m = Gives-walked v o m.h' m.v' true m.result (
    walked-Ready m.h' m.v' ready
      (at_end-Typed (line_at es saved p) (line_at-IsCommand es saved p commands c) m.line)
      record { entries = es; keeps = m.walks.keeps; commands = commands; within = m.walks.within }
      (λ lt. rw (m.walks.saved_line lt) c))

-- A step that leaves everything as it is.
pub Gives-stayed :
    {v : Vty} (o : Option (History × Line × Bool)) (ok : Bool)
    → Ready v
    → o ≡ some (h_ptr v, v.line, ok)
    → Gives (Option.map (λ q. (put_history v q.0 q.1, q.2)) o)
Gives-stayed {v} o ok ready e =
    Gives-walked v o (h_ptr v) v.line ok e
      (walked-Ready (h_ptr v) v.line ready ready.typed (current ready) ready.saved)

pub next-Gives : {v : Vty} → Ready v → Gives (press next v)
unfolding press
next-Gives {v} ready = go (h_ptr v).pos refl
  where
    go : (p : ℕ) → (h_ptr v).pos ≡ p → Gives (press next v)
    go zero e =
        Gives-stayed {v = v} (history_next (h_ptr v) v.line) false ready
          (history_next_stays (h_ptr v) v.line e)
    go (suc p) e =
        let s = current ready in
        let t = ready.typed in
        let step : (saved : Bytes)
            → IsCommand saved
            → ((h_ptr v).pos < (h_ptr v).len → cstr v.line.hst_buff ≡ saved)
            → ((h_ptr v).pos ≡ (h_ptr v).len → text t.z ≡ saved)
            → Gives (press next v) =
          λ saved c kept fresh.
            Gives-moved {v = v} s.entries saved p (history_next (h_ptr v) v.line) ready s.commands c
              (history_next-Moves {h = h_ptr v} {v = v.line} {z = t.z} s.entries saved s.commands c
                record { keeps = s.keeps; within = s.within; saved_line = kept } t.holds p e
                fresh) in
        elim (Bool-cases (ltb (h_ptr v).pos (h_ptr v).len)) [
          | inl inside ↦
              step (cstr v.line.hst_buff) (ready.saved (ground arith)) (λ _. refl)
                (λ top. absurd (ground arith))
          | inr top ↦ step (text t.z) (typed-IsCommand t) (λ lt. absurd (ground arith)) (λ _. refl)
        ]

pub prev-Gives : {v : Vty} → Ready v → Gives (press prev v)
unfolding press
prev-Gives {v} ready =
    let s = current ready in
    let t = ready.typed in
    elim (Bool-cases (ltb (h_ptr v).pos (h_ptr v).len)) [
      | inl inside ↦
          let lt : (h_ptr v).pos < (h_ptr v).len = ground arith in
          let saved = cstr v.line.hst_buff in
          Gives-moved {v = v} s.entries saved ((h_ptr v).pos + 1) (history_prev (h_ptr v) v.line)
            ready s.commands (ready.saved lt)
            (history_prev-Moves {h = h_ptr v} {v = v.line} {z = t.z} s.entries saved s.commands
              (ready.saved lt) record { keeps = s.keeps; within = s.within; saved_line = λ _. refl }
              t.holds lt)
      | inr top ↦
          let all : (h_ptr v).pos ≡ (h_ptr v).len = ground (arith, s.within) in
          Gives-stayed {v = v} (history_prev (h_ptr v) v.line) false ready
            (history_prev_stays (h_ptr v) v.line all)
    ]
