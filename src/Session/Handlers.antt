-- ===== src/Session/Handlers.antt =====
-- The handlers of commands.c, from a sound state of a session: what they ask for and what they print.

use opencli.Base.{
  ℕ, zero, suc, ◌≤◌, ◌≡◌, refl, Bool, true, false, Option, none, some, List, [], ◌∷◌, arith, ◌==◌,
  ltb, Bool-cases, inl, inr, Bytes, All, IsText, length, cstr, codes, str_eq, if◌then◌else◌,
}
use opencli.Command.Table.{CmdId, cmd_enable, show_interfaces}
use opencli.Command.Mode.{ask_password}
use opencli.Interface.{Iface, if_lookup_by_name}
use opencli.Interface.Print.{print_haddr, haddr_size}
use opencli.Interface.Address.{print_haddr_fits}
use opencli.Key.{Vty, Next, again, broke, aborted, readline, reset_vty}
use opencli.Key.Typed.{IsPlainByte, Ready}
use opencli.Key.Sound.{Sound, goes_on, breaks, aborts, reset_vty-Ready, readline-Sound}
use opencli.Session.Run.{
  World, Ran, done, waits, ran_then, prompt_password, enabled, enable_loop, printed, all_fit,
  run_handler,
}

pub mode-Ready : {v : Vty} (m : ℕ) → Ready v → Ready (record v { mode = m })
mode-Ready m r = record { typed = r.typed; exec = r.exec; conf = r.conf; saved = r.saved }

-- A call that is defined and leaves a sound session, or waits with one.
pub data GoesOn : Option Ran → Type 0 where
  finishes : {v : Vty} → Ready v → GoesOn (some (done v))
  waiting : {v : Vty} → Ready v → GoesOn (some (waits v))

pub ran_then-GoesOn :
    (o : Option Ran) (k : Vty → Option Ran)
    → GoesOn o
    → ((v : Vty) → Ready v → GoesOn (k v))
    → GoesOn (ran_then o k)
ran_then-GoesOn o k (finishes {v = v} r) h = h v r
ran_then-GoesOn o k (waiting r) h = waiting r

-- What the world brings to a session: the bytes at the prompts are neither NUL nor a percent sign, and
-- no interface has a hardware address of more than eight bytes.
pub record Tame (w : World) : Type 0 where
  pub texts : (k : ℕ) → IsText (w.keys k)
  pub plain : (k : ℕ) → All IsPlainByte (w.keys k)
  pub addresses : All (λ ifa. length ifa.haddr ≤ 8) w.ifaces

all_fit-short : (l : List Iface) → All (λ ifa. length ifa.haddr ≤ 8) l → all_fit l ≡ true
unfolding all_fit
all_fit-short [] h = refl
all_fit-short (ifa ∷ l) h =
    let fits = (print_haddr_fits ifa.haddr).1 h.0 in
    let here : ltb (length (print_haddr ifa.haddr)) haddr_size ≡ true = ground arith in
    rw (here, all_fit-short l h.1) refl

printed-All :
    (P : Iface → Type 0) (argv : List Bytes) (l : List Iface) → All P l → All P (printed argv l)
unfolding printed if_lookup_by_name
printed-All P (a ∷ b ∷ name ∷ rest) l h = found_one name l h
  where
    found_one :
        (name : Bytes) (l : List Iface)
        → All P l
        → All P (elim (if_lookup_by_name name l) [ none ↦ [] | some ifa ↦ ifa ∷ [] ])
    found_one name [] h = tt
    found_one name (ifa ∷ l) h = elim (Bool-cases (str_eq ifa.name name)) [
      | inl e ↦ rw (if_lookup_by_name, e) (h.0, tt)
      | inr e ↦ rw (if_lookup_by_name, e) (found_one name l h.1)
    ]
printed-All P [] l h = h
printed-All P (a ∷ []) l h = h
printed-All P (a ∷ b ∷ []) l h = h

-- The prompts for passwords.
prompt_password-GoesOn :
    (w : World) (keys : Bytes) {v : Vty} (on : Bool → Vty → Option Ran)
    → IsText keys
    → All IsPlainByte keys
    → Ready v
    → ((ok : Bool) (u : Vty) → Ready u → GoesOn (on ok u))
    → GoesOn (prompt_password w keys v on)
unfolding prompt_password
prompt_password-GoesOn w keys {v} on text plain r h =
    answer (readline (codes "\r") false (reset_vty v) keys)
      (readline-Sound (codes "\r") false keys (reset_vty-Ready r) text plain)
  where
    answer :
        (o : Option Next)
        → Sound o
        → GoesOn (elim o [
          | none ↦ none
          | some (again u out) ↦ some (waits u)
          | some (broke u c) ↦
              on (ask_password w.crypt w.global_conf u.mode (cstr u.line.rl_buff)) u
          | some (aborted u) ↦
              on (ask_password w.crypt w.global_conf u.mode (cstr u.line.rl_buff)) u
        ])
    answer o (goes_on r) = waiting r
    answer o (breaks {v = u} r) = h _ u r
    answer o (aborts {v = u} r) = h _ u r

enabled-Ready : (failed : ℕ) {v : Vty} → Ready v → Ready (enabled failed v)
unfolding enabled
enabled-Ready failed {v} r = elim (Bool-cases (failed == 0)) [
  | inl e ↦ rw e r
  | inr e ↦ rw e (mode-Ready _ r)
]

if-GoesOn : (b : Bool) {x y : Option Ran} → GoesOn x → GoesOn y → GoesOn (if b then x else y)
if-GoesOn true g h = g
if-GoesOn false g h = h

enable_loop-GoesOn :
    (w : World) (left failed : ℕ) {v : Vty}
    → Tame w
    → Ready v
    → GoesOn (enable_loop w left failed v)
unfolding enable_loop
enable_loop-GoesOn w zero failed t r =
    prompt_password-GoesOn w (w.keys failed) _ (t.texts failed) (t.plain failed) r
      (λ ok u s. finishes (enabled-Ready failed s))
enable_loop-GoesOn w (suc left) failed t r =
    prompt_password-GoesOn w (w.keys failed) _ (t.texts failed) (t.plain failed) r (λ ok u s.
      if-GoesOn ok (finishes (enabled-Ready failed s)) (enable_loop-GoesOn w left (suc failed) t s))

pub run_handler-GoesOn :
    (w : World) (argv : List Bytes) (n : CmdId) {v : Vty}
    → Tame w
    → Ready v
    → GoesOn (run_handler w argv n v)
unfolding run_handler
run_handler-GoesOn w argv cmd_enable t r = enable_loop-GoesOn w 2 0 t (mode-Ready _ r)
run_handler-GoesOn w argv show_interfaces t r =
    rw (all_fit-short (printed argv w.ifaces) (printed-All _ argv w.ifaces t.addresses))
      (finishes r)
run_handler-GoesOn w argv _ t r = finishes (mode-Ready _ r)
