-- ===== src/Telnet/Escape.antt =====
-- Runs of bytes through `telnet_cmd` of vty.c, and which of them are input.
use opencli.Base.{ℕ, ◌<◌, ◌≤◌, ◌≡◌, ◌≢◌, refl, false, [], ◌∷◌, ◌++◌, arith, Bytes, All}
use opencli.Telnet.{Telnet, idle, iac, telcmd_ok, telnet_cmd}
use opencli.Telnet.Window.{telnet_run}

cmd_plain : (t : Telnet) (c : ℕ) → t.state ≡ idle → c ≢ iac → telnet_cmd t c ≡ (t, false)
unfolding telnet_cmd
cmd_plain t c e h = ground arith

-- Bytes that are no `IAC` are input as they stand.
pub run_plain :
    (t : Telnet) (cs rest : Bytes)
    → t.state ≡ idle
    → All (λ c. c ≢ iac) cs
    → telnet_run t (cs ++ rest) ≡ ((telnet_run t rest).0, cs ++ (telnet_run t rest).1)
unfolding telnet_run
run_plain t [] rest e h = refl
run_plain t (c ∷ cs) rest e h = rw (cmd_plain t c e h.0) (rw (run_plain t cs rest e h.1))

-- A negotiation of an option, `IAC`, a command from `WILL` to `DONT` and the option, is no input
-- and leaves the state as it was.
pub run_negotiation :
    {t : Telnet} (command option : ℕ)
    → t.state ≡ idle
    → 251 ≤ command
    → command ≤ 254
    → option < 236
    → telnet_run t (iac ∷ command ∷ option ∷ []) ≡ (t, [])
unfolding telnet_run telnet_cmd telcmd_ok
run_negotiation {t} command option e lo hi small = ground arith

-- In the first state, of a doubled `IAC` and a byte below 236 behind it one `IAC` is input and the
-- byte is lost.
pub run_doubled :
    {t : Telnet} (c : ℕ)
    → t.state ≡ idle
    → c < 236
    → telnet_run t (iac ∷ iac ∷ c ∷ []) ≡ (t, iac ∷ [])
unfolding telnet_run telnet_cmd telcmd_ok
run_doubled {t} c e small = ground arith

-- In the first state, the byte below 236 behind a command of two bytes, such as `NOP`, is lost.
pub run_two_bytes :
    {t : Telnet} (command c : ℕ)
    → t.state ≡ idle
    → 236 ≤ command
    → command < 250
    → c < 236
    → telnet_run t (iac ∷ command ∷ c ∷ []) ≡ (t, [])
unfolding telnet_run telnet_cmd telcmd_ok
run_two_bytes {t} command c e lo hi small = ground arith
