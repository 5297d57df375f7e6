-- ===== src/Telnet/Tests.antt =====
-- The telnet layer of vty.c on a fresh connection.
use opencli.Base.{◌≡◌, refl, [], ◌∷◌, arith, replicate}
use opencli.Telnet.{Telnet, idle, iac, sb_size, telnet_cmd, two_chars}
use opencli.Telnet.Stream.{Input, Feeds, telnet_getchar}
use opencli.Telnet.Buffer.{next_data, Reads, telnet_getchar-Reads}
use opencli.Telnet.Window.{IsSafe, telnet_run, naws, telnet_cmd-IsSafe, naws-two_chars}
use opencli.Telnet.Escape.{run_doubled}

abbrev fresh : Telnet
fresh = record {
  sb_buff = replicate sb_size 0;
  sb_ptr = 0;
  state = idle;
  w_width = 0;
  w_height = 0;
}

fresh-IsSafe : IsSafe fresh
fresh-IsSafe = record { size = refl; within = omega arith }

-- A negotiation and the letter `a`, in two pieces.
abbrev connection : Input
connection = record {
  s_buff = replicate 128 0;
  s_ptr = 0;
  s_count = 0;
  net = (iac ∷ 251 ∷ []) ∷ (1 ∷ b'a' ∷ []) ∷ [];
}

connection-Feeds : Feeds connection (iac ∷ 251 ∷ 1 ∷ b'a' ∷ [])
connection-Feeds = record { left = refl; room = omega arith; pieces = ground arith }

telnet_getchar-Reads_example :
    Reads (telnet_getchar 5 fresh connection) (next_data fresh (iac ∷ 251 ∷ 1 ∷ b'a' ∷ []))
telnet_getchar-Reads_example =
    telnet_getchar-Reads 5 fresh {i = connection} (iac ∷ 251 ∷ 1 ∷ b'a' ∷ []) connection-Feeds
      (omega arith)

telnet_cmd-IsSafe_example : IsSafe (telnet_cmd fresh iac).0
telnet_cmd-IsSafe_example = telnet_cmd-IsSafe {t = fresh} iac fresh-IsSafe

naws-two_chars_example :
    let (t', out) = telnet_run fresh (naws 0 80 0 24) in
    (out ≡ []) × (t'.state ≡ idle) × (t'.w_width ≡ two_chars 0 80) × (t'.w_height ≡ two_chars 0 24)
naws-two_chars_example =
    naws-two_chars {t = fresh} fresh-IsSafe refl 0 80 0 24 (omega arith) (omega arith) (omega arith)
      (omega arith)

run_doubled_example : telnet_run fresh (iac ∷ iac ∷ b'a' ∷ []) ≡ (fresh, iac ∷ [])
run_doubled_example = run_doubled {t = fresh} b'a' refl (omega arith)
