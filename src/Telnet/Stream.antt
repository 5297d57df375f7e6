-- ===== src/Telnet/Stream.antt =====
-- vty.c, reading: `n_getchar` and `telnet_getchar` over the socket's buffer. What `recv` returns on
-- each call is a list of pieces; behind the last one, and at an empty piece, the connection is
-- closed and the thread exits, which is `none`.
use opencli.Base.{
  ℕ, zero, suc, ◌+◌, ◌-◌, ◌<◌, ◌≤◌, ◌≡◌, Option, none, some, List, [], ◌∷◌, ◌++◌, ◌==◌,
  if◌then◌else◌, Bytes, get_or, take, drop, length, All,
}
use opencli.Telnet.{Telnet, telnet_cmd, passed_over}

-- `sizeof(s_buff)`
abbrev pub max_rbuffer : ℕ
max_rbuffer = 128

pub record Input : Type 0 where
  pub s_buff : Bytes
  pub s_ptr : ℕ
  pub s_count : ℕ
  pub net : List Bytes

unfoldable pub b_getchar : Input → ℕ × Input
b_getchar i = (get_or i.s_buff i.s_ptr 0, record i { s_ptr = i.s_ptr + 1; s_count = i.s_count - 1 })

-- `sk_recv` into `s_buff`
unfoldable pub fill : Input → Bytes → List Bytes → Input
fill i piece rest = record {
  s_buff = piece ++ drop (length piece) i.s_buff;
  s_ptr = 0;
  s_count = length piece;
  net = rest;
}

unfoldable pub refill : List Bytes → Input → Option (ℕ × Input)
refill [] i = none
refill (piece ∷ rest) i = if length piece == 0 then none else some (b_getchar (fill i piece rest))

unfoldable pub n_getchar : Input → Option (ℕ × Input)
unfolding b_getchar fill refill
n_getchar i = if i.s_count == 0 then refill i.net i else some (b_getchar i)

-- The loop of `telnet_getchar`, with a round for each byte that it may pass over.
unfoldable pub telnet_getchar : ℕ → Telnet → Input → Option (ℕ × Telnet × Input)
telnet_getchar zero t i = none
telnet_getchar (suc f) t i = elim (n_getchar i) [
  | none ↦ none
  | some (c, i') ↦
      if passed_over t c
      then telnet_getchar f (telnet_cmd t c).0 i'
      else some (c, (telnet_cmd t c).0, i')
]

-- The bytes that are still to be read, in order.
abbrev pub pending : List Bytes → Bytes
pending [] = []
pending (piece ∷ rest) = piece ++ pending rest

-- `bs` is what is left in the buffer and on the way; `recv` returns 1 to 128 bytes at a time.
pub record Feeds (i : Input) (bs : Bytes) : Type 0 where
  pub left : take i.s_count (drop i.s_ptr i.s_buff) ++ pending i.net ≡ bs
  pub room : i.s_ptr + i.s_count ≤ length i.s_buff
  pub pieces : All (λ p. 0 < length p × (length p ≤ max_rbuffer)) i.net
