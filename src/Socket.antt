-- ===== src/Socket.antt =====
-- tcp_socket.c, `sk_send_all` over `sk_send`. What `send` returns on each call is a list; at its end
-- the thread is waiting, which is `none`.
pub mod Stream
mod Tests
use mathlib.Core.Option
use opencli.Base.{ℕ, Bool, true, false, Option, none, some, List, [], ◌∷◌, ◌++◌, Bytes, take, drop}

-- The number of bytes that `send` took, -1 with EINTR, or -1 with another error.
pub data Reply : Type 0 where
  sent : ℕ → Reply
  interrupted failed : Reply

-- `sk_send_all`: the bytes that reach the connection, and whether it returned `bcount`, and not -1.
-- `sk_send` calls `send` again after EINTR.
unfoldable pub sk_send_all : Bytes → List Reply → Option (Bytes × Bool)
sk_send_all [] replies = some ([], true)
sk_send_all (c ∷ left) [] = none
sk_send_all (c ∷ left) (interrupted ∷ replies) = sk_send_all (c ∷ left) replies
sk_send_all (c ∷ left) (failed ∷ replies) = some ([], false)
sk_send_all (c ∷ left) (sent rc ∷ replies) =
    Option.map (λ r. (take rc (c ∷ left) ++ r.0, r.1)) (sk_send_all (drop rc (c ∷ left)) replies)
