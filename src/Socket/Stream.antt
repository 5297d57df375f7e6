-- ===== src/Socket/Stream.antt =====
-- `sk_send_all` of tcp_socket.c, against the buffer it is given.
use mathlib.Core.Option
use opencli.Base.{
  ℕ, ◌+◌, ◌≤◌, ◌≡◌, ◌≢◌, refl, ◌∙◌, ap, Bool, true, false, Option, none, some, List, [], ◌∷◌, ◌++◌,
  arith, Bytes, length, length-drop, take, drop, take-append-drop, append_assoc, All,
}
use opencli.Socket.{Reply, sent, interrupted, failed, sk_send_all}

-- The bytes that the calls of `send` take together.
abbrev pub taken : List Reply → ℕ
taken [] = 0
taken (sent rc ∷ replies) = rc + taken replies
taken (interrupted ∷ replies) = taken replies
taken (failed ∷ replies) = taken replies

-- No call fails, but for interruptions.
abbrev pub Succeeds : Reply → Type 0
Succeeds r = r ≢ failed

-- When no call of `send` fails and the calls take as many bytes as there are, `sk_send_all` returns,
-- with success, and the whole buffer has been sent, once and in order.
pub sk_send_all-taken :
    (buff : Bytes) (replies : List Reply)
    → All Succeeds replies
    → length buff ≤ taken replies
    → sk_send_all buff replies ≡ some (buff, true)
unfolding sk_send_all
sk_send_all-taken [] replies ok enough = refl
sk_send_all-taken (c ∷ left) [] ok enough = absurd (omega arith)
sk_send_all-taken (c ∷ left) (interrupted ∷ replies) ok enough =
    sk_send_all-taken (c ∷ left) replies ok.1 enough
sk_send_all-taken (c ∷ left) (failed ∷ replies) ok enough = absurd (ok.0 refl)
sk_send_all-taken (c ∷ left) (sent rc ∷ replies) ok enough =
    let more =
      sk_send_all-taken (drop rc (c ∷ left)) replies ok.1
        (omega (arith, length-drop rc (c ∷ left))) in
    rw (more, take-append-drop rc (c ∷ left))

-- What may have become of the bytes `buff`.
pub data Delivers (buff : Bytes) : Option (Bytes × Bool) → Type 0 where
  waits : Delivers buff none
  stops : (out rest : Bytes) → out ++ rest ≡ buff → Delivers buff (some (out, false))
  completes : (out : Bytes) → out ≡ buff → Delivers buff (some (out, true))

after :
    (rc : ℕ) (buff : Bytes) (o : Option (Bytes × Bool))
    → Delivers (drop rc buff) o
    → Delivers buff (Option.map (λ r. (take rc buff ++ r.0, r.1)) o)
after rc buff none waits = waits
after rc buff (some r) (stops out rest e) = stops (take rc buff ++ out) rest (
    append_assoc (take rc buff) out rest ∙ ap (λ s. take rc buff ++ s) e ∙ take-append-drop rc buff)
after rc buff (some r) (completes out e) =
    completes (take rc buff ++ out) (ap (λ s. take rc buff ++ s) e ∙ take-append-drop rc buff)

-- Whatever `send` answers, `sk_send_all` returns with success only when the whole buffer has been
-- sent, once and in order, and with -1 when a front part of it has.
pub sk_send_all-Delivers :
    (buff : Bytes) (replies : List Reply) → Delivers buff (sk_send_all buff replies)
unfolding sk_send_all
sk_send_all-Delivers [] replies = completes [] refl
sk_send_all-Delivers (c ∷ left) [] = waits
sk_send_all-Delivers (c ∷ left) (interrupted ∷ replies) = sk_send_all-Delivers (c ∷ left) replies
sk_send_all-Delivers (c ∷ left) (failed ∷ replies) = stops [] (c ∷ left) refl
sk_send_all-Delivers (c ∷ left) (sent rc ∷ replies) =
    after rc (c ∷ left) (sk_send_all (drop rc (c ∷ left)) replies)
      (sk_send_all-Delivers (drop rc (c ∷ left)) replies)
