-- ===== src/Socket/Tests.antt =====
-- `sk_send_all` of tcp_socket.c on three bytes, sent in two calls.
use opencli.Base.{List, [], ◌∷◌, codes}
use opencli.Socket.{Reply, sent, interrupted, sk_send_all}
use opencli.Socket.Stream.{Delivers, sk_send_all-Delivers}

abbrev in_two : List Reply
in_two = sent 1 ∷ interrupted ∷ sent 2 ∷ []

sk_send_all-Delivers_example : Delivers (codes "abc") (sk_send_all (codes "abc") in_two)
sk_send_all-Delivers_example = sk_send_all-Delivers (codes "abc") in_two
