-- ===== src/Route/Message.antt =====
-- route.c: the loop over the messages of an answer, `nl_response_hld`, and `sk_netlink_err`. The
-- buffer is on the stack, so that it holds what stood there before where `sk_recv` wrote nothing.
use opencli.Base.{
  ℕ, zero, suc, ◌+◌, ◌-◌, ◌/◌, ◌%◌, ◌^◌, Bool, true, false, ◌&&◌, Option, none, some, ◌==◌, leb,
  if◌then◌else◌, Bytes, drop, length, ◌++◌,
}
use opencli.Route.{get_u16, get_u32, align4}

abbrev pub bufflen : ℕ
bufflen = 4096

-- The size of `struct nlmsghdr`.
abbrev pub nlmsg_size : ℕ
nlmsg_size = 16

-- An `int`: `negative n` is `-1 - n`.
pub data Ret : Type 0 where
  negative : ℕ → Ret
  value : ℕ → Ret

abbrev pub minus_one : Ret
minus_one = negative 0

unfoldable pub nlmsg_len : Bytes → ℕ → ℕ
nlmsg_len = get_u32

unfoldable pub nlmsg_type : Bytes → ℕ → ℕ
nlmsg_type buff h = get_u16 buff (h + 4)

unfoldable pub nlmsg_flags : Bytes → ℕ → ℕ
nlmsg_flags buff h = get_u16 buff (h + 6)

-- `sk_netlink_err`, where the error is an acknowledgement if it is 0.
unfoldable pub sk_netlink_err : Bytes → ℕ → Ret
sk_netlink_err buff h =
    if get_u32 buff (h + nlmsg_size) == 0
    then if nlmsg_flags buff h / 2 % 2 == 0 then value 0 else value 1
    else minus_one

-- `NLMSG_OK(h, bcount)`, where `bcount` is unsigned. `none` is a read beyond the buffer.
unfoldable pub nlmsg_ok : Bytes → ℕ → ℕ → Option Bool
nlmsg_ok buff h bcount =
    if leb nlmsg_size bcount
    then if leb (h + nlmsg_size) bufflen
      then some (leb nlmsg_size (nlmsg_len buff h) && leb (nlmsg_len buff h) bcount)
      else none
    else some false

-- What a message leads to: the return of `ret`, or the next message.
pub data Round (S : Type 0) : Type 0 where
  returns : Ret → S → Round S
  continues : Ret → S → Round S

module _ {S : Type 0} (handler : Bytes → ℕ → S → Ret × S) where
  -- The body of the loop.
  unfoldable pub on_message : Bytes → ℕ → Ret → S → Round S
  on_message buff h ret s =
      if nlmsg_type buff h == 3
      then returns ret s
      else if nlmsg_type buff h == 2
      then elim (sk_netlink_err buff h) [
        | negative n ↦ returns (negative n) s
        | value n ↦ if n == 0 then returns (value 0) s else continues (value n) s
      ]
      else elim (handler buff h s).0 [
        | negative n ↦ returns minus_one (handler buff h s).1
        | value n ↦ continues (value n) (handler buff h s).1
      ]

  -- `NLMSG_NEXT` takes the length of the message from `bcount`, a `size_t`.
  unfoldable pub message_loop : ℕ → Bytes → ℕ → ℕ → Ret → S → Option (Ret × S)
  message_loop zero buff h bcount ret s = none
  message_loop (suc fuel) buff h bcount ret s = elim (nlmsg_ok buff h bcount) [
    | none ↦ none
    | some false ↦ some (ret, s)
    | some true ↦ elim (on_message buff h ret s) [
      | returns r s' ↦ some (r, s')
      | continues r s' ↦
          let size = align4 (nlmsg_len buff h) in
          message_loop fuel buff (h + size) ((bcount + 2 ^ 64 - size) % 2 ^ 64) r s'
    ]
  ]

  -- `nl_response_hld`, with a round for each byte of the buffer and one more. `stack` is the buffer
  -- before; `received` is what `sk_recv` wrote to its front, or `none` for its -1, which `bcount`
  -- holds as an unsigned number.
  unfoldable pub nl_response_hld : Bytes → Option Bytes → S → Option (Ret × S)
  nl_response_hld stack received s = elim received [
    | none ↦ elim (nlmsg_flags stack 0 / 32 % 2 == 0) [
      | true ↦ message_loop (bufflen + 1) stack 0 (2 ^ 64 - 1) (value 0) s
      | false ↦ some (minus_one, s)
    ]
    | some bytes ↦
        let buff = bytes ++ drop (length bytes) stack in
        elim (length bytes == 0) [
          | true ↦ some (minus_one, s)
          | false ↦ elim (nlmsg_flags buff 0 / 32 % 2 == 0) [
            | true ↦ message_loop (bufflen + 1) buff 0 (length bytes) (value 0) s
            | false ↦ some (minus_one, s)
          ]
        ]
  ]
