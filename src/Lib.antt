-- ===== src/Lib.antt =====
-- Verification library of opencli, a command line in the manner of a router's, served over telnet.
--
-- A thread of vty.c serves each client. It reads bytes through the telnet layer, edits a line with
-- them (`readline`), redraws the line on the client's terminal, and at a break byte splits the line
-- into words (lex.c), looks the words up in the command lists of the mode (commands.c), and lists,
-- completes or runs a command. A history keeps the last lines.
--
-- The parts, and the files that model them:
--   * Base: lists over the native numbers, Boolean tests, C strings. A `char` buffer is the list of its
--     bytes; a pointer into one is its offset.
--   * Line (vty.c, P R I M I T I V E S to `transpose_chars`, and `cmd_complete`): `Line` is the part of
--     `CL_SOCK` that holds the buffers; each function has its C name. Line/Zipper says what text and
--     cursor the buffers hold; Erase, Rub, Keys, Case and Complete are about its functions.
--   * Screen (vty.c, `rl_movecursor`, `rl_update`): the bytes sent, against a terminal of cells.
--   * History (vty.c, `struct history` and its functions): the array, against a list of commands.
--   * Telnet (vty.c, `telnet_cmd`, `hdl_iac_sb`, `n_getchar`, `telnet_getchar`): the option machine, and
--     the socket's buffer in Telnet/Stream.
--   * Lexer (lex.c): the rules of the scanner.
--   * Command (commands.c, commands.h): `cmd_register`, `cmd_is_completion` and `cmd_finder` over any type
--     of commands; Command/Table has the commands declared and `commands_init`; Command/Mode has the modes,
--     the handlers that change them, and `ask_password` of vty.c.
--   * Key (vty.c, `spec_chars_hdl`, `esc_chars_hdl`, `reset_vty`, `readline`): the keys on a whole session;
--     Key/Typed defines the sound states.
--   * Session (vty.c, `cmd_print_matched` to `tabl_hdl`, `login`, and the loop of `vty_main`): what a break
--     byte does, and who gets in; Session/Run has what runs, Session/Main the session
--     from `init_vty` on.
--   * Links (lists.h): the linked lists in a store of addresses, against lists of nodes. Command has the
--     lists of commands as lists of commands.
--   * Socket (tcp_socket.c, `sk_send`, `sk_send_all`): the loop over partial sends.
--   * Dfa and Flex (lex.yy.c): the scanner that flex made of lex.c. Dfa has its tables and the loops over
--     them; Flex the buffers, the actions and `lexscan`. Flex/Round to Flex/Whole follow a round of the
--     scanner for each kind of byte, against the rules in Lexer.
--   * Output (vty.c, V T Y  W R I T E): `vty_out` and the pages with their prompt.
--   * Pool (vty.c, `alloc_vtys`, `new_vty`, `vty_close`): the sessions that are idle and active, as two
--     lists in the store of Links; Pool/Reach has the steps of the server, Pool/Accept its loop.
--   * Interface (interface.c, interface.h): the interfaces, their counters, and `show interfaces`.
--   * Route (route.c): the answers of the netlink socket, which fill the interfaces and their addresses:
--     the messages in Route/Message, the attributes in Route, the handlers in Route/Link,
--     and a whole request in Route/Requests.
--   * Timers (timers.c): the sorted list of timers in the store of Links, and the clock.
--
-- A read outside an array gives a value that is left open, or is `none`, undefined behaviour. A loop
-- over a buffer runs for 128 rounds, enough because the buffer has 128 bytes and a NUL among them; the
-- loops that erase run for one round more than there are bytes before the cursor; `telnet_getchar` has
-- a round for each byte that is left. The scanner has a round for each byte of the string and one more,
-- its match as many as the buffer has bytes; the loops over netlink messages and attributes have one for
-- each byte and one more, since each takes four bytes at least; those over timers take their rounds as an
-- argument. `char` is signed and has 8 bits; `int` is its 32-bit pattern where it can be negative, and
-- `long` and `size_t` have 64 bits.
--
-- Parameters: `recv` is a list of pieces, `send` and the kernel's answers lists of results, `crypt` and
-- the reader of `struct net_device_stats` functions, `yywrap`, `pthread_create` and `should_i_fail_once`
-- Booleans; the timers' functions are one function of the address; what stands behind an array is any
-- value, and so is what the stack held before. A window size that changes the height
-- while a page waits comes with the key. The constants of the kernel's headers and of telnet are
-- written as numbers. malloc succeeds.
--
-- Not modelled: the threads, the start-up, the set-up of sockets and the requests on them, what handlers
-- print but for `show interfaces`, `rtnl_qdisc_get`, which overruns its table, `if_add_qdisc`, which only
-- prints, `__mod_timer` and `check_timer`, which call code that is not there, the functions of lex.yy.c that
-- read files, put characters back or stack buffers and have no caller, and helpers.h, which has no user.
pub mod Base
pub mod Line
pub mod Screen
pub mod History
pub mod Telnet
pub mod Command
pub mod Dfa
pub mod Flex
pub mod Interface
pub mod Key
pub mod Lexer
pub mod Links
pub mod Output
pub mod Pool
pub mod Route
pub mod Session
pub mod Socket
pub mod Timers
