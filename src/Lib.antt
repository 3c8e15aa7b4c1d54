-- ===== src/Lib.antt =====
-- A SOCKS5 proxy (RFC 1928, RFC 1929) in C: one thread, a selector over non-blocking sockets, a
-- resolver thread per host name, a table of users and counters, and a management protocol of one line
-- and one answer to a connection, with its command line client.
--
--   Prelude     shared names, Boolean tests, lists by native indices, byte strings, text
--   Args        src/utils/args.c: `parse_args` over the results of `getopt_long`, `port` with `strtol`,
--               `user`; `configure` is `main` of src/server/server.c behind it
--   Server      src/server/server.c: `create_passive_socket`, `server_run` with every way out of it, and
--               the main loop over rounds. A round has the signals that come during and behind the
--               call of `selector_select`, and the number of active connections behind it.
--               Server/Serving has the `fd_handler` tables of the server (src/server/client_session.c,
--               src/server/target_connection.c, src/server/management.c) over all connections at
--               once, each with its own counters and users; `follow` carries out on the table of
--               Selector what a handler of Session or Management asks of the selector.
--   Accept      `accept_connection` of src/server/client_session.c and `accept_management_connection` of
--               src/server/management.c, one loop with two kinds of state, over the table of Selector
--   Selector    src/utils/selector.c: the table of registrations and the sets that `select` is given; an
--               access outside the table, or by a pointer into a table that `realloc` has moved, is
--               the result `none`. Selector/Dispatch is `selector_select` over any handlers;
--               Server/Serving instantiates it with the handler tables of the server. Session uses a
--               smaller view, the registrations of one connection by descriptor, with the real close
--               handlers.
--   Socks5      src/server/socks5.c: method choice, replies, CONNECT requests. `encode` of Socks5/Wire
--               is an independent description of the wire form.
--   Users       src/server/users.c: the table of ten users; `password_of` of Users/View reads it as a
--               map; Users/Format is its text
--   Auth        src/server/auth.c: the sub-negotiation
--   Metrics     src/server/metrics.c: 64-bit counters, with wrap-around
--   Session     src/server/client_session.c and src/server/target_connection.c: one proxied connection.
--               `World` is its `client_state_t`, its registrations in the selector, the descriptors
--               closed, the bytes written, the counters, the users and the log. `client_read`,
--               `client_write`, `target_read`, `target_write` and `target_connection_on_resolve` are
--               the handlers; `Call` is the call of one, or the end of the resolver thread, in any
--               order.
--   Resolver    src/server/target_connection.c: the job that the resolver thread and the connection
--               share, as interleaved steps, with the calls of `free` counted
--   Management  src/server/management.c: one management connection. `respond` is the answer to the bytes
--               of a request and the table it leaves; `management_read` and `management_write` are
--               the handlers, `manage` any sequence of the calls that the selector makes while the
--               descriptor is registered for them.
--   Client      src/client/client.c: `client_main` over the results of `getopt`, `getaddrinfo`,
--               `socket`, `connect`, `send` and `recv`; Client/Whole runs it against Management
--   Parser      src/utils/parser.c and src/utils/parser_utils.c: the engine over any table, and the
--               table that compares a word
--   Stm         src/utils/stm.c: the state machine over any handlers; `abort()` is the result `none`
--   Buffer      src/utils/buffer.c
--   Netutils    src/utils/netutils.c: `sock_blocking_write` over Buffer
--
-- What the operating system answers is a parameter. In a handler of a proxied connection it is `Env`,
-- where `IsHonest` says only that `send` and `recv` do not report more bytes than they were given room
-- for; in the client and the set-up of the server it is the list of the answers in their order, and a
-- run that has used them up still waits.
--
-- Bounds: `flush` takes fuel, one more than the bytes to send, and every round sends one at least.
-- `unregister_to` bounds the nesting of close handlers by 2: `client_close` unregisters the target,
-- whose handler unregisters nothing. `decimal` has 20 digits at most, which a number below 2 ^ 64 does
-- not exceed.
--
-- Not modelled: `sockaddr_to_human` and `sock_blocking_copy` of src/utils/netutils.c, which nothing
-- calls; `selector_destroy`, `selector_init`, `selector_close`, `selector_set_interest_key` and
-- `selector_fd_set_nio` of src/utils/selector.c; functions that only print or only free; the clock
-- and the files behind the log. Bytes that `recv` reports are one at least in the program; an empty
-- list of them is harmless in the model.
pub mod Netutils
pub mod Parser
pub mod Prelude
pub mod Socks5
pub mod Stm
pub mod Users
pub mod Metrics
pub mod Auth
pub mod Server
pub mod Session
pub mod Accept
pub mod Args
pub mod Buffer
pub mod Selector
pub mod Resolver
pub mod Client
pub mod Management
