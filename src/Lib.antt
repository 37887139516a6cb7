-- ===== src/Lib.antt =====
-- msgbox: an event-driven message library over tcp and udp sockets (msgbox/msgbox.c and
-- msgbox/msgbox.h), in its linux version, with the layer of Windows over select beside it.
--
-- A program calls msg_listen, msg_connect, msg_send, msg_get, msg_disconnect and msg_unlisten,
-- which act on the sockets at once and schedule callbacks, and it calls msg_runloop, which drops
-- ended connections, polls, reads from the sockets that are ready, reports the requests that have
-- timed out and makes the callbacks. All share the arrays conns, poll_fds, removals, timeouts and
-- immediate_callbacks and the map conn_status.
--
-- Types: the structs and enums of msgbox.h and msgbox.c, new_connection, msg_new_data_space.
-- Wire: Header, set_header, and the byte order conversions of read_header.
-- Address: address_as_str, address_hash, address_eq; Address/Parse: parse_address_str.
-- State: the static variables, the objects in memory, the system calls; State/Callbacks:
-- send_callback and its variants, msg_new_data; State/Frame: what a system call leaves alone.
-- Poll: the poll_fds functions, array__remove_and_fill, remove_conn_at, the removal loops.
-- Status: ConnStatus, remote_address_seen, local_disconnect.
-- Timeouts: add_timeout, remove_timeout, the loop over timeouts in msg_runloop.
-- Receive: read_header, continue_recv, read_from_socket, make_non_blocking.
-- Send: send_all, send_data.
-- Open: setup_sockaddr, open_socket, msg_listen, msg_connect; Open/Listening, Open/Connecting: the
-- tcp conn that these make, by the answers of the system.
-- Api: msg_unlisten, msg_disconnect, msg_send, msg_get.
-- Runloop: make_call, msg_runloop.
-- Windows: the winsock half of msgbox.c; Windows/Names: err_str; Windows/Arrays: the poll modes
-- beside the event masks of linux; Windows/Select: check_poll_fds.
-- Examples: what examples/echo_server.c and examples/echo_client.c share; Examples/EchoServer and
-- Examples/EchoClient: their update and main; Examples/Turns, Examples/Echo: their loops and
-- an answer.
-- Moves: the elementary changes of the state; the Moves modules below the components say that each
-- function is made of them. Invariant: well-formed states; Invariant/Reach: the runs of a program
-- that uses the library.
-- Exchange: two programs at the ends of a tcp stream, the network being the assumption that what
-- one stream has gained arrives at the other end, first the header and then the payload in pieces;
-- Exchange/Delivery, Exchange/Request, Exchange/Answer, Exchange/Closing: by kind of message;
-- Exchange/Unknown: a reply that no request waits for.
-- Outstanding: the table of the requests that wait for a reply, as the abstract view of the
-- timeouts and of the maps reply_contexts; Outstanding/Contexts: the maps; Outstanding/Steps: the
-- table under msg_get, a reply and the loop over timeouts.
-- Prelude: shared names, tests and list lemmas. Tests: concrete states.
--
-- Parameters: Cstructs holds the calls of cstructs (cstructs/array.h, cstructs/map.h) with what
-- they promise; Libc holds strerror, inet_pton and inet_ntoa and what unwritten memory contains;
-- the user's callbacks are a Handler; Winsock in Windows holds FD_SET, select and ioctlsocket.
-- strtol and the snprintf formats are definitions. The records are arguments of what uses them, and
-- the tests have an instance of each.
--
-- Pointers to connections and statuses are numbers that index the memories conn_at and status_at,
-- so that a conn reached from conns, from a pending call and from a timeout is one object. The
-- uint16_t and uint32_t fields wrap where the source stores into them. malloc is taken to give
-- each conn an address of its own: the memory of a conn that was freed is never that of a new one.
-- The fields of a conn that was freed stay as they were, and a use of it is not an error of the
-- model. A Boolean field `fault` is set in three places only: where the loop over timeouts uses a
-- freed map of reply contexts, a missing pair or a freed conn, where a connection is removed at an
-- index behind the items, and where the echo server reads past the end of a payload. The field
-- `memory` holds the static variables of the program that uses the library.
--
-- The operating system is a list `script` of answers, one for each system call in the order of the
-- calls; a call past its end fails with EIO. A theorem about every script is one about every
-- behaviour of the system of that many answers. `calls` is the history of calls, and `stream` what
-- a socket has accepted.
--
-- Loops with fuel: send_loop takes an answer from the script in each round, so the length of the
-- script and two more are enough; the loop over timeouts removes one item in each round; the loops
-- that read a socket and that go through conns take an answer from the script for each message and
-- for each accepted connection.
--
-- The loop of main in the examples runs until `done` is set, so it has a bound on the turns as an
-- argument, and gives none for a program that is still running.
--
-- Not modelled: the start of winsock and its clock, output under verbosity and in the examples, the
-- release of memory other than of connections and of the maps of reply contexts, the size limits of
-- the static texts of os errors beyond their 1024 bytes, and the waiting of poll. cstructs is a
-- vendored library.
pub mod Prelude
pub mod Cstructs
pub mod Types
pub mod Libc
pub mod Address
pub mod State
pub mod Poll
pub mod Status
pub mod Timeouts
pub mod Receive
pub mod Send
pub mod Open
pub mod Api
pub mod Runloop
pub mod Wire
pub mod Moves
pub mod Windows
pub mod Outstanding
pub mod Exchange
pub mod Examples
pub mod Invariant
pub mod Tests
