-- ===== src/Lib.antt =====
-- Inbucket, a mail server for tests: a model of its core and what is proved of it.
--
-- A client speaks SMTP to a session, which asks the address policy whether it takes the sender and the
-- recipients; the message manager then delivers to the mailboxes of a store, which keeps the messages
-- of each mailbox under a cap and, if one is set, a limit on the bytes of all of them. The hub relays
-- what was stored and deleted to its listeners. A client that speaks POP3 lists, reads and deletes the
-- messages of one mailbox, and a scan removes the messages that are too old. Extensions listen to events.
--
-- What models what:
-- - Base: helpers. A Go string is a list of bytes; numbers are native. GoText: the functions of Go's
--   strings and strconv packages that the program calls. A text with a byte above 127 is handed to
--   tables that are a parameter (Unicode).
-- - StringUtil: pkg/stringutil/utils.go. SliceContains is `slice_contains`, and so on for each
--   function; the matrix of MatchWithWildcards is its rows, `first_row` and `next_row`.
-- - Config: the settings of pkg/config/config.go that the other files read.
-- - Policy: pkg/policy. Address is parseEmailAddress (`parse_address`, its loop `scan_local` with
--   the body `step`) and parseMailboxName; Domain is ValidateDomainPart; Policy.antt has the
--   remaining functions of address.go, with Recipient and Origin. net.ParseIP is a parameter.
-- - Storage: pkg/storage/mem. Mem is store.go: `Store` is the state, each operation a function from a
--   store to the store after it and its result, and withMailbox is `with_mailbox` with the callback as
--   an argument. Mem/Enforcer is maxsize.go, where each send and its answer is one step. `add`,
--   `remove` and `purge` there are the operations whole, enforcer included. The children Cap, Order,
--   Valid, Contents, Quota and Add hold proofs.
-- - Smtp: pkg/server/smtp/handler.go. Smtp.antt has the server, the session and its replies; Parse
--   parseCmd and parseArgs; Handler the handlers for GREET, READY, LOGIN and PASSWORD; Transaction
--   those for MAIL and DATA; Loop startSession. The world around a session is the record `Server`:
--   which writes succeed, the matches of fromRegex, the two events, and the delivery over a state `W`
--   of the message store. What the client sends is a list of `Read`: lines, data blocks, and the ways
--   in which a read fails. Invariant and its children hold proofs.
-- - Pop3: pkg/server/pop3/handler.go. Pop3.antt has the server, the session and its replies; Lines the
--   scanner and the dot stuffing; Transaction transactionHandler with a function for each command;
--   Loop authorizationHandler and startSession. The record `Server` is what is around a session: the
--   store over its state `W`, which writes succeed, whether a handshake does. Memory puts the memory
--   store behind it. Framing, Invariant, Deletes, Unquit and Listing hold proofs.
-- - Manager: pkg/message/manager.go. `deliver` is StoreManager.Deliver; `settle` is how it finds the
--   mailboxes, `deliver_all` its loop. `World` is the store with the events that were sent. The
--   store is an interface with a contract, IsMessageStore. Memory and Disk are about the two stores behind
--   it, Session about an SMTP session before it. The parser of headers (enmime) and the extensions are
--   parameters.
-- - Msghub: pkg/msghub/hub.go. `dispatch`, `delete`, `add_listener` and `remove_listener` are the
--   operations that the hub runs one after another; its ring is a list that begins at the entry to
--   write next. History and Deletion hold proofs.
-- - Storage/File: pkg/storage/file. File.antt is mbox.go: `Mbox` is mbox, `Disk` the files, `load` the
--   test of indexLoaded. Store is fstore.go, with newMessage of fmessage.go. The record `Host` says how
--   each operation on files ends; a directory is known by the hash of the name. Frame, Index, Contents,
--   Calls, Valid and Refines hold proofs.
-- - Storage/Retention: pkg/storage/retention.go. `do_scan` is DoScan over the memory store, with the
--   time and the points at which the context is done as arguments. Home, Scan and Visits hold proofs.
-- - Extension: pkg/extension. `Broker` is both brokers, for any type of functions; `emit` is the Emit of
--   EventBroker, `emit_all` that of AsyncEventBroker. Listeners holds proofs.
-- - Sanitize: pkg/webui/sanitize. Css is css.go: the handlers stateStart, stateEat and stateValid are
--   `on_start`, `on_eat` and `on_valid`; the scanner is a parameter. Tags is html.go over the tokens of
--   a parameter. Css/Segments and Css/Declarations hold proofs.
-- - Rest: pkg/rest. Api is apiv1_controller.go, a function for each handler. Socket is the listener of
--   socketv1_controller.go and socketv2_controller.go (`Version` says which), with the hub as it meets
--   it: `Step` is one step of the hub, of one of the two goroutines, or of those who use the hub, and
--   `Steps` any sequence of them. `tell` is Receive and Delete, `close` the select of Close,
--   `remove_listener` and `close_channel` the calls that follow, `write_turn` a round
--   of WSWriter, and `playback` what is left of an addition, one message a turn. Sound, Turns,
--   Closing, Invariant, Operations, Registration, Leak and Stuck hold proofs.
-- - Manager/Reading: the other calls of StoreManager, over the part of a store that they pass on;
--   Manager/Reading/Memory puts the memory store there, and Rest/Api/Memory has what then holds.
-- - Web, Webui: what a handler answers, TextToHTML (Web/Text), and pkg/webui/mailbox_controller.go.
-- - Lua/Pool: pkg/extension/luahost/pool.go. Ready has the steps of the handlers that share the pool.
-- - Listener: the accept loops of pkg/server/smtp/listener.go and pkg/server/pop3/listener.go, and in
--   Drain the wait group of the sessions.
-- - Metric: pkg/metric/metric.go. Storage/Lock: pkg/storage/lock.go.
-- - Tests: runs on concrete inputs.
--
-- Bounds and fuel: the loop that enforces the cap has `last + 3` rounds of fuel. That is enough, since
-- its counter passes `last + 1` in fewer, and then no message is left. `find_all` has a round for each
-- byte, and each round reads at least one. `itoa` has one round more than its number. The
-- loop `trim` of the store on disk has a round for each message of the mailbox, and each takes one out.
-- Counters do not overflow: the numbers of messages and the sizes are natural numbers.
--
-- The channels of a websocket and of the hub have the 100 places of the source.
--
-- Not modelled: the routing, the upgrade of connections and the encoding of JSON, which are calls of
-- libraries; the Go client; the handlers and bindings of Lua, which are calls of its interpreter;
-- the commands; sockets, and the timers of the retention scanner. Pings of a websocket
-- that succeed leave no trace. Logging is left out everywhere.
pub mod Base
pub mod GoText
pub mod StringUtil
pub mod Storage
pub mod Config
pub mod Extension
pub mod Policy
pub mod Sanitize
pub mod Smtp
pub mod Manager
pub mod Pop3
pub mod Msghub
pub mod Web
pub mod Rest
pub mod Webui
pub mod Listener
pub mod Lua
pub mod Metric
pub mod Tests
