-- ===== src/Lib.antt =====
-- web-terminal: a terminal in the browser that survives lost connections. A server process keeps each
-- shell session alive with a bounded history of its output; a browser that comes back says how far it
-- got and is sent what it missed.
--
-- The parts, from the terminal to the browser, and the file that models each:
-- * Replay (internal/session/replay.go, ReplayBuffer): the last bytes of a session's output in chunks,
--   with cumulative int64 offsets. Each method is a function of the buffer under the same name in
--   snake case: Append is append, SliceFrom is slice_from. Replay.Evict is about the eviction,
--   Replay.History about appends, Replay.Slice about reads.
-- * Snap (internal/session/replay.go, SnapTailToSafeBoundary): where a repaint may begin.
-- * Delivery (internal/session/delivery.go): the queue of one client with the goroutine that writes it.
--   A run of both is a list of events, in any order: enqueues, wake-ups, ends of writes, stops.
-- * Pty (internal/pty/pty.go): the handle of a process.
-- * Session (internal/session/store.go, Session): the listeners, the exit, the idle time. act is any one
--   step of a session at a time; acts runs a schedule of them.
--   Session.Pump has pump and fanout in small steps, between which anything else may happen, and
--   Session.Exits.Steps has markExited and Attach so, with their callbacks.
-- * Store (internal/session/store.go, Store): the sessions by id and the reaper.
-- * Protocol (internal/protocol/protocol.go): frames and control messages.
-- * Hello (internal/web/ws.go, handleHello): reap, find or start, attach, resize, answer.
-- * Connection (internal/web/ws.go, ServeWS): the read loop of a connection, its cleanup and closes.
--   served is that loop with the errors of deliveries in between; Connection.Readings says what it makes of
--   each message.
--   Connection.Race has its closures attach and cleanup again, section by section, interleaved.
-- * Shared (internal/web/ws.go, internal/session/store.go): the store while any number of connections is
--   served. Each operation under a lock is one step, of a connection, of a process or of the reaper;
--   Shared.Handlers takes the handlers of Connection apart into such steps; Shared.Serving is any number
--   of those connections, taking turns.
-- * Config (internal/web/server.go, internal/web/appearance.go, main.go): LoadConfig, LoadAppearance and
--   itoa, with strconv.Atoi and the functions of strings on ASCII text.
-- * Command (internal/session/store.go): SessionEnv and DefaultSessionCommand.
-- * Paths (internal/web/server.go): AbsPath with filepath.Clean and filepath.Join.
-- * Routes (internal/web/server.go): Server.Handler and the handlers, as functions of a request.
-- * Boot (main.go): main until it listens; Boot.Running is its wait, its shutdown and the reaper under its
--   context.
-- * Wstest (cmd/wstest/main.go): the test command, over a transcript of its two connections.
-- * Client (web/connection.js): what the browser makes of the messages.
-- * Page (web/connection.js, TerminalConnection): the socket, the retries, the pings and the session id
--   that the browser remembers, as a machine whose events come in any order.
-- The pump of a session appends each chunk to its ReplayBuffer and enqueues it with its offset to the
-- delivery of each listener; handleHello attaches a listener and answers from the buffer; the browser
-- drops what it has and what lies past a gap. Hello.Reconnect puts all of them together, from the attach
-- to the last live frame, and Hello.Journey follows a page over any number of lost connections; Hello.Live
-- and Hello.Lost are about frames and losses that come between the messages of the answer. The test
-- command does what the browser does, and Wstest.Resume compares the two.
-- Prelude has the lists, tests and integers that all of them share; Tests runs the model on small inputs.
--
-- Numbers: a length is a natural number; an offset is an int64, whose sums and differences wrap at 64
-- bits. Theorems on offsets assume fewer than 2 ^ 63 bytes of output, those on the browser at most
-- 2 ^ 53, up to which a JavaScript number is exact. Times are nanoseconds of a monotonic clock.
-- Fuel: evictLocked runs on one round for each chunk and two more, which its theorem shows is enough;
-- itoa has the 20 bytes of its buffer, and an int64 has 19 digits at most; stringContains has a round for
-- each place of the text and one more, which its theorem shows is enough.
--
-- Outside the repository, and therefore arguments: encoding/json (marshal, unmarshal), the start of a
-- process on a pseudo-terminal (spawn), the environment, the random ids, the clock, the search of a path
-- or a file, and http.FileServer. Of net/http the routing of ServeMux and the headers are written out.
-- The random factor of the page's retries is an argument too.
-- Not modelled: the decision of websocket.Accept and the limits of sizes and times that its library keeps,
-- the tests, and the display of what the page is given. AbsPath is called by nothing.
-- Elsewhere each mutex section is one step; the close of the handle and the calls of onExit that follow the
-- section of markExited belong to its step. The owners of the listeners and the ids issued, which Shared keeps,
-- are a record of what has happened, and nothing that the program stores; newID is taken not to give an
-- id twice.
pub mod Prelude
pub mod Replay
pub mod Snap
pub mod Protocol
pub mod Client
pub mod Delivery
pub mod Pty
pub mod Session
pub mod Store
pub mod Hello
pub mod Connection
pub mod Shared
pub mod Page
pub mod Config
pub mod Command
pub mod Paths
pub mod Routes
pub mod Wstest
pub mod Boot
mod Tests
