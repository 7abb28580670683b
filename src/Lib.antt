-- ===== src/Lib.antt =====
-- A model of ade-ctld, the daemon that indexes the programs and .desktop files of a system and
-- lists, filters and starts them for its clients over a Unix socket, with the theorems about it.
--
-- How the parts work together. A client (client/exe/client.go) writes the header `TXT01` and then
-- requests: a line for each argument and a line that names the command. The server
-- (server/server.go) gives each connection a parser (parser/parser.go) and runs its commands
-- against the state that all connections share: the index of entries
-- (internal/indexer/types.go), which an indexing run (internal/indexer/indexer.go) fills from the
-- executables below the search path (internal/indexer/executable/executable.go) and from the
-- .desktop files (internal/indexer/desktop/desktop.go); the counts of runs in a database
-- (internal/runindex/runindex.go); and the filters and the language. internal/config/config.go
-- gives the search path, the terminal and the size of a list. The main program of the daemon
-- (cmd/ade-exe-ctld/main.go) brings these parts up, one after the other; a
-- command line client (cmd/ade-exe-cli/main.go) sends one command.
--
-- The files.
--   Common   numbers and their Boolean tests, lists, permutations, ℤ, finite maps.
--   Text     Go's strings as lists of bytes, as far as the code calls package strings,
--            unicode/utf8, bufio and path/filepath. The lower case and the case folding of texts
--            that are not ASCII are parameters (the record Unicode).
--   Strconv  decimal numbers, as in package strconv.
--   Parser   parser/parser.go. `parse_lines` is the loop of `ParseCommand`, `parse_next` the
--            function, `read_all_commands` is `ReadAllCommands`. The unread input is the list of
--            its complete lines and the errors that reading meets behind them, before its end.
--   Client   client/exe/client.go. Send: `FormatArgument` and `sendCommand`. Receive:
--            `readResponse` and `ReadResponse` on the bytes that arrive. Calls: `List`, `Run` and
--            the others. Socket: client/exe/config.go. Connect: `NewClient`, and `SendCommand` where
--            writes may fail. Sharing: goroutines that share a client and its lock.
--   Wire     theorems on the two ends together: requests and the parser; answers, line by line,
--            and the client.
--   Index    internal/indexer/types.go: `add`, `get`, `get_all`, `count`.
--   Config   internal/config/config.go: the accessors, `expand_path`, `loadRC`; Init: `Init`,
--            `Run` and `watchLoop`, on what the system and the watcher report.
--   RunIndex internal/runindex/runindex.go: `increment` and `get_frequencies`, over the interface
--            Bolt: a bucket of bbolt that can be read and updated, where an update may fail. Open:
--            `NewRunIndexWithCacheDir`, on what the system and bbolt answer.
--   Desktop  internal/indexer/desktop/desktop.go: the parser, `IsNoDisplay`, localized names, and
--            the field codes of Exec values; Scan: the walks, on the visits of `filepath.Walk`; Keys,
--            Settings, Setters, Fields: theorems on the parser.
--   Executable  internal/indexer/executable/executable.go, on the visits of `filepath.Walk`.
--   Indexer  `processResults` on the events of its `select`, in any order; `runIndexing`.
--            Channels: one run as steps of its goroutines, which interleave, with the bounded
--            channels between them and a cancellation. Overlap: several calls of `runIndexing` and
--            `Stop`, as steps over the lock, the flag `running`, `indexCancel` and `indexWg`, with who
--            waits for it; a call has three goroutines, and adds any entries.
--   Server   server/server.go. State: the server and the system around it (the record Host: the
--            order in which a map is gone through, starting a program, the environment, what a
--            scan finds). Filters, Listing, Launch, Settings: a function for each handler.
--            Dispatch: `executeCommand` and `handleConnection`. Answers: what the client makes of
--            the answers. Lifecycle: the loop of `Start`.
--   Daemon   cmd/ade-exe-ctld/main.go and `NewServer`: `boot` is the startup, on what the system
--            answers (the record Machine). Boots, Serves, Lists: theorems on the startup, the server
--            and what it lists.
--   CommandLine  cmd/ade-exe-cli/main.go: what it sends. Exits: the exit code and what is printed;
--            Interactive: the interactive mode.
--   Tests    a database in memory, a small index, and runs on them.
--
-- A handler is a function from the server's state and the command's arguments to the new state and
-- the bytes it writes, or to a panic: an index out of range, a slice out of bounds, a stored value
-- that is too short. Offsets and sizes of lists are kept below 2^63, and their sums wrap around as
-- Go's int does; counts of runs wrap around at 2^64. `serve`, the loop of a connection, and
-- `read_commands` run on fuel: one round for each complete line of the input, and one more, is
-- enough, because each round but the last consumes a line; `serve` takes a further round for each
-- error that reading meets. `receive`, the loop in which the client
-- reads an answer, has a round for each byte and one more, which is enough for the same reason.
--
-- The steps of several connections (Server.Answers.Interleaved) are whole commands; between two of
-- them an indexing run may clear the index or add an entry, as a step of Indexer.Overlap does, and the
-- settings may change. The command `reindex` itself is one step, the last of its run.
--
-- Not modelled: sockets, files and the database file; the locks of the server, of the index and of
-- the filters (a handler is one step, and the commands of several connections interleave); logging,
-- and what the command line client writes to the error output; how the daemon ends (a signal, the
-- return of the server, or a panic of a handler or of the watcher, at any moment); the programs cmd/ade-file-ctld,
-- cmd/ade-roam-ctld and cmd/ade-wm-ctld, which are empty.
pub mod Common
pub mod Text
pub mod Strconv
pub mod Parser
pub mod Client
pub mod Wire
pub mod Index
pub mod Config
pub mod RunIndex
pub mod Desktop
pub mod Executable
pub mod Indexer
pub mod Server
pub mod CommandLine
pub mod Daemon
mod Tests
