-- ===== src/Lib.antt =====
-- geoNS-core: a node that measures the reachability of services, with its web server, its
-- connections to other nodes and its databases.
--
-- The program. A node reads its configuration (src/libs/config) and starts (src/libs/server): it asks
-- the nodes that it knows for others over a protocol of JSON messages (src/libs/geonsp), opens the
-- gateway on which it answers such messages and the web server, connects its databases, and waits for
-- a signal. A node opens sockets (src/libs/socket), and a thread accepts clients and starts one
-- thread for each. A client thread peeks at what has arrived and calls the callback of its server.
-- The callback of the web server (src/libs/http) parses the request, looks for a route, and runs the
-- route's callback or serves a file of the public directory (src/libs/io); it answers with one
-- response and closes the connection. Parameters of a route are handed over in a string map
-- (src/libs/core/strmap.c). The known nodes, the services and the settings are tables of two SQLite
-- databases (src/libs/db).
--
-- The modules.
--   Common      names of the libraries, lists and tests on native numbers
--   Text        C strings and the functions of <string.h>, <ctype.h> and strtol that are called
--   Core        StrMap: src/libs/core/strmap.c; Blocks: the memory it takes
--   Http        Status, Header, Response, Routes and Callback: src/libs/http/http.c, specs.h and
--               response/response.c; Method and Parser: src/libs/http/parser/parser.c; Router:
--               src/libs/http/routes. A function of the source has its name here; a loop or a long
--               function is cut into definitions named for their part, and the header of each file
--               says which function it is about. Server: the start and the end of the web server
--   Socket      src/libs/socket/socket.c; Opening: the functions that open a socket; Balance and
--               Lifecycle: the count of descriptors; Addresses: the addresses of a node; Buffer: the
--               buffer of a client; Pointers: the list of connections over a heap, its Runs against
--               those on lists, its Killing, and a Race of two threads
--   Io          src/libs/io/io.c; Listing: the page of a directory; Start: the directory of the program;
--               Exec: the output of a command
--   Db          src/libs/db; Tables: the tables and services that are named in the source;
--               Connection: how a database is opened, connected and closed
--   Json        the calls of the JSON library, and what is relied on of them; Entries: a small library
--               that meets this, for the tests
--   Config      src/libs/config
--   Geonsp      src/libs/geonsp: the messages and the side that answers; Gateway: a client's
--               thread with its buffer; Clients: the gateway with all of them; Client: the side
--               that asks; TwoNodes: one against the other
--   Node        src/libs/server: joining the network, the end of a node and the loop that serves;
--               Start: its start; Killing and Closing: its end beside its threads; Serving: the loop
--   Main        src/main.c: a run of the program
--   Logger      src/libs/logger
--
-- How it is modelled. A `char *` is the list of its bytes in front of its 0, a null pointer is
-- `none`, a linked list is a list, a pointer to a connection is a number. Socket.Pointers has
-- the list of connections once more as it is written, over a heap of cells in which a read or a
-- write where no cell is is a fault, which the lists of the other modules stand for. An integer
-- of the source keeps its width where a value can reach it (`% 2 ^ 16` for the offsets of a
-- request, `% 2 ^ 32` for the size of a map, `% 2 ^ 64` for the size of a buffer). Where the
-- code runs into undefined behaviour the model answers so (`undefined`, `undefined_behaviour`,
-- or `none` where the file says). Memory allocation succeeds, but for the buffer of a request,
-- the buffer of a client, the memory of a file and that of a directory page, and for what the
-- start of a node, its configuration and its databases allocate, whose failures are arguments.
-- `strtok` is run to its end on one string at a time. The threads of a server run their list
-- operations one after another: an interleaving is a list of events; Socket.Pointers.Race alone
-- puts one operation inside another.
--
-- Fuel. `decimal n` runs on fuel `n + 1`; each round divides by ten, so that it is enough, as
-- Text.Strtol shows by reading the number back. The loops of Socket.Pointers run on fuel, of
-- which one more than there are connections is enough. The loop of `exec` runs on the length of
-- the output and one more, of which each round takes one at least. All other loops recur on
-- their list.
--
-- Parameters. The file system (`System`), SQLite (`Sqlite`), the JSON library (`Json`, with
-- `IsLawful`, `IsNested` and `IsStream` for what is relied on: a value is read back as it was
-- written, whatever stands behind it, and a key has what was last set at it), the network
-- (`Network`), the addresses of the interfaces, and what `realloc`, `socket`, `bind`, `listen`,
-- `connect`, `accept` and `recv` answer. The regular expression of a header line is read as
-- POSIX defines it. Numbers in JSON are natural numbers. Of `inet_ntoa` it is relied on that its
-- result stands in one storage, which the next call overwrites. What the detached threads of a
-- node have done when it is killed, and whether one of them goes on, is an argument (`Threads`).
--
-- Not modelled. The text of the license; the handler of the signal, but for its coming;
-- `release_config` and `kill_http_connection`, which only free or close. Where the other modules
-- call the logger, the call is left out. Of the ways in which two threads can interleave inside
-- one operation on a list, only those named above. src/libs/argparse, src/libs/parson and
-- src/libs/unity are copies of other projects; the switches that argparse reads are an argument.
pub mod Common
pub mod Text
pub mod Core
pub mod Socket
pub mod Io
pub mod Db
pub mod Json
pub mod Http
pub mod Config
pub mod Geonsp
pub mod Node
pub mod Main
pub mod Logger
