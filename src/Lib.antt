-- ===== src/Lib.antt =====
-- Six programs, each with a server and a client, that grow from LAB1 to LAB6: an echo over UDP, a
-- connection with one client, a chat on a pool of threads, names and private messages, a history and
-- messages for those who are away, and in LAB6 acknowledgements, repetition and a simulated network.
-- LAB6 is modelled in most detail: a server with a pool of threads, and a client with three threads.
--
-- The parts and the files that model them
--   Prelude            the names that the other files share.
--   Text               std::string and char arrays as lists of bytes. Text/Trim is `trim`, Text/CString
--                      is `setCString`, Text/Json is `jsonEscape` and `jsonUnescape`, Text/Number the
--                      numbers that are printed and `std::stoi`, Text/Search the searches;
--                      Text/Trim/Joined is about texts that `trim` leaves alone.
--   Message            LAB6/message.h, and what `makeMessage` and `recvMessage` of LAB6/server.cpp and
--                      LAB6/client.cpp do to a message; Message/Sealed has the theorems.
--   Transport          `sendAll` and `recvAll` of both programs; Transport/Complete has their theorems.
--   Server             the structures and the global variables of LAB6/server.cpp as one record.
--     Server/Io        `makeMessage`, `sendMessage`, and what is built on them.
--     Server/NetSim    `applyNetworkSimulation`; NetSim/Corruption says what it may do.
--     Server/Dedup     `hasSeenMessageId`, `rememberMessageId`; Dedup/Window is their specification.
--     Server/History   the history and its file.
--     Server/Registry  the clients.
--     Server/Offline   the messages for those who are not there.
--     Server/Handlers  `handleHistoryRequest`, `handleListRequest`, `handleBroadcastText`,
--                      `handlePrivateText`.
--     Server/Session   `handleClient`: handshake, authentication, the loop, the end.
--     Server/Workers   `worker`, and the loop of `main`.
--     Server/Loading   `loadHistoryFromFile`. Text/Regex is the matcher of its regular expression,
--                      Loading/Fields, Objects and Search run it on what `saveHistoryLocked` writes,
--                      and Loading/Restart is about a server that is started again.
--     Server/Startup   `parseArgs`, and `main` up to its loop.
--     Server/Frame     what the operations that only send leave alone.
--     Server/Steps     the critical sections as a step relation; Steps/Connection relates
--                      `handleClient` to it. Saved, Growth and Users are about what every step
--                      keeps, Steps/Sent about what is sent, Marks about one of them, Ends about how a
--                      connection ends.
--     Server/Outbox, Server/Messages, Server/Delivery, Server/Replies: what is sent to whom.
--     Server/Duplicates, Server/Races, Server/Fifo: copies, interleavings, the queue of sockets.
--   SortedMap          std::map as the client uses it.
--   ChatClient         the structures and the global variables of LAB6/client.cpp as one record.
--     ChatClient/Output, Sending, Ping, Retry, Diagnostics, Receive, Connect, Commands: its functions,
--                      from `printHelp` to the commands of `main`.
--     ChatClient/Copies and Patience: how often and how long a message is repeated; Patience/Round is
--                      one round of the retries.
--     ChatClient/Acks, ChatClient/Counters: what the answers do, and the statistics of the pings.
--     ChatClient/Offline: the offline messages of the server, as the client shows them.
--     ChatClient/Commands/Lines: what the lines of the user do.
--     ChatClient/Program: main, on its own thread; ChatClient/Program/Exit: how it ends.
--   Login              `connectAndAuthorize` against `handleClient`: Login/Served is the server's side,
--                      Login/Asked the client's, Login/Agreement both.
--   Dialogue           the server's answer to a message, and what the client makes of it.
--   Lab5               LAB5/server.cpp, in the parts that LAB6 has too: Lab5/Io, History, Registry,
--                      Offline, Handlers, Session, Workers. Lab5/Keeps says what a claim on ids and
--                      history has to bear, and that a connection then keeps it; Lab5/Ids fills it for
--                      a connection alone, Lab5/Interleaving for one among threads
--                      that hold ids.
--                      Lab5/ChatClient is LAB5/client.cpp, Lab5/Whisper a private message from the
--                      client to the server.
--   Lab4               LAB4/message.h and LAB4/server.cpp, with Lab4/Session for `handleClient` and
--                      Lab4/Workers for the rest. Lab4/ChatClient is LAB4/client.cpp, Lab4/Closing
--                      and Lab4/Whisper have the theorems.
--   Lab3               LAB3/server.cpp; Lab3/ChatClient is LAB3/client.cpp, Lab3/Connection and
--                      Lab3/Overheard have the theorems.
--   Lab2               the server and the client of LAB2.
--   Lab1               the server and the client of LAB1; Lab1/Setup is the client's `main`,
--                      Lab1/Session a session of the two.
--   Tests              the theorems at concrete data.
--
-- How code and model correspond
--   A function of the program that reads or writes global variables is a function from a state to a
--   result and a state, under the same name in other spelling. A `shared_ptr<Client>` is an index into a
--   heap, so that all holders see a write. The system's answers (clock, random numbers, sockets) are
--   functions of a call number that the state counts. What comes in over a connection is a list of
--   messages, whose end is the failure of `recvAll`; every message passes `seal_message`, as in
--   `recvMessage`. All messages that are sent are recorded in `outbox`.
--   Machine words: ids and lengths wrap at 2 ^ 32. A `time_t` is kept as its word of 64 bits, in two's
--   complement; it is printed with its sign. The rates of the simulation are doubles as far as the
--   program compares them: below 0, a whole number of the least double, or NaN; `std::atof` is a
--   parameter. Round-trip times are doubles that hold whole milliseconds.
--
-- Bounds and fuel
--   `sendAll` and `recvAll` run on as much fuel as there are bytes to move, which is enough since each
--   round moves at least one or ends. All other loops run over a list, or count down a number that the
--   source counts up to; a number is printed on as much fuel as its value, which falls with each
--   digit. A star of the regular expression runs at most as often as characters are left, since each
--   round takes one. `connectAndAuthorize` runs over the answers that the system will give.
--
-- Not modelled
--   The logs on the consoles of the servers of LAB3 to LAB6, sleeps, the addresses of sockets, the
--   layout of a message in memory (a parameter), `strftime` (a parameter). `loadHistoryFromFile` of
--   LAB5, which is not called. The setup of sockets where the program does not look at its results.
--   Within one critical section a thread runs alone; the interleavings of critical sections are
--   modelled for the server of LAB6. A connection of LAB3 to LAB5 runs alone, in LAB5 next to threads
--   that hold ids. A `recv` of LAB2 to LAB4 that fills a part of a message is covered, since what then
--   stands in the structure is the input of the model; how the bytes of one message fall into several
--   `recv`s is not.
pub mod Prelude
pub mod Text
pub mod Message
pub mod Transport
pub mod Server
pub mod SortedMap
pub mod ChatClient
pub mod Dialogue
pub mod Login
pub mod Lab5
pub mod Lab4
pub mod Lab3
pub mod Lab2
pub mod Lab1
pub mod Tests
