-- ===== src/Lib.antt =====
-- Stakan, a service that keeps an order book and sends its snapshots to TCP clients.
--
-- The parts. The server (src/TCP_server) reads greetings from sessions and keeps a list of clients
-- (src/client_list), each with a session, its orders and a subscription. The order book
-- (src/bid_ask_book) keeps bids and asks, with running totals, and makes updates of the market. A
-- source of test snapshots (src/snapshots_broadcaster/snapshot_source.cpp) stands for the book's
-- own ones. The broadcaster (src/snapshots_broadcaster/broadcaster.h, command_queue.h) takes
-- commands from a queue, encodes snapshots (bid_ask_snaphot_interface/bid_ask_interface.h) and hands
-- the bytes to the client list, which hands them to sessions. The manager of the broadcast
-- (src/snapshots_broadcaster/dom_manager.cpp) gives it such commands at every tick of a timer. The client
-- (src/client.cpp), under the client library (client_lib), reads and decodes them; a console (src/console) is
-- made for it.
--
-- The files. A function keeps the name of the source's one, in lower case with underscores.
--   Base: numbers of 64 bits with their wrap, lists, maps, text, and Result, the outcome of a call that
--     may throw or be undefined.
--   Wire, with Codec, Memory and Print below it: Order, Snapshot, MDUpdate, their bytes and texts, of
--   bid_ask_snaphot_interface/bid_ask_interface.h. Memory is the layout of the structs: fields of 64
--     bits, the lowest byte first. RoundTrip is about the decoders, Reads has the lemmas.
--   Snapshots: TmpSnapshotCreator of src/snapshots_broadcaster/snapshot_source.cpp. Random has the random
--     snapshots, over a generator, its distributions and a sort that are parameters with laws.
--   Book: the class OrderBook of src/bid_ask_book/bid_ask_book.h and bid_ask_book.cpp. Ops writes once
--     what the source writes twice, for bids and asks. Container is the interface that the book
--     uses of boost::multi_index, with its documented laws; Sorted implements it by a sorted list.
--     Source is src/snapshots_broadcaster/order_book_snapshot_source.cpp. Abstract is what the book promises: two bags of orders,
--     quotients of lists by their order, with the calls on them. Branches, Totals, History, Best, Prices,
--     Update, Torn and Undo hold theorems. An update of
--     the market is made by four calls, on four books, which are the same when no other call comes in
--     between, and by two loads of the totals, which take no lock.
--   Clients: ClientList of src/client_list/client_list.cpp. Orders is the pair of a map and a list with
--     iterators that holds one side's orders; Represents says which list of orders that is. Inbox
--     is what the list hands to sessions.
--     A call that asks has_client first takes the mutex twice; Between has the calls that change the
--     list with others in between, and Races is about them. Lives says by the calls alone who is there.
--   Session: src/TCP_server/session.cpp, the handlers of one connection on its strand.
--   Server: HandleMessage, HandleDisconnect and ParseClientId of src/TCP_server/tcpserver.cpp. Listener
--     has the accept loop, the start and the stop, with the sessions that live: a session ends when the
--     last pointer to it goes out of scope. Lifetimes and Pace are about a started server.
--   Broadcast: src/snapshots_broadcaster/command_queue.h and broadcaster.h. Worker is the thread with
--     start and stop, as a relation of steps.
--   TcpClient: src/client.cpp. Its own file has the reader thread over a socket that is a parameter;
--     Connection has Connect, Disconnect and the destructor, with what the network does as arguments.
--   ClientLib: OrderBookClient of client_lib/order_book_client.cpp, over TcpClient. Adapter has
--     CallbacksAdapter, whose functions throw when they are empty.
--   ClientProgram: src/main.cpp, the program of the client, without what it prints. ServerProgram: src/TCP_server/main.cpp.
--   DomManager: src/snapshots_broadcaster/dom_manager.cpp, its commands and its timer. A wait that is
--     cancelled is still handled, with an error, as the network library documents.
--   DomProgram: src/snapshots_broadcaster/main.cpp, its two threads as a relation of steps.
--   Protocol: src/protocol.cpp and include/tcp_client/protocol.hpp. Encoding has a receiver.
--   Database: DBResult of src/database/IDBConnector.h.
--   Console: the folder src/console. Input is the extraction of words from a stream. Menu is menu.cpp;
--     the strings that its table refers to have places in memory. SnapshotClient is snapshot_client.cpp,
--     over a record of the calls that it makes of the client library; Agreement states what they should
--     tell, and OverTcp fills the record with TcpClient. App is app.cpp and menu_action.cpp.
--   Tests: runs on concrete inputs.
--
-- State and steps. A call that changes an object is a function from its state to its next state; a call
-- that holds a lock, or a handler that runs on a strand, is one step, and History modules run any
-- sequence of steps. A call that throws leaves the state that it has reached, and these throw before
-- any change. Shared objects, such as sessions, are known by a number for their address.
--
-- Bounds. Every sum and product of the source's unsigned 64-bit numbers is written with its wrap;
-- sizes of vectors are taken not to overflow. Loops over lists are structural. `decimal` runs 20
-- rounds, which is the length of the largest number of 64 bits. `trim_begin` has the number of bytes
-- left for its fuel, and the source's loop stops there. `read_loop` has a number of rounds, of which it
-- needs one.
--
-- The loop of the menu has for its rounds two more than the characters of its input: each round but the last
-- takes a word.
--
-- Not modelled: the calls of the network library and of threads, functions on doubles, logs, the
-- graphical front end, and the interface of a database that has no implementation.

pub mod Base
pub mod Wire
pub mod Snapshots
pub mod Book
pub mod Clients
pub mod Session
pub mod Server
pub mod ServerProgram
pub mod Broadcast
pub mod TcpClient
pub mod ClientLib
pub mod ClientProgram
pub mod DomManager
pub mod DomProgram
pub mod Protocol
pub mod Database
pub mod Console
pub mod Tests
