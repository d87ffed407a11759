-- ===== src/Lib.antt =====
-- The library models the C++ program zatestil: a service and a bot that keep accounts in a key-value
-- store and talk by messages over websockets.
--
-- Util (include/util, source/util) is the ground: results, scope guards, and `Singleton::instance`,
-- which Util/Singleton runs as threads interleaved at each access to shared memory. Hash
-- (source/hash/Hash.cpp) is the hexadecimal text of hashes, and Hash/Hasher (source/hash/Hasher.cpp,
-- include/hash) the hash of a sequence of updates, over a parameter for the SHA-256 of libsodium. Serde
-- (include/serde/serde.hpp) is the binary and JSON form of values, over a parameter for yas, and the
-- comparisons that its macros define; Object (include/object) has accounts and blocks. Config
-- (include/config) has the parameters of the two configurations and how their numbers are read. Threads
-- (source/threads/ThreadPool.cpp) is the pool of threads: the loop of a thread, and a step relation for
-- the barrier of the constructor and the joins of the destructor.
--
-- Database (include/database, source/database) stands on libmdbx, which is the parameter `Mdbx` of
-- Database/Mdbx with the documented behaviour as the record `Laws`; Database/Rows says what a map is, a
-- list of rows sorted by key, and Database/Memory is a store in memory that has the laws.
-- Database/Operation has the readers and writers (`make_reader`, `make_writer`, `commit`, `abort`,
-- `unlock`, `destroy`) with the mutex of their database, Database/Cursor the cursors, and Database/Table
-- the tables. Database/Table/Commands has sequences of calls on a table, and the same calls on a function
-- from keys to values, which is what a table is for its clients. Database/Table/Schedules interleaves
-- the calls of any number of open operations on one table as the mutex lets them, and
-- Database/Table/Walking is a loop from `begin` to `end`. Storage (source/storage/Storage.cpp)
-- makes the data directory and opens the database of the service with its two tables.
--
-- Message (include/message, source/message) has the messages and their ids, and Message/Requester the
-- requests that wait for a response or a timer, as a step relation over the objects that the source
-- shares by pointer. `set` resumes a coroutine while it holds the mutex of `m_response`, and
-- `await_resume` asks for that mutex again; Message/Requester/Deadlock is about what comes of it.
--
-- Websocket (source/websocket) has the session of a client (Websocket/Session) with its handles
-- (Websocket/Handles), the session of the server (Websocket/ServerSession), and the acceptor and the
-- accepts of the server (Websocket/Server), as step relations of the events that boost::asio delivers;
-- how an operation of boost::beast ends is an argument. Client puts the requester of Message on the
-- session of Websocket: what the requester sends goes to the session, and what the session posts comes
-- back to the requester, in any order of the tasks.
--
-- Application (application/run.hpp, application/Application.hpp) is the life of a process and its
-- signals, and Application/Bot (application/bot/BotApplication.cpp) the bot: its constructor, `run_impl`
-- and the task that polls. How a call of TgBot ends is an argument.
-- Application/Service (application/service/ServiceApplication.cpp) is the service, which makes the pool,
-- the server with its set-up of TLS (Websocket/Server/Setup) and the storage. Application/Main has the
-- functions `main` of both. The destructor of the pool comes back only if SIGINT or SIGTERM arrives:
-- `pool_ends` of Application/Signals, by an argument that says whether one does.
--
-- Integers are natural numbers; a 64-bit counter wraps round at `2 ^ 64`. The timeout of a request is
-- the signed number of 64 bits that `std::chrono::milliseconds` makes of an unsigned one. Keys and
-- values have the sizes that libmdbx takes. The loops of `find` and of
-- `erase` over a range run on fuel: more fuel than the table has rows is enough. The loops of `Hash`
-- are structural. The loops of a thread and of the polls run on the list of their calls.
--
-- Failures of the machine (memory, disk) are left out, and so is pure output (include/log). `onStart`
-- of the bot is left out: it is a coroutine of libcoro, which starts when it is awaited, and
-- `run_impl` drops its task; the requester that it would use was given a null session.
-- `Cursor::setValue` and the overloads of `find` on a `ConstCursor` are left out, since no instance of
-- them compiles. Pointers to objects that were destroyed are not modelled. `m_timedMessages` has no
-- lock in the source; each function of the requester is one step, which ends where its thread waits
-- for ever for the mutex of `m_response`. How many threads of the pool are left for further steps is
-- not counted.
pub mod Prelude
pub mod Util
pub mod Hash
pub mod Serde
pub mod Object
pub mod Config
pub mod Threads
pub mod Database
pub mod Storage
pub mod Message
pub mod Websocket
pub mod Client
pub mod Application
