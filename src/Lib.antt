-- ===== src/Lib.antt =====
-- stdsc: a model of the client-server library under stdsc/ and of its examples examples/add_server/
-- and examples/multi_client/, with the theorems that make them correct.
--
-- The program. A client sends packets of 1032 bytes, a 64-bit control code and a body, over TCP; a
-- packet may announce data, which follow it as they are. The server has one thread for each
-- connection: it receives a packet, has a callback evaluate it that is chosen by the code, and
-- acknowledges it. The callbacks share a container with common data and move a state machine.
--
-- The files, from the bottom up:
--   Base            names of the libraries, tests, lists, bits, integers, association lists
--   Exec            stdsc/stdsc_exception.hpp: exceptions, and the actions that throw them
--   Packet          stdsc/stdsc_packet.hpp, stdsc_packet.cpp: packets, codes, makers
--   System          the calls of the operating system, as fields of a record parameter
--   Socket          stdsc/stdsc_socket.cpp: Impl::read and write, wait_read, wait_write,
--                   send_packet, recv_packet, send_buffer, recv_buffer
--   Socket/Setup    the same file: make_listen_socket, accept_connection, establish_connection
--   Client          stdsc/stdsc_client.cpp: Client::Impl and the blocking calls of Client;
--                   Client/Retry has calc_retry_count and the loop that those calls share (Rounds is
--                   induction along it),
--                   Client/Descriptors what connect leaves open, Client/Frame and Ending what
--                   the calls leave alone and that they end, Client/Silent that a call may wait for
--                   ever, and Client/Sleeping how long the calls sleep
--   State           stdsc/stdsc_state.hpp, stdsc_state.cpp: StateContext over shared objects
--   Buffer          stdsc/stdsc_buffer.hpp, stdsc_buffer.cpp: Buffer and BufferStream
--   Data            stdsc/stdsc_basicdata.hpp, stdsc_plaindata.hpp: BasicData and PlainData
--   Utility         stdsc/stdsc_utility.cpp
--   Log             stdsc/stdsc_log.cpp, stdsc_log.hpp: the levels, emit and make_debuginfo
--   Callback        stdsc/stdsc_callback_function.hpp, stdsc_callback_function.cpp and
--                   stdsc_callback_function_container.cpp: the container and its eval
--   Server          stdsc/stdsc_server.cpp with stdsc_thread.hpp, stdsc_thread.cpp:
--                   ServerThread::Impl::exec, Server::Impl::exec and ResourceContainer;
--                   Server/Steps has the loop of a thread in single steps, Server/Threads the
--                   threads of all connections, whose steps follow one another in any order,
--                   Server/Lifecycle start, stop, wait and join, Server/Frame what a thread leaves
--                   alone, and Server/Descriptors the descriptors of a whole run
--   AddServer       examples/add_server/: the states, the callbacks and the container of the server's
--                   run(), the client's run(), and the messages between them (Protocol);
--                   AddServer/Threads is about several connections at once, with one client that
--                   keeps the protocol among any others (Standing, Turns, Among, Sum);
--                   AddServer/Together is about the client and the server's thread over one pipe, and
--                   AddServer/Descriptors the client's descriptor, whatever the server does
--   MultiClient     examples/multi_client/: the container with the comparing callback, the body of a
--                   client thread and the client's run(); MultiClient/Threads is about several
--                   connections at once, MultiClient/Together and Run about the client's threads,
--                   each with a thread of the server over a pipe of its own
--   Tests           runs over a concrete connection
-- The other files hold the proofs about the module that they stand below.
--
-- How the code is modelled. An operation is a function from a state to a result and a state: what was
-- written before an exception stays written. The result `running` is a loop that goes on after the
-- rounds it is followed for, or a call that never returns, and `fault` an access to memory that is not
-- there. A descriptor is -1 or a number, a buffer is its bytes, and a 32-bit sum is reduced modulo 2 ^ 32. A shared_ptr to a state
-- is an index of the list of state objects, so that copies of a context share their object; in the
-- same way a Buffer of the module Buffer is an index of the list of its vectors. The other modules take
-- a Buffer as its bytes, since none of them keeps two copies of one.
--
-- Threads. A step of a connection's thread is the test of its loop with the receipt of a packet, or the
-- answer to one; between two steps the system may change in any way. An answer is one step: the callback
-- runs without a step of another thread in between. The code takes no lock there, so that finer
-- interleavings of two callbacks are possible, and C++ gives those no meaning.
--
-- Waiting. A `select` for reading, a `recv` and a `send` may never return (`recv_waits`, or `none` for
-- the result of the call), and neither may joining a thread (`goes_on` of ThreadEnd, in Server): then
-- the operation is `running`. The other calls of the system return, a `select` for writing and the
-- connecting since they have a timeout or do not block.
--
-- Rounds. `read` is followed for as many rounds as it wants bytes, which is enough since each `recv`
-- delivers one at least. A `send` may deliver none, so `write` is followed for `write_rounds`, a
-- number of the parameter; as many rounds as bytes are enough where each `send` takes one. The retry
-- loops are followed for the largest number of attempts. The loops of the threads are followed along
-- a list of the values of `force_finish` at their tests, which another thread may write.
--
-- The hypotheses on the system are IsConnection (Socket/Connection), what POSIX says of a blocking
-- stream socket that does not fail, IsClosed (Socket/Closed), the same once the peer has closed,
-- Untouched (Socket/Frame), that the calls on one descriptor leave the streams of another alone, and the
-- counts of descriptors CountsClosed (Server/Resources), Ledger and Quiet (below Socket/Setup) and
-- Moving (AddServer/Descriptors), Selects and Responds (Socket/Ending), that these calls return at
-- all, IsSilent (Client/Silent), that one does not, and Clock (Client/Sleeping), the time slept. The
-- hypotheses on C++ streams and on files stand in Data/RoundTrip.
--
-- Rounds elsewhere: the loop of `split` is followed for as many rounds as the string has characters.
--
-- Not modelled: the text that vsprintf makes of a log message, and the console output; what the standard
-- streams do with the pointers of a BufferStream; the options of a command line, and how the client of
-- examples/multi_client/ draws its numbers; waiting for a mutex; memory that cannot be allocated. The
-- states and the first three callbacks of examples/multi_client/ are the same text as those of
-- examples/add_server/ and are not translated a second time.
pub mod Base
pub mod Exec
pub mod Packet
pub mod System
pub mod Socket
pub mod Client
pub mod State
pub mod Buffer
pub mod Data
pub mod Utility
pub mod Log
pub mod Callback
pub mod Server
pub mod AddServer
pub mod MultiClient
pub mod Tests
