-- ===== src/Lib.antt =====
-- Boost.Asio samples: the networking library asiolib and the programs that use it.
--
-- The library has an HTTP client and an HTTP service (asiolib/http-client-async.hpp,
-- asiolib/http-service-async.hpp, asiolib/http-errors.hpp), an asynchronous TCP client and server
-- (asiolib/tcp-client-async.hpp, asiolib/tcp-server-async.hpp), synchronous clients and servers
-- (asiolib/tcp-client-sync.hpp, asiolib/udp-client-sync.hpp, asiolib/tcp-server-sync.hpp), and the
-- functions they share (asiolib/io_buffers.hpp, sockets.hpp, endpoints.hpp, binding.hpp,
-- dns-resolve.hpp, clients.hpp, servers.hpp). Clients and servers meet only over the network: an
-- object starts an operation of Boost.Asio and the io_context calls its handler when the operation has
-- completed.
--
-- How the program is modelled. An object is a record of its members. An operation it has started
-- stands in its list of pending operations with what its handler captures; a handler is a function
-- from the result of the operation and the object to the object. A run completes pending operations
-- in any order and with any result, a read also with bytes that Asio would not end it with, and lets other threads act in between, so that a theorem on
-- runs speaks of every network and every schedule. Handlers take the locks of what they share, so
-- each handler and each call of another thread is one step. A call of a callback is an entry in a
-- list, `delete this` is counted, and an exception or a loop that does not end is a value. A byte is
-- a native number, a text a list of bytes.
--
-- Files:
--   Base (Base/Tests, Lists, Slices, Texts, Order): Boolean tests, lists and byte strings.
--   Stream, Stream/Reads: std::istream over a buffer: getline, get and >>.
--   Decimal, Decimal/RoundTrip: std::to_string and std::stoul. The projects of the repository build
--     with Visual C++, where unsigned long has 32 bits.
--   Dict: std::map as an association list.
--   Errors: asiolib/http-errors.hpp, and error codes. The codes of Boost.Asio are a parameter,
--     AsioError, whose laws say that they are not zero.
--   Operations: objects that live by operations, for the HTTP client and service.
--   HttpClient: HTTPRequest of asiolib/http-client-async.hpp. Request has the members and setters,
--     Headers the header loop, HttpClient itself execute and the on_... handlers, Steps the runs;
--     Closing has HTTPClient, its thread and close.
--   HttpService: HttpService of asiolib/http-service-async.hpp. Session has the members, Headers the
--     header loop, HttpService itself HandleRequest and the handlers, process_request and
--     send_response; the files of the machine are the parameter Files.
--   HttpExchange: the client of one file against the service of the other, as in
--     basics/http-server-client.cpp.
--   Setup: asiolib/endpoints.hpp, sockets.hpp, binding.hpp, dns-resolve.hpp and servers.hpp, over the
--     results of the calls of Asio, the parameter System of Setup/Tried. How `<<` prints a code and
--     the texts of message() and what() are parameters too.
--   Setup/Clients: asiolib/clients.hpp, and the loop of the fixture of basics/server-client.cpp.
--   SyncTcp: the request of asiolib/tcp-client-sync.hpp and ServiceFake::HandleRequest of
--     asiolib/tcp-server-sync.hpp, over the same calls of a socket.
--     SyncTcp/Client has SyncTCPClient from its constructor to its destructor.
--   SyncServer: Server of asiolib/tcp-server-sync.hpp over any acceptor, SyncServer/Acceptors, of which
--     the two of the file are instances. A schedule is a list of events: a call of Start or Stop, the
--     return of its join, one step of the thread of the server, or the run of a detached thread.
--   SyncUdp: asiolib/udp-client-sync.hpp, over the calls of a socket of UDP.
--   IoBuffers: asiolib/io_buffers.hpp. IoBuffers/Calls has the calls of Asio as a parameter, Socket,
--     and what is documented of them, SocketLaws: a call of write_some or read_some on a buffer that
--     is not empty moves at least one byte or fails, and bytes keep their order.
--     IoBuffers/Wire has a socket for which they hold, IoBuffers/Bounds one that records what it is
--     given, and IoBuffers/Conversation the two ends of a connection.
--   TcpClient: asiolib/tcp-client-async.hpp. Sessions stand in a store by address, since the map of
--     active sessions and the pending handlers share them. TcpClient/Locks has the two locks that a
--     handler and CancelRequest take, one by one, TcpClient/Closing the threads of the client and Close.
--     TcpClient/Effects and TcpClient/Listed have what handlers do to the map of active sessions, TcpClient/Reaching the runs with fresh
--     numbers. TcpClient/LockOrder has the locks of every part of the client, ThreadSteps, Sharing and
--     Unblocked any number of threads. TcpClient/Local sees a handler from its session alone, and
--     Commuting forgets the order of what waits and was called, by quotients. TcpClient/Seen is a client
--     as one session sees it, and TcpClient/Interference its runs.
--   TcpServer: asiolib/tcp-server-async.hpp: AsyncAcceptor with the services of its connections.
--     TcpServer/Stages has the phases of the life of one service, and TcpServer/Separate the runs in
--     which only its own operations take it from one phase to the next.
--     TcpServer/Hosting has AsyncServer, its threads and the io_context that Stop stops.
--   AsyncWrite: WriteAsync of asiolib/io_buffers.hpp with the two callbacks of basics/server-client.cpp,
--     which throw where an operation failed.
--   AsyncExchange: the asynchronous TCP client against the server, as in
--     basics/tcp-client-server-async.cpp.
--   Scenarios: the tests of basics, each a function that reports the list of its checks or the exception
--     that leaves it (Scenarios/Report). EndPoints has endpoint.cpp and socket.cpp, Binding
--     binding.cpp, Resolving dns-resolve.cpp, Buffers GetBuffer and io_buffers.cpp, Handlers the
--     callbacks of the tests with a client, HttpTest the request of http-server-client.cpp, Bodies
--     tcp-client-server-sync.cpp, Ends and Shutdown the tests of server-client.cpp at both ends of a
--     connection, whose calls Scenarios/Connection chains.
--
-- Fuel. The header loops of the client and of the service take the number of rounds as an argument
-- (HttpClient/Headers, HttpService/Headers). Every round but the last two takes a byte from the
-- stream, so the handlers allow two rounds more than the buffer has bytes. A loop
-- that is not done then is given the fate hung; what that means is stated in HttpClient/Blocks,
-- HttpClient/Hanging and HttpService/Loop. The loops of IoBuffers are given a round for each byte and one more, which is
-- enough where a call moves at least one byte; a loop that is not done is given the outcome endless.
--
-- Not modelled: a second call of HTTPClient::close; that Close of the asynchronous TCP client returns,
-- which the locks of TcpClient/Locks can prevent; locks elsewhere than in TcpClient/Locks; text
-- that is printed, except by handler of asiolib/tcp-client-async.hpp and RunClient of
-- asiolib/clients.hpp; what the close of the
-- acceptor in Accept throws: a run ends at that handler, which would end the program.
mod Base
pub mod Stream
pub mod Decimal
pub mod Dict
pub mod Errors
pub mod Operations
pub mod IoBuffers
pub mod Setup
pub mod SyncTcp
pub mod SyncServer
pub mod SyncUdp
pub mod TcpClient
pub mod TcpServer
pub mod AsyncExchange
pub mod AsyncWrite
pub mod Scenarios
pub mod HttpClient
pub mod HttpService
pub mod HttpExchange
