-- ===== src/TcpServer.antt =====
-- asiolib/tcp-server-async.hpp: the accept loop of `AsyncAcceptor` with its stop flag, and the handlers
-- of the services that it makes.
pub mod Connections
pub mod Steps
pub mod Balance
pub mod Stages
pub mod Separate
pub mod Stopping
pub mod Hosting
mod Tests
use boost_asio_samples.Base.{
  ℕ, ◌+◌, ◌*◌, ◌%◌, ◌^◌, Bool, true, Option, [], ◌∷◌, ◌++◌, Bytes, codes, ◌==◌, if◌then◌else◌,
}
use boost_asio_samples.Errors.{ErrorCode, failed}
use boost_asio_samples.Stream.{open_stream, getline}
use Connections.{
  AsyncAcceptor, ServiceFakeAsync, Op, accept, read_until, write, new_service, put, start,
}

-- `AsyncAcceptor::Init`, which is also what `Start` does once the acceptor listens.
unfoldable pub init : AsyncAcceptor → AsyncAcceptor
init c = start accept c

-- `AsyncAcceptor::Stop`
unfoldable pub stop : AsyncAcceptor → AsyncAcceptor
stop c = record c { stop_flag = true }

-- `new ServiceType(socket)` and its `HandleRequest`
unfoldable pub serve : AsyncAcceptor → AsyncAcceptor
serve c =
    let made = record (put c.next new_service c) { next = c.next + 1 } in
    start (read_until c.next) made

-- `AsyncAcceptor::Accept`, where closing the acceptor throws nothing.
unfoldable pub on_accept : ErrorCode → AsyncAcceptor → AsyncAcceptor
on_accept ec c =
    let served = if failed ec then c else serve c in
    if served.stop_flag then record served { closes = served.closes + 1 } else init served

-- `ServiceFakeAsync::Clean`
unfoldable pub clean : ℕ → AsyncAcceptor → AsyncAcceptor
clean a c = let s = c.services a in put a (record s { deletes = s.deletes + 1 }) c

abbrev pub processed : Bytes → Bytes
processed output = codes "request is processed!: " ++ (output ++ b'\n' ∷ [])

-- `ServiceFakeAsync::ProcessRequest`, on the service; the calculation and the pause change nothing.
unfoldable pub process_request : ServiceFakeAsync → ServiceFakeAsync
process_request s =
    let line = getline b'\n' [] (open_stream s.buffer) in
    record s { response = processed line.0; buffer = line.1.rest }

-- `ServiceFakeAsync::RecieveRequest`; `bytes` is what the read put into the buffer.
unfoldable pub recieve_request : ErrorCode → Bytes → ℕ → AsyncAcceptor → AsyncAcceptor
recieve_request ec bytes a c =
    let s = c.services a in
    let s' = process_request (record s { buffer = s.buffer ++ bytes }) in
    if failed ec then clean a c else start (write a s'.response) (put a s' c)

-- `ServiceFakeAsync::SendAnswer`
unfoldable pub send_answer : ErrorCode → ℕ → AsyncAcceptor → AsyncAcceptor
send_answer ec a c = clean a c

-- The size of the thread pool that `AsyncServer::Start` makes, and its default.
unfoldable pub thread_pool_size : ℕ → ℕ
thread_pool_size requested = if requested == 0 then 2 else requested

unfoldable pub default_pool_size : ℕ → ℕ
default_pool_size hardware = (hardware * 2) % 2 ^ 16
