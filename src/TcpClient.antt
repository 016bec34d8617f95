-- ===== src/TcpClient.antt =====
-- asiolib/tcp-client-async.hpp: the operations and handlers of `AsyncTCPClient`. Each holds the locks
-- of what it shares while it uses it, so each is one step here; Locks has the order of the locks.
pub mod Sessions
pub mod Steps
pub mod Once
pub mod Reuse
pub mod Active
pub mod Cancelled
pub mod Locks
pub mod LockOrder
pub mod ThreadSteps
pub mod Sharing
pub mod Unblocked
pub mod Closing
pub mod Effects
pub mod Listed
pub mod Reaching
pub mod Local
pub mod Commuting
pub mod Seen
pub mod Interference
mod ReachingTests
mod OrderTests
mod Tests
mod ClosingTests
use boost_asio_samples.Base.{
  ℕ, ◌+◌, ◌-◌, ltb, ◌%◌, ◌^◌, Bool, true, false, ◌&&◌, not, Option, none, some, [], ◌∷◌, ◌++◌,
  Bytes, codes, ◌==◌, if◌then◌else◌,
}
use boost_asio_samples.Decimal.{to_string}
use boost_asio_samples.Dict.{nat_eq, lookup, insert, erase}
use boost_asio_samples.Errors.{ErrorCode, failed, error_code_eq, AsioError}
use boost_asio_samples.Stream.{open_stream, getline}
use Sessions.{Session, Call, AsyncTcpClient, connect, write, read_until, new_session, put, start}

-- How many threads the constructor starts, whose argument has 8 bits; `hardware` is `std::thread::hardware_concurrency()`.
unfoldable pub number_of_threads : ℕ → ℕ → ℕ
number_of_threads requested hardware =
    let given = requested % 2 ^ 8 in if given == 0 then hardware % 2 ^ 8 else given

abbrev pub request_text : ℕ → Bytes
request_text duration_sec = codes "EMULATE_LONG_CALC_OP " ++ (to_string duration_sec ++ b'\n' ∷ [])

-- `thrown` is what `address::from_string` or `open` throws, if one does: then nothing is stored.
unfoldable pub emulate_long_computation_op :
    Option ErrorCode
    → (duration_sec : ℕ) (ip : Bytes) (port callback request_id : ℕ) → AsyncTcpClient
    → AsyncTcpClient
emulate_long_computation_op (some e) duration_sec ip port callback request_id c = c
emulate_long_computation_op none duration_sec ip port callback request_id c =
    let session = new_session ip port (request_text duration_sec) request_id callback in
    let stored = record (put c.next session c) {
      next = c.next + 1;
      active = insert request_id c.next c.active;
    } in
    start (connect c.next) stored

unfoldable pub cancel_session : Option ℕ → AsyncTcpClient → AsyncTcpClient
cancel_session none c = c
cancel_session (some a) c =
    let s = c.sessions a in put a (record s { was_cancelled = true; cancels = s.cancels + 1 }) c

-- `CancelRequest`
unfoldable pub cancel_request : ℕ → AsyncTcpClient → AsyncTcpClient
cancel_request request_id c = cancel_session (lookup request_id c.active) c

module _ (asio : AsioError) where
  abbrev pub final_code : Session → ErrorCode
  final_code s = if not (failed s.ec) && s.was_cancelled then asio.operation_aborted else s.ec

  -- `OnRequestComplete`
  unfoldable pub on_request_complete : ℕ → AsyncTcpClient → AsyncTcpClient
  on_request_complete a c =
      let s = c.sessions a in
      let call : Call = record {
        session = a;
        callback = s.callback;
        request_id = s.id;
        response = s.response;
        ec = final_code s;
      } in
      record c { active = erase s.id c.active; calls = c.calls ++ call ∷ [] }

  -- The handler of an error: `session->m_ec = ec`.
  unfoldable pub fail_request : ErrorCode → ℕ → AsyncTcpClient → AsyncTcpClient
  fail_request ec a c = on_request_complete a (put a (record (c.sessions a) { ec = ec }) c)

  -- The lambda of `async_connect`
  unfoldable pub on_connected : ErrorCode → ℕ → AsyncTcpClient → AsyncTcpClient
  on_connected ec a c =
      if failed ec
      then fail_request ec a c
      else if (c.sessions a).was_cancelled
      then on_request_complete a c
      else start (write a) c

  -- The lambda of `async_write`
  unfoldable pub on_written : ErrorCode → ℕ → AsyncTcpClient → AsyncTcpClient
  on_written ec a c =
      if failed ec
      then fail_request ec a c
      else if (c.sessions a).was_cancelled
      then on_request_complete a c
      else start (read_until a) c

  -- The lambda of `async_read_until`; `bytes` is what the read put into the response buffer.
  unfoldable pub on_response : ErrorCode → Bytes → ℕ → AsyncTcpClient → AsyncTcpClient
  on_response ec bytes a c =
      let s = c.sessions a in
      let line = getline b'\n' s.response (open_stream (s.response_buf ++ bytes)) in
      if failed ec
      then fail_request ec a (put a (record s { response_buf = s.response_buf ++ bytes }) c)
      else on_request_complete a
          (put a (record s { response = line.0; response_buf = line.1.rest }) c)

-- An `int` of 32 bits as it is printed, from its bit pattern.
abbrev pub int_text : ℕ → Bytes
int_text v = if ltb v (2 ^ 31) then to_string v else b'-' ∷ to_string (2 ^ 32 - v)

-- `handler`: what it prints for a call, without the line end.
unfoldable pub handler_text : AsioError → (ErrorCode → Bytes) → ℕ → Bytes → ErrorCode → Bytes
handler_text asio message request_id response ec =
    let subject = codes "Request #" ++ to_string request_id in
    if not (failed ec)
    then subject ++ (codes " has completed. Response: " ++ response)
    else if error_code_eq ec asio.operation_aborted
    then subject ++ codes " has been cancelled by the user."
    else subject
      ++ (codes " failed! Error code = "
          ++ (int_text ec.value ++ (codes ". Error message = " ++ message ec)))
