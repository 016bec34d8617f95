-- ===== src/HttpClient/Steps.antt =====
-- asiolib/http-client-async.hpp: a request between its handlers. The `io_service` completes any
-- operation that was started, with any result; another thread may call `cancel` in between. Both
-- take `m_cancel_mux` around what they share, so handlers and `cancel` are single steps. A run may end
-- `async_read_until` without an error also where its delimiter has not come, which Asio does not do.
use boost_asio_samples.Base.{ℕ, ◌+◌, Bool, Option, ◌++◌, ◌≡◌, Bytes, length}
use boost_asio_samples.Errors.{ErrorCode, AsioError}
use boost_asio_samples.Operations.{Machine}
use boost_asio_samples.HttpClient.Request.{
  HttpRequest, Op, resolve, connect, write, read_until, read_all, status_line_received,
  headers_received, Fate, running, set_buffer, cancel,
}
use boost_asio_samples.HttpClient.{
  on_host_name_resolved, on_connection_established, on_request_sent, on_status_line_received,
  on_headers_received, on_response_body_received,
}

-- How an operation ends: its code, the bytes that it put into the response buffer, and what the
-- call of `shutdown` in its handler throws.
pub record Event : Type 0 where
  pub ec : ErrorCode
  pub bytes : Bytes
  pub shutdown : Option ErrorCode

unfoldable pub receive : Bytes → HttpRequest → HttpRequest
unfolding set_buffer
receive bytes r = set_buffer (r.response.response_buf ++ bytes) r

-- Whether the request has ended otherwise than by its callback.
abbrev pub ended : Fate → ℕ
ended running = 0
ended _ = 1

-- How many operations may follow, this one included.
abbrev pub rank : Op → ℕ
rank (resolve host service) = 6
rank connect = 5
rank (write b) = 4
rank (read_until d status_line_received) = 3
rank (read_until d headers_received) = 2
rank read_all = 1

module _ (asio : AsioError) where
  -- The lambda that each operation was given.
  unfoldable pub handle : Op → Event → HttpRequest → HttpRequest
  unfolding receive
  handle (resolve host service) e r = on_host_name_resolved asio e.ec r
  handle connect e r = on_connection_established asio e.ec r
  handle (write b) e r = on_request_sent asio e.ec e.shutdown r
  handle (read_until d status_line_received) e r =
      on_status_line_received asio e.ec (receive e.bytes r)
  handle (read_until d headers_received) e r = on_headers_received asio e.ec (receive e.bytes r)
  handle read_all e r = on_response_body_received asio e.ec (receive e.bytes r)

  pub data Meanwhile (s t : HttpRequest) : Type 0 where
    cancelling : (is_open : Bool) → t ≡ cancel is_open s → Meanwhile s t

  -- A request as an object that lives by its operations.
  abbrev pub requests : Machine
  requests = record {
    State = HttpRequest;
    Op = Op;
    Event = Event;
    pending = λ r. r.pending;
    leave = λ r ops. record r { pending = ops };
    ends = λ r. length r.calls + ended r.fate;
    Running = λ r. r.fate ≡ running;
    handle = handle;
    Meanwhile = Meanwhile;
    rank = rank;
  }
