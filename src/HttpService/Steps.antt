-- ===== src/HttpService/Steps.antt =====
-- asiolib/http-service-async.hpp: a service between its handlers. A run may end `async_read_until` without
-- an error also where its delimiter has not come, which Asio does not do.
use boost_asio_samples.Base.{ℕ, ◌+◌, Option, ◌++◌, ◌≡◌, Bytes}
use boost_asio_samples.Errors.{ErrorCode, AsioError}
use boost_asio_samples.Operations.{Machine}
use boost_asio_samples.HttpService.Session.{
  HttpService, Op, read_until, write, request_line_received, headers_received, Fate, running, Files,
}
use boost_asio_samples.HttpService.{on_request_line_received, on_headers_received, on_response_sent}

-- How an operation ends: its code, the bytes that it put into the request buffer, and what the call of
-- `shutdown` that follows throws.
pub record Event : Type 0 where
  pub ec : ErrorCode
  pub bytes : Bytes
  pub shutdown : Option ErrorCode

unfoldable pub receive : Bytes → HttpService → HttpService
receive bytes s = record s { request = s.request ++ bytes }

-- Whether an exception has left a handler, or it does not return.
abbrev pub ended : Fate → ℕ
ended running = 0
ended _ = 1

abbrev pub rank : Op → ℕ
rank (read_until d request_line_received) = 3
rank (read_until d headers_received) = 2
rank (write b) = 1

module _ (asio : AsioError) (files : Files) where
  unfoldable pub handle : Op → Event → HttpService → HttpService
  unfolding receive
  handle (read_until d request_line_received) e s =
      on_request_line_received asio e.ec e.shutdown (receive e.bytes s)
  handle (read_until d headers_received) e s =
      on_headers_received asio files e.ec e.shutdown (receive e.bytes s)
  handle (write b) e s = on_response_sent e.ec e.shutdown s

  -- A service as an object that lives by its operations; no other thread touches it.
  abbrev pub services : Machine
  services = record {
    State = HttpService;
    Op = Op;
    Event = Event;
    pending = λ s. s.pending;
    leave = λ s ops. record s { pending = ops };
    ends = λ s. s.deletes + ended s.fate;
    Running = λ s. s.fate ≡ running;
    handle = handle;
    Meanwhile = λ s t. ⊥;
    rank = rank;
  }
