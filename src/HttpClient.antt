-- ===== src/HttpClient.antt =====
-- asiolib/http-client-async.hpp: `execute` and the completion handlers of `HTTPRequest`.
pub mod Request
pub mod Headers
pub mod Steps
pub mod Outcomes
pub mod Quiet
pub mod Parsing
pub mod Hanging
pub mod Blocks
pub mod Receiving
pub mod Getters
mod Tests
pub mod Lifecycle
pub mod Cancelling
pub mod Closing
mod ClosingTests
use boost_asio_samples.Base.{
  ℕ, ◌%◌, ◌^◌, Bool, true, false, ◌||◌, not, Option, none, some, [], ◌∷◌, ◌++◌, Bytes, codes,
  is_empty, bytes_eq, ◌==◌, if◌then◌else◌,
}
use boost_asio_samples.Decimal.{to_string, stoul}
use boost_asio_samples.Errors.{
  ErrorCode, failed, success, error_code_eq, invalid_response, make_error_code, AsioError,
}
use boost_asio_samples.Stream.{IStream, open_stream, getline, get, extract}
use Request.{
  HttpResponse, HttpRequest, Op, resolve, connect, write, read_until, read_all, assertion_failed,
  escaped, hung, is_null, start, status_line_received, headers_received, on_finish, set_buffer,
}
use Headers.{read_headers, rounds_for}

-- `m_request_buf += …`, three times
unfoldable pub append_request : HttpRequest → HttpRequest
append_request r = record r {
  request_buf =
      ((r.request_buf ++ (codes "GET " ++ (r.uri ++ codes " HTTP/1.1\r\n")))
        ++ (codes "Host: " ++ (r.host ++ codes "\r\n")))
      ++ codes "\r\n";
}

-- The rest of the status line, once its code `v` is read.
unfoldable pub store_status : ℕ → IStream → HttpRequest → HttpRequest
store_status v s r =
    let line = getline b'\r' [] s in
    record r {
      response = record r.response {
        status_code = v % 2 ^ 32;
        status_message = line.0;
        response_buf = (get line.1).rest;
      };
    }

-- The response after its headers; the stream has taken them from the buffer.
unfoldable pub store_headers : HttpResponse → IStream → HttpRequest → HttpRequest
store_headers p s r = record r { response = record p { response_buf = s.rest } }

module _ (asio : AsioError) where
  -- The common end of the handlers: under the lock, a cancelled request stops, another goes on.
  unfoldable pub unless_cancelled : Op → HttpRequest → HttpRequest
  unfolding start
  unless_cancelled op r = if r.was_cancelled then on_finish asio.operation_aborted r else start op r

  unfoldable pub execute : HttpRequest → HttpRequest
  execute r =
      if r.port == 0 || is_empty r.host || is_empty r.uri || is_null r.callback
      then record r { fate = assertion_failed }
      else unless_cancelled (resolve r.host (to_string r.port)) r

  unfoldable pub on_host_name_resolved : ErrorCode → HttpRequest → HttpRequest
  on_host_name_resolved ec r = if failed ec then on_finish ec r else unless_cancelled connect r

  unfoldable pub on_connection_established : ErrorCode → HttpRequest → HttpRequest
  on_connection_established ec r =
      if failed ec
      then on_finish ec r
      else unless_cancelled (write (append_request r).request_buf) (append_request r)

  -- `shutdown` is what `m_sock.shutdown` throws, if it throws.
  unfoldable pub on_request_sent : ErrorCode → Option ErrorCode → HttpRequest → HttpRequest
  on_request_sent ec shutdown r = if failed ec then on_finish ec r else elim shutdown [
    | some e ↦ record r { fate = escaped e }
    | none ↦ unless_cancelled (read_until (codes "\r\n") status_line_received) r
  ]

  unfoldable pub read_status : ℕ → IStream → HttpRequest → HttpRequest
  read_status v s r =
      unless_cancelled (read_until (codes "\r\n\r\n") headers_received) (store_status v s r)

  -- `none` is the exception of `std::stoul`, which is caught.
  unfoldable pub accept_code : Option ℕ → IStream → HttpRequest → HttpRequest
  accept_code none s r = on_finish (make_error_code invalid_response) (set_buffer s.rest r)
  accept_code (some v) s r = read_status v s r

  -- The parse of the status line, from the stream over the response buffer.
  unfoldable pub parse_status_line : IStream → HttpRequest → HttpRequest
  parse_status_line s r =
      let version = extract [] s in
      let code = extract [] version.1 in
      if not (bytes_eq version.0 (codes "HTTP/1.1"))
      then on_finish (make_error_code invalid_response) (set_buffer version.1.rest r)
      else accept_code (stoul code.0) code.1 r

  unfoldable pub on_status_line_received : ErrorCode → HttpRequest → HttpRequest
  on_status_line_received ec r =
      if failed ec
      then on_finish ec r
      else parse_status_line (open_stream r.response.response_buf) r

  unfoldable pub headers_done : Option (HttpResponse × IStream) → HttpRequest → HttpRequest
  headers_done none r = record r { fate = hung }
  headers_done (some (p, s)) r = unless_cancelled read_all (store_headers p s r)

  unfoldable pub on_headers_received : ErrorCode → HttpRequest → HttpRequest
  on_headers_received ec r =
      let b = r.response.response_buf in
      if failed ec
      then on_finish ec r
      else headers_done (read_headers (rounds_for b) [] (open_stream b) r.response) r

  unfoldable pub on_response_body_received : ErrorCode → HttpRequest → HttpRequest
  on_response_body_received ec r =
      if error_code_eq ec asio.eof then on_finish success r else on_finish ec r
