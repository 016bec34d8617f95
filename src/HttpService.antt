-- ===== src/HttpService.antt =====
-- asiolib/http-service-async.hpp: the handlers of `HttpService`.
pub mod Session
pub mod Headers
pub mod Loop
pub mod Steps
pub mod Lifecycle
pub mod Statuses
pub mod Responses
pub mod Answers
mod Tests
use boost_asio_samples.Base.{
  ℕ, ◌+◌, Bool, true, false, not, Option, none, some, List, [], ◌∷◌, ◌++◌, Bytes, codes, bytes_eq,
  length, ltb, if◌then◌else◌,
}
use boost_asio_samples.Decimal.{to_string}
use boost_asio_samples.Dict.{Dict, nat_eq, lookup}
use boost_asio_samples.Errors.{ErrorCode, failed, error_code_eq, AsioError}
use boost_asio_samples.Stream.{IStream, open_stream, getline, get, extract}
use Session.{
  http_status_table, request_line_received, headers_received, read_until, write, bad_status,
  shutdown_failed, exists_failed, hung, HttpService, start, on_finish, set_status, Files,
}
use Headers.{read_headers, rounds_for}

-- `HandleRequest`
unfoldable pub handle_request : HttpService → HttpService
handle_request s = start (read_until (codes "\r\n") request_line_received) s

-- The body is a buffer of its own, where there is one.
abbrev pub response_buffers : HttpService → List Bytes
response_buffers s =
    s.response_status_line
    ∷ ((if ltb 0 (length s.response_headers) then s.response_headers ∷ [] else [])
        ++ (if ltb 0 s.resource_size_bytes then s.resource_buffer ∷ [] else []))

-- The response with the status line `line` of the table.
unfoldable pub with_status_line : Bytes → HttpService → HttpService
with_status_line line s = record s {
  response_status_line = codes "HTTP/1.1 " ++ (line ++ codes "\r\n");
  response_headers = s.response_headers ++ codes "\r\n";
}

unfoldable pub send_line : Option Bytes → HttpService → HttpService
send_line none s = record s { fate = bad_status }
send_line (some line) s =
    start (write (response_buffers (with_status_line line s))) (with_status_line line s)

-- `shutdown` is what `m_sock->shutdown(shutdown_receive)` throws, if it throws.
unfoldable pub send_response : Option ErrorCode → HttpService → HttpService
send_response (some e) s = record s { fate = shutdown_failed e }
send_response none s = send_line (lookup s.response_status_code http_status_table) s

-- The words of the request line; `rest` is what follows the line in the buffer.
unfoldable pub accept_request_line : Option ErrorCode → Bytes → Bytes → HttpService → HttpService
accept_request_line shutdown line rest s =
    let method = extract [] (open_stream line) in
    let resource = extract s.requested_resource method.1 in
    let version = extract [] resource.1 in
    let s' = record s { request = rest } in
    let s'' = record s' { requested_resource = resource.0 } in
    if not (bytes_eq method.0 (codes "GET"))
    then send_response shutdown (set_status 501 s')
    else if not (bytes_eq version.0 (codes "HTTP/1.1"))
    then send_response shutdown (set_status 505 s'')
    else start (read_until (codes "\r\n\r\n") headers_received) s''

abbrev pub resource_file_path : HttpService → Bytes
resource_file_path s = codes "sample" ++ s.requested_resource

unfoldable pub load_resource : Option Bytes → HttpService → HttpService
load_resource none s = set_status 500 s
load_resource (some b) s = record s {
  resource_size_bytes = length b;
  resource_buffer = b;
  response_headers =
      s.response_headers
      ++ (codes "content-length" ++ (codes ": " ++ (to_string (length b) ++ codes "\r\n")));
}

unfoldable pub process_request : Files → HttpService → HttpService
process_request files s =
    if not (files.exists (resource_file_path s))
    then set_status 404 s
    else load_resource (files.contents (resource_file_path s)) s

-- `process_request` and then `send_response`; the first argument is what `fs::exists` throws.
unfoldable pub answer_request :
    Option ErrorCode → Files → Option ErrorCode → HttpService → HttpService
answer_request (some e) files shutdown s = record s { fate = exists_failed e }
answer_request none files shutdown s = send_response shutdown (process_request files s)

unfoldable pub headers_done :
    Files → Option ErrorCode → Option (Dict Bytes Bytes × IStream) → HttpService → HttpService
headers_done files shutdown none s = record s { fate = hung }
headers_done files shutdown (some (headers, t)) s =
    let s' = record s { request_headers = headers; request = t.rest } in
    answer_request (files.exists_error (resource_file_path s')) files shutdown s'

module _ (asio : AsioError) where
  -- How the two reads treat an error: a line that does not fit into the buffer is `not_found`.
  unfoldable pub on_read_error : ErrorCode → Option ErrorCode → HttpService → HttpService
  on_read_error ec shutdown s =
      if error_code_eq ec asio.not_found
      then send_response shutdown (set_status 413 s)
      else on_finish s

  unfoldable pub on_request_line_received : ErrorCode → Option ErrorCode → HttpService → HttpService
  on_request_line_received ec shutdown s =
      let line = getline b'\r' [] (open_stream s.request) in
      if failed ec
      then on_read_error ec shutdown s
      else accept_request_line shutdown line.0 (get line.1).rest s

  unfoldable pub on_headers_received :
      Files → ErrorCode → Option ErrorCode → HttpService → HttpService
  on_headers_received files ec shutdown s =
      if failed ec
      then on_read_error ec shutdown s
      else headers_done files shutdown
          (read_headers (rounds_for s.request) [] [] (open_stream s.request) s.request_headers) s

-- `shutdown` is what `m_sock->shutdown(shutdown_both)` throws, if it throws.
unfoldable pub on_response_sent : ErrorCode → Option ErrorCode → HttpService → HttpService
on_response_sent ec (some e) s = record s { fate = shutdown_failed e }
on_response_sent ec none s = on_finish s
