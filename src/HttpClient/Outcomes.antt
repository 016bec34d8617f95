-- ===== src/HttpClient/Outcomes.antt =====
-- asiolib/http-client-async.hpp: what each handler adds to the operations that wait, the calls of
-- the callback and the handlers that did not return.
use boost_asio_samples.Base.{
  ℕ, suc, ◌+◌, ◌≤◌, Option, none, some, [], ◌∷◌, ◌≡◌, codes, length, length-append, arith,
}
use boost_asio_samples.Decimal.{stoul}
use boost_asio_samples.Operations.{ranks, ranks-append}
use boost_asio_samples.Errors.{ErrorCode, success, invalid_response, make_error_code, AsioError}
use boost_asio_samples.Stream.{IStream, open_stream, extract}
use boost_asio_samples.HttpClient.Request.{
  HttpResponse, HttpRequest, Op, resolve, connect, write, read_until, read_all,
  status_line_received, headers_received, running, call_back, on_finish, set_buffer,
}
use boost_asio_samples.HttpClient.Headers.{read_headers, rounds_for}
use boost_asio_samples.HttpClient.{
  unless_cancelled, append_request, execute, store_status, store_headers, read_status, accept_code,
  parse_status_line, headers_done, on_host_name_resolved, on_connection_established,
  on_request_sent, on_status_line_received, on_headers_received, on_response_body_received,
}
use boost_asio_samples.HttpClient.Steps.{ended, rank, Event, receive, handle}

-- What the request still waits for, and what it has come to.
abbrev outcomes : HttpRequest → ℕ
outcomes r = length r.pending + (length r.calls + ended r.fate)

-- What one handler adds.
abbrev Adds : ℕ → HttpRequest → HttpRequest → Type 0
Adds n r s = (outcomes s ≡ suc (outcomes r)) × (ranks rank s.pending ≤ ranks rank r.pending + n)

call_back-Adds :
    (f : Option ℕ) (ec : ErrorCode) (r : HttpRequest) (n : ℕ)
    → r.fate ≡ running
    → Adds n r (call_back f ec r)
unfolding call_back
call_back-Adds none ec r n h = ground arith
call_back-Adds (some f) ec r n h =
    ground
      (arith, length-append r.calls (record { callback = f; response = r.response; ec = ec } ∷ []))

on_finish-Adds :
    (ec : ErrorCode) (r : HttpRequest) (n : ℕ) → r.fate ≡ running → Adds n r (on_finish ec r)
unfolding on_finish
on_finish-Adds ec r n h = call_back-Adds r.callback ec r n h

module _ (asio : AsioError) where
  unless_cancelled-Adds :
      (op : Op) (r : HttpRequest) → r.fate ≡ running → Adds (rank op) r (unless_cancelled asio op r)
  unfolding unless_cancelled
  unless_cancelled-Adds op r h = ground (
    arith,
    on_finish-Adds asio.operation_aborted r (rank op) h,
    length-append r.pending (op ∷ []),
    ranks-append rank r.pending (op ∷ []),
  )

  pub execute-Adds : (r : HttpRequest) → r.fate ≡ running → Adds 6 r (execute asio r)
  unfolding execute
  execute-Adds r h = grind (arith, unless_cancelled-Adds)

  resolved-Adds :
      (ec : ErrorCode) (r : HttpRequest)
      → r.fate ≡ running
      → Adds 5 r (on_host_name_resolved asio ec r)
  unfolding on_host_name_resolved
  resolved-Adds ec r h = ground (arith, on_finish-Adds ec r 5 h, unless_cancelled-Adds connect r h)

  connected-Adds :
      (ec : ErrorCode) (r : HttpRequest)
      → r.fate ≡ running
      → Adds 4 r (on_connection_established asio ec r)
  unfolding on_connection_established append_request
  connected-Adds ec r h = ground (
    arith,
    on_finish-Adds ec r 4 h,
    unless_cancelled-Adds (write (append_request r).request_buf) (append_request r) h,
  )

  sent-Adds :
      (ec : ErrorCode) (shutdown : Option ErrorCode) (r : HttpRequest)
      → r.fate ≡ running
      → Adds 3 r (on_request_sent asio ec shutdown r)
  unfolding on_request_sent
  sent-Adds ec shutdown r h = ground (
    arith,
    on_finish-Adds ec r 3 h,
    unless_cancelled-Adds (read_until (codes "\r\n") status_line_received) r h,
  )

  read_status-Adds :
      (v : ℕ) (t : IStream) (r : HttpRequest) → r.fate ≡ running → Adds 2 r (read_status asio v t r)
  unfolding read_status store_status
  read_status-Adds v t r h =
      unless_cancelled-Adds (read_until (codes "\r\n\r\n") headers_received) (store_status v t r) h

  accept_code-Adds :
      (o : Option ℕ) (t : IStream) (r : HttpRequest)
      → r.fate ≡ running
      → Adds 2 r (accept_code asio o t r)
  unfolding accept_code set_buffer
  accept_code-Adds none t r h =
      on_finish-Adds (make_error_code invalid_response) (set_buffer t.rest r) 2 h
  accept_code-Adds (some v) t r h = read_status-Adds v t r h

  parse_status_line-Adds :
      (t : IStream) (r : HttpRequest) → r.fate ≡ running → Adds 2 r (parse_status_line asio t r)
  unfolding parse_status_line set_buffer
  parse_status_line-Adds t r h =
      let version = extract [] t in
      let code = extract [] version.1 in
      ground (
        arith,
        on_finish-Adds (make_error_code invalid_response) (set_buffer version.1.rest r) 2 h,
        accept_code-Adds (stoul code.0) code.1 r h,
      )

  status-Adds :
      (ec : ErrorCode) (r : HttpRequest)
      → r.fate ≡ running
      → Adds 2 r (on_status_line_received asio ec r)
  unfolding on_status_line_received
  status-Adds ec r h = ground (
    arith,
    on_finish-Adds ec r 2 h,
    parse_status_line-Adds (open_stream r.response.response_buf) r h,
  )

  headers_done-Adds :
      (o : Option (HttpResponse × IStream)) (r : HttpRequest)
      → r.fate ≡ running
      → Adds 1 r (headers_done asio o r)
  unfolding headers_done store_headers
  headers_done-Adds none r h = ground arith
  headers_done-Adds (some (p, t)) r h = unless_cancelled-Adds read_all (store_headers p t r) h

  headers-Adds :
      (ec : ErrorCode) (r : HttpRequest)
      → r.fate ≡ running
      → Adds 1 r (on_headers_received asio ec r)
  unfolding on_headers_received
  headers-Adds ec r h = ground (
    arith,
    on_finish-Adds ec r 1 h,
    headers_done-Adds
        (read_headers (rounds_for r.response.response_buf) [] (open_stream r.response.response_buf)
          r.response)
        r h,
  )

  body-Adds :
      (ec : ErrorCode) (r : HttpRequest)
      → r.fate ≡ running
      → Adds 0 r (on_response_body_received asio ec r)
  unfolding on_response_body_received
  body-Adds ec r h = ground (arith, on_finish-Adds success r 0 h, on_finish-Adds ec r 0 h)

  -- A handler adds one outcome, and what it starts ranks below what it completes.
  pub handle-Adds :
      (op : Op) (e : Event) (r : HttpRequest)
      → r.fate ≡ running
      → (outcomes (handle asio op e r) ≡ suc (outcomes r))
        × (ranks rank (handle asio op e r).pending + 1 ≤ ranks rank r.pending + rank op)
  unfolding handle
  handle-Adds (resolve host service) e r h = omega (arith, resolved-Adds e.ec r h)
  handle-Adds connect e r h = omega (arith, connected-Adds e.ec r h)
  handle-Adds (write b) e r h = omega (arith, sent-Adds e.ec e.shutdown r h)
  handle-Adds (read_until d status_line_received) e r h =
      omega (arith, status-Adds e.ec (receive e.bytes r) h)
  handle-Adds (read_until d headers_received) e r h =
      omega (arith, headers-Adds e.ec (receive e.bytes r) h)
  handle-Adds read_all e r h = omega (arith, body-Adds e.ec (receive e.bytes r) h)
