-- ===== src/HttpClient/Quiet.antt =====
-- asiolib/http-client-async.hpp: what each handler does for a request that is cancelled.
use boost_asio_samples.Base.{
  ℕ, Bool, true, false, Option, none, some, [], ◌∷◌, ◌++◌, ◌≡◌, ◌≢◌, ◌⊎◌, inl, inr, refl, bytes_eq,
  codes, not, if◌then◌else◌, arith,
}
use boost_asio_samples.Decimal.{stoul}
use boost_asio_samples.Errors.{
  ErrorCode, failed, success, invalid_response, make_error_code, AsioError,
}
use boost_asio_samples.Stream.{IStream, open_stream, extract}
use boost_asio_samples.HttpClient.Request.{
  HttpResponse, HttpRequest, Call, Op, resolve, connect, write, read_until, read_all,
  status_line_received, headers_received, call_back, on_finish, set_buffer,
}
use boost_asio_samples.HttpClient.{
  unless_cancelled, append_request, store_status, store_headers, read_status, accept_code,
  parse_status_line, headers_done, on_host_name_resolved, on_connection_established,
  on_request_sent, on_status_line_received, on_headers_received, on_response_body_received,
}
use boost_asio_samples.HttpClient.Steps.{Event, receive, handle}

-- The callback was not called, or it was called once, with an error.
abbrev pub Fails : HttpRequest → HttpRequest → Type 0
Fails r s =
    (s.calls ≡ r.calls) ⊎ ((c : Call) × (s.calls ≡ r.calls ++ c ∷ []) × (failed c.ec ≡ true))

-- Nothing was started, and the request is cancelled still.
abbrev pub Stops : HttpRequest → HttpRequest → Type 0
Stops r s = (s.pending ≡ r.pending) × (s.was_cancelled ≡ r.was_cancelled)

abbrev Quiet : HttpRequest → HttpRequest → Type 0
Quiet r s = Fails r s × Stops r s

Quiet-if :
    (b : Bool) (r s t : HttpRequest)
    → (b ≡ true → Quiet r s)
    → (b ≡ false → Quiet r t)
    → Quiet r (if b then s else t)
Quiet-if true r s t h k = h refl
Quiet-if false r s t h k = k refl

call_back-Quiet :
    (f : Option ℕ) (ec : ErrorCode) (r : HttpRequest)
    → failed ec ≡ true
    → Quiet r (call_back f ec r)
unfolding call_back
call_back-Quiet none ec r h = (inl refl, (refl, refl))
call_back-Quiet (some f) ec r h =
    (inr (record { callback = f; response = r.response; ec = ec }, refl, h), (refl, refl))

on_finish-Quiet : (ec : ErrorCode) (r : HttpRequest) → failed ec ≡ true → Quiet r (on_finish ec r)
unfolding on_finish
on_finish-Quiet ec r h = call_back-Quiet r.callback ec r h

on_finish-Stops : (ec : ErrorCode) (r : HttpRequest) → Stops r (on_finish ec r)
unfolding on_finish call_back
on_finish-Stops ec r = ground arith

module _ (asio : AsioError) where
  unless_cancelled-Quiet :
      (op : Op) (r : HttpRequest) → r.was_cancelled ≡ true → Quiet r (unless_cancelled asio op r)
  unfolding unless_cancelled
  unless_cancelled-Quiet op r h =
      Quiet-if r.was_cancelled r _ _
        (λ _. on_finish-Quiet asio.operation_aborted r asio.operation_aborted_failed) (λ e. cc)

  resolved-Quiet :
      (ec : ErrorCode) (r : HttpRequest)
      → r.was_cancelled ≡ true
      → Quiet r (on_host_name_resolved asio ec r)
  unfolding on_host_name_resolved
  resolved-Quiet ec r h =
      Quiet-if (failed ec) r _ _ (on_finish-Quiet ec r) (λ _. unless_cancelled-Quiet connect r h)

  connected-Quiet :
      (ec : ErrorCode) (r : HttpRequest)
      → r.was_cancelled ≡ true
      → Quiet r (on_connection_established asio ec r)
  unfolding on_connection_established append_request
  connected-Quiet ec r h =
      Quiet-if (failed ec) r _ _ (on_finish-Quiet ec r)
        (λ _. unless_cancelled-Quiet (write (append_request r).request_buf) (append_request r) h)

  sent-Quiet :
      (ec : ErrorCode) (shutdown : Option ErrorCode) (r : HttpRequest)
      → r.was_cancelled ≡ true
      → Quiet r (on_request_sent asio ec shutdown r)
  unfolding on_request_sent
  sent-Quiet ec none r h =
      Quiet-if (failed ec) r _ _ (on_finish-Quiet ec r)
        (λ _. unless_cancelled-Quiet (read_until (codes "\r\n") status_line_received) r h)
  sent-Quiet ec (some e) r h =
      Quiet-if (failed ec) r _ _ (on_finish-Quiet ec r) (λ _. (inl refl, (refl, refl)))

  accept_code-Quiet :
      (o : Option ℕ) (t : IStream) (r : HttpRequest)
      → r.was_cancelled ≡ true
      → Quiet r (accept_code asio o t r)
  unfolding accept_code set_buffer read_status store_status
  accept_code-Quiet none t r h =
      on_finish-Quiet (make_error_code invalid_response) (set_buffer t.rest r) refl
  accept_code-Quiet (some v) t r h =
      unless_cancelled-Quiet (read_until (codes "\r\n\r\n") headers_received) (store_status v t r) h

  status-Quiet :
      (ec : ErrorCode) (r : HttpRequest)
      → r.was_cancelled ≡ true
      → Quiet r (on_status_line_received asio ec r)
  unfolding on_status_line_received parse_status_line set_buffer
  status-Quiet ec r h =
      let version = extract [] (open_stream r.response.response_buf) in
      let code = extract [] version.1 in
      Quiet-if (failed ec) r _ _ (on_finish-Quiet ec r) λ _.
        Quiet-if (not (bytes_eq version.0 (codes "HTTP/1.1"))) r _ _
          (λ _.
            on_finish-Quiet (make_error_code invalid_response) (set_buffer version.1.rest r) refl)
          (λ _. accept_code-Quiet (stoul code.0) code.1 r h)

  headers_done-Quiet :
      (o : Option (HttpResponse × IStream)) (r : HttpRequest)
      → r.was_cancelled ≡ true
      → Quiet r (headers_done asio o r)
  unfolding headers_done store_headers
  headers_done-Quiet none r h = (inl refl, (refl, refl))
  headers_done-Quiet (some (p, t)) r h = unless_cancelled-Quiet read_all (store_headers p t r) h

  headers-Quiet :
      (ec : ErrorCode) (r : HttpRequest)
      → r.was_cancelled ≡ true
      → Quiet r (on_headers_received asio ec r)
  unfolding on_headers_received
  headers-Quiet ec r h =
      Quiet-if (failed ec) r _ _ (on_finish-Quiet ec r) (λ _. headers_done-Quiet _ r h)

  body-Stops : (ec : ErrorCode) (r : HttpRequest) → Stops r (on_response_body_received asio ec r)
  unfolding on_response_body_received
  body-Stops ec r = ground (arith, on_finish-Stops success r, on_finish-Stops ec r)

  pub handle-Stops :
      (op : Op) (e : Event) (r : HttpRequest)
      → r.was_cancelled ≡ true
      → Stops r (handle asio op e r)
  unfolding handle receive set_buffer
  handle-Stops (resolve host service) e r h = (resolved-Quiet e.ec r h).1
  handle-Stops connect e r h = (connected-Quiet e.ec r h).1
  handle-Stops (write b) e r h = (sent-Quiet e.ec e.shutdown r h).1
  handle-Stops (read_until d status_line_received) e r h =
      (status-Quiet e.ec (receive e.bytes r) h).1
  handle-Stops (read_until d headers_received) e r h = (headers-Quiet e.ec (receive e.bytes r) h).1
  handle-Stops read_all e r h = body-Stops e.ec (receive e.bytes r)

  pub handle-Fails :
      (op : Op) (e : Event) (r : HttpRequest)
      → r.was_cancelled ≡ true
      → op ≢ read_all
      → Fails r (handle asio op e r)
  unfolding handle receive set_buffer
  handle-Fails (resolve host service) e r h ne = (resolved-Quiet e.ec r h).0
  handle-Fails connect e r h ne = (connected-Quiet e.ec r h).0
  handle-Fails (write b) e r h ne = (sent-Quiet e.ec e.shutdown r h).0
  handle-Fails (read_until d status_line_received) e r h ne =
      (status-Quiet e.ec (receive e.bytes r) h).0
  handle-Fails (read_until d headers_received) e r h ne =
      (headers-Quiet e.ec (receive e.bytes r) h).0
  handle-Fails read_all e r h ne = absurd (ne refl)
