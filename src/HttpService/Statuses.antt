-- ===== src/HttpService/Statuses.antt =====
-- asiolib/http-service-async.hpp: the statuses that the handlers set, against the table.
use mathlib.Core.Path.{subst}
use boost_asio_samples.Base.{
  ℕ, Bool, true, false, Option, none, some, List, [], ◌++◌, ◌≡◌, ◌≢◌, refl, sym, Bytes, codes,
  bytes_eq, not, if◌then◌else◌, arith,
}
use boost_asio_samples.Dict.{nat_eq, lookup}
use boost_asio_samples.Errors.{ErrorCode, failed, error_code_eq, AsioError}
use boost_asio_samples.Operations.{Run, here, complete, meanwhile}
use boost_asio_samples.Stream.{open_stream, extract}
use boost_asio_samples.HttpService.Session.{
  HttpService, Op, read_until, write, request_line_received, headers_received, Fate, bad_status,
  hung, Files, start, on_finish, http_status_table, new_service, set_status,
}
use boost_asio_samples.HttpService.Headers.{rounds_for}
use boost_asio_samples.HttpService.Loop.{read_headers_total}
use boost_asio_samples.HttpService.{
  with_status_line, send_line, send_response, on_read_error, accept_request_line, process_request,
  load_resource, resource_file_path, answer_request, headers_done, handle_request,
  on_request_line_received, on_headers_received, on_response_sent,
}
use boost_asio_samples.HttpService.Steps.{Event, receive, handle, services}

abbrev Known : HttpService → Type 0
Known s = (line : Bytes) × (lookup s.response_status_code http_status_table ≡ some line)

abbrev Fine : Fate → Type 0
Fine bad_status = ⊥
Fine hung = ⊥
Fine _ = Unit

-- What holds of the service between its handlers.
record Good (s : HttpService) : Type 0 where
  known : Known s
  fine : Fine s.fate

Good-if : (b : Bool) (s t : HttpService) → Good s → Good t → Good (if b then s else t)
Good-if true s t h k = h
Good-if false s t h k = k

send_line-Good :
    (o : Option Bytes) (line : Bytes) (s : HttpService)
    → o ≡ some line
    → Good s
    → Good (send_line o s)
unfolding send_line with_status_line start
send_line-Good none line s e h = cc
send_line-Good (some l) line s e h = record { known = h.known; fine = h.fine }

send_response-Good :
    (shutdown : Option ErrorCode) (s : HttpService) → Good s → Good (send_response shutdown s)
unfolding send_response
send_response-Good (some e) s h = record { known = h.known; fine = tt }
send_response-Good none s h =
    send_line-Good (lookup s.response_status_code http_status_table) h.known.0 s h.known.1 h

set_status-Good :
    (shutdown : Option ErrorCode) (code : ℕ) (line : Bytes) (s : HttpService)
    → lookup code http_status_table ≡ some line
    → Fine s.fate
    → Good (send_response shutdown (set_status code s))
set_status-Good shutdown code line s e h =
    send_response-Good shutdown (set_status code s) (record { known = (line, e); fine = h })

on_response_sent-Good :
    (ec : ErrorCode) (shutdown : Option ErrorCode) (s : HttpService)
    → Good s
    → Good (on_response_sent ec shutdown s)
unfolding on_response_sent on_finish
on_response_sent-Good ec none s h = record { known = h.known; fine = h.fine }
on_response_sent-Good ec (some e) s h = record { known = h.known; fine = tt }

accept_request_line-Good :
    (shutdown : Option ErrorCode) (line rest : Bytes) (s : HttpService)
    → Good s
    → Good (accept_request_line shutdown line rest s)
unfolding accept_request_line start lookup http_status_table
accept_request_line-Good shutdown line rest s h =
    let method = extract [] (open_stream line) in
    let resource = extract s.requested_resource method.1 in
    let version = extract [] resource.1 in
    let s' = record s { request = rest } in
    let s'' = record s' { requested_resource = resource.0 } in
    let going_on = start (read_until (codes "\r\n\r\n") headers_received) s'' in
    let bad_version = send_response shutdown (set_status 505 s'') in
    Good-if (not (bytes_eq method.0 (codes "GET"))) (send_response shutdown (set_status 501 s'))
      (if not (bytes_eq version.0 (codes "HTTP/1.1")) then bad_version else going_on)
      (set_status-Good shutdown 501 _ s' refl h.fine)
      (Good-if (not (bytes_eq version.0 (codes "HTTP/1.1"))) bad_version going_on
        (set_status-Good shutdown 505 _ s'' refl h.fine)
        (record { known = h.known; fine = h.fine }))

load_resource-Good : (o : Option Bytes) (s : HttpService) → Good s → Good (load_resource o s)
unfolding load_resource lookup http_status_table
load_resource-Good none s h = record { known = (codes "500 Server Error", refl); fine = h.fine }
load_resource-Good (some b) s h = record { known = h.known; fine = h.fine }

process_request-Good : (files : Files) (s : HttpService) → Good s → Good (process_request files s)
unfolding process_request lookup http_status_table
process_request-Good files s h =
    Good-if (not (files.exists (resource_file_path s))) _ _
      (record { known = (codes "404 Not Found", refl); fine = h.fine })
      (load_resource-Good (files.contents (resource_file_path s)) s h)

answer_request-Good :
    (thrown : Option ErrorCode) (files : Files) (shutdown : Option ErrorCode) (s : HttpService)
    → Good s
    → Good (answer_request thrown files shutdown s)
unfolding answer_request
answer_request-Good (some e) files shutdown s h = record { known = h.known; fine = tt }
answer_request-Good none files shutdown s h =
    send_response-Good shutdown (process_request files s) (process_request-Good files s h)

module _ (asio : AsioError) where
  on_read_error-Good :
      (ec : ErrorCode) (shutdown : Option ErrorCode) (s : HttpService)
      → Good s
      → Good (on_read_error asio ec shutdown s)
  unfolding on_read_error on_finish lookup http_status_table
  on_read_error-Good ec shutdown s h =
      Good-if (error_code_eq ec asio.not_found) _ _ (set_status-Good shutdown 413 _ s refl h.fine)
        (record { known = h.known; fine = h.fine })

  line_received-Good :
      (ec : ErrorCode) (shutdown : Option ErrorCode) (s : HttpService)
      → Good s
      → Good (on_request_line_received asio ec shutdown s)
  unfolding on_request_line_received
  line_received-Good ec shutdown s h =
      Good-if (failed ec) _ _ (on_read_error-Good ec shutdown s h)
        (accept_request_line-Good shutdown _ _ s h)

  headers_received-Good :
      (files : Files) (ec : ErrorCode) (shutdown : Option ErrorCode) (s : HttpService)
      → Good s
      → Good (on_headers_received asio files ec shutdown s)
  unfolding on_headers_received headers_done
  headers_received-Good files ec shutdown s h =
      let ((headers, t), e) =
        read_headers_total (rounds_for s.request) [] [] s.request s.request_headers (omega arith) in
      Good-if (failed ec) _ _ (on_read_error-Good ec shutdown s h) (
        rw (e, headers_done)
          (answer_request-Good _ files shutdown
            (record s { request_headers = headers; request = t.rest })
            (record { known = h.known; fine = h.fine })))

  module _ (files : Files) where
    handle-Good : (op : Op) (e : Event) (s : HttpService) → Good s → Good (handle asio files op e s)
    unfolding handle receive
    handle-Good (read_until d request_line_received) e s h =
        line_received-Good e.ec e.shutdown (receive e.bytes s)
          (record { known = h.known; fine = h.fine })
    handle-Good (read_until d headers_received) e s h =
        headers_received-Good files e.ec e.shutdown (receive e.bytes s)
          (record { known = h.known; fine = h.fine })
    handle-Good (write b) e s h = on_response_sent-Good e.ec e.shutdown s h

    leave-Good : {s : HttpService} (ops : List Op) → Good s → Good (record s { pending = ops })
    leave-Good ops h = record { known = h.known; fine = h.fine }

    Run-Good : {r s : HttpService} {k : ℕ} → Good r → Run (services asio files) r k s → Good s
    Run-Good h here = h
    Run-Good h (complete {s = s} run pre post op e alive split t) = subst Good (sym t) (
        handle-Good op e (record s { pending = pre ++ post })
          (leave-Good (pre ++ post) (Run-Good h run)))
    Run-Good h (meanwhile run step) = absurd step

    -- Whatever a client sends and the network does, no handler of the service looks up a status that
    -- the table lacks, and no handler hangs.
    pub handle_request-Fine :
        (s : HttpService) (k : ℕ)
        → Run (services asio files) (handle_request new_service) k s
        → (s.fate ≢ bad_status) × (s.fate ≢ hung)
    unfolding handle_request start new_service lookup http_status_table
    handle_request-Fine s k run =
        let fine = (Run-Good (record { known = (codes "200 OK", refl); fine = tt }) run).fine in
        ((λ e. subst Fine e fine), (λ e. subst Fine e fine))
