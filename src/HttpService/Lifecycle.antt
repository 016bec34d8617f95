-- ===== src/HttpService/Lifecycle.antt =====
-- asiolib/http-service-async.hpp: the runs of a service from `HandleRequest`, counted.
use boost_asio_samples.Base.{
  ℕ, suc, ◌+◌, ◌≤◌, ◌<◌, Option, none, some, [], ◌∷◌, ◌≡◌, refl, ◌∙◌, Bytes, ap, length,
  length-append, arith,
}
use boost_asio_samples.Dict.{Dict, nat_eq, lookup}
use boost_asio_samples.Errors.{ErrorCode, AsioError}
use boost_asio_samples.Operations.{OneOutcome, Run, Run-outcomes, ranks, ranks-append}
use boost_asio_samples.Stream.{IStream, open_stream, getline, get}
use boost_asio_samples.HttpService.Session.{
  HttpService, Op, read_until, write, request_line_received, headers_received, running, Files,
  start, on_finish, http_status_table, new_service, set_status,
}
use boost_asio_samples.HttpService.Headers.{read_headers, rounds_for}
use boost_asio_samples.HttpService.{
  response_buffers, with_status_line, send_line, send_response, on_read_error, accept_request_line,
  process_request, load_resource, resource_file_path, answer_request, headers_done, handle_request,
  on_request_line_received, on_headers_received, on_response_sent,
}
use boost_asio_samples.HttpService.Steps.{ended, rank, Event, receive, handle, services}

abbrev outcomes : HttpService → ℕ
outcomes s = length s.pending + (s.deletes + ended s.fate)

-- What one handler adds.
abbrev Adds : ℕ → HttpService → HttpService → Type 0
Adds n s t = (outcomes t ≡ suc (outcomes s)) × (ranks rank t.pending ≤ ranks rank s.pending + n)

start-Adds : (op : Op) (s : HttpService) → s.fate ≡ running → Adds (rank op) s (start op s)
unfolding start
start-Adds op s h =
    omega (arith, length-append s.pending (op ∷ []), ranks-append rank s.pending (op ∷ []))

on_finish-Adds : (s : HttpService) (n : ℕ) → s.fate ≡ running → Adds n s (on_finish s)
unfolding on_finish
on_finish-Adds s n h = omega arith

send_line-Adds :
    (line : Option Bytes) (s : HttpService) → s.fate ≡ running → Adds 1 s (send_line line s)
unfolding send_line with_status_line
send_line-Adds none s h = ground arith
send_line-Adds (some line) s h =
    start-Adds (write (response_buffers (with_status_line line s))) (with_status_line line s) h

send_response-Adds :
    (shutdown : Option ErrorCode) (s : HttpService)
    → s.fate ≡ running
    → Adds 1 s (send_response shutdown s)
unfolding send_response
send_response-Adds none s h = send_line-Adds (lookup s.response_status_code http_status_table) s h
send_response-Adds (some e) s h = ground arith

on_response_sent-Adds :
    (ec : ErrorCode) (shutdown : Option ErrorCode) (s : HttpService)
    → s.fate ≡ running
    → Adds 0 s (on_response_sent ec shutdown s)
unfolding on_response_sent
on_response_sent-Adds ec none s h = on_finish-Adds s 0 h
on_response_sent-Adds ec (some e) s h = ground arith

accept_request_line-Adds :
    (shutdown : Option ErrorCode) (line rest : Bytes) (s : HttpService)
    → s.fate ≡ running
    → Adds 2 s (accept_request_line shutdown line rest s)
unfolding accept_request_line
accept_request_line-Adds shutdown line rest s h = grind (arith, send_response-Adds, start-Adds)

load_resource-keeps :
    (b : Option Bytes) (s : HttpService)
    → ((load_resource b s).pending ≡ s.pending)
      × ((load_resource b s).deletes ≡ s.deletes)
      × ((load_resource b s).fate ≡ s.fate)
unfolding load_resource
load_resource-keeps none s = (refl, refl, refl)
load_resource-keeps (some b) s = (refl, refl, refl)

process_request-keeps :
    (files : Files) (s : HttpService)
    → ((process_request files s).pending ≡ s.pending)
      × ((process_request files s).deletes ≡ s.deletes)
      × ((process_request files s).fate ≡ s.fate)
unfolding process_request
process_request-keeps files s =
    ground (arith, load_resource-keeps (files.contents (resource_file_path s)) s)

answer_request-Adds :
    (thrown : Option ErrorCode) (files : Files) (shutdown : Option ErrorCode) (s : HttpService)
    → s.fate ≡ running
    → Adds 1 s (answer_request thrown files shutdown s)
unfolding answer_request
answer_request-Adds (some e) files shutdown s h = ground arith
answer_request-Adds none files shutdown s h =
    let keeps = process_request-keeps files s in
    omega (
      arith,
      send_response-Adds shutdown (process_request files s) (keeps.2 ∙ h),
      ap length keeps.0,
      ap (ranks rank) keeps.0,
      keeps.1,
      ap ended keeps.2,
    )

headers_done-Adds :
    (files : Files) (shutdown : Option ErrorCode) (o : Option (Dict Bytes Bytes × IStream))
    (s : HttpService)
    → s.fate ≡ running
    → Adds 1 s (headers_done files shutdown o s)
unfolding headers_done
headers_done-Adds files shutdown none s h = ground arith
headers_done-Adds files shutdown (some (headers, t)) s h =
    let s' = record s { request_headers = headers; request = t.rest } in
    answer_request-Adds (files.exists_error (resource_file_path s')) files shutdown s' h

module _ (asio : AsioError) where
  on_read_error-Adds :
      (ec : ErrorCode) (shutdown : Option ErrorCode) (s : HttpService)
      → s.fate ≡ running
      → Adds 1 s (on_read_error asio ec shutdown s)
  unfolding on_read_error
  on_read_error-Adds ec shutdown s h =
      ground (arith, send_response-Adds shutdown (set_status 413 s) h, on_finish-Adds s 1 h)

  line_received-Adds :
      (ec : ErrorCode) (shutdown : Option ErrorCode) (s : HttpService)
      → s.fate ≡ running
      → Adds 2 s (on_request_line_received asio ec shutdown s)
  unfolding on_request_line_received
  line_received-Adds ec shutdown s h =
      let line = getline b'\r' [] (open_stream s.request) in
      ground (
        arith,
        on_read_error-Adds ec shutdown s h,
        accept_request_line-Adds shutdown line.0 (get line.1).rest s h,
      )

  headers_received-Adds :
      (files : Files) (ec : ErrorCode) (shutdown : Option ErrorCode) (s : HttpService)
      → s.fate ≡ running
      → Adds 1 s (on_headers_received asio files ec shutdown s)
  unfolding on_headers_received
  headers_received-Adds files ec shutdown s h = ground (
    arith,
    on_read_error-Adds ec shutdown s h,
    headers_done-Adds files shutdown
        (read_headers (rounds_for s.request) [] [] (open_stream s.request) s.request_headers) s h,
  )

  module _ (files : Files) where
    handle-Adds :
        (op : Op) (e : Event) (s : HttpService)
        → s.fate ≡ running
        → (outcomes (handle asio files op e s) ≡ suc (outcomes s))
          × (ranks rank (handle asio files op e s).pending + 1 ≤ ranks rank s.pending + rank op)
    unfolding handle receive
    handle-Adds (read_until d request_line_received) e s h =
        omega (arith, line_received-Adds e.ec e.shutdown (receive e.bytes s) h)
    handle-Adds (read_until d headers_received) e s h =
        omega (arith, headers_received-Adds files e.ec e.shutdown (receive e.bytes s) h)
    handle-Adds (write b) e s h = omega (arith, on_response_sent-Adds e.ec e.shutdown s h)

    rank_pos : (op : Op) → 0 < rank op
    rank_pos (read_until d request_line_received) = omega arith
    rank_pos (read_until d headers_received) = omega arith
    rank_pos (write b) = omega arith

    services-OneOutcome : OneOutcome (services asio files)
    services-OneOutcome = record {
      rank_pos = rank_pos;
      pending-leave = λ s ops. refl;
      ends-leave = λ s ops. refl;
      Running-leave = λ s ops h. h;
      handle_one = λ op e s h. (handle-Adds op e s h).0;
      handle_rank = λ op e s h. (handle-Adds op e s h).1;
      meanwhile_pending = λ h. absurd h;
      meanwhile_ends = λ h. absurd h;
    }

    -- From the acceptance of a connection, whatever the client sends and the network does, the
    -- service waits for one operation, or it was deleted once, or a handler of it did not return. No
    -- more than three operations are made, those that wait included.
    pub handle_request-outcomes :
        (s : HttpService) (k : ℕ)
        → Run (services asio files) (handle_request new_service) k s
        → (length s.pending + (s.deletes + ended s.fate) ≡ 1) × (length s.pending + k ≤ 3)
    unfolding handle_request start new_service
    handle_request-outcomes s k run =
        Run-outcomes (services asio files) services-OneOutcome (handle_request new_service) s k 3
          (omega arith) (omega arith) run
