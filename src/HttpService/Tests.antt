-- ===== src/HttpService/Tests.antt =====
-- asiolib/http-service-async.hpp: concrete requests.
use mathlib.Core.List.{flatten}
use native.Mathlib.Decide.{dec_lt}
use boost_asio_samples.Base.{
  ◌+◌, ◌≤◌, none, some, List, [], ◌∷◌, ◌≡◌, ◌≢◌, refl, Bytes, codes, bytes_eq, length, arith, lt_wf,
  before, after,
}
use boost_asio_samples.Decimal.{to_string}
use boost_asio_samples.Dict.{Dict, nat_eq, text_eq, lookup}
use boost_asio_samples.Errors.{windows}
use boost_asio_samples.Operations.{Run, here, complete}
use boost_asio_samples.Stream.{
  IStream, open_stream, getline, get, extract, skip_spaces, take_word, drop_word,
}
use boost_asio_samples.HttpService.Session.{
  HttpService, Op, read_until, write, request_line_received, Files, bad_status, hung, new_service,
  start, http_status_table,
}
use boost_asio_samples.HttpService.Headers.{read_headers}
use boost_asio_samples.HttpService.Loop.{read_headers_total}
use boost_asio_samples.HttpService.{
  handle_request, on_request_line_received, send_response, send_line, accept_request_line,
  with_status_line,
}
use boost_asio_samples.HttpService.Responses.{send_response_text}
use boost_asio_samples.HttpService.Answers.{answer, arrived}
use boost_asio_samples.HttpService.Steps.{ended, receive, handle, services}
use boost_asio_samples.HttpService.Lifecycle.{handle_request-outcomes}
use boost_asio_samples.HttpService.Statuses.{handle_request-Fine}

-- One file.
abbrev files : Files
files = record {
  exists_error = λ path. none;
  exists = λ path. bytes_eq path (codes "sample/manual.html");
  contents = λ path. some (codes "hello");
}

abbrev first_line : Op
first_line = read_until (codes "\r\n") request_line_received

-- A method that the service does not know.
abbrev refused : HttpService
refused =
    handle windows files first_line (arrived (codes "PUT / HTTP/1.1\r\n"))
      (record (handle_request new_service) { pending = [] })

refused_step : Run (services windows files) (handle_request new_service) 1 refused
unfolding handle_request start new_service
refused_step = complete here [] [] first_line (arrived (codes "PUT / HTTP/1.1\r\n")) refl refl refl

handle_request-outcomes_example :
    (length refused.pending + (refused.deletes + ended refused.fate) ≡ 1)
    × (length refused.pending + 1 ≤ 3)
handle_request-outcomes_example = handle_request-outcomes windows files refused 1 refused_step

handle_request-Fine_example : (refused.fate ≢ bad_status) × (refused.fate ≢ hung)
handle_request-Fine_example = handle_request-Fine windows files refused 1 refused_step

-- The answer to it, run.
refused_pending :
    refused.pending ≡ write (codes "HTTP/1.1 501 Not Implemented\r\n" ∷ codes "\r\n" ∷ []) ∷ []
unfolding handle receive on_request_line_received accept_request_line send_response send_line start
    with_status_line handle_request new_service getline get extract skip_spaces take_word drop_word
    before after bytes_eq lookup http_status_table
refused_pending = refl

abbrev host : Dict Bytes Bytes
host = (codes "Host", codes " localhost") ∷ []

read_headers_total_example :
    (a : Dict Bytes Bytes × IStream) × (read_headers 9 [] [] (open_stream (codes "a:b\rc:d")) []
      ≡ some a)
read_headers_total_example = read_headers_total 9 [] [] (codes "a:b\rc:d") [] (omega arith)

abbrev loaded : HttpService
unfolding new_service
loaded = record new_service {
  resource_size_bytes = 5;
  resource_buffer = codes "hello";
  response_headers = codes "content-length: 5\r\n";
}

send_response_text_example :
    (bufs : List Bytes) × ((send_response none loaded).pending ≡ write bufs ∷ [])
    × (flatten bufs ≡ codes "HTTP/1.1 200 OK\r\ncontent-length: 5\r\n\r\nhello")
unfolding new_service lookup http_status_table
send_response_text_example = send_response_text (codes "200 OK") loaded refl refl

answer_manual :
    answer files (codes "sample/manual.html")
    ≡ codes "HTTP/1.1 200 OK\r\ncontent-length: 5\r\n\r\nhello"
unfolding bytes_eq to_string lt_wf dec_lt
answer_manual = refl
