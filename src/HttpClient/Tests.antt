-- ===== src/HttpClient/Tests.antt =====
-- asiolib/http-client-async.hpp: concrete requests and responses.
use native.Mathlib.Decide.{dec_lt}
use boost_asio_samples.Base.{
  lt_wf, bytes_eq, ◌+◌, ◌≤◌, true, List, [], ◌∷◌, ◌≡◌, refl, Bytes, codes, All, free-Without,
  length,
}
use boost_asio_samples.Decimal.{to_string}
use boost_asio_samples.Dict.{text_eq, insert}
use boost_asio_samples.Errors.{success, failed, windows}
use boost_asio_samples.Operations.{Run, here, complete}
use boost_asio_samples.HttpClient.Request.{
  HttpRequest, Call, resolve, connect, start, hung, create_request, new_response, set_host,
  set_port, set_uri, set_callback, cancel,
}
use boost_asio_samples.HttpClient.Headers.{read_header}
use boost_asio_samples.HttpClient.{execute, unless_cancelled, on_headers_received}
use boost_asio_samples.HttpClient.Steps.{Event, ended, handle, requests}
use boost_asio_samples.HttpClient.Lifecycle.{execute-outcomes}
use boost_asio_samples.HttpClient.Cancelling.{cancelled-Run}
use boost_asio_samples.HttpClient.Blocks.{Block, empty_line, line, Handled, headers_decided}
use boost_asio_samples.HttpClient.Hanging.{stray_return_hangs}
use boost_asio_samples.HttpClient.Parsing.{IsLine, read_lines}
use boost_asio_samples.HttpClient.Receiving.{arrived}

-- The request of basics/http-server-client.cpp; the number stands for its callback.
abbrev request : HttpRequest
unfolding create_request
request = set_callback 7 (
    set_port 6969
      (set_uri (codes "/manual.html") (set_host (codes "localhost") (create_request 1))))

abbrev resolved : Event
resolved = arrived success []

-- The host name is resolved, and then the request is cancelled.
abbrev after_resolve : HttpRequest
after_resolve =
    handle windows (resolve (codes "localhost") (codes "6969")) resolved
      (record (execute windows request) { pending = [] })

one_step : Run (requests windows) (execute windows request) 1 after_resolve
unfolding execute unless_cancelled start to_string lt_wf dec_lt create_request
one_step = complete here [] [] (resolve (codes "localhost") (codes "6969")) resolved refl refl refl

execute-outcomes_example :
    (length after_resolve.pending + (length after_resolve.calls + ended after_resolve.fate) ≡ 1)
    × (length after_resolve.pending + 1 ≤ 6)
unfolding create_request
execute-outcomes_example = execute-outcomes windows request after_resolve 1 refl refl refl one_step

-- The request waits for the connection when it is cancelled, and the connection comes all the same.
abbrev cancelled : HttpRequest
unfolding create_request
cancelled = cancel true (record request { pending = connect ∷ [] })

abbrev connected : HttpRequest
connected = handle windows connect resolved (record cancelled { pending = [] })

cancelled_step : Run (requests windows) cancelled 1 connected
unfolding cancel create_request
cancelled_step = complete here [] [] connect resolved refl refl refl

cancelled-Run_example :
    (made : List Call) × (length connected.pending + 1 ≡ 1)
    × (connected.calls ≡ made)
    × All (λ c. failed c.ec ≡ true) made
unfolding cancel create_request
cancelled-Run_example =
    cancelled-Run windows cancelled connected 1 refl ((λ e. cc), tt) cancelled_step

abbrev page : List Bytes
page = codes "content-length: 5" ∷ codes "Server:" ∷ []

page_lines : All IsLine page
page_lines = (
  ((λ e. cc), free-Without b'\r' (codes "content-length: 5") refl),
  (((λ e. cc), free-Without b'\r' (codes "Server:") refl), tt),
)

page_headers :
    (read_lines page new_response).headers
    ≡ (codes "content-length", codes " 5") ∷ (codes "Server", []) ∷ []
unfolding read_header insert bytes_eq
page_headers = refl

abbrev reading : Bytes → HttpRequest
unfolding create_request
reading b = record request { response = record new_response { response_buf = b } }

-- The header block of this response is followed by a body, behind a stray carriage return.
abbrev stray : HttpRequest
stray = reading (codes "content-length: 5\r\r\n\r\nhello")

stray_return_hangs_example :
    ((on_headers_received windows success stray).fate ≡ hung)
    × ((on_headers_received windows success stray).calls ≡ [])
unfolding create_request
stray_return_hangs_example =
    stray_return_hangs windows success stray [] (codes "content-length: 5") (codes "hello") refl tt
      page_lines.0 (λ e. cc) (free-Without b'\r' (codes "hello") refl) refl

headers_decided_example : Handled windows success (reading (codes "content-length: 5\r\n\r\nhe"))
headers_decided_example =
    headers_decided windows success (reading (codes "content-length: 5\r\n\r\nhe")) refl

manual-Block : Block (codes "a:1\r\n\r\nhe") (codes "a:1" ∷ []) (codes "he")
manual-Block =
    line (codes "a:1") b'\n' (codes "\r\nhe") [] (codes "he")
      ((λ e. cc), free-Without b'\r' (codes "a:1") refl) (empty_line (codes "\nhe"))
