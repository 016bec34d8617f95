-- ===== src/HttpExchange.antt =====
-- asiolib/http-client-async.hpp with asiolib/http-service-async.hpp: one request of the client served by
-- the service, over a connection that delivers the bytes of each side in order and cuts them anywhere.
mod Tests
use mathlib.Core.Path.{subst}
use boost_asio_samples.Base.{
  ℕ, true, false, none, some, [], ◌∷◌, ◌++◌, ◌≡◌, ◌≢◌, refl, ap, sym, ◌∙◌, Bytes, codes, Without,
  Without-append, free-Without, length, append_assoc, arith,
}
use boost_asio_samples.Decimal.{to_string, stoul}
use boost_asio_samples.Decimal.RoundTrip.{to_string-Without}
use boost_asio_samples.Dict.{Dict, text_eq, insert}
use boost_asio_samples.Errors.{success, AsioError}
use boost_asio_samples.Stream.{skip_spaces}
use boost_asio_samples.Stream.Reads.{IsWord}
use boost_asio_samples.HttpClient
use boost_asio_samples.HttpClient.Headers.{add_header}
use boost_asio_samples.HttpClient.Parsing.{
  IsLine, render_lines, end_of_headers, read_lines, read_header-append,
}
use boost_asio_samples.HttpClient.Receiving.{
  unless_cancelled-start, arrived, status_line, read_status_line, read_header_block, whole_response,
  receives,
}
use boost_asio_samples.HttpClient.Request.{
  HttpResponse, connect, write, start, HttpRequest, read_all, new_response,
}
use boost_asio_samples.HttpClient.Steps.{handle}
use boost_asio_samples.HttpService.Answers
use boost_asio_samples.HttpService.Answers.{get_line, answer, Sends, get-Sends}
use boost_asio_samples.HttpService.Loop.{render_pairs, IsHeader}
use boost_asio_samples.HttpService
use boost_asio_samples.HttpService.Session as ServiceSession
use boost_asio_samples.HttpService.Session.{
  HttpService, Files, Op, read_until, request_line_received, headers_received, new_service,
}
use boost_asio_samples.HttpService.Steps as ServiceSteps

abbrev pub host_header : Bytes → Dict Bytes Bytes
host_header host = (codes "Host", b' ' ∷ host) ∷ []

-- What the client writes is a request line of three words and one header.
pub request_text :
    (r : HttpRequest)
    → r.request_buf ≡ []
    → (HttpClient.append_request r).request_buf
      ≡ get_line r.uri ++ b'\r' ∷ b'\n' ∷ render_pairs (host_header r.host) (codes "\r\n")
unfolding HttpClient.append_request
request_text r empty = rw empty (simp append_assoc)

abbrev pub length_line : Bytes → Bytes
length_line content = codes "content-length" ++ b':' ∷ b' ' ∷ to_string (length content)

length_line-IsLine : (content : Bytes) → IsLine (length_line content)
length_line-IsLine content = (
  (λ e. cc),
  Without-append b'\r' (codes "content-length: ") (to_string (length content))
      (free-Without b'\r' (codes "content-length: ") refl)
      (to_string-Without b'\r' (length content) refl),
)

abbrev pub page_response : Bytes → HttpResponse
page_response content = record {
  status_code = 200;
  status_message = codes " OK";
  response_buf = content;
  headers = (codes "content-length", b' ' ∷ to_string (length content)) ∷ [];
}

whole_response-page :
    (content : Bytes) (r : HttpRequest)
    → r.response ≡ new_response
    → whole_response 200 (codes "OK") (length_line content ∷ []) content r ≡ page_response content
unfolding add_header insert
whole_response-page content r fresh =
    let value = b' ' ∷ to_string (length content) in
    let started = record new_response { status_code = 200; status_message = codes " OK" } in
    ap
      (λ (p : HttpResponse).
        record (read_lines (length_line content ∷ [])
          (record p { status_code = 200; status_message = codes " OK" })) {
            response_buf = content;
          })
      fresh
    ∙ ap (λ (q : HttpResponse). record q { response_buf = content })
        (read_header-append (codes "content-length") value started
          (free-Without b':' (codes "content-length") refl))

page_text :
    (content b₁ b₂ b₃ c : Bytes)
    → b₁ ++ b₂ ≡ render_lines (length_line content ∷ []) (end_of_headers c)
    → c ++ b₃ ≡ content
    → codes "HTTP/1.1 200 OK\r\n"
        ++ (codes "content-length: "
            ++ (to_string (length content) ++ (codes "\r\n\r\n" ++ content)))
      ≡ status_line (codes "200") (codes "OK") ++ b'\r' ∷ b'\n' ∷ (b₁ ++ (b₂ ++ b₃))
page_text content b₁ b₂ b₃ c cut₁ cut₂ =
    ap (λ t. codes "HTTP/1.1 200 OK\r\n" ++ t)
      (ap (λ b. length_line content ++ (codes "\r\n\r\n" ++ b)) (sym cut₂)
        ∙ sym (append_assoc (length_line content) (codes "\r\n\r\n" ++ c) b₃)
        ∙ ap (λ t. t ++ b₃) (sym cut₁)
        ∙ append_assoc b₁ b₂ b₃)

-- The service of a new connection, which reads its request.
abbrev pub accepted_service : HttpService
accepted_service = HttpService.handle_request new_service

accepted-Waits :
    (accepted_service.pending ≡ read_until (codes "\r\n") request_line_received ∷ [])
    × Answers.IsFresh accepted_service
    × (accepted_service.request ≡ [])
unfolding new_service HttpService.handle_request ServiceSession.start
accepted-Waits = (refl, (refl, refl, refl, refl), refl)

two_hundred : stoul (codes "200") ≡ some 200
unfolding stoul skip_spaces
two_hundred = refl

answer_page :
    (files : Files) (path content : Bytes)
    → files.exists path ≡ true
    → files.contents path ≡ some content
    → answer files path
      ≡ codes "HTTP/1.1 200 OK\r\n"
        ++ (codes "content-length: "
            ++ (to_string (length content) ++ (codes "\r\n\r\n" ++ content)))
answer_page files path content there held = ground arith

-- The first read of the service, and its second, as `Op` of the service.
abbrev pub serve_line : Op
serve_line = read_until (codes "\r\n") request_line_received

abbrev pub serve_headers : Op
serve_headers = read_until (codes "\r\n\r\n") headers_received

module _ (asio : AsioError) (files : Files) where
  -- How an exchange goes: the client, once it is connected, writes `request` and `rest` in one write and
  -- then reads; the service of the new connection reads them in two parts and writes `response`; the client
  -- reads that in three parts, and calls back. Each handler runs for the operation that waits.
  abbrev pub Exchanged : HttpRequest → ℕ → Bytes → (part rest : Bytes) → (b₁ b₂ b₃ : Bytes) → Type 0
  Exchanged r f content part rest b₁ b₂ b₃ =
      let request = get_line r.uri ++ b'\r' ∷ b'\n' ∷ part in
      let response = status_line (codes "200") (codes "OK") ++ b'\r' ∷ b'\n' ∷ b₁ in
      let w = handle asio connect (arrived success []) r in
      let s₀ =
        handle asio (write (request ++ rest)) (arrived success []) (record w { pending = [] }) in
      let t₁ =
        ServiceSteps.handle asio files serve_line (Answers.arrived request)
          (record accepted_service { pending = [] }) in
      let t₂ =
        ServiceSteps.handle asio files serve_headers (Answers.arrived rest)
          (record t₁ { pending = [] }) in
      let s₁ =
        handle asio read_status_line (arrived success response) (record s₀ { pending = [] }) in
      let s₂ = handle asio read_header_block (arrived success b₂) (record s₁ { pending = [] }) in
      let s₃ = handle asio read_all (arrived asio.eof b₃) (record s₂ { pending = [] }) in
      (w.pending ≡ write (request ++ rest) ∷ [])
      × (s₀.pending ≡ read_status_line ∷ [])
      × (accepted_service.pending ≡ serve_line ∷ [])
      × (t₁.pending ≡ serve_headers ∷ [])
      × Sends t₂.pending (response ++ (b₂ ++ b₃))
      × (s₁.pending ≡ read_header_block ∷ [])
      × (s₂.pending ≡ read_all ∷ [])
      × (s₃.calls
          ≡ r.calls ++ record { callback = f; response = page_response content; ec = success } ∷ [])

  -- The client has sent its request and waits for the status line.
  abbrev requested : HttpRequest → HttpRequest
  requested r = record (HttpClient.append_request r) { pending = [] }

  connects :
      (r : HttpRequest)
      → r.was_cancelled ≡ false
      → handle asio connect (arrived success []) r
        ≡ start (write (HttpClient.append_request r).request_buf) (HttpClient.append_request r)
  unfolding handle HttpClient.on_connection_established
  connects r live =
      unless_cancelled-start asio (write (HttpClient.append_request r).request_buf)
        (HttpClient.append_request r) (unfold HttpClient.append_request in live)

  writes_request :
      (r : HttpRequest) (part rest : Bytes)
      → r.was_cancelled ≡ false
      → r.pending ≡ []
      → r.request_buf ≡ []
      → part ++ rest ≡ render_pairs (host_header r.host) (codes "\r\n")
      → (handle asio connect (arrived success []) r).pending
        ≡ write ((get_line r.uri ++ b'\r' ∷ b'\n' ∷ part) ++ rest) ∷ []
  writes_request r part rest live idle empty cut =
      let text =
        request_text r empty
        ∙ ap (λ t. get_line r.uri ++ b'\r' ∷ b'\n' ∷ t) (sym cut)
        ∙ sym (append_assoc (get_line r.uri) (b'\r' ∷ b'\n' ∷ part) rest) in
      ap (λ (q : HttpRequest). q.pending) (connects r live)
      ∙ unfold start HttpClient.append_request in
        ap (λ ops. ops ++ write (HttpClient.append_request r).request_buf ∷ []) idle
        ∙ ap (λ t. write t ∷ []) text

  reads_status :
      (r : HttpRequest) (text : Bytes)
      → r.was_cancelled ≡ false
      → handle asio
          (write text)
          (arrived success [])
          (record (handle asio connect (arrived success []) r) { pending = [] })
        ≡ start read_status_line (requested r)
  reads_status r text live =
      ap
        (λ (q : HttpRequest).
          handle asio (write text) (arrived success []) (record q { pending = [] }))
        (connects r live)
      ∙ unfold start handle HttpClient.on_request_sent HttpClient.append_request in
        unless_cancelled-start asio read_status_line (requested r) live

  -- The part of the client from its status line on, and how it came to wait for that.
  abbrev Reads : HttpRequest → HttpRequest → ℕ → Bytes → (b₁ b₂ b₃ : Bytes) → Type 0
  Reads r s₀ f content b₁ b₂ b₃ =
      let response = status_line (codes "200") (codes "OK") ++ b'\r' ∷ b'\n' ∷ b₁ in
      let s₁ =
        handle asio read_status_line (arrived success response) (record s₀ { pending = [] }) in
      let s₂ = handle asio read_header_block (arrived success b₂) (record s₁ { pending = [] }) in
      let s₃ = handle asio read_all (arrived asio.eof b₃) (record s₂ { pending = [] }) in
      (s₀.pending ≡ read_status_line ∷ [])
      × (s₁.pending ≡ read_header_block ∷ [])
      × (s₂.pending ≡ read_all ∷ [])
      × (s₃.calls
          ≡ r.calls ++ record { callback = f; response = page_response content; ec = success } ∷ [])

  page-Reads :
      (r : HttpRequest) (f : ℕ) (content b₁ b₂ b₃ c : Bytes)
      → r.callback ≡ some f
      → r.was_cancelled ≡ false
      → r.response ≡ new_response
      → b₁ ++ b₂ ≡ render_lines (length_line content ∷ []) (end_of_headers c)
      → c ++ b₃ ≡ content
      → Reads r (start read_status_line (requested r)) f content b₁ b₂ b₃
  unfolding start HttpClient.append_request
  page-Reads r f content b₁ b₂ b₃ c called live fresh cut₁ cut₂ =
      let read =
        receives asio f (codes "200") (codes "OK") 200 (length_line content) [] b₁ b₂ b₃ c content
          (requested r) ((refl, (refl, (refl, tt))), λ e. cc) two_hundred (omega arith)
          (free-Without b'\r' (codes "OK") refl) (length_line-IsLine content, tt) cut₁ cut₂ called
          live (ap (λ (p : HttpResponse). p.response_buf) fresh) refl in
      (
        refl,
        read.0,
        read.1,
        read.2
            ∙ ap (λ p. r.calls ++ record { callback = f; response = p; ec = success } ∷ [])
                (whole_response-page content (requested r) fresh),
      )

  -- A client that is not cancelled and asks the service for a file which exists, as is found without an
  -- exception, and can be read, gets that file: from its connection on, each handler leaves exactly the
  -- operation waiting that the next one is for. What the client writes is what the service reads; the
  -- service answers by one write; and when its bytes have come, the callback is called once with no
  -- error, status 200, the length of the file and its contents. Both messages may be cut anywhere behind
  -- their first line, the response once more behind its headers.
  pub exchange :
      (r : HttpRequest) (f : ℕ) (content part rest b₁ b₂ b₃ c : Bytes)
      → IsWord r.uri × (r.uri ≢ [])
      → Without b'\r' r.host
      → files.exists_error (codes "sample" ++ r.uri) ≡ none
      → files.exists (codes "sample" ++ r.uri) ≡ true
      → files.contents (codes "sample" ++ r.uri) ≡ some content
      → r.callback ≡ some f
      → r.was_cancelled ≡ false
      → r.response ≡ new_response
      → r.pending ≡ []
      → r.request_buf ≡ []
      → part ++ rest ≡ render_pairs (host_header r.host) (codes "\r\n")
      → b₁ ++ b₂ ≡ render_lines (length_line content ∷ []) (end_of_headers c)
      → c ++ b₃ ≡ content
      → Exchanged r f content part rest b₁ b₂ b₃
  exchange r f content part rest b₁ b₂ b₃ c hu hh asked there held called live fresh idle empty cut
        cut₁ cut₂ =
      let header : IsHeader (codes "Host", b' ' ∷ r.host) =
        (free-Without b':' (codes "Host") refl, ((λ e. absurd (omega arith)), hh)) in
      let sent =
        get-Sends asio files r.uri (codes "Host", b' ' ∷ r.host) [] part rest
          (record accepted_service { pending = [] }) hu (header, tt) cut asked accepted-Waits.1
          accepted-Waits.2 refl in
      let read =
        subst (λ q. Reads r q f content b₁ b₂ b₃) (sym (reads_status r _ live))
          (page-Reads r f content b₁ b₂ b₃ c called live fresh cut₁ cut₂) in
      (
        writes_request r part rest live idle empty cut,
        read.0,
        accepted-Waits.0,
        sent.0,
        subst (Sends _)
            (answer_page files (codes "sample" ++ r.uri) content there held
              ∙ page_text content b₁ b₂ b₃ c cut₁ cut₂)
            sent.1,
        read.1,
        read.2,
        read.3,
      )
