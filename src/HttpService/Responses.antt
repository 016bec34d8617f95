-- ===== src/HttpService/Responses.antt =====
-- asiolib/http-service-async.hpp: what the service makes of a well-formed request, and what it sends.
use mathlib.Core.List.{flatten}
use boost_asio_samples.Base.{
  ℕ, false, not, Option, none, some, List, [], ◌∷◌, ◌++◌, ◌≡◌, ◌≢◌, refl, ap, ◌∙◌, Bytes, codes,
  bytes_eq, All, Without, Without-append, length, append_assoc, append-nil, if◌then◌else◌, arith,
  ltb,
}
use boost_asio_samples.Dict.{Dict, nat_eq, lookup}
use boost_asio_samples.Errors.{ErrorCode, failed, AsioError}
use boost_asio_samples.Stream.{open_stream, get, extract}
use boost_asio_samples.Stream.Reads.{
  IsWord, IsWord-Without, getline-append, extract-append, extract_space, extract_last,
}
use boost_asio_samples.HttpService.Session.{
  HttpService, write, read_until, headers_received, Files, start, http_status_table,
}
use boost_asio_samples.HttpService.Loop.{render_pairs, IsHeader, insert_pairs, header_block_read}
use boost_asio_samples.HttpService.{
  response_buffers, with_status_line, send_line, send_response, accept_request_line,
  resource_file_path, answer_request, headers_done, on_request_line_received, on_headers_received,
}

-- What the service does with the three words of a request line.
abbrev pub decision : Option ErrorCode → Bytes → Bytes → Bytes → Bytes → HttpService → HttpService
decision shutdown method uri version rest s =
    if not (bytes_eq method (codes "GET"))
    then send_response shutdown (record s { request = rest; response_status_code = 501 })
    else if not (bytes_eq version (codes "HTTP/1.1"))
    then send_response shutdown
        (record s { request = rest; requested_resource = uri; response_status_code = 505 })
    else start (read_until (codes "\r\n\r\n") headers_received)
        (record s { request = rest; requested_resource = uri })

abbrev IsToken : Bytes → Type 0
IsToken w = IsWord w × (w ≢ [])

extract_first :
    (str w r : Bytes)
    → IsToken w
    → extract str (open_stream (w ++ b' ' ∷ r)) ≡ (w, open_stream (b' ' ∷ r))
extract_first str [] r h = absurd (h.1 refl)
extract_first str (x ∷ w) r h = extract-append str x w b' ' r h.0 refl

extract_next :
    (str w r : Bytes)
    → IsToken w
    → extract str (open_stream (b' ' ∷ (w ++ b' ' ∷ r))) ≡ (w, open_stream (b' ' ∷ r))
extract_next str w r h = extract_space str b' ' (w ++ b' ' ∷ r) refl ∙ extract_first str w r h

extract_end : (str w : Bytes) → IsToken w → (extract str (open_stream (b' ' ∷ w))).0 ≡ w
extract_end str [] h = absurd (h.1 refl)
extract_end str (x ∷ w) h =
    ap (λ p. p.0) (extract_space str b' ' (x ∷ w) refl ∙ extract_last str x w h.0)

accept_request_line_lem :
    (shutdown : Option ErrorCode) (method uri version rest : Bytes) (s : HttpService)
    → IsToken method
    → IsToken uri
    → IsToken version
    → accept_request_line shutdown (method ++ b' ' ∷ (uri ++ b' ' ∷ version)) rest s
      ≡ decision shutdown method uri version rest s
unfolding accept_request_line
accept_request_line_lem shutdown method uri version rest s hm hu hv =
    rw (extract_first [] method (uri ++ b' ' ∷ version) hm)
      (rw (extract_next s.requested_resource uri version hu) (rw (extract_end [] version hv) refl))

IsToken-Without : (w : Bytes) → IsToken w → Without b'\r' w
IsToken-Without w h = IsWord-Without b'\r' w refl h.0

line_plain :
    (method uri version : Bytes)
    → IsToken method
    → IsToken uri
    → IsToken version
    → Without b'\r' (method ++ b' ' ∷ (uri ++ b' ' ∷ version))
line_plain method uri version hm hu hv = Without-append b'\r' method _ (IsToken-Without method hm) (
  (λ e. absurd (omega arith)),
  Without-append b'\r' uri _ (IsToken-Without uri hu)
      ((λ e. absurd (omega arith)), IsToken-Without version hv),
)

module _ (asio : AsioError) where
  -- A request line of three words that was read without an error is answered by its words alone: another method than GET is refused by
  -- 501, another version by 505, and otherwise the resource is stored and the headers are read next.
  pub request_line_read :
      (ec : ErrorCode) (shutdown : Option ErrorCode) (method uri version rest : Bytes)
      (s : HttpService)
      → failed ec ≡ false
      → IsWord method × (method ≢ [])
      → IsWord uri × (uri ≢ [])
      → IsWord version × (version ≢ [])
      → s.request ≡ (method ++ b' ' ∷ (uri ++ b' ' ∷ version)) ++ b'\r' ∷ b'\n' ∷ rest
      → on_request_line_received asio ec shutdown s ≡ decision shutdown method uri version rest s
  unfolding on_request_line_received get
  request_line_read ec shutdown method uri version rest s ok hm hu hv buffer =
      let line = method ++ b' ' ∷ (uri ++ b' ' ∷ version) in
      ground (
        arith,
        getline-append b'\r' [] line (b'\n' ∷ rest) (line_plain method uri version hm hu hv),
        accept_request_line_lem shutdown method uri version rest s hm hu hv,
      )

  -- A header block is stored header by header, and the request is answered.
  pub headers_read :
      (files : Files) (ec : ErrorCode) (shutdown : Option ErrorCode) (ps : Dict Bytes Bytes)
      (tail : Bytes) (s : HttpService)
      → failed ec ≡ false
      → All IsHeader ps
      → Without b':' tail
      → s.request ≡ render_pairs ps tail
      → on_headers_received asio files ec shutdown s
        ≡ answer_request
            (files.exists_error (resource_file_path s))
            files
            shutdown
            (record s { request_headers = insert_pairs ps s.request_headers; request = [] })
  unfolding on_headers_received headers_done
  headers_read files ec shutdown ps tail s ok hp plain buffer =
      ground (arith, rw (← buffer) at (header_block_read ps tail s.request_headers hp plain))

-- The size that the service keeps is that of the body it sends.
abbrev pub SizeIsRight : HttpService → Type 0
SizeIsRight s = s.resource_size_bytes ≡ length s.resource_buffer

body_buffer : (n : ℕ) (b : Bytes) → n ≡ length b → flatten (if ltb 0 n then b ∷ [] else []) ≡ b
unfolding flatten
body_buffer n [] h = ground arith
body_buffer n (x ∷ b) h = ground (arith, append-nil (x ∷ b))

headers_buffer :
    (h : Bytes) (rest : List Bytes)
    → flatten ((if ltb 0 (length h) then h ∷ [] else []) ++ rest) ≡ h ++ flatten rest
unfolding flatten
headers_buffer [] rest = refl
headers_buffer (x ∷ h) rest = ground arith

-- The bytes of a response: status line, headers, an empty line, and the body.
abbrev pub response_text : Bytes → HttpService → Bytes
response_text line s =
    codes "HTTP/1.1 "
    ++ (line ++ (codes "\r\n" ++ (s.response_headers ++ (codes "\r\n" ++ s.resource_buffer))))

flatten-response_buffers :
    (line : Bytes) (s : HttpService)
    → SizeIsRight s
    → flatten (response_buffers (with_status_line line s)) ≡ response_text line s
unfolding with_status_line flatten
flatten-response_buffers line s h =
    ap (λ t. codes "HTTP/1.1 " ++ ((line ++ codes "\r\n") ++ t))
      (headers_buffer (s.response_headers ++ codes "\r\n")
          (if ltb 0 s.resource_size_bytes then s.resource_buffer ∷ [] else [])
        ∙ ap (λ t. (s.response_headers ++ codes "\r\n") ++ t)
            (body_buffer s.resource_size_bytes s.resource_buffer h))
    ∙ simp append_assoc

-- A response with a status of the table, whose stored size is that of its body, is written by one
-- operation, whose buffers hold the status line, the headers, an empty line and the body in order.
pub send_response_text :
    (line : Bytes) (s : HttpService)
    → lookup s.response_status_code http_status_table ≡ some line
    → SizeIsRight s
    → (bufs : List Bytes) × ((send_response none s).pending ≡ s.pending ++ write bufs ∷ [])
      × (flatten bufs ≡ response_text line s)
unfolding send_response start send_line
send_response_text line s known size = (
  response_buffers (with_status_line line s),
  rw (known, send_line) (unfold with_status_line in refl),
  flatten-response_buffers line s size,
)
