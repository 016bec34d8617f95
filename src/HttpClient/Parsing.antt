-- ===== src/HttpClient/Parsing.antt =====
-- asiolib/http-client-async.hpp: what the client reads from a well-formed response.
use boost_asio_samples.Base.{
  ℕ, zero, suc, ◌≤◌, ◌<◌, ◌^◌, false, some, List, [], ◌∷◌, ◌++◌, ◌≡◌, ◌≢◌, refl, ◌∙◌, Bytes,
  bytes_eq, codes, All, Without, length, length-append, take-length-append, drop-suc-length-append,
  arith,
}
use boost_asio_samples.Errors.{failed, ErrorCode, AsioError}
use boost_asio_samples.Decimal.{stoul}
use boost_asio_samples.Dict.{text_eq}
use boost_asio_samples.Stream.{open_stream, get, extract}
use boost_asio_samples.Stream.Reads.{getline-append, IsWord, extract-append, extract_space}
use boost_asio_samples.HttpClient.Request.{
  HttpResponse, HttpRequest, read_all, read_until, headers_received,
}
use boost_asio_samples.HttpClient.{
  unless_cancelled, on_status_line_received, on_headers_received, parse_status_line, accept_code,
  read_status, store_status, headers_done, store_headers,
}
use boost_asio_samples.HttpClient.Headers.{find, add_header, read_header, read_headers, rounds_for}

-- A line of a header block: not empty, and with no carriage return.
abbrev pub IsLine : Bytes → Type 0
IsLine l = (l ≢ []) × Without b'\r' l

-- Lines as they stand in a message, each with its end, and `rest` behind them.
abbrev pub render_lines : List Bytes → Bytes → Bytes
render_lines [] rest = rest
render_lines (l ∷ ls) rest = l ++ b'\r' ∷ b'\n' ∷ render_lines ls rest

-- The empty line that ends a header block, and the body.
abbrev pub end_of_headers : Bytes → Bytes
end_of_headers body = b'\r' ∷ b'\n' ∷ body

abbrev pub read_lines : List Bytes → HttpResponse → HttpResponse
read_lines [] p = p
read_lines (l ∷ ls) p = read_lines ls (read_header l p)

-- One round reads one line and its end.
pub read_headers_line :
    (n : ℕ) (header l rest : Bytes) (p : HttpResponse)
    → IsLine l
    → read_headers (suc n) header (open_stream (l ++ b'\r' ∷ b'\n' ∷ rest)) p
      ≡ read_headers n l (open_stream rest) (read_header l p)
unfolding read_headers get
read_headers_line n header [] rest p h = absurd (h.0 refl)
read_headers_line n header (x ∷ l) rest p h =
    rw (getline-append b'\r' header (x ∷ l) (b'\n' ∷ rest) h.1, read_headers) refl

-- An empty line ends the loop.
read_headers_end :
    (n : ℕ) (header body : Bytes) (p : HttpResponse)
    → read_headers (suc n) header (open_stream (end_of_headers body)) p ≡ some (p, open_stream body)
unfolding read_headers get
read_headers_end n header body p =
    rw (getline-append b'\r' header [] (b'\n' ∷ body) tt, read_headers) refl

read_headers_lines :
    (ls : List Bytes) (n : ℕ) (header body : Bytes) (p : HttpResponse)
    → All IsLine ls
    → length ls < n
    → read_headers n header (open_stream (render_lines ls (end_of_headers body))) p
      ≡ some (read_lines ls p, open_stream body)
read_headers_lines [] (suc n) header body p h lt = read_headers_end n header body p
read_headers_lines (l ∷ ls) (suc n) header body p h lt =
    read_headers_line n header l _ p h.0
    ∙ read_headers_lines ls n l body (read_header l p) h.1 (omega arith)
read_headers_lines ls zero header body p h lt = absurd (omega arith)

length-render_lines : (ls : List Bytes) (rest : Bytes) → length ls ≤ length (render_lines ls rest)
length-render_lines [] rest = omega arith
length-render_lines (l ∷ ls) rest =
    omega
      (arith, length-append l (b'\r' ∷ b'\n' ∷ render_lines ls rest), length-render_lines ls rest)

-- The loop reads every line of a header block in order, stops at the empty line and leaves exactly
-- the body in the buffer: the rounds that the model allows are enough for a block of any length.
pub read_headers_block :
    (ls : List Bytes) (body : Bytes) (p : HttpResponse)
    → All IsLine ls
    → let b = render_lines ls (end_of_headers body) in
      read_headers (rounds_for b) [] (open_stream b) p ≡ some (read_lines ls p, open_stream body)
read_headers_block ls body p h =
    read_headers_lines ls _ [] body p h
      (omega (arith, length-render_lines ls (end_of_headers body)))

find-append : (c : ℕ) (xs ys : Bytes) → Without c xs → find c (xs ++ c ∷ ys) ≡ some (length xs)
unfolding find
find-append c [] ys h = ground arith
find-append c (x ∷ xs) ys h = ground (arith, find-append c xs ys h.1)

-- A line `name:value` sets one header.
pub read_header-append :
    (name value : Bytes) (p : HttpResponse)
    → Without b':' name
    → read_header (name ++ b':' ∷ value) p ≡ add_header name value p
unfolding read_header
read_header-append name [] p h = ground (
  arith,
  find-append b':' name [] h,
  take-length-append name (b':' ∷ []),
  length-append name (b':' ∷ []),
)
read_header-append name (v ∷ value) p h = ground (
  arith,
  find-append b':' name (v ∷ value) h,
  take-length-append name (b':' ∷ v ∷ value),
  drop-suc-length-append name b':' (v ∷ value),
  length-append name (b':' ∷ v ∷ value),
)

extract_version :
    (rest : Bytes)
    → extract [] (open_stream (codes "HTTP/1.1" ++ b' ' ∷ rest))
      ≡ (codes "HTTP/1.1", open_stream (b' ' ∷ rest))
extract_version rest =
    extract-append [] b'H' (codes "TTP/1.1") b' ' rest
      (refl, (refl, (refl, (refl, (refl, (refl, (refl, (refl, tt)))))))) refl

extract_code :
    (x : ℕ) (w rest : Bytes)
    → IsWord (x ∷ w)
    → extract [] (open_stream (b' ' ∷ ((x ∷ w) ++ b' ' ∷ rest)))
      ≡ (x ∷ w, open_stream (b' ' ∷ rest))
extract_code x w rest h =
    extract_space [] b' ' ((x ∷ w) ++ b' ' ∷ rest) refl ∙ extract-append [] x w b' ' rest h refl

-- The response after a status line.
abbrev pub with_status : ℕ → Bytes → Bytes → HttpRequest → HttpRequest
with_status v reason rest r = record r {
  response = record r.response {
    status_code = v;
    status_message = b' ' ∷ reason;
    response_buf = rest;
  };
}

store_status_line :
    (v : ℕ) (reason rest : Bytes) (r : HttpRequest)
    → v < 2 ^ 32
    → Without b'\r' reason
    → store_status v (open_stream (b' ' ∷ (reason ++ b'\r' ∷ b'\n' ∷ rest))) r
      ≡ with_status v reason rest r
unfolding store_status get
store_status_line v reason rest r fits plain = ground (
  arith,
  getline-append b'\r' [] (b' ' ∷ reason) (b'\n' ∷ rest) ((λ e. absurd (omega arith)), plain),
)

module _ (asio : AsioError) where
  parse_status_line_lem :
      (r : HttpRequest) (x : ℕ) (w reason rest : Bytes) (v : ℕ)
      → IsWord (x ∷ w)
      → stoul (x ∷ w) ≡ some v
      → v < 2 ^ 32
      → Without b'\r' reason
      → parse_status_line asio
          (open_stream
            (codes "HTTP/1.1" ++ b' ' ∷ ((x ∷ w) ++ b' ' ∷ (reason ++ b'\r' ∷ b'\n' ∷ rest))))
          r
        ≡ unless_cancelled asio
            (read_until (codes "\r\n\r\n") headers_received)
            (with_status v reason rest r)
  unfolding parse_status_line accept_code read_status bytes_eq
  parse_status_line_lem r x w reason rest v word value fits plain =
      rw (extract_version ((x ∷ w) ++ b' ' ∷ (reason ++ b'\r' ∷ b'\n' ∷ rest))) (
        rw (extract_code x w (reason ++ b'\r' ∷ b'\n' ∷ rest) word)
          (rw value (rw (store_status_line v reason rest r fits plain) refl)))

  -- A status line sets the code and the message, which keeps the space in front of it, and leaves what
  -- follows the line in the buffer; the headers are read next, unless the request is cancelled.
  pub status_line_read :
      (ec : ErrorCode) (r : HttpRequest) (code reason rest : Bytes) (v : ℕ)
      → failed ec ≡ false
      → IsWord code
      → code ≢ []
      → stoul code ≡ some v
      → v < 2 ^ 32
      → Without b'\r' reason
      → r.response.response_buf
        ≡ codes "HTTP/1.1" ++ b' ' ∷ (code ++ b' ' ∷ (reason ++ b'\r' ∷ b'\n' ∷ rest))
      → on_status_line_received asio ec r
        ≡ unless_cancelled asio
            (read_until (codes "\r\n\r\n") headers_received)
            (with_status v reason rest r)
  unfolding on_status_line_received
  status_line_read ec r [] reason rest v ok word ne value fits plain buffer = absurd (ne refl)
  status_line_read ec r (x ∷ w) reason rest v ok word ne value fits plain buffer =
      ground (arith, parse_status_line_lem r x w reason rest v word value fits plain)

  -- A header block of `name:value` lines sets those headers and leaves the body in the buffer; the
  -- body is read next, unless the request is cancelled.
  pub headers_read :
      (ec : ErrorCode) (r : HttpRequest) (ls : List Bytes) (body : Bytes)
      → failed ec ≡ false
      → All IsLine ls
      → r.response.response_buf ≡ render_lines ls (end_of_headers body)
      → on_headers_received asio ec r
        ≡ unless_cancelled asio read_all
            (record r { response = record (read_lines ls r.response) { response_buf = body } })
  unfolding on_headers_received headers_done store_headers
  headers_read ec r ls body ok lines buffer =
      ground (arith, rw (← buffer) at (read_headers_block ls body r.response lines))
