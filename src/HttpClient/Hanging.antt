-- ===== src/HttpClient/Hanging.antt =====
-- asiolib/http-client-async.hpp: inputs on which the header loop of `on_headers_received` never ends.
use boost_asio_samples.Base.{
  ℕ, zero, suc, true, false, none, some, List, [], ◌∷◌, ◌++◌, ◌≡◌, ◌≢◌, refl, ◌∙◌, Bytes, All,
  Without, after_fresh, is_empty, before, after, if◌then◌else◌, arith,
}
use boost_asio_samples.Errors.{failed, ErrorCode, AsioError}
use boost_asio_samples.Stream.{IStream, open_stream, getline, get, good}
use boost_asio_samples.Stream.Reads.{getline-none, getline-some, getline-append}
use boost_asio_samples.HttpClient.Request.{HttpResponse, HttpRequest, hung}
use boost_asio_samples.HttpClient.Headers.{read_header, read_headers, rounds_for}
use boost_asio_samples.HttpClient.{on_headers_received, headers_done}
use boost_asio_samples.HttpClient.Parsing.{IsLine, render_lines, end_of_headers, read_headers_line}

-- A stream at its end leaves the last line as it is, for ever.
pub read_headers_unready :
    (n : ℕ) (header : Bytes) (s : IStream) (p : HttpResponse)
    → header ≢ []
    → good s ≡ false
    → read_headers n header s p ≡ none
unfolding read_headers getline get
read_headers_unready zero header s p ne h = refl
read_headers_unready (suc n) [] s p ne h = absurd (ne refl)
read_headers_unready (suc n) (x ∷ header) s p ne h = ground (
  arith,
  read_headers_unready n (x ∷ header) (record s { fail = true }) (read_header (x ∷ header) p),
)

pub read_headers_tail :
    (n : ℕ) (header t : Bytes) (p : HttpResponse)
    → t ≢ []
    → after b'\r' t ≡ none
    → read_headers n header (open_stream t) p ≡ none
unfolding read_headers get
read_headers_tail zero header t p ne h = refl
read_headers_tail (suc n) header [] p ne h = absurd (ne refl)
read_headers_tail (suc n) header (x ∷ t) p ne h =
    rw (getline-none b'\r' header (x ∷ t) h, read_headers)
      (read_headers_unready n (x ∷ t) (record { rest = []; eof = true; fail = true })
        (read_header (x ∷ t) p) (λ e. cc) refl)

pub read_headers_step :
    (n : ℕ) (header b r : Bytes) (p : HttpResponse)
    → after b'\r' b ≡ some r
    → read_headers (suc n) header (open_stream b) p ≡ (
        if is_empty (before b'\r' b)
        then some (p, get (open_stream r))
        else read_headers n (before b'\r' b) (get (open_stream r)) (read_header (before b'\r' b) p))
unfolding read_headers
read_headers_step n header b r p h = rw (getline-some b'\r' header b r h, read_headers) refl

read_headers_stray :
    (ls : List Bytes) (n : ℕ) (header line body : Bytes) (p : HttpResponse)
    → All IsLine ls
    → IsLine line
    → body ≢ []
    → Without b'\r' body
    → read_headers n header
        (open_stream (render_lines ls (line ++ b'\r' ∷ b'\r' ∷ b'\n' ∷ end_of_headers body)))
        p
      ≡ none
unfolding read_headers get
read_headers_stray ls zero header line body p h one ne plain = refl
read_headers_stray (l ∷ ls) (suc n) header line body p h one ne plain =
    read_headers_line n header l _ p h.0
    ∙ read_headers_stray ls n l line body (read_header l p) h.1 one ne plain
read_headers_stray [] (suc n) header [] body p h one ne plain = absurd (one.0 refl)
read_headers_stray [] (suc zero) header (x ∷ line) body p h one ne plain = rw (
  getline-append b'\r' header (x ∷ line) (b'\r' ∷ b'\n' ∷ end_of_headers body) one.1,
  read_headers,
)
read_headers_stray [] (suc (suc n)) header (x ∷ line) body p h one ne plain =
    rw
      (
        getline-append b'\r' header (x ∷ line) (b'\r' ∷ b'\n' ∷ end_of_headers body) one.1,
        read_headers,
      )
      (rw
        (
          getline-append b'\r' (x ∷ line) (b'\n' ∷ []) (b'\n' ∷ body)
              ((λ e. absurd (omega arith)), tt),
          read_headers,
        )
        (read_headers_tail n (b'\n' ∷ []) body (read_header (b'\n' ∷ []) (read_header (x ∷ line) p))
          ne (after_fresh b'\r' body plain)))

module _ (asio : AsioError) where
  -- A stray carriage return behind the last of at least one header lines puts the loop out of step: it
  -- misses the empty line, and where the body is not empty and has no carriage return it never ends.
  -- The header block was received without an error, and the callback is not called.
  pub stray_return_hangs :
      (ec : ErrorCode) (r : HttpRequest) (ls : List Bytes) (line body : Bytes)
      → failed ec ≡ false
      → All IsLine ls
      → IsLine line
      → body ≢ []
      → Without b'\r' body
      → r.response.response_buf
        ≡ render_lines ls (line ++ b'\r' ∷ b'\r' ∷ b'\n' ∷ end_of_headers body)
      → ((on_headers_received asio ec r).fate ≡ hung)
        × ((on_headers_received asio ec r).calls ≡ r.calls)
  unfolding on_headers_received headers_done
  stray_return_hangs ec r ls line body ok lines one ne plain buffer =
      let never =
        read_headers_stray ls (rounds_for r.response.response_buf) [] line body r.response lines one
          ne plain in
      ground (arith, rw (← buffer) at never)
