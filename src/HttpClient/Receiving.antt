-- ===== src/HttpClient/Receiving.antt =====
-- asiolib/http-client-async.hpp: a whole response, in the parts in which it arrives.
use mathlib.Core.Path.{subst}
use boost_asio_samples.Base.{
  ℕ, ◌<◌, ◌^◌, false, none, some, List, [], ◌∷◌, ◌++◌, ◌≡◌, ◌≢◌, refl, ap, sym, ◌∙◌, Bytes, codes,
  All, Without, append_assoc, arith,
}
use boost_asio_samples.Decimal.{stoul}
use boost_asio_samples.Errors.{ErrorCode, success, error_code_eq_refl, AsioError}
use boost_asio_samples.Stream.Reads.{IsWord}
use boost_asio_samples.HttpClient.Request.{
  HttpResponse, HttpRequest, Op, read_until, read_all, status_line_received, headers_received,
  start, call_back, on_finish, set_buffer,
}
use boost_asio_samples.HttpClient.Headers.{add_header, read_header}
use boost_asio_samples.HttpClient.{unless_cancelled, on_response_body_received}
use boost_asio_samples.HttpClient.Parsing.{
  IsLine, render_lines, end_of_headers, read_lines, with_status, status_line_read, headers_read,
}
use boost_asio_samples.HttpClient.Steps.{Event, receive, handle}

-- How a read ends that brought bytes, and the last one, at the end of the stream.
abbrev pub arrived : ErrorCode → Bytes → Event
arrived ec b = record { ec = ec; bytes = b; shutdown = none }

abbrev pub status_line : Bytes → Bytes → Bytes
status_line code reason = codes "HTTP/1.1" ++ b' ' ∷ (code ++ b' ' ∷ reason)

abbrev pub read_status_line : Op
read_status_line = read_until (codes "\r\n") status_line_received

abbrev pub read_header_block : Op
read_header_block = read_until (codes "\r\n\r\n") headers_received

-- The response after its three parts.
abbrev pub whole_response : ℕ → Bytes → List Bytes → Bytes → HttpRequest → HttpResponse
whole_response v reason ls body r =
    record (read_lines ls (record r.response { status_code = v; status_message = b' ' ∷ reason })) {
      response_buf = body;
    }

read_header_buffer :
    (l b : Bytes) (p : HttpResponse)
    → read_header l (record p { response_buf = b }) ≡ record (read_header l p) { response_buf = b }
unfolding read_header add_header
read_header_buffer l b p = ground arith

-- Reading headers leaves the buffer alone, and does not depend on it.
read_lines_buffer :
    (ls : List Bytes) (b c : Bytes) (p : HttpResponse)
    → record (read_lines ls (record p { response_buf = b })) { response_buf = c }
      ≡ record (read_lines ls p) { response_buf = c }
read_lines_buffer [] b c p = refl
read_lines_buffer (l ∷ ls) b c p =
    ap (λ q. record (read_lines ls q) { response_buf = c }) (read_header_buffer l b p)
    ∙ read_lines_buffer ls b c (read_header l p)

module _ (asio : AsioError) where
  pub unless_cancelled-start :
      (op : Op) (r : HttpRequest)
      → r.was_cancelled ≡ false
      → unless_cancelled asio op r ≡ start op r
  unfolding unless_cancelled
  unless_cancelled-start op r h = ground arith

  on_body_eof :
      (f : ℕ) (r : HttpRequest)
      → r.callback ≡ some f
      → (on_response_body_received asio asio.eof r).calls
        ≡ r.calls ++ record { callback = f; response = r.response; ec = success } ∷ []
  unfolding on_response_body_received on_finish call_back
  on_body_eof f r h = ground (arith, error_code_eq_refl asio.eof)

  read_status_lem :
      (code reason b₁ : Bytes) (v : ℕ) (r : HttpRequest)
      → IsWord code × (code ≢ [])
      → stoul code ≡ some v
      → v < 2 ^ 32
      → Without b'\r' reason
      → r.was_cancelled ≡ false
      → r.response.response_buf ≡ []
      → handle asio read_status_line
          (arrived success (status_line code reason ++ b'\r' ∷ b'\n' ∷ b₁))
          r
        ≡ start read_header_block (with_status v reason b₁ r)
  unfolding handle receive set_buffer
  read_status_lem code reason b₁ v r hc value fits plain live empty =
      status_line_read asio success (receive (status_line code reason ++ b'\r' ∷ b'\n' ∷ b₁) r) code
        reason b₁ v refl hc.0 hc.1 value fits plain
        (ap (λ b. b ++ (status_line code reason ++ b'\r' ∷ b'\n' ∷ b₁)) empty
          ∙ ap (◌++◌ (codes "HTTP/1.1"))
              (ap (◌∷◌ b' ') (append_assoc code (b' ' ∷ reason) (b'\r' ∷ b'\n' ∷ b₁))))
      ∙ unless_cancelled-start read_header_block (with_status v reason b₁ r) live

  read_block_lem :
      (ls : List Bytes) (b₂ c : Bytes) (r : HttpRequest)
      → All IsLine ls
      → r.was_cancelled ≡ false
      → r.response.response_buf ++ b₂ ≡ render_lines ls (end_of_headers c)
      → handle asio read_header_block (arrived success b₂) r
        ≡ start read_all
            (record r { response = record (read_lines ls r.response) { response_buf = c } })
  unfolding handle receive set_buffer
  read_block_lem ls b₂ c r hl live buffer =
      headers_read asio success (receive b₂ r) ls c refl hl buffer
      ∙ unless_cancelled-start read_all _ live
      ∙ ap (λ p. start read_all (record r { response = p }))
          (read_lines_buffer ls (r.response.response_buf ++ b₂) c r.response)

  receives_rest :
      (f : ℕ) (ls : List Bytes) (b₂ b₃ c body : Bytes) (r : HttpRequest)
      → All IsLine ls
      → r.response.response_buf ++ b₂ ≡ render_lines ls (end_of_headers c)
      → c ++ b₃ ≡ body
      → r.callback ≡ some f
      → r.was_cancelled ≡ false
      → r.pending ≡ []
      → let s₂ = handle asio read_header_block (arrived success b₂) r in
        let s₃ = handle asio read_all (arrived asio.eof b₃) (record s₂ { pending = [] }) in
        (s₂.pending ≡ read_all ∷ [])
        × (s₃.calls
            ≡ r.calls
              ++ record {
                callback = f;
                response = record (read_lines ls r.response) { response_buf = body };
                ec = success;
              }
                ∷ [])
  receives_rest f ls b₂ b₃ c body r hl cut₁ cut₂ called live idle =
      let t = record r { response = record (read_lines ls r.response) { response_buf = c } } in
      subst
        (λ s₂.
          (s₂.pending ≡ read_all ∷ [])
          × ((handle asio read_all (arrived asio.eof b₃) (record s₂ { pending = [] })).calls
              ≡ r.calls
                ++ record {
                  callback = f;
                  response = record (read_lines ls r.response) { response_buf = body };
                  ec = success;
                }
                  ∷ []))
        (sym (read_block_lem ls b₂ c r hl live cut₁))
        (unfold start handle receive set_buffer in
          (
            ap (λ ops. ops ++ read_all ∷ []) idle,
            on_body_eof f
                  (record t {
                    pending = [];
                    response = record t.response { response_buf = c ++ b₃ };
                  })
                  called
                ∙ ap
                    (λ b.
                      r.calls
                      ++ record {
                        callback = f;
                        response = record (read_lines ls r.response) { response_buf = b };
                        ec = success;
                      }
                        ∷ [])
                    cut₂,
          ))

  pub receives :
      (f : ℕ) (code reason : Bytes) (v : ℕ) (l : Bytes) (ls : List Bytes) (b₁ b₂ b₃ c body : Bytes)
      (r : HttpRequest)
      → IsWord code × (code ≢ [])
      → stoul code ≡ some v
      → v < 2 ^ 32
      → Without b'\r' reason
      → All IsLine (l ∷ ls)
      → b₁ ++ b₂ ≡ render_lines (l ∷ ls) (end_of_headers c)
      → c ++ b₃ ≡ body
      → r.callback ≡ some f
      → r.was_cancelled ≡ false
      → r.response.response_buf ≡ []
      → r.pending ≡ []
      → let s₁ =
          handle asio read_status_line
            (arrived success (status_line code reason ++ b'\r' ∷ b'\n' ∷ b₁))
            r in
        let s₂ = handle asio read_header_block (arrived success b₂) (record s₁ { pending = [] }) in
        let s₃ = handle asio read_all (arrived asio.eof b₃) (record s₂ { pending = [] }) in
        (s₁.pending ≡ read_header_block ∷ [])
        × (s₂.pending ≡ read_all ∷ [])
        × (s₃.calls
            ≡ r.calls
              ++ record {
                callback = f;
                response = whole_response v reason (l ∷ ls) body r;
                ec = success;
              }
                ∷ [])
  receives f code reason v l ls b₁ b₂ b₃ c body r hc value fits plain hl cut₁ cut₂ called live empty
        idle =
      subst
        (λ t.
          (t.pending ≡ read_header_block ∷ [])
          × ((handle asio read_header_block (arrived success b₂)
                (record t { pending = [] })).pending
              ≡ read_all ∷ [])
          × ((handle asio read_all (arrived asio.eof b₃)
                (record (handle asio read_header_block (arrived success b₂)
                  (record t { pending = [] })) { pending = [] })).calls
              ≡ r.calls
                ++ record {
                  callback = f;
                  response = whole_response v reason (l ∷ ls) body r;
                  ec = success;
                }
                  ∷ []))
        (sym (read_status_lem code reason b₁ v r hc value fits plain live empty))
        (unfold start in
          (let rest =
              receives_rest f (l ∷ ls) b₂ b₃ c body
                (record (with_status v reason b₁ r) { pending = [] }) hl cut₁ cut₂ called live
                refl in
            (
              ap (λ ops. ops ++ read_header_block ∷ []) idle,
              rest.0,
              rest.1
                  ∙ ap (λ p. r.calls ++ record { callback = f; response = p; ec = success } ∷ [])
                      (read_lines_buffer (l ∷ ls) b₁ body
                        (record r.response { status_code = v; status_message = b' ' ∷ reason })),
            )))
