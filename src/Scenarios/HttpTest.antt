-- ===== src/Scenarios/HttpTest.antt =====
-- The test simpleScenario of basics/http-server-client.cpp.
use boost_asio_samples.Base.{
  ℕ, ◌≡◌, refl, ap, Bool, true, none, some, List, [], ◌∷◌, ◌++◌, Bytes, codes, free-Without,
}
use boost_asio_samples.Errors.{AsioError, success}
use boost_asio_samples.Setup.{Promise, unset, value, finished}
use boost_asio_samples.HttpClient.Request as Http
use boost_asio_samples.HttpClient.Request.{
  HttpRequest, create_request, set_host, set_port, set_uri, set_callback, connect, write, read_all,
}
use boost_asio_samples.HttpClient.Parsing.{render_lines, end_of_headers}
use boost_asio_samples.HttpClient.Receiving.{
  arrived, status_line, read_status_line, read_header_block,
}
use boost_asio_samples.HttpClient.Steps.{handle}
use boost_asio_samples.HttpService.Loop.{render_pairs}
use boost_asio_samples.HttpService.Answers.{get_line}
use boost_asio_samples.HttpService.Session.{Files}
use boost_asio_samples.HttpExchange.{Exchanged, exchange, host_header, length_line}
use boost_asio_samples.Scenarios.Handlers.{Called, continued, testhandler2}

-- The request, with the number of the callback.
unfoldable pub simple_scenario : ℕ → HttpRequest
simple_scenario handler = set_callback handler (
    set_port 6969
      (set_uri (codes "/manual.html") (set_host (codes "localhost") (create_request 1))))

-- The calls of the callback in the order in which they come, up to one that throws.
unfoldable pub all_handled : List Http.Call → Promise Bool → Called
all_handled [] promise = record { checks = []; promise = finished promise }
all_handled (k ∷ ks) promise =
    let r = testhandler2 k.ec promise in continued r.checks r.promise (λ p. all_handled ks p)

module _ (asio : AsioError) (files : Files) where
  -- Where the file can be read and neither end meets an error: the future of the test is ready and no
  -- check fails, wherever the messages are cut.
  pub http_test_passes :
      (f : ℕ) (content part rest b₁ b₂ b₃ c : Bytes)
      → files.exists_error (codes "sample/manual.html") ≡ none
      → files.exists (codes "sample/manual.html") ≡ true
      → files.contents (codes "sample/manual.html") ≡ some content
      → part ++ rest ≡ render_pairs (host_header (codes "localhost")) (codes "\r\n")
      → b₁ ++ b₂ ≡ render_lines (length_line content ∷ []) (end_of_headers c)
      → c ++ b₃ ≡ content
      → let request = get_line (codes "/manual.html") ++ b'\r' ∷ b'\n' ∷ part in
        let response = status_line (codes "200") (codes "OK") ++ b'\r' ∷ b'\n' ∷ b₁ in
        let w = handle asio connect (arrived success []) (simple_scenario f) in
        let s₀ =
          handle asio (write (request ++ rest)) (arrived success []) (record w { pending = [] }) in
        let s₁ =
          handle asio read_status_line (arrived success response) (record s₀ { pending = [] }) in
        let s₂ = handle asio read_header_block (arrived success b₂) (record s₁ { pending = [] }) in
        let s₃ = handle asio read_all (arrived asio.eof b₃) (record s₂ { pending = [] }) in
        Exchanged asio files (simple_scenario f) f content part rest b₁ b₂ b₃
        × (all_handled s₃.calls unset ≡ record { checks = []; promise = finished (value true) })
  unfolding simple_scenario create_request all_handled testhandler2
  http_test_passes f content part rest b₁ b₂ b₃ c asked there held cut cut₁ cut₂ =
      let all =
        exchange asio files (simple_scenario f) f content part rest b₁ b₂ b₃ c
          (
            (
              refl,
              (
                refl,
                (refl, (refl, (refl, (refl, (refl, (refl, (refl, (refl, (refl, (refl, tt)))))))))),
              ),
            ),
            λ e. cc,
          )
          (free-Without b'\r' (codes "localhost") refl) asked there held refl refl refl refl refl
          cut cut₁ cut₂ in
      (all, ap (λ ks. all_handled ks unset) all.7)
