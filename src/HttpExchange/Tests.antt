-- ===== src/HttpExchange/Tests.antt =====
-- The scenario of basics/http-server-client.cpp, with a short file.
use boost_asio_samples.Base.{none, some, refl, codes, bytes_eq, free-Without}
use boost_asio_samples.Errors.{windows}
use boost_asio_samples.Decimal.{to_string}
use boost_asio_samples.HttpClient.Request.{
  HttpRequest, create_request, set_host, set_port, set_uri, set_callback,
}
use boost_asio_samples.HttpService.Session.{Files}
use boost_asio_samples.HttpExchange.{Exchanged, exchange}
use native.Mathlib.Decide.{dec_lt}
use boost_asio_samples.Base.{lt_wf}

abbrev files : Files
files = record {
  exists_error = λ path. none;
  exists = λ path. bytes_eq path (codes "sample/manual.html");
  contents = λ path. some (codes "hello");
}

abbrev request : HttpRequest
unfolding create_request
request = set_callback 7 (
    set_port 6969
      (set_uri (codes "/manual.html") (set_host (codes "localhost") (create_request 1))))

exchange_example :
    Exchanged windows files request 7
      (codes "hello")
      (codes "Host:")
      (codes " localhost\r\n\r\n")
      (codes "content-length: 5\r\n")
      (codes "\r\nhe")
      (codes "llo")
unfolding create_request bytes_eq to_string lt_wf dec_lt
exchange_example =
    exchange windows files request 7 (codes "hello") (codes "Host:") (codes " localhost\r\n\r\n")
      (codes "content-length: 5\r\n") (codes "\r\nhe") (codes "llo") (codes "he")
      (
        (
          refl,
          (
            refl,
            (refl, (refl, (refl, (refl, (refl, (refl, (refl, (refl, (refl, (refl, tt)))))))))),
          ),
        ),
        λ e. cc,
      )
      (free-Without b'\r' (codes "localhost") refl) refl refl refl refl refl refl refl refl refl
      refl refl
