-- ===== src/HttpClient/Getters.antt =====
-- asiolib/http-client-async.hpp: what a callback may ask of its request and of the response.
use boost_asio_samples.Base.{ℕ, ◌≡◌, refl, Bytes}
use boost_asio_samples.Dict.{Dict}
use boost_asio_samples.HttpClient.Request.{
  HttpRequest, HttpResponse, create_request, set_host, set_port, set_uri, set_callback,
}

unfoldable pub get_host : HttpRequest → Bytes
get_host r = r.host

unfoldable pub get_port : HttpRequest → ℕ
get_port r = r.port

unfoldable pub get_uri : HttpRequest → Bytes
get_uri r = r.uri

unfoldable pub get_id : HttpRequest → ℕ
get_id r = r.id

unfoldable pub get_status_code : HttpResponse → ℕ
get_status_code p = p.status_code

unfoldable pub get_status_message : HttpResponse → Bytes
get_status_message p = p.status_message

unfoldable pub get_headers : HttpResponse → Dict Bytes Bytes
get_headers p = p.headers

-- `get_response`: what the stream over the response buffer holds.
unfoldable pub get_response : HttpResponse → Bytes
get_response p = p.response_buf

-- A request is asked for what was set, in whatever order it was set.
pub setters_kept :
    (id : ℕ) (host uri : Bytes) (port f : ℕ)
    → let r = set_callback f (set_port port (set_uri uri (set_host host (create_request id)))) in
      let q = set_host host (set_uri uri (set_port port (set_callback f (create_request id)))) in
      (r ≡ q) × (get_host r ≡ host) × (get_port r ≡ port) × (get_uri r ≡ uri) × (get_id r ≡ id)
unfolding get_host get_port get_uri get_id create_request
setters_kept id host uri port f = (refl, refl, refl, refl, refl)
