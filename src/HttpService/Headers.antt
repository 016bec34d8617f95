-- ===== src/HttpService/Headers.antt =====
-- asiolib/http-service-async.hpp: the header loop of `on_headers_received`.
use boost_asio_samples.Base.{ℕ, zero, suc, Option, none, some, Bytes, length, if◌then◌else◌}
use boost_asio_samples.Dict.{Dict, text_eq, insert}
use boost_asio_samples.Stream.{IStream, getline, get}

-- `while (!request_stream.eof())`, with the two strings that the rounds share; `none` when the rounds
-- run out.
unfoldable pub read_headers :
    ℕ → Bytes → Bytes → IStream → Dict Bytes Bytes → Option (Dict Bytes Bytes × IStream)
read_headers zero header_name header_value s headers = none
read_headers (suc rounds) header_name header_value s headers =
    let name = getline b':' header_name s in
    let value = getline b'\r' header_value name.1 in
    let last = read_headers rounds name.0 header_value name.1 headers in
    let more = read_headers rounds name.0 value.0 (get value.1) (insert name.0 value.0 headers) in
    if s.eof then some (headers, s) else if name.1.eof then last else more

abbrev pub rounds_for : Bytes → ℕ
rounds_for b = suc (suc (length b))
