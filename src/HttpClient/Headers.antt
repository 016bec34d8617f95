-- ===== src/HttpClient/Headers.antt =====
-- asiolib/http-client-async.hpp: the header loop of `on_headers_received`.
use boost_asio_samples.Base.{
  ℕ, zero, suc, ◌+◌, ◌-◌, Option, none, some, [], ◌∷◌, Bytes, is_empty, length, take, drop, ltb,
  ◌==◌, if◌then◌else◌,
}
use boost_asio_samples.Dict.{text_eq, insert}
use boost_asio_samples.Stream.{IStream, getline, get}
use boost_asio_samples.HttpClient.Request.{HttpResponse}

-- `HTTPResponse::add_header`
unfoldable pub add_header : Bytes → Bytes → HttpResponse → HttpResponse
add_header name value p = record p { headers = insert name value p.headers }

-- `std::string::find`
unfoldable pub find : ℕ → Bytes → Option ℕ
find c [] = none
find c (x ∷ xs) =
    if x == c then some 0 else elim (find c xs) [ none ↦ none | some i ↦ some (suc i) ]

-- The body of the header loop, for a line that is not empty.
unfoldable pub read_header : Bytes → HttpResponse → HttpResponse
unfolding find add_header
read_header header p = elim (find b':' header) [
  | none ↦ p
  | some pos ↦
      add_header (take pos header)
        (if ltb pos (length header - 1) then drop (pos + 1) header else []) p
]

-- The header loop: `none` when the rounds run out. `header` keeps its value from one round to the
-- next, as the string of the source does.
unfoldable pub read_headers : ℕ → Bytes → IStream → HttpResponse → Option (HttpResponse × IStream)
read_headers zero header s p = none
read_headers (suc rounds) header s p =
    let line = getline b'\r' header s in
    let s' = get line.1 in
    let more = read_headers rounds line.0 s' (read_header line.0 p) in
    if is_empty line.0 then some (p, s') else more

-- Every round but the last two takes a byte from the buffer.
abbrev pub rounds_for : Bytes → ℕ
rounds_for b = suc (suc (length b))
