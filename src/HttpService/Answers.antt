-- ===== src/HttpService/Answers.antt =====
-- asiolib/http-service-async.hpp: a request for a resource from its first byte to its answer.
use mathlib.Core.List.{flatten}
use mathlib.Core.Path.{subst}
use boost_asio_samples.Base.{
  not, Option, none, some, List, [], ◌∷◌, ◌++◌, ◌≡◌, ◌≢◌, refl, ap, sym, ◌∙◌, inl, inr, Bytes,
  codes, bytes_eq, All, length, append_assoc, if◌then◌else◌, Bool-cases, arith,
}
use boost_asio_samples.Decimal.{to_string}
use boost_asio_samples.Dict.{Dict, nat_eq, lookup}
use boost_asio_samples.Errors.{success, AsioError}
use boost_asio_samples.Stream.Reads.{IsWord}
use boost_asio_samples.HttpService.Session.{
  HttpService, Op, write, read_until, request_line_received, headers_received, Files, start,
  set_status, http_status_table,
}
use boost_asio_samples.HttpService.Loop.{render_pairs, IsHeader, insert_pairs}
use boost_asio_samples.HttpService.Responses.{request_line_read, headers_read, send_response_text}
use boost_asio_samples.HttpService.Steps.{Event, receive, handle}
use boost_asio_samples.HttpService.{
  send_response, answer_request, process_request, load_resource, resource_file_path,
}

-- What the service sends for a path: the file with its length, or 404 where nothing is there, or 500
-- where it cannot be opened.
abbrev pub answer : Files → Bytes → Bytes
answer files path =
    if not (files.exists path)
    then codes "HTTP/1.1 404 Not Found\r\n\r\n"
    else elim (files.contents path) [
      | none ↦ codes "HTTP/1.1 500 Server Error\r\n\r\n"
      | some b ↦
          codes "HTTP/1.1 200 OK\r\n"
          ++ (codes "content-length: " ++ (to_string (length b) ++ (codes "\r\n\r\n" ++ b)))
    ]

-- A service that has not begun its answer.
abbrev pub IsFresh : HttpService → Type 0
IsFresh s =
    (s.response_status_code ≡ 200)
    × (s.response_headers ≡ [])
    × (s.resource_size_bytes ≡ 0)
    × (s.resource_buffer ≡ [])

-- A message that was written whole.
abbrev pub Sends : List Op → Bytes → Type 0
Sends ops text = (bufs : List Bytes) × (ops ≡ write bufs ∷ []) × (flatten bufs ≡ text)

missing_Sends :
    (s : HttpService)
    → IsFresh s
    → s.pending ≡ []
    → Sends (send_response none (set_status 404 s)).pending (codes "HTTP/1.1 404 Not Found\r\n\r\n")
unfolding lookup http_status_table
missing_Sends s (status, headers, size, body) idle =
    let (bufs, sent, text) =
      send_response_text (codes "404 Not Found") (set_status 404 s) refl (ground arith) in
    (bufs, sent ∙ ap (λ ops. ops ++ write bufs ∷ []) idle, text ∙ rw (headers, body))

load_resource-Sends :
    (o : Option Bytes) (s : HttpService)
    → IsFresh s
    → s.pending ≡ []
    → Sends (send_response none (load_resource o s)).pending (elim o [
      | none ↦ codes "HTTP/1.1 500 Server Error\r\n\r\n"
      | some b ↦
          codes "HTTP/1.1 200 OK\r\n"
          ++ (codes "content-length: " ++ (to_string (length b) ++ (codes "\r\n\r\n" ++ b)))
    ])
unfolding load_resource lookup http_status_table
load_resource-Sends none s (status, headers, size, body) idle =
    let line = codes "500 Server Error" in
    let (bufs, sent, text) = send_response_text line (set_status 500 s) refl (ground arith) in
    (bufs, sent ∙ ap (λ ops. ops ++ write bufs ∷ []) idle, text ∙ rw (headers, body))
load_resource-Sends (some b) s (status, headers, size, body) idle =
    let line = codes "200 OK" in
    let t = load_resource (some b) s in
    let (bufs, sent, text) =
      send_response_text line t (ap (λ c. lookup c http_status_table) status) refl in
    (bufs, sent ∙ ap (λ ops. ops ++ write bufs ∷ []) idle, text ∙ rw headers (simp append_assoc))

process_request-Sends :
    (files : Files) (s : HttpService)
    → IsFresh s
    → s.pending ≡ []
    → Sends
        (send_response none (process_request files s)).pending
        (answer files (resource_file_path s))
unfolding process_request
process_request-Sends files s fresh idle = elim (Bool-cases (files.exists (resource_file_path s))) [
  | inl there ↦ rw there (load_resource-Sends (files.contents (resource_file_path s)) s fresh idle)
  | inr missing ↦ rw missing (missing_Sends s fresh idle)
]

-- How a read ends that brought bytes.
abbrev pub arrived : Bytes → Event
arrived b = record { ec = success; bytes = b; shutdown = none }

abbrev pub get_line : Bytes → Bytes
get_line uri = codes "GET" ++ b' ' ∷ (uri ++ b' ' ∷ codes "HTTP/1.1")

abbrev read_line : Op
read_line = read_until (codes "\r\n") request_line_received

abbrev read_rest : Op
read_rest = read_until (codes "\r\n\r\n") headers_received

module _ (asio : AsioError) (files : Files) where
  read_line_lem :
      (uri part : Bytes) (s : HttpService)
      → IsWord uri × (uri ≢ [])
      → s.request ≡ []
      → handle asio files read_line (arrived (get_line uri ++ b'\r' ∷ b'\n' ∷ part)) s
        ≡ start read_rest (record s { request = part; requested_resource = uri })
  unfolding handle receive bytes_eq
  read_line_lem uri part s hu empty =
      request_line_read asio success none (codes "GET") uri (codes "HTTP/1.1") part
        (receive (get_line uri ++ b'\r' ∷ b'\n' ∷ part) s) refl
        ((refl, (refl, (refl, tt))), λ e. cc) hu
        ((refl, (refl, (refl, (refl, (refl, (refl, (refl, (refl, tt)))))))), λ e. cc)
        (ap (λ b. b ++ (get_line uri ++ b'\r' ∷ b'\n' ∷ part)) empty)

  read_rest_lem :
      (ps : Dict Bytes Bytes) (rest : Bytes) (s : HttpService)
      → All IsHeader ps
      → s.request ++ rest ≡ render_pairs ps (codes "\r\n")
      → files.exists_error (resource_file_path s) ≡ none
      → handle asio files read_rest (arrived rest) s
        ≡ send_response none (
            process_request files
              (record s { request_headers = insert_pairs ps s.request_headers; request = [] }))
  unfolding handle receive answer_request
  read_rest_lem ps rest s hp buffer asked =
      headers_read asio files success none ps (codes "\r\n") (receive rest s) refl hp
        ((λ e. absurd (omega arith)), ((λ e. absurd (omega arith)), tt)) buffer
      ∙ rw asked refl

  pub get-Sends :
      (uri : Bytes) (p : Bytes × Bytes) (ps : Dict Bytes Bytes) (part rest : Bytes)
      (s : HttpService)
      → IsWord uri × (uri ≢ [])
      → All IsHeader (p ∷ ps)
      → part ++ rest ≡ render_pairs (p ∷ ps) (codes "\r\n")
      → files.exists_error (codes "sample" ++ uri) ≡ none
      → IsFresh s
      → s.request ≡ []
      → s.pending ≡ []
      → let t =
          handle asio files
            (read_until (codes "\r\n") request_line_received)
            (arrived (get_line uri ++ b'\r' ∷ b'\n' ∷ part))
            s in
        (t.pending ≡ read_until (codes "\r\n\r\n") headers_received ∷ [])
        × Sends
            (handle asio files
              (read_until (codes "\r\n\r\n") headers_received)
              (arrived rest)
              (record t { pending = [] })).pending
            (answer files (codes "sample" ++ uri))
  get-Sends uri p ps part rest s hu hp split asked fresh empty idle =
      let t' = record s { request = part; requested_resource = uri } in
      let u = record t' { pending = [] } in
      subst
        (λ t.
          (t.pending ≡ read_rest ∷ [])
          × Sends (handle asio files read_rest (arrived rest) (record t { pending = [] })).pending
              (answer files (codes "sample" ++ uri)))
        (sym (read_line_lem uri part s hu empty))
        (unfold start in
          (
            ap (λ ops. ops ++ read_rest ∷ []) idle,
            subst (λ v. Sends v.pending (answer files (codes "sample" ++ uri)))
                (sym (read_rest_lem (p ∷ ps) rest u hp split asked))
                (process_request-Sends files
                  (record u {
                    request_headers = insert_pairs (p ∷ ps) u.request_headers;
                    request = [];
                  })
                  fresh refl),
          ))
