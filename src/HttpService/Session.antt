-- ===== src/HttpService/Session.antt =====
-- asiolib/http-service-async.hpp: the table of statuses and the object that serves one connection.
-- Beside its fields stand the operations that it has started and that have not completed, how often
-- it was deleted, and the exception that has left one of its handlers.
use boost_asio_samples.Base.{ℕ, Bool, Option, List, [], ◌∷◌, ◌++◌, ◌+◌, Bytes, codes}
use boost_asio_samples.Dict.{Dict}
use boost_asio_samples.Errors.{ErrorCode}

unfoldable pub http_status_table : Dict ℕ Bytes
http_status_table =
    (200, codes "200 OK")
    ∷ (404, codes "404 Not Found")
    ∷ (413, codes "413 Request Entity Too Large")
    ∷ (500, codes "500 Server Error")
    ∷ (501, codes "501 Not Implemented")
    ∷ (505, codes "505 HTTP Version Not Supported")
    ∷ []

-- The handler that a read with a delimiter is given.
pub data Handler : Type 0 where
  request_line_received headers_received : Handler

pub data Op : Type 0 where
  read_until : Bytes → Handler → Op
  write : List Bytes → Op

-- `bad_status` is the `std::out_of_range` of the table, `shutdown_failed` the error of `shutdown`,
-- `exists_failed` what `fs::exists` throws.
-- `hung` is a loop that does not end.
pub data Fate : Type 0 where
  running : Fate
  bad_status : Fate
  shutdown_failed : ErrorCode → Fate
  exists_failed : ErrorCode → Fate
  hung : Fate

pub record HttpService : Type 0 where
  pub request : Bytes
  pub request_headers : Dict Bytes Bytes
  pub requested_resource : Bytes
  pub resource_buffer : Bytes
  pub response_status_code : ℕ
  pub resource_size_bytes : ℕ
  pub response_headers : Bytes
  pub response_status_line : Bytes
  pub pending : List Op
  pub deletes : ℕ
  pub fate : Fate

-- The constructor.
unfoldable pub new_service : HttpService
new_service = record {
  request = [];
  request_headers = [];
  requested_resource = [];
  resource_buffer = [];
  response_status_code = 200;
  resource_size_bytes = 0;
  response_headers = [];
  response_status_line = [];
  pending = [];
  deletes = 0;
  fate = running;
}

unfoldable pub start : Op → HttpService → HttpService
start op s = record s { pending = s.pending ++ op ∷ [] }

-- `delete this`
unfoldable pub on_finish : HttpService → HttpService
on_finish s = record s { deletes = s.deletes + 1 }

abbrev pub set_status : ℕ → HttpService → HttpService
set_status code s = record s { response_status_code = code }

-- The file system, as far as the service asks it: whether a path exists, or what that question throws, and
-- what a file that can be opened holds.
pub record Files : Type 0 where
  pub exists_error : Bytes → Option ErrorCode
  pub exists : Bytes → Bool
  pub contents : Bytes → Option Bytes
