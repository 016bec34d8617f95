-- ===== src/HttpClient/Request.antt =====
-- asiolib/http-client-async.hpp: the response and the request object. What the object does to its
-- surroundings is kept beside its fields: the operations it has started and that have not
-- completed, the calls of the user's callback, and how a handler ended that did not return.
use boost_asio_samples.Base.{
  ℕ, Bool, true, false, Option, none, some, List, [], ◌∷◌, ◌++◌, Bytes, if◌then◌else◌,
}
use boost_asio_samples.Dict.{Dict}
use boost_asio_samples.Errors.{ErrorCode}

pub record HttpResponse : Type 0 where
  pub status_code : ℕ
  pub status_message : Bytes
  pub response_buf : Bytes
  pub headers : Dict Bytes Bytes

-- The handler that a read with a delimiter is given.
pub data Handler : Type 0 where
  status_line_received headers_received : Handler

-- An operation that a handler started.
pub data Op : Type 0 where
  resolve : Bytes → Bytes → Op
  connect : Op
  write : Bytes → Op
  read_until : Bytes → Handler → Op
  read_all : Op

-- One call of the callback: which function, and what it was given.
pub record Call : Type 0 where
  pub callback : ℕ
  pub response : HttpResponse
  pub ec : ErrorCode

-- `escaped`: an exception left the handler. `hung`: a loop of it does not end.
pub data Fate : Type 0 where
  running : Fate
  assertion_failed : Fate
  null_call : Fate
  escaped : ErrorCode → Fate
  hung : Fate

-- What `cancel` asked of the resolver and of the socket.
pub data Abort : Type 0 where
  abort_resolver abort_socket : Abort

pub record HttpRequest : Type 0 where
  pub uri : Bytes
  pub id : ℕ
  pub callback : Option ℕ
  pub host : Bytes
  pub port : ℕ
  pub was_cancelled : Bool
  pub response : HttpResponse
  pub request_buf : Bytes
  pub pending : List Op
  pub calls : List Call
  pub aborts : List Abort
  pub fate : Fate

abbrev pub default_port : ℕ
default_port = 80

abbrev pub new_response : HttpResponse
new_response = record { status_code = 0; status_message = []; response_buf = []; headers = [] }

-- `HTTPClient::create_request`
unfoldable pub create_request : ℕ → HttpRequest
create_request id = record {
  uri = [];
  id = id;
  callback = none;
  host = [];
  port = default_port;
  was_cancelled = false;
  response = new_response;
  request_buf = [];
  pending = [];
  calls = [];
  aborts = [];
  fate = Fate.running;
}

abbrev pub set_host : Bytes → HttpRequest → HttpRequest
set_host host r = record r { host = host }

abbrev pub set_port : ℕ → HttpRequest → HttpRequest
set_port port r = record r { port = port }

abbrev pub set_uri : Bytes → HttpRequest → HttpRequest
set_uri uri r = record r { uri = uri }

abbrev pub set_callback : ℕ → HttpRequest → HttpRequest
set_callback callback r = record r { callback = some callback }

unfoldable pub start : Op → HttpRequest → HttpRequest
start op r = record r { pending = r.pending ++ op ∷ [] }

unfoldable pub call_back : Option ℕ → ErrorCode → HttpRequest → HttpRequest
call_back none ec r = record r { fate = null_call }
call_back (some f) ec r = record r {
  calls = r.calls ++ record { callback = f; response = r.response; ec = ec } ∷ [];
}

unfoldable pub on_finish : ErrorCode → HttpRequest → HttpRequest
unfolding call_back
on_finish ec r = call_back r.callback ec r

abbrev pub is_null : Option ℕ → Bool
is_null none = true
is_null (some f) = false

unfoldable pub set_buffer : Bytes → HttpRequest → HttpRequest
set_buffer b r = record r { response = record r.response { response_buf = b } }

-- `cancel`; `is_open` is what the socket says of itself.
unfoldable pub cancel : Bool → HttpRequest → HttpRequest
cancel is_open r = record r {
  was_cancelled = true;
  aborts = r.aborts ++ abort_resolver ∷ (if is_open then abort_socket ∷ [] else []);
}
