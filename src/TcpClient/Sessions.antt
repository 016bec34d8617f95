-- ===== src/TcpClient/Sessions.antt =====
-- asiolib/tcp-client-async.hpp: `Session` and the members of `AsyncTCPClient`. Sessions are shared
-- between the map of the client and the handlers that wait, so they stand in a store by address.
use boost_asio_samples.Base.{ℕ, Bool, false, List, [], ◌∷◌, ◌++◌, Bytes, ◌==◌, if◌then◌else◌}
use boost_asio_samples.Dict.{Dict}
use boost_asio_samples.Errors.{ErrorCode, success}

-- `struct Session`. `cancels` counts the calls of `m_sock.cancel()`; `port` and `ip` are `m_ep`.
pub record Session : Type 0 where
  pub ip : Bytes
  pub port : ℕ
  pub request : Bytes
  pub response : Bytes
  pub response_buf : Bytes
  pub ec : ErrorCode
  pub id : ℕ
  pub callback : ℕ
  pub was_cancelled : Bool
  pub cancels : ℕ

-- The operations, each with the session that its handler captures.
pub data Op : Type 0 where
  connect write read_until : ℕ → Op

-- One call of a callback: for which session, and what it is given.
pub record Call : Type 0 where
  pub session : ℕ
  pub callback : ℕ
  pub request_id : ℕ
  pub response : Bytes
  pub ec : ErrorCode

-- `sessions` is the store, `next` the address of the next session. `active` is `m_active_sessions`.
pub record AsyncTcpClient : Type 0 where
  pub sessions : ℕ → Session
  pub next : ℕ
  pub active : Dict ℕ ℕ
  pub pending : List Op
  pub calls : List Call

-- `Session::Session`
abbrev pub new_session : Bytes → ℕ → Bytes → ℕ → ℕ → Session
new_session ip port request id callback = record {
  ip = ip;
  port = port;
  request = request;
  response = [];
  response_buf = [];
  ec = success;
  id = id;
  callback = callback;
  was_cancelled = false;
  cancels = 0;
}

abbrev pub new_client : (ℕ → Session) → AsyncTcpClient
new_client store = record { sessions = store; next = 0; active = []; pending = []; calls = [] }

-- Writing to the session at an address.
abbrev pub put : ℕ → Session → AsyncTcpClient → AsyncTcpClient
put a s c = record c { sessions = λ b. if b == a then s else c.sessions b }

unfoldable pub start : Op → AsyncTcpClient → AsyncTcpClient
start op c = record c { pending = c.pending ++ op ∷ [] }
