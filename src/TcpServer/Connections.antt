-- ===== src/TcpServer/Connections.antt =====
-- asiolib/tcp-server-async.hpp: the members of `AsyncAcceptor` and of the services that it makes, one
-- for each connection. A service deletes itself, so it stands in a store by the number of its connection.
use boost_asio_samples.Base.{ℕ, Bool, false, List, [], ◌∷◌, ◌++◌, Bytes, ◌==◌, if◌then◌else◌}

-- `ServiceFakeAsync`. `deletes` counts the calls of `delete this`.
pub record ServiceFakeAsync : Type 0 where
  pub buffer : Bytes
  pub response : Bytes
  pub deletes : ℕ

-- `accept` is `async_accept`; the others name the service that their handlers belong to.
pub data Op : Type 0 where
  accept : Op
  read_until : ℕ → Op
  write : ℕ → Bytes → Op

-- `closes` counts the calls of `acceptor_.close()`; `next` is the number of the next connection.
pub record AsyncAcceptor : Type 0 where
  pub stop_flag : Bool
  pub closes : ℕ
  pub services : ℕ → ServiceFakeAsync
  pub next : ℕ
  pub pending : List Op

abbrev pub new_service : ServiceFakeAsync
new_service = record { buffer = []; response = []; deletes = 0 }

abbrev pub new_acceptor : AsyncAcceptor
new_acceptor = record {
  stop_flag = false;
  closes = 0;
  services = λ a. new_service;
  next = 0;
  pending = [];
}

abbrev pub put : ℕ → ServiceFakeAsync → AsyncAcceptor → AsyncAcceptor
put a s c = record c { services = λ b. if b == a then s else c.services b }

unfoldable pub start : Op → AsyncAcceptor → AsyncAcceptor
start op c = record c { pending = c.pending ++ op ∷ [] }
