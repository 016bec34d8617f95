-- ===== src/TcpServer/Steps.antt =====
-- asiolib/tcp-server-async.hpp: what may happen to an acceptor, in any order: an operation completes
-- with any result, or another thread stops it.
use boost_asio_samples.Base.{List, ◌∷◌, ◌++◌, ◌≡◌, Bytes}
use boost_asio_samples.Errors.{ErrorCode}
use boost_asio_samples.TcpServer.Connections.{AsyncAcceptor, Op, accept, read_until, write}
use boost_asio_samples.TcpServer.{on_accept, recieve_request, send_answer, stop}

-- The handler of an operation that ended with `ec`, a read with `bytes`.
unfoldable pub handle : Op → ErrorCode → Bytes → AsyncAcceptor → AsyncAcceptor
handle accept ec bytes c = on_accept ec c
handle (read_until a) ec bytes c = recieve_request ec bytes a c
handle (write a b) ec bytes c = send_answer ec a c

pub data Step (c d : AsyncAcceptor) : Type 0 where
  stopping : d ≡ stop c → Step c d
  complete :
      (pre post : List Op) (op : Op) (ec : ErrorCode) (bytes : Bytes)
      → c.pending ≡ pre ++ op ∷ post
      → d ≡ handle op ec bytes (record c { pending = pre ++ post })
      → Step c d

pub data Run (c : AsyncAcceptor) : AsyncAcceptor → Type 0 where
  here : Run c c
  next : {d e : AsyncAcceptor} → Run c d → Step d e → Run c e
