-- ===== src/TcpClient/Steps.antt =====
-- asiolib/tcp-client-async.hpp: what may happen to a client, in any order: a thread begins a request
-- or cancels one, and the `io_context` completes an operation that waits, with any result.
use boost_asio_samples.Base.{ℕ, Option, List, ◌∷◌, ◌++◌, ◌≡◌, Bytes}
use boost_asio_samples.Errors.{ErrorCode, AsioError}
use boost_asio_samples.TcpClient.Sessions.{AsyncTcpClient, Op, connect, write, read_until}
use boost_asio_samples.TcpClient.{
  emulate_long_computation_op, cancel_request, on_connected, on_written, on_response,
}

module _ (asio : AsioError) where
  -- The handler of an operation that ended with `ec`, a read with `bytes`.
  unfoldable pub handle : Op → ErrorCode → Bytes → AsyncTcpClient → AsyncTcpClient
  handle (connect a) ec bytes c = on_connected asio ec a c
  handle (write a) ec bytes c = on_written asio ec a c
  handle (read_until a) ec bytes c = on_response asio ec bytes a c

  pub data Step (c d : AsyncTcpClient) : Type 0 where
    begin :
        (thrown : Option ErrorCode) (duration_sec : ℕ) (ip : Bytes) (port callback request_id : ℕ)
        → d ≡ emulate_long_computation_op thrown duration_sec ip port callback request_id c
        → Step c d
    cancel : (request_id : ℕ) → d ≡ cancel_request request_id c → Step c d
    complete :
        (pre post : List Op) (op : Op) (ec : ErrorCode) (bytes : Bytes)
        → c.pending ≡ pre ++ op ∷ post
        → d ≡ handle op ec bytes (record c { pending = pre ++ post })
        → Step c d

  pub data Run (c : AsyncTcpClient) : AsyncTcpClient → Type 0 where
    here : Run c c
    next : {d e : AsyncTcpClient} → Run c d → Step d e → Run c e
