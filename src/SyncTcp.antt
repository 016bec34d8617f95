-- ===== src/SyncTcp.antt =====
-- asiolib/tcp-client-sync.hpp and `ServiceFake` of asiolib/tcp-server-sync.hpp: the request of the
-- synchronous client and its service, over the calls of a connected socket.
pub mod Exchange
pub mod Client
mod Tests
use boost_asio_samples.Base.{ℕ, [], ◌∷◌, ◌++◌, Bytes, codes}
use boost_asio_samples.Decimal.{to_string}
use boost_asio_samples.Stream.{open_stream, getline}
use boost_asio_samples.IoBuffers.Calls.{Socket, Action, pure, call, ◌>>=◌, ◌>>◌}

abbrev pub request_line : ℕ → Bytes
request_line duration_sec = codes "EMULATE_LONG_COMP_OP " ++ to_string duration_sec

-- The request, with its line end.
abbrev pub request_bytes : ℕ → Bytes
request_bytes duration_sec = request_line duration_sec ++ b'\n' ∷ []

-- What the service answers to a line.
abbrev pub answer : Bytes → Bytes → Bytes
answer task output = task ++ (output ++ b'\n' ∷ [])

module _ (k : Socket) where
  unfoldable pub send_request : Bytes → Action k.State ℕ
  send_request request = call (k.write request)

  -- The first line of what `read_until` has read; the stream buffer is local.
  unfoldable pub receive_response : Action k.State Bytes
  receive_response = do b ← call (k.read_until b'\n'); pure (getline b'\n' [] (open_stream b)).0

  -- `SyncTCPClient::EmulateLongComputationOp`
  unfoldable pub emulate_long_comp_op : ℕ → Action k.State Bytes
  unfolding send_request receive_response
  emulate_long_comp_op duration_sec = do send_request (request_bytes duration_sec); receive_response

  -- `ServiceFake::HandleRequest`; the calculation and the pause change nothing.
  unfoldable pub handle_request : Bytes → Action k.State ℕ
  handle_request task = do
    b ← call (k.read_until b'\n')
    call (k.write (answer task (getline b'\n' [] (open_stream b)).0))
