-- ===== src/IoBuffers.antt =====
-- asiolib/io_buffers.hpp: the loops over `write_some` and `read_some`, the reads by one call and by
-- a delimiter, and one request with its reply. The overloads for a socket and for a shared pointer
-- to one run the same statements and are one definition.
pub mod Calls
pub mod Wire
pub mod Writing
pub mod Reading
pub mod Replies
pub mod Bounds
pub mod Conversation
mod Tests
use boost_asio_samples.Base.{
  ℕ, zero, suc, ◌+◌, ◌-◌, Bool, true, false, not, ◌++◌, Bytes, codes, length, take, drop, ◌==◌,
  if◌then◌else◌, inl, inr, [], ◌∷◌,
}
use boost_asio_samples.Errors.{ErrorCode, error_code_eq, AsioError}
use boost_asio_samples.Stream.{open_stream, getline}
use Calls.{
  failed_with, returned, Socket, Action, done, threw, endless, system_error, pure, call, rethrow,
  ◌>>=◌, ◌>>◌,
}

-- `std::string(n, ' ')`
abbrev pub spaces : ℕ → Bytes
spaces zero = []
spaces (suc n) = b' ' ∷ spaces n

-- The buffer `buf` once `b` was read into it behind its first `total` bytes.
abbrev pub store : Bytes → ℕ → Bytes → Bytes
store buf total b = take total buf ++ (b ++ drop (total + length b) buf)

module _ (k : Socket) where
  abbrev pub write_failed : ErrorCode → Bytes
  write_failed e =
      codes "Failed to write to socket. Error code = " ++ (codes ". Message: " ++ k.what e)

  abbrev pub read_failed : ErrorCode → Bytes
  read_failed e =
      codes "Failed to read to socket. Error code = " ++ (codes ". Message: " ++ k.what e)

  -- The loop of `WriteToSocket`, after `total` bytes of `buffer`, in `n` rounds.
  unfoldable pub write_rest : ℕ → ℕ → Bytes → Action k.State (Unit {0})
  write_rest zero total buffer s = endless
  write_rest (suc n) total buffer s =
      if total == length buffer then done tt s else elim (k.write_some (drop total buffer) s) [
        | failed_with e t ↦ threw (system_error e) t
        | returned m t ↦ write_rest n (total + m) buffer t
      ]

  unfoldable pub write_to_socket : Bytes → Action k.State (Unit {0})
  write_to_socket buffer = rethrow write_failed (write_rest (length buffer + 1) 0 buffer)

  unfoldable pub write_to_socket_in_single_call : Bytes → Action k.State ℕ
  write_to_socket_in_single_call buffer = rethrow write_failed (call (k.write buffer))

  -- The loop of `ReadFromSocket`, with `total` bytes of `size` in the buffer, in `n` rounds.
  unfoldable pub read_rest : ℕ → ℕ → ℕ → Bytes → Action k.State Bytes
  read_rest zero size total buffer s = endless
  read_rest (suc n) size total buffer s =
      if total == size then done buffer s else elim (k.read_some (size - total) s) [
        | failed_with e t ↦ threw (system_error e) t
        | returned b t ↦ read_rest n size (total + length b) (store buffer total b) t
      ]

  unfoldable pub read_from_socket : ℕ → Action k.State Bytes
  read_from_socket size = rethrow read_failed (read_rest (size + 1) size 0 (spaces size))

  unfoldable pub read_from_socket_in_single_call : ℕ → Action k.State Bytes
  read_from_socket_in_single_call size =
      rethrow read_failed do b ← call (k.read size); pure (store (spaces size) 0 b)

  -- The stream buffer is local: what was read behind the delimiter goes with it.
  unfoldable pub read_from_socket_by_delimiter : ℕ → Action k.State Bytes
  read_from_socket_by_delimiter delimiter =
      rethrow read_failed
        do b ← call (k.read_until delimiter); pure (getline delimiter [] (open_stream b)).0

module _ (asio : AsioError) (k : Socket) where
  abbrev pub first_line : Bytes → Bytes
  first_line b = (getline b'\n' [] (open_stream b)).0

  -- `asio::read(*sock, …, ec)`, and the exception where the code is not the end of the stream.
  unfoldable pub read_to_eof : Action k.State Bytes
  read_to_eof s =
      let r = k.read_to_end s in
      if error_code_eq r.0.0 asio.eof then done r.0.1 r.1 else threw (system_error r.0.0) r.1

  unfoldable pub send_request_and_get_replay : Bytes → Action k.State Bytes
  send_request_and_get_replay buffer = do
    call (k.write buffer)
    call k.shutdown_send
    response ← read_to_eof
    pure (first_line response)

  unfoldable pub get_request_and_send_replay : Bytes → Action k.State Bytes
  get_request_and_send_replay buffer = do
    request ← read_to_eof
    call (k.write buffer)
    call k.shutdown_send
    pure (first_line request)
