-- ===== src/Scenarios/Ends.antt =====
-- basics/server-client.cpp: the tests that write and read at both ends of a connection, on one thread.
use boost_asio_samples.Base.{
  ℕ, zero, suc, Bool, true, false, List, [], ◌∷◌, Bytes, codes, length, bytes_eq, ◌==◌,
}
use boost_asio_samples.IoBuffers.Calls.{Socket, Action, Outcome, done, threw, endless, pure, ◌>>=◌}
use boost_asio_samples.IoBuffers.{
  write_to_socket, write_to_socket_in_single_call, read_from_socket,
  read_from_socket_in_single_call, read_from_socket_by_delimiter,
}

-- `std::string(n, c)`
unfoldable pub repeated : ℕ → ℕ → Bytes
repeated zero c = []
repeated (suc n) c = c ∷ repeated n c

-- `EXPECT_NO_THROW` of a call, whose result it drops.
abbrev pub unthrown : {S A : Type 0} → Outcome S A → Outcome S Bool
unthrown (done a t) = done true t
unthrown (threw x t) = done false t
unthrown endless = endless

module _ {S C A : Type 0} where
  -- A call at one end leaves the other as it is.
  abbrev pub beside : C → Outcome S A → Outcome (S × C) A
  beside c (done a t) = done a (t, c)
  beside c (threw x t) = threw x (t, c)
  beside c endless = endless

  abbrev pub behind : S → Outcome C A → Outcome (S × C) A
  behind s (done a t) = done a (s, t)
  behind s (threw x t) = threw x (s, t)
  behind s endless = endless

  abbrev pub at_first : Action S A → Action (S × C) A
  at_first m (s, c) = beside c (m s)

  abbrev pub at_second : Action C A → Action (S × C) A
  at_second m (s, c) = behind s (m c)

module _ (server client : Socket) where
  abbrev pub Both : Type 0
  Both = server.State × client.State

  -- The four checks of write_read_some, of a message of any size.
  unfoldable pub write_read : Bytes → Action Both (List Bool)
  write_read msg = do
    first ← at_first (λ s. unthrown (write_to_socket server msg s))
    second ← at_second (λ c. unthrown (write_to_socket client msg c))
    res ← at_first (read_from_socket server (length msg))
    res' ← at_second (read_from_socket client (length msg))
    pure (first ∷ second ∷ bytes_eq msg res ∷ bytes_eq msg res' ∷ [])

  unfoldable pub write_read_some : Action Both (List Bool)
  write_read_some = write_read (repeated 1024 b'a')

  unfoldable pub asio_read_write : Action Both (List Bool)
  asio_read_write =
      let msg = repeated 1024 b'b' in
      do
        written ← at_first (write_to_socket_in_single_call server msg)
        written' ← at_second (write_to_socket_in_single_call client msg)
        res ← at_first (read_from_socket_in_single_call server 1024)
        res' ← at_second (read_from_socket_in_single_call client 1024)
        pure ((1024 == written) ∷ (1024 == written') ∷ bytes_eq msg res ∷ bytes_eq msg res' ∷ [])

  -- The part of asio_read_until before its asynchronous writes.
  unfoldable pub asio_read_until : Action Both (List Bool)
  asio_read_until =
      let msg = codes "abcdef@ghijk" in
      let target = codes "abcdef" in
      do
        written ← at_first (write_to_socket_in_single_call server msg)
        written' ← at_second (write_to_socket_in_single_call client msg)
        res ← at_first (read_from_socket_by_delimiter server b'@')
        res' ← at_second (read_from_socket_by_delimiter client b'@')
        pure (
            (length msg == written)
            ∷ (length msg == written')
            ∷ bytes_eq target res
            ∷ bytes_eq target res'
            ∷ [])
