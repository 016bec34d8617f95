-- ===== src/TcpClient/ReachingTests.antt =====
-- A run of asiolib/tcp-client-async.hpp with two requests, of which the second is cancelled.
use boost_asio_samples.Base.{
  ℕ, ◌+◌, ◌<◌, ◌≡◌, ◌==◌, refl, [], ◌∷◌, Bytes, codes, none, true, false, arith,
}
use boost_asio_samples.Errors.{success, windows}
use boost_asio_samples.Dict.{nat_eq, lookup, insert}
use boost_asio_samples.TcpClient.Sessions.{
  AsyncTcpClient, Session, connect, new_session, new_client, start,
}
use boost_asio_samples.TcpClient.{emulate_long_computation_op, cancel_request, on_connected}
use boost_asio_samples.TcpClient.Steps.{handle}
use boost_asio_samples.TcpClient.Once.{waiting}
use boost_asio_samples.TcpClient.Reaching.{
  FreshRun, none_yet, then_begin, then_complete, cancel_reaches,
}

abbrev store : ℕ → Session
store a = new_session [] 0 [] 0 0

abbrev address : Bytes
address = codes "127.0.0.1"

unfoldable first : AsyncTcpClient
first = emulate_long_computation_op none 10 address 3333 7 1 (new_client store)

unfoldable second : AsyncTcpClient
second = emulate_long_computation_op none 10 address 3334 7 2 first

-- The connection of the first is made, and its request is written.
unfoldable connected : AsyncTcpClient
connected = handle windows (connect 0) success [] (record second { pending = connect 1 ∷ [] })

free_number : lookup 2 first.active ≡ none
unfolding first emulate_long_computation_op start lookup insert
free_number = refl

both_wait : second.pending ≡ connect 0 ∷ connect 1 ∷ []
unfolding second first emulate_long_computation_op start
both_wait = refl

second_waits : 0 < waiting 1 connected.pending
unfolding connected second first emulate_long_computation_op start handle on_connected
second_waits = omega arith

reached : FreshRun windows (new_client store) connected
unfolding connected second first lookup
reached =
    then_complete [] (connect 1 ∷ []) (connect 0) success []
      (then_begin none 10 address 3334 7 2 (then_begin none 10 address 3333 7 1 none_yet refl refl)
        free_number refl)
      both_wait refl

cancel_reaches_example :
    let d = cancel_request (connected.sessions 1).id connected in
    ((d.sessions 1).was_cancelled ≡ true)
    × ((d.sessions 1).cancels ≡ (connected.sessions 1).cancels + 1)
    × ((b : ℕ) → (b == 1) ≡ false → d.sessions b ≡ connected.sessions b)
cancel_reaches_example = cancel_reaches windows store connected 1 reached second_waits
