-- ===== src/TcpClient/ClosingTests.antt =====
-- A client with one thread and one request that is closed while the request still waits.
use boost_asio_samples.Base.{ℕ, ◌≡◌, refl, List, [], ◌∷◌, codes, none, Bool, true, false, arith}
use boost_asio_samples.Errors.{windows}
use boost_asio_samples.TcpClient.Sessions.{
  AsyncTcpClient, Session, connect, new_session, new_client, start,
}
use boost_asio_samples.TcpClient.{
  emulate_long_computation_op, on_connected, on_request_complete, fail_request, number_of_threads,
}
use boost_asio_samples.TcpClient.Steps.{handle}
use boost_asio_samples.TcpClient.Once.{called}
use boost_asio_samples.TcpClient.Closing.{
  Thread, joined, Threaded, create, close, join_next, begins, closes, joins, completes, leaves,
  Schedule, at_start, later, closed_called_once,
}

abbrev store : ℕ → Session
store a = new_session [] 0 [] 0 0

unfoldable begun : AsyncTcpClient
begun = emulate_long_computation_op none 10 (codes "127.0.0.1") 3333 7 1 (new_client store)

unfoldable failed_client : AsyncTcpClient
failed_client = handle windows (connect 0) windows.eof [] (record begun { pending = [] })

begun_waits : begun.pending ≡ connect 0 ∷ []
unfolding begun emulate_long_computation_op start
begun_waits = refl

failed_waits : failed_client.pending ≡ []
unfolding failed_client begun emulate_long_computation_op start handle on_connected fail_request
    on_request_complete
failed_waits = refl

abbrev with_threads : AsyncTcpClient → List Thread → Bool → Bool → Threaded
with_threads c ts w k = record { client = c; work = w; threads = ts; closing = k }

closes_after_failure :
    Schedule windows (create 1 8 store) (with_threads failed_client (joined ∷ []) false true)
unfolding create number_of_threads begun failed_client close join_next
closes_after_failure =
    later
      (later
        (later
          (later (later at_start (begins none 10 (codes "127.0.0.1") 3333 7 1 refl refl))
            (closes refl refl))
          (completes [] [] [] [] (connect 0) windows.eof [] [] refl begun_waits refl))
        (leaves [] [] refl refl failed_waits refl))
      (joins refl refl)

closed_called_once_example : (failed_client.pending ≡ []) × (called 0 failed_client.calls ≡ 1)
unfolding number_of_threads failed_client begun emulate_long_computation_op start handle
    on_connected fail_request on_request_complete
closed_called_once_example =
    closed_called_once windows store 1 8 0 (with_threads failed_client (joined ∷ []) false true)
      (omega arith) closes_after_failure (refl, tt) (omega arith)
