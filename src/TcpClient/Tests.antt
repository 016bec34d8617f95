-- ===== src/TcpClient/Tests.antt =====
-- Runs of asiolib/tcp-client-async.hpp, and what `handler` prints.
use boost_asio_samples.Base.{
  ℕ, ◌+◌, ◌<◌, ◌≡◌, refl, List, [], ◌∷◌, ◌++◌, Bytes, codes, none, some, true, arith,
}
use boost_asio_samples.Errors.{success, windows}
use native.Mathlib.Decide.{dec_lt}
use boost_asio_samples.Base.{lt_wf}
use boost_asio_samples.Decimal.{to_string}
use boost_asio_samples.Dict.{lookup, nat_eq, insert}
use boost_asio_samples.TcpClient.Sessions.{
  AsyncTcpClient, Session, connect, Call, new_session, new_client, start,
}
use boost_asio_samples.TcpClient.{
  emulate_long_computation_op, cancel_request, cancel_session, on_connected, on_request_complete,
  handler_text, number_of_threads,
}
use boost_asio_samples.TcpClient.Steps.{handle, begin, cancel, complete, Run, here, next}
use boost_asio_samples.TcpClient.Once.{waiting, called, one_callback}
use boost_asio_samples.TcpClient.Cancelled.{NoSuccess, cancelled-NoSuccess}
use boost_asio_samples.TcpClient.Locks
use boost_asio_samples.TcpClient.Reuse.{reused_number_not_cancelled}

abbrev store : ℕ → Session
store a = new_session [] 0 [] 0 0

abbrev client : AsyncTcpClient
client = new_client store

abbrev address : Bytes
address = codes "127.0.0.1"

unfoldable begun : AsyncTcpClient
begun = emulate_long_computation_op none 10 address 3333 7 1 client

unfoldable cancelled : AsyncTcpClient
cancelled = cancel_request 1 begun

unfoldable completed : AsyncTcpClient
completed = handle windows (connect 0) success [] (record cancelled { pending = [] })

waits : cancelled.pending ≡ connect 0 ∷ []
unfolding cancelled begun cancel_request emulate_long_computation_op cancel_session start lookup
    insert
waits = refl

is_cancelled : (cancelled.sessions 0).was_cancelled ≡ true
unfolding cancelled begun cancel_request emulate_long_computation_op cancel_session start lookup
    insert
is_cancelled = refl

two_sessions : 0 < cancelled.next
unfolding cancelled begun cancel_request emulate_long_computation_op cancel_session start lookup
    insert
two_sessions = omega arith

reaches_cancelled : Run windows client cancelled
unfolding cancelled begun
reaches_cancelled = next (next here (begin none 10 address 3333 7 1 refl)) (cancel 1 refl)

reaches_completed : Run windows cancelled completed
unfolding completed
reaches_completed = next here (complete [] [] (connect 0) success [] waits refl)

-- The callback is told that the request was cancelled.
told :
    completed.calls
    ≡ record {
      session = 0;
      callback = 7;
      request_id = 1;
      response = [];
      ec = windows.operation_aborted;
    }
      ∷ []
unfolding completed cancelled begun cancel_request emulate_long_computation_op cancel_session start
    lookup insert handle on_connected on_request_complete
told = refl

one_callback_example : waiting 0 cancelled.pending + called 0 cancelled.calls ≡ 1
unfolding cancelled begun cancel_request emulate_long_computation_op cancel_session start lookup
    insert
one_callback_example = one_callback windows store cancelled 0 reaches_cancelled

cancelled-NoSuccess_example :
    (made : List Call) × (completed.calls ≡ cancelled.calls ++ made)
    × NoSuccess 0 made
    × ((completed.sessions 0).was_cancelled ≡ true)
cancelled-NoSuccess_example =
    cancelled-NoSuccess windows 0 cancelled completed two_sessions is_cancelled reaches_completed

abbrev twice : AsyncTcpClient
twice = record client { active = (0, 1) ∷ []; next = 2; pending = connect 1 ∷ [] }

reused_number_not_cancelled_example :
    let d = handle windows (connect 0) windows.eof [] twice in
    (cancel_request 0 d ≡ d) × (d.pending ≡ twice.pending) × (d.sessions 1 ≡ twice.sessions 1)
reused_number_not_cancelled_example =
    reused_number_not_cancelled windows 0 1 (connect 0) windows.eof [] twice
      (λ e. absurd (omega (arith, e))) refl refl refl

printed :
    handler_text windows (λ e. codes "end of file") 3 (codes "OK") success
    ≡ codes "Request #3 has completed. Response: OK"
unfolding handler_text to_string lt_wf dec_lt
printed = refl

-- A machine of 256 processors gets no thread.
no_threads : number_of_threads 0 256 ≡ 0
unfolding number_of_threads
no_threads = refl

cancel_deadlocks_example :
    (Locks.run (0 ∷ 1 ∷ []) (some (Locks.begin 3)) ≡ some (Locks.locked 3))
    × ((i : ℕ) → Locks.step i (Locks.locked 3).programs (Locks.locked 3).held ≡ none)
cancel_deadlocks_example = Locks.cancel_deadlocks 3
