-- ===== src/TcpClient/OrderTests.antt =====
-- Threads and handlers of asiolib/tcp-client-async.hpp in one order and in the other.
use boost_asio_samples.Base.{
  ℕ, zero, suc, ◌+◌, ◌≡◌, ◌≢◌, ◌⊎◌, refl, List, [], ◌∷◌, Bytes, codes, length, none, some, arith,
}
use mathlib.Core.List.{map}
use boost_asio_samples.Errors.{success, windows}
use boost_asio_samples.TcpClient.Sessions.{
  AsyncTcpClient, Session, connect, new_session, new_client,
}
use boost_asio_samples.TcpClient.{emulate_long_computation_op}
use boost_asio_samples.TcpClient.Sessions.{start}
use boost_asio_samples.TcpClient.Steps.{handle, complete, Run, here, next}
use boost_asio_samples.TcpClient.Locks.{
  active_sessions_guard, cancel_guard, acquire, release, Threads, run, step, act,
}
use boost_asio_samples.TcpClient.LockOrder.{
  Part, cancelled, cancelling, editing, going_on, locks_of,
}
use boost_asio_samples.TcpClient.ThreadSteps.{get_elem?, remaining, CanStep}
use boost_asio_samples.TcpClient.Sharing.{all_begin}
use boost_asio_samples.TcpClient.Unblocked.{parts_end}
use boost_asio_samples.TcpClient.Seen.{seen, Life}
use boost_asio_samples.TcpClient.Interference.{run_lives}
use boost_asio_samples.TcpClient.Commuting.{view, handlers_comm}

abbrev threads : List Part
threads = cancelled 1 ∷ cancelling 2 ∷ going_on 2 ∷ editing ∷ []

-- The first two threads have taken their first locks.
abbrev two_locks : Threads
two_locks = record {
  programs =
      (acquire active_sessions_guard
        ∷ release active_sessions_guard
        ∷ release (cancel_guard 1)
        ∷ [])
      ∷ (acquire (cancel_guard 2) ∷ release (cancel_guard 2) ∷ release active_sessions_guard ∷ [])
      ∷ locks_of (going_on 2)
      ∷ locks_of editing
      ∷ [];
  held = active_sessions_guard ∷ cancel_guard 1 ∷ [];
}

apart :
    (i j a : ℕ)
    → get_elem? threads i ≡ some (cancelled a)
    → get_elem? threads j ≢ some (cancelling a)
apart zero zero a h e = cc
apart zero (suc zero) a h e = let same : ◌≡◌ {A = ℕ} 1 2 = cc in absurd (omega arith)
apart zero (suc (suc zero)) a h e = cc
apart zero (suc (suc (suc zero))) a h e = cc
apart zero (suc (suc (suc (suc j)))) a h e = cc
apart (suc zero) j a h e = cc
apart (suc (suc zero)) j a h e = cc
apart (suc (suc (suc zero))) j a h e = cc
apart (suc (suc (suc (suc i)))) j a h e = cc

reached : run (0 ∷ 1 ∷ []) (some (all_begin threads)) ≡ some two_locks
unfolding run step act
reached = refl

parts_end_example :
    (length {A = ℕ} (0 ∷ 1 ∷ []) + remaining two_locks.programs ≡ remaining (map locks_of threads))
    × ((remaining two_locks.programs ≡ 0) ⊎ CanStep two_locks)
parts_end_example = parts_end threads (0 ∷ 1 ∷ []) two_locks apart reached

abbrev store : ℕ → Session
store a = new_session [] 0 [] 0 0

abbrev address : Bytes
address = codes "127.0.0.1"

-- Both requests were begun, and the connections of both are made.
abbrev two_requests : AsyncTcpClient
two_requests =
    record (emulate_long_computation_op none 20 address 3334 7 2
      (emulate_long_computation_op none 10 address 3333 7 1 (new_client store))) { pending = [] }

handlers_comm_example :
    view (
      handle windows
        (connect 1)
        success
        []
        (handle windows (connect 0) windows.eof [] two_requests))
    ≡ view (
        handle windows
          (connect 0)
          windows.eof
          []
          (handle windows (connect 1) success [] two_requests))
handlers_comm_example =
    handlers_comm windows (connect 0) (connect 1) windows.eof success [] [] two_requests refl

unfoldable both_wait : AsyncTcpClient
both_wait = record two_requests { pending = connect 0 ∷ connect 1 ∷ [] }

unfoldable one_fails : AsyncTcpClient
one_fails =
    handle windows (connect 1) windows.eof [] (record both_wait { pending = connect 0 ∷ [] })

one_failed : Run windows both_wait one_fails
unfolding both_wait one_fails
one_failed = next here (complete (connect 0 ∷ []) [] (connect 1) windows.eof [] refl refl)

run_lives_example : Life windows 1 (seen 1 both_wait) (seen 1 one_fails)
unfolding both_wait emulate_long_computation_op start
run_lives_example = run_lives windows 1 both_wait one_fails (omega arith) one_failed
