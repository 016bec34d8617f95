-- ===== src/Scenarios/Bodies.antt =====
-- The tests of basics that start a server: tcp-client-server-sync.cpp and http-server-client.cpp.
use boost_asio_samples.Base.{
  ℕ, ◌≡◌, ◌↔◌, refl, Bool, false, Option, none, some, List, [], ◌∷◌, Bytes, codes, bytes_eq,
}
use boost_asio_samples.IoBuffers.Calls.{Socket, runtime_error, done}
use boost_asio_samples.Setup.Tried.{Tried as Attempt, returns, throws, System}
use boost_asio_samples.Setup.{unset, value, failure, Ended, finished, escaped, run_server}
use boost_asio_samples.Setup.Clients.{run_client}
use boost_asio_samples.TcpClient.Sessions.{AsyncTcpClient}
use boost_asio_samples.TcpClient.{emulate_long_computation_op}
use boost_asio_samples.SyncTcp.Client.{
  ClientCalls, BlockEnd, responded, left_by, not_constructed, terminated, never_ends, use_client,
}
use boost_asio_samples.SyncServer.Acceptors.{Acceptor}
use boost_asio_samples.SyncServer.{
  Program, Event, start, stop, join, run, other, idle, running, new_server, run_all, step,
  start_thread, stop_thread, join_thread, run_thread,
}
use boost_asio_samples.Scenarios.Report.{Report}

-- What a block with a client adds to the report: nothing follows where the program has ended.
abbrev pub client_check : {S : Type 0} → Bytes → BlockEnd S → Option Report
client_check expected (responded b s) = some (returns (bytes_eq expected b ∷ []))
client_check expected (left_by x s) = some (throws x)
client_check expected (not_constructed x) = some (throws x)
client_check expected (terminated x) = none
client_check expected never_ends = none

-- The server at the end of a test, and what its two clients add to the report.
pub record SyncTest (T : Acceptor) : Type 0 where
  pub server : Program T
  pub first : Option Report
  pub second : Option Report

-- `Start`; the thread serves the first client, for whose response the test waits, and comes to its next
-- `Accept` in the time that the test sleeps; `Stop`; the second client; the thread ends, and `Stop`
-- returns.
abbrev pub sequential_events : List Event
sequential_events = start ∷ run ∷ run ∷ run ∷ stop ∷ run ∷ run ∷ join ∷ []

-- The same, where a detached thread answers each client.
abbrev pub parallel_events : List Event
parallel_events = start ∷ run ∷ run ∷ other 0 ∷ run ∷ stop ∷ run ∷ other 0 ∷ run ∷ join ∷ []

-- The clients use a socket of their own each.
module _ (sys : System) {k : Socket} (first second : ClientCalls k) {T : Acceptor} where
  unfoldable pub tcp_server_client_sync : Program T → SyncTest T
  tcp_server_client_sync server = record {
    server = run_all sequential_events server;
    first =
        client_check (codes "Task is done: EMULATE_LONG_COMP_OP 10")
          (use_client sys k first (codes "127.0.0.1") 6969 10);
    second =
        client_check (codes "Task is done: EMULATE_LONG_COMP_OP 20")
          (use_client sys k second (codes "127.0.0.1") 6969 20);
  }

  unfoldable pub tcp_parallel_server_client_sync : Program T → SyncTest T
  tcp_parallel_server_client_sync server = record {
    server = run_all parallel_events server;
    first =
        client_check (codes "Task will be done: EMULATE_LONG_COMP_OP 10")
          (use_client sys k first (codes "127.0.0.1") 6969 10);
    second =
        client_check (codes "Task will be done: EMULATE_LONG_COMP_OP 20")
          (use_client sys k second (codes "127.0.0.1") 6969 20);
  }

-- Where the acceptor accepts twice, the test tcp_server_client_sync leaves a server that was stopped and
-- has served both clients, with no thread left.
pub sync_test_ends :
    (T : Acceptor) (s t u : T.State)
    → T.accept s ≡ done tt t
    → T.accept t ≡ done tt u
    → run_all {T = T} sequential_events (running idle (new_server s))
      ≡ running idle (record (new_server {T = T} u) { live_flag = false })
unfolding run_all step start_thread stop_thread join_thread run_thread
sync_test_ends T s t u e e' = rw (e, e') refl

-- An exception that leaves the thread of the client ends the program.
abbrev client_done : Attempt (Option Bytes) → Option Report
client_done (returns printed) = some (returns [])
client_done (throws x) = none

-- The test waits for the promise of the server before it starts the client. What leaves the server's
-- thread ends the program, and a promise that is never set is waited for with no end.
abbrev server_done : Ended Bool → Option Report → Option Report
server_done (escaped p) client = none
server_done (finished unset) client = none
server_done (finished (value b)) client = client
server_done (finished (failure what)) client = some (throws (runtime_error what))

unfoldable pub run_server_run_client : System → Option Report
run_server_run_client sys =
    server_done (run_server sys 10 19871) (client_done (run_client sys (codes "127.0.0.1") 19871))

-- The request of the test tcp_client_server_async.
unfoldable pub async_request : (port callback : ℕ) → AsyncTcpClient → AsyncTcpClient
async_request port callback client =
    emulate_long_computation_op none 12 (codes "127.0.0.1") port callback 1 client

both_done :
    (e : Ended Bool) (o : Option Report)
    → (server_done e o ≡ some (returns []))
      ↔ (((b : Bool) × (e ≡ finished (value b))) × (o ≡ some (returns [])))
both_done (escaped p) o = ((λ h. absurd (cc)), λ h. (let k = h.0.1 in absurd (cc)))
both_done (finished unset) o = ((λ h. absurd (cc)), λ h. (let k = h.0.1 in absurd (cc)))
both_done (finished (value b)) o = ((λ h. ((b, refl), h)), λ h. h.1)
both_done (finished (failure w)) o = ((λ h. absurd (cc)), λ h. (let k = h.0.1 in absurd (cc)))

-- The test runServer_runClient succeeds exactly where the server accepts and nothing leaves the client's
-- thread; what `RunClient` catches and prints does not show.
pub run_server_run_client_passes :
    (sys : System)
    → (run_server_run_client sys ≡ some (returns [])) ↔ (
        ((b : Bool) × (run_server sys 10 19871 ≡ finished (value b)))
        × (client_done (run_client sys (codes "127.0.0.1") 19871) ≡ some (returns [])))
unfolding run_server_run_client
run_server_run_client_passes sys = both_done (run_server sys 10 19871) _
