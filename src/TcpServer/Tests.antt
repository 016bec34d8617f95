-- ===== src/TcpServer/Tests.antt =====
-- Runs of asiolib/tcp-server-async.hpp, and the sizes of its thread pool.
use boost_asio_samples.Base.{
  ◌+◌, ◌≤◌, ◌≡◌, refl, List, [], ◌∷◌, true, false, none, some, count, codes, arith, after, before,
}
use boost_asio_samples.Errors.{success}
use boost_asio_samples.Stream.{getline}
use boost_asio_samples.TcpServer.Connections.{
  AsyncAcceptor, accept, read_until, write, new_acceptor, start,
}
use boost_asio_samples.TcpServer.{
  init, stop, serve, on_accept, process_request, recieve_request, thread_pool_size,
  default_pool_size,
}
use boost_asio_samples.TcpServer.Hosting.{
  AsyncServer, in_run, hosted, null_used, dangling, Thrown, Event, starting, leaving, joining,
  handling, new_async_server, start_server, stop_server, step, run_all, Quiet, stopped_host_silent,
}
use boost_asio_samples.TcpServer.Steps.{handle, complete, Run, here, next}
use boost_asio_samples.TcpServer.Balance.{is_accept, owned, accept-Balanced}
use boost_asio_samples.TcpServer.Stages.{own_ops}
use boost_asio_samples.TcpServer.Separate.{run_stages}
use boost_asio_samples.TcpServer.Stopping.{stopped_serves_one}

unfoldable listening : AsyncAcceptor
listening = init new_acceptor

unfoldable accepted : AsyncAcceptor
accepted = handle accept success [] (record listening { pending = [] })

waits : listening.pending ≡ accept ∷ []
unfolding listening init start
waits = refl

accepting : Run (init new_acceptor) accepted
unfolding accepted listening
accepting = next here (complete [] [] accept success [] waits refl)

accept-Balanced_example :
    (count is_accept accepted.pending + accepted.closes ≡ 1)
    × (count (owned 0) accepted.pending + (accepted.services 0).deletes ≡ 1)
unfolding accepted listening init start handle on_accept serve
accept-Balanced_example = accept-Balanced accepted 0 accepting

unfoldable stopped : AsyncAcceptor
stopped = handle accept success [] (record (stop accepted) { pending = read_until 0 ∷ [] })

stop_waits : (stop accepted).pending ≡ read_until 0 ∷ accept ∷ []
unfolding stop accepted listening init start handle on_accept serve
stop_waits = refl

stopped_serves_one_example : (stopped.stop_flag ≡ true) × (stopped.next ≤ accepted.next + 1)
unfolding stopped
stopped_serves_one_example =
    stopped_serves_one accepted stopped accepting
      (next here (complete (read_until 0 ∷ []) [] accept success [] stop_waits refl))

closed : (stopped.closes ≡ 1) × (stopped.next ≡ 2)
unfolding stopped stop accepted listening init start handle on_accept serve
closed = (refl, refl)

-- A machine whose number of processors is not known gets two threads, and so does one of 2^15.
pool_sizes :
    (thread_pool_size (default_pool_size 0) ≡ 2) × (thread_pool_size (default_pool_size 32768) ≡ 2)
unfolding thread_pool_size default_pool_size
pool_sizes = (refl, refl)

abbrev fine : Thrown
fine = record { open_error = none; listen_error = none }

-- A server with two threads, stopped and started again.
abbrev serving : AsyncServer
serving = record {
  acceptor = some new_acceptor;
  stopped = false;
  thread_pool = in_run ∷ in_run ∷ [];
}

abbrev restart : List Event
restart = leaving ∷ leaving ∷ joining ∷ joining ∷ starting fine 2 ∷ handling 0 success [] ∷ []

stopped_host_silent_example : Quiet new_acceptor (run_all restart (stop_server serving))
stopped_host_silent_example = stopped_host_silent restart serving new_acceptor refl

-- `Stop` of a server that was not started uses a null pointer.
uses_null : stop_server new_async_server ≡ null_used
unfolding stop_server
uses_null = refl

-- A second `Start` destroys an acceptor that waits for a connection.
leaves_dangling :
    run_all (starting fine 2 ∷ starting fine 2 ∷ []) (hosted new_async_server) ≡ dangling
unfolding run_all step start_server
leaves_dangling = refl

-- The first connection sent its request.
unfoldable answered : AsyncAcceptor
answered = handle (read_until 0) success (codes "ab\n") (record accepted { pending = accept ∷ [] })

accepted_waits : accepted.pending ≡ read_until 0 ∷ accept ∷ []
unfolding accepted listening init start handle on_accept serve
accepted_waits = refl

unfoldable answering : Run (init new_acceptor) answered
unfolding answered
answering =
    next accepting
      (complete [] (accept ∷ []) (read_until 0) success (codes "ab\n") accepted_waits refl)

run_stages_example :
    (own_ops 0 answered.pending ≡ write 0 (codes "request is processed!: ab\n") ∷ [])
    × ((answered.services 0).deletes ≡ 0)
unfolding answered accepted listening init start handle on_accept serve recieve_request
    process_request answering getline after before
run_stages_example = run_stages answered 0 answering (ground arith)
