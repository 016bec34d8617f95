-- ===== src/SyncServer/Tests.antt =====
-- A server on a socket to which clients connect in a given order, over one end of a connection each.
use boost_asio_samples.Base.{
  ◌+◌, ◌≤◌, after, before, ◌≡◌, refl, List, [], ◌∷◌, inr, some, true, false, codes, arith,
}
use boost_asio_samples.Errors.{windows}
use boost_asio_samples.Stream.{getline}
use boost_asio_samples.IoBuffers.Calls.{Result, failed_with, returned}
use boost_asio_samples.IoBuffers.Wire.{Wire, wire, wire_laws}
use boost_asio_samples.Setup.Machine.{machine}
use boost_asio_samples.Setup.{create_socket}
use boost_asio_samples.SyncTcp.{handle_request}
use boost_asio_samples.SyncServer.Acceptors.{
  Listener, Acceptor, acceptor_cl, service_fake, parallel_acceptor, listening_acceptor,
  create_and_open_acceptor_at, accept_and_serve,
}
use boost_asio_samples.SyncServer.{
  Server, Event, start, stop, join, run, other, idle, running, accepting, ended, start_thread,
  join_thread, run_thread, new_server, run_all, create_server, create_parallel_server, stop_thread,
  step,
}
use boost_asio_samples.SyncServer.Stopping.{AcceptorLaws, served_by, stopped_server_accepts}
use boost_asio_samples.SyncServer.Returning.{Stopped, stop_returns}
use boost_asio_samples.SyncServer.Counting.{acceptor_cl_laws, accept-Finishes}
use boost_asio_samples.SyncServer.Keeping.{Holds}
use boost_asio_samples.SyncServer.Served.{Serves, AllAnswered, server-Serves}
use boost_asio_samples.SyncServer.Detached.{Balanced, Left, parallel_server-Balanced}

abbrev first_waiting : List Wire → Result (List Wire) Wire
first_waiting [] = failed_with windows.operation_aborted []
first_waiting (w ∷ ws) = returned w ws

abbrev queue : List Wire → Listener wire
queue ws = record {
  State = List Wire;
  open_at = λ e. inr ws;
  listen = λ n s. returned tt s;
  accept = first_waiting;
}

abbrev asks : List Wire
asks =
    record { sent = []; incoming = codes "a\n" } ∷ record { sent = []; incoming = codes "b\n" } ∷ []

abbrev waiting : Listener wire
waiting = queue asks

abbrev sequential : Acceptor
sequential = acceptor_cl machine waiting (service_fake wire (codes "Task: "))

-- A server whose thread waits in `Accept`.
abbrev in_accept : Server sequential
in_accept = record {
  thread = some accepting;
  live_flag = true;
  acceptor = record { listener = asks; served = [] };
}

-- `Stop`, the return of the `Accept`, a new `Start` and what its thread does.
abbrev schedule : List Event
schedule = run ∷ run ∷ join ∷ start ∷ run ∷ run ∷ run ∷ []

abbrev laws : AcceptorLaws sequential
laws = acceptor_cl_laws machine waiting (service_fake wire (codes "Task: "))

stopped_server_accepts_example :
    served_by laws (run_all schedule (stop_thread in_accept)) ≤ laws.served in_accept.acceptor + 1
stopped_server_accepts_example = stopped_server_accepts laws schedule in_accept

stop_returns_example : Stopped (step join (run_all (run ∷ run ∷ []) (stop_thread in_accept)))
stop_returns_example =
    stop_returns sequential (run ∷ run ∷ []) in_accept
      (λ a.
        accept-Finishes windows machine wire wire_laws waiting (codes "Task: ") a
          (create_socket machine) refl)
      (refl, (refl, tt)) (omega arith)

abbrev sequential_server : Server sequential
sequential_server = new_server (record { listener = asks; served = [] })

-- Two connections, and a `Stop` while the thread waits for the second.
abbrev two_served : List Event
two_served = start ∷ run ∷ run ∷ run ∷ stop ∷ run ∷ run ∷ join ∷ []

server-Serves_example :
    Holds sequential
      (Serves windows machine wire wire_laws waiting (codes "Task: ") asks)
      (AllAnswered windows machine wire wire_laws waiting (codes "Task: "))
      (run_all two_served (running idle sequential_server))
unfolding create_server listening_acceptor create_and_open_acceptor_at
server-Serves_example =
    server-Serves windows machine wire wire_laws waiting (codes "Task: ") 6969 two_served
      sequential_server refl

abbrev parallel_server : Server (parallel_acceptor machine waiting)
parallel_server =
    new_server (record { listener = asks; detached = []; answered = []; services = 0; deletes = 0 })

-- Two connections, of which the second is answered first.
abbrev two_detached : List Event
two_detached = start ∷ run ∷ run ∷ run ∷ run ∷ other 1 ∷ other 0 ∷ []

parallel_server-Balanced_example :
    Holds
      (parallel_acceptor machine waiting)
      (Balanced windows machine wire wire_laws waiting asks)
      (Left windows machine wire wire_laws waiting)
      (run_all two_detached (running idle parallel_server))
unfolding create_parallel_server listening_acceptor create_and_open_acceptor_at
parallel_server-Balanced_example =
    parallel_server-Balanced windows machine wire wire_laws waiting 6969 two_detached
      parallel_server refl

-- A server that was stopped and started again serves nobody.
serves_nobody :
    run_all
      (start ∷ run ∷ run ∷ run ∷ stop ∷ run ∷ run ∷ join ∷ start ∷ run ∷ run ∷ [])
      (running idle sequential_server)
    ≡ running idle (record {
      thread = some ended;
      live_flag = false;
      acceptor = record {
        listener = [];
        served =
            (
              record { sent = []; incoming = codes "a\n" },
              record { sent = codes "Task: a\n"; incoming = [] },
            )
            ∷ (
              record { sent = []; incoming = codes "b\n" },
              record { sent = codes "Task: b\n"; incoming = [] },
            )
            ∷ [];
      };
    })
unfolding run_all step start_thread stop_thread join_thread run_thread accept_and_serve
    handle_request create_socket getline after before
serves_nobody = refl
