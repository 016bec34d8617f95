-- ===== src/Setup/Tests.antt =====
-- A system on which everything succeeds but `accept`, and the servers and end points on it.
use boost_asio_samples.Base.{◌≡◌, ◌≢◌, ◌↔◌, ◌⊎◌, refl, [], ◌∷◌, true, none, some}
use boost_asio_samples.Errors.{success, windows}
use boost_asio_samples.Setup.Tried.{returns, System}
use boost_asio_samples.Setup.Machine.{machine}
use boost_asio_samples.Setup.{
  value, escaped, listening, run_server, create_and_open_acceptor, bind, create_socket,
}
use boost_asio_samples.Setup.Servers.{Settled, run_server_escapes}

abbrev local : System
local = record machine {
  accept = some windows.operation_aborted;
  resolve = λ host port. (success, record { address = host; port = 80 } ∷ []);
}

run_server_escapes_example :
    ((run_server local 30 3333 ≡ escaped (value true))
      ↔ ((listening local 30 3333 ≡ returns tt) × (local.accept ≢ none)))
    × (Settled local (run_server local 30 3333) ⊎ (run_server local 30 3333 ≡ escaped (value true)))
run_server_escapes_example = run_server_escapes local 30 3333

-- The promise was settled, and the exception of `accept` ends the program.
ends : run_server local 30 3333 ≡ escaped (value true)
unfolding run_server listening create_and_open_acceptor bind create_socket
ends = refl
