-- ===== src/SyncTcp/Tests.antt =====
-- An exchange of asiolib/tcp-client-sync.hpp with `ServiceFake`, over two ends of a connection.
use native.Mathlib.Decide.{dec_lt}
use boost_asio_samples.Base.{◌≡◌, refl, [], ◌++◌, codes, free-Without, lt_wf, before, after}
use boost_asio_samples.Decimal.{to_string}
use boost_asio_samples.Stream.{getline}
use boost_asio_samples.Errors.{windows}
use boost_asio_samples.IoBuffers.Wire.{Wire, wire, wire_laws}
use boost_asio_samples.SyncTcp.{
  request_line, send_request, receive_response, emulate_long_comp_op, handle_request,
}
use boost_asio_samples.IoBuffers.Calls.{failed_with, returned, system_error}
use boost_asio_samples.Setup.{create_endpoint, create_and_open_socket_of}
use boost_asio_samples.Setup.Machine.{machine}
use boost_asio_samples.SyncTcp.Client.{
  ClientCalls, terminated, create_client, use_client, connect_client, close_client,
}
use boost_asio_samples.SyncTcp.Exchange.{sync_exchange}

abbrev client : Wire
client = record { sent = []; incoming = codes "Task: EMULATE_LONG_COMP_OP 5\n" }

abbrev server : Wire
server = record { sent = []; incoming = codes "EMULATE_LONG_COMP_OP 5\n" }

sync_exchange_example : codes "Task: EMULATE_LONG_COMP_OP 5" ≡ codes "Task: " ++ request_line 5
unfolding to_string lt_wf dec_lt wire_laws before after getline emulate_long_comp_op handle_request
    send_request receive_response
sync_exchange_example =
    sync_exchange windows wire wire wire_laws wire_laws 5 29 (codes "Task: ")
      (codes "Task: EMULATE_LONG_COMP_OP 5") [] [] client
      (record { sent = codes "EMULATE_LONG_COMP_OP 5\n"; incoming = [] }) server
      (record { sent = codes "Task: EMULATE_LONG_COMP_OP 5\n"; incoming = [] })
      (free-Without b'\n' (codes "Task: ") refl) refl refl refl refl refl refl

abbrev idle_end : Wire
idle_end = record { sent = []; incoming = [] }

-- A peer that refuses, and a socket that is not connected.
abbrev refused : ClientCalls wire
refused = record {
  opened = idle_end;
  connect = λ e s. failed_with windows.operation_aborted s;
  shutdown_both = λ s. failed_with windows.eof s;
  close = λ s. returned tt s;
}

-- The destructor ends the program, although the failure of `Connect` could be caught.
terminates :
    use_client machine wire refused (codes "127.0.0.1") 6969 10
    ≡ terminated (system_error windows.eof)
unfolding create_client create_endpoint create_and_open_socket_of use_client connect_client
    close_client emulate_long_comp_op
terminates = refl
