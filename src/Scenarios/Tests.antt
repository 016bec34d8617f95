-- ===== src/Scenarios/Tests.antt =====
-- The tests of basics on small machines.
use boost_asio_samples.Base.{
  ℕ, ◌≡◌, refl, ap, sym, ◌∙◌, Bool, true, false, List, [], ◌∷◌, Bytes, codes, bytes_eq, ◌==◌,
  if◌then◌else◌, free-Without, before, after,
}
use boost_asio_samples.Errors.{ErrorCode, success, windows}
use boost_asio_samples.IoBuffers.Calls.{Outcome, done, threw, endless}
use boost_asio_samples.IoBuffers.Wire.{Wire, wire, wire_laws}
use boost_asio_samples.IoBuffers.{
  write_to_socket, write_rest, send_request_and_get_replay, get_request_and_send_replay,
  read_to_eof,
}
use boost_asio_samples.Stream.{getline}
use boost_asio_samples.Setup.Tried.{returns}
use boost_asio_samples.Setup.Machine.{machine}
use boost_asio_samples.Setup.{create_and_open_acceptor, bind, create_endpoint}
use boost_asio_samples.Scenarios.Report.{passed}
use boost_asio_samples.Scenarios.EndPoints.{client_endpoint, creating_client_endpoint}
use boost_asio_samples.Scenarios.Binding.{Machine, bind_twice, double_binding}
use boost_asio_samples.Scenarios.Buffers.{
  streambuf, three_lines, mutable_buffer_invalidated_by_operation_on_string, get_buffer,
}
use boost_asio_samples.Scenarios.Ends.{write_read}
use boost_asio_samples.Scenarios.Connection.{Holds, Agrees, IsFailedRead, write_read-Agrees}
use boost_asio_samples.Scenarios.Shutdown.{exchanged, IsThrown, exchanged_passes}

end_point_made : passed (creating_client_endpoint machine (λ a. a)) ≡ true
unfolding creating_client_endpoint client_endpoint create_endpoint bytes_eq
end_point_made = refl

-- A machine on which a port that is taken cannot be bound.
abbrev in_use : ErrorCode
in_use = record windows.eof { value = 10048 }

abbrev is_taken : ℕ → List ℕ → Bool
is_taken p [] = false
is_taken p (q ∷ ports) = if p == q then true else is_taken p ports

abbrev ports : Machine
ports = record {
  State = List ℕ;
  system =
      λ taken. record machine { bind = λ e. if is_taken e.port taken then in_use else success };
  bound = λ e taken. e.port ∷ taken;
}

bound_once : passed (double_binding ports []) ≡ true
unfolding double_binding bind_twice create_and_open_acceptor bind
bound_once = refl

lines_read : streambuf ≡ returns (true ∷ true ∷ true ∷ [])
unfolding streambuf three_lines getline bytes_eq before after
lines_read = refl

invalidated : passed (mutable_buffer_invalidated_by_operation_on_string 64 128) ≡ true
unfolding mutable_buffer_invalidated_by_operation_on_string get_buffer
invalidated = refl

-- Each end has still to read what the other writes.
abbrev connected : Bytes → Wire
connected b = record { sent = []; incoming = b }

abbrev end_of : {A : Type 0} → Outcome Wire A → Wire
end_of (done a w) = w
end_of (threw x w) = w
end_of endless = connected []

wrote_ab :
    (t : Wire)
    → write_to_socket wire (codes "ab") (connected (codes "ab")) ≡ done tt t
    → record { sent = codes "ab"; incoming = codes "ab" } ≡ t
unfolding write_to_socket write_rest
wrote_ab t e = ap end_of e

ab_carried :
    (t u : Wire)
    → write_to_socket wire (codes "ab") (connected (codes "ab")) ≡ done tt t
    → write_to_socket wire (codes "ab") (connected (codes "ab")) ≡ done tt u
    → (t.incoming ≡ u.sent) × (u.incoming ≡ t.sent)
ab_carried t u e f =
    let left = wrote_ab t e in
    let right = wrote_ab u f in
    (
      ap (λ (w : Wire). w.incoming) (sym left) ∙ ap (λ (w : Wire). w.sent) right,
      ap (λ (w : Wire). w.incoming) (sym right) ∙ ap (λ (w : Wire). w.sent) left,
    )

write_read-Agrees_example :
    Holds
      (Agrees windows wire wire wire_laws wire_laws)
      (IsFailedRead windows wire wire wire_laws wire_laws)
      (write_read wire wire (codes "ab") (connected (codes "ab"), connected (codes "ab")))
unfolding wire_laws
write_read-Agrees_example =
    write_read-Agrees windows wire wire wire_laws wire_laws (codes "ab") (connected (codes "ab"))
      (connected (codes "ab")) refl refl (ab_carried)

abbrev hello : Bytes
hello = codes "Hello Bob!"

abbrev dear : Bytes
dear = codes "Hi dear Alice!"

hello_carried :
    (line text : Bytes) (t u : Wire)
    → get_request_and_send_replay windows wire dear (connected hello) ≡ done line t
    → send_request_and_get_replay windows wire hello (connected dear) ≡ done text u
    → (hello ≡ u.sent) × (dear ≡ t.sent)
unfolding send_request_and_get_replay get_request_and_send_replay read_to_eof
hello_carried line text t u e f = (ap (λ o. (end_of o).sent) f, ap (λ o. (end_of o).sent) e)

exchanged_passes_example :
    Holds
      (λ checks t. checks ≡ true ∷ true ∷ [])
      (IsThrown windows wire wire_laws)
      (exchanged windows wire wire hello dear (connected hello, connected dear))
unfolding wire_laws
exchanged_passes_example =
    exchanged_passes windows wire wire wire_laws wire_laws hello dear (connected hello)
      (connected dear) (free-Without b'\n' hello refl) (free-Without b'\n' dear refl) refl refl
      hello_carried
