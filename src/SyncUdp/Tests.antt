-- ===== src/SyncUdp/Tests.antt =====
-- A request of UDP whose reply is longer than the buffer of the client.
use boost_asio_samples.Base.{ℕ, ◌≡◌, refl, List, [], ◌∷◌, ◌++◌, Bytes, codes, take, lt_wf, length}
use native.Mathlib.Decide.{dec_lt}
use boost_asio_samples.Decimal.{to_string}
use boost_asio_samples.Errors.{windows}
use boost_asio_samples.IoBuffers.Calls.{Result, failed_with, returned, done, After}
use boost_asio_samples.Setup.Tried.{Endpoint}
use boost_asio_samples.Setup.Machine.{machine}
use boost_asio_samples.Setup.{create_endpoint}
use boost_asio_samples.SyncUdp.{
  UdpSocket, UdpLaws, emulate_long_comp_op, send_datagram, receive_datagram, Replied, udp-Replied,
}

pub record Datagrams : Type 0 where
  pub sent : List (Bytes × Endpoint)
  pub incoming : List Bytes

abbrev first_of : ℕ → List Bytes → Datagrams → Result Datagrams Bytes
first_of n [] s = failed_with windows.operation_aborted s
first_of n (d ∷ ds) s = returned (take n d) (record s { incoming = ds })

abbrev datagrams : UdpSocket
datagrams = record {
  State = Datagrams;
  send_to = λ b e s. returned (length b) (record s { sent = s.sent ++ (b, e) ∷ [] });
  receive_from = λ n s. first_of n s.incoming s;
  shutdown_both = λ s. returned tt s;
}

first_of_lem :
    (n : ℕ) (ds : List Bytes) (s : Datagrams)
    → s.incoming ≡ ds
    → After
        (first_of n ds s)
        (λ t. t.sent ≡ s.sent)
        (λ b t. (t.sent ≡ s.sent) × ((d : Bytes) × (s.incoming ≡ d ∷ t.incoming) × (b ≡ take n d)))
first_of_lem n [] s h = refl
first_of_lem n (d ∷ ds) s h = (refl, (d, h, refl))

datagrams_laws : UdpLaws datagrams
datagrams_laws = record {
  sent = λ s. s.sent;
  incoming = λ s. s.incoming;
  send_to_lem = λ b e s. (refl, refl);
  receive_from_lem = λ n s. first_of_lem n s.incoming s refl;
  shutdown_lem = λ s. (refl, refl);
}

abbrev answered : Datagrams
answered = record { sent = []; incoming = codes "Task is done" ∷ [] }

udp-Replied_example :
    Replied machine datagrams datagrams_laws 5
      (codes "127.0.0.1")
      3333
      answered
      (emulate_long_comp_op machine datagrams 5 (codes "127.0.0.1") 3333 answered)
udp-Replied_example =
    udp-Replied machine datagrams datagrams_laws 5 3333 (codes "127.0.0.1") answered

-- Six bytes of the answer are left.
cut :
    emulate_long_comp_op machine datagrams 5 (codes "127.0.0.1") 3333 answered
    ≡ done (codes "Task i") (record {
      sent =
          (codes "EMULATE_LONG_COMP_OP 5\n", record { address = codes "127.0.0.1"; port = 3333 })
          ∷ [];
      incoming = [];
    })
unfolding emulate_long_comp_op send_datagram receive_datagram create_endpoint to_string lt_wf dec_lt
cut = refl
