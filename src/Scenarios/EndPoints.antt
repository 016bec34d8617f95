-- ===== src/Scenarios/EndPoints.antt =====
-- basics/endpoint.cpp and basics/socket.cpp. What the tests say of the type of a protocol is decided
-- by the compiler and left out.
use boost_asio_samples.Base.{
  ℕ, ◌≡◌, ◌↔◌, refl, true, false, [], ◌∷◌, Bytes, codes, bytes_eq, bytes_eq_iff, ◌==◌, ==_iff,
  Bool-cases, inl, inr, arith,
}
use boost_asio_samples.Errors.{failed}
use boost_asio_samples.Setup.Tried.{returns, ◌>>=◌, Endpoint, System}
use boost_asio_samples.Setup.{
  create_endpoint, any_endpoint, create_socket, create_and_open_socket, create_and_open_socket_of,
  create_and_open_acceptor,
}
use boost_asio_samples.Scenarios.Report.{Report, expect_throw, expect_no_throw, passed}

-- `to_string()` of an address is a parameter.
module _ (sys : System) (address_text : Bytes → Bytes) where
  abbrev pub endpoint_checks : Bytes → ℕ → Endpoint → Report
  endpoint_checks ip port ep =
      returns ((port == ep.port) ∷ bytes_eq ip (address_text ep.address) ∷ [])

  unfoldable pub client_endpoint : Bytes → ℕ → Report
  client_endpoint ip port = do ep ← create_endpoint sys ip port; endpoint_checks ip port ep

  unfoldable pub creating_client_endpoint : Report
  creating_client_endpoint = client_endpoint (codes "127.0.0.1") 6969

  unfoldable pub creating_client_endpoint_ipv6 : Report
  creating_client_endpoint_ipv6 = client_endpoint (codes "fe36::404:c3fa:ef1e:3829") 6969

  unfoldable pub creating_client_endpoint_bad_address : Report
  creating_client_endpoint_bad_address =
      returns (expect_throw (create_endpoint sys (codes "127.0.0.300") 6969) ∷ [])

  unfoldable pub creating_serverside_endpoint : Report
  creating_serverside_endpoint = endpoint_checks (codes "0.0.0.0") 6969 (any_endpoint sys 6969)

  unfoldable pub creating_udp_client_endpoint : Report
  creating_udp_client_endpoint = client_endpoint (codes "127.0.0.1") 6969

  -- `sys` is one of version 6 of IP.
  unfoldable pub creating_udp_serverside_endpoint : Report
  creating_udp_serverside_endpoint = endpoint_checks (codes "::") 6969 (any_endpoint sys 6969)

  -- The test of an end point passes exactly where the text is an address and prints as it was written;
  -- where it is no address, the test ends by an exception.
  pub client_endpoint_passes :
      (ip : Bytes) (port : ℕ)
      → (passed (client_endpoint ip port) ≡ true)
        ↔ ((failed (sys.from_string ip).0 ≡ false) × (address_text (sys.from_string ip).1 ≡ ip))
  unfolding client_endpoint create_endpoint
  client_endpoint_passes ip port = elim (Bool-cases (failed (sys.from_string ip).0)) [
    | inl bad ↦ rw bad ((λ h. absurd (cc)), (λ h. absurd (cc)))
    | inr fine ↦
        rw (fine, (==_iff port port).1 refl)
          (
            (λ h. (refl, ground (arith, bytes_eq_iff ip (address_text (sys.from_string ip).1)))),
            (λ h. ground (arith, bytes_eq_iff ip (address_text (sys.from_string ip).1))),
          )
  ]

module _ (sys : System) where
  unfoldable pub create_socket_test : Report
  create_socket_test = returns (expect_no_throw (create_socket sys) ∷ [])

  unfoldable pub create_socket_udp : Report
  create_socket_udp = returns (expect_no_throw (create_socket sys) ∷ [])

  unfoldable pub create_and_open_active_socket : Report
  create_and_open_active_socket = returns (expect_no_throw (create_and_open_socket sys) ∷ [])

  unfoldable pub create_and_open_udp_active_socket : Report
  create_and_open_udp_active_socket = returns (expect_no_throw (create_and_open_socket sys) ∷ [])

  unfoldable pub create_and_open_active_socket_one_method : Report
  create_and_open_active_socket_one_method =
      returns (expect_no_throw (create_and_open_socket_of sys) ∷ [])

  unfoldable pub create_and_open_udp_active_socket_one_method : Report
  create_and_open_udp_active_socket_one_method =
      returns (expect_no_throw (create_and_open_socket_of sys) ∷ [])

  unfoldable pub acceptor_test : Report
  acceptor_test = returns (expect_no_throw (create_and_open_acceptor sys) ∷ [])
