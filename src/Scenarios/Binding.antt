-- ===== src/Scenarios/Binding.antt =====
-- basics/binding.cpp. A machine remembers what is bound: `system` is how its calls end.
use boost_asio_samples.Base.{
  ℕ, ◌≡◌, ◌↔◌, refl, Bool, true, false, Option, List, [], ◌∷◌, codes, if◌then◌else◌,
}
use boost_asio_samples.Errors.{ErrorCode, failed}
use boost_asio_samples.IoBuffers.Calls.{Exception}
use boost_asio_samples.Setup.Tried.{
  Tried as Attempt, returns, throws, ◌>>=◌, ◌>>◌, Endpoint, System, raise,
}
use boost_asio_samples.Setup.{
  create_endpoint, any_endpoint, create_socket, create_and_open_socket_of, create_and_open_acceptor,
  bind, connect, get_endpoints, get_endpoints_itr,
}
use boost_asio_samples.Scenarios.Report.{Report, expect_throw, expect_no_throw, passed}

-- The machine before a call, and once an end point is bound on it.
pub record Machine : Type 1 where
  pub State : Type 0
  pub system : State → System
  pub bound : Endpoint → State → State

twice_passes :
    (a c : Attempt (Unit {0})) (b d : Bool) (x y : Exception)
    → (passed (
          a
          >> ((if b then throws x else returns tt)
              >> (c
                  >> returns
                      (expect_throw {A = Unit {0}} (if d then throws y else returns tt) ∷ []))))
        ≡ true)
      ↔ ((a ≡ returns tt) × (b ≡ false) × (c ≡ returns tt) × (d ≡ true))
twice_passes (throws z) c b d x y = ((λ h. absurd (cc)), (λ h. absurd (cc)))
twice_passes (returns u) c true d x y = ((λ h. absurd (cc)), (λ h. absurd (cc)))
twice_passes (returns u) (throws z) false d x y = ((λ h. absurd (cc)), (λ h. absurd (cc)))
twice_passes (returns u) (returns v) false true x y = ((λ h. (refl, refl, refl, refl)), (λ h. refl))
twice_passes (returns u) (returns v) false false x y = ((λ h. absurd (cc)), (λ h. absurd (cc)))

module _ (m : Machine) where
  -- A socket of a kind is opened and bound.
  unfoldable pub bind_once : (System → Attempt (Unit {0})) → ℕ → m.State → Report
  bind_once opened port s =
      let sys = m.system s in do opened sys; bind sys (any_endpoint sys port); returns []

  -- The same, and then a second socket is bound to the end point of the first.
  unfoldable pub bind_twice : (System → Attempt (Unit {0})) → ℕ → m.State → Report
  bind_twice opened port s =
      let sys = m.system s in
      let endpoint = any_endpoint sys port in
      let again = m.system (m.bound endpoint s) in
      do
        opened sys
        bind sys endpoint
        opened again
        returns (expect_throw (bind again endpoint) ∷ [])

  unfoldable pub bind_test : m.State → Report
  bind_test = bind_once create_and_open_acceptor 6969

  unfoldable pub double_binding : m.State → Report
  double_binding = bind_twice create_and_open_acceptor 7979

  unfoldable pub udp_bind : m.State → Report
  udp_bind = bind_once create_and_open_socket_of 8989

  unfoldable pub udp_double_bind : m.State → Report
  udp_double_bind = bind_twice create_and_open_socket_of 25250

  -- The tests that bind twice pass exactly where both sockets open and the end point can be bound when
  -- it is free and not when it is taken.
  pub bind_twice_passes :
      (opened : System → Attempt (Unit {0})) (port : ℕ) (s : m.State)
      → let sys = m.system s in
        let endpoint = any_endpoint sys port in
        let again = m.system (m.bound endpoint s) in
        (passed (bind_twice opened port s) ≡ true) ↔ (
          (opened sys ≡ returns tt)
          × (failed (sys.bind endpoint) ≡ false)
          × (opened again ≡ returns tt)
          × (failed (again.bind endpoint) ≡ true))
  unfolding bind_twice bind
  bind_twice_passes opened port s =
      let sys = m.system s in
      let endpoint = any_endpoint sys port in
      let again = m.system (m.bound endpoint s) in
      twice_passes (opened sys) (opened again) (failed (sys.bind endpoint))
        (failed (again.bind endpoint)) _ _

module _ (sys : System) where
  unfoldable pub connect_without_server : Report
  connect_without_server = do
    endpoint ← create_endpoint sys (codes "127.0.0.1") 54321
    create_and_open_socket_of sys
    returns (expect_throw (connect sys endpoint) ∷ [])

  -- The loop over the end points, which ends behind the first.
  unfoldable pub connect_first : List Endpoint → Report
  connect_first [] = returns []
  connect_first (e ∷ es) = do
    create_and_open_socket_of sys
    returns (expect_no_throw (connect sys e) ∷ [])

  unfoldable pub connect_by_dns_resolve : Report
  connect_by_dns_resolve = do
    eps ← get_endpoints sys (codes "google.com") (codes "80")
    connect_first eps

  -- `asio::connect` over a range of end points is a parameter.
  unfoldable pub connect_by_iterator_dns_resolve : (List Endpoint → Option ErrorCode) → Report
  connect_by_iterator_dns_resolve connect_any = do
    itr ← get_endpoints_itr sys (codes "google.com") (codes "80")
    create_socket sys
    returns (expect_no_throw (raise (connect_any itr)) ∷ [])
