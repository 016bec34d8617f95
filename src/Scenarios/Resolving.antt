-- ===== src/Scenarios/Resolving.antt =====
-- basics/dns-resolve.cpp.
use boost_asio_samples.Base.{ℕ, suc, List, [], ◌∷◌, Bytes, codes, bytes_eq, ◌==◌, if◌then◌else◌}
use boost_asio_samples.Decimal.{to_string}
use boost_asio_samples.Setup.Tried.{returns, ◌>>=◌, Endpoint, System}
use boost_asio_samples.Setup.{get_endpoints}
use boost_asio_samples.Scenarios.Report.{Report, expect_throw}

-- `std::count`
unfoldable pub count_byte : ℕ → Bytes → ℕ
count_byte d [] = 0
count_byte d (x ∷ xs) = let rest = count_byte d xs in if x == d then suc rest else rest

module _ (sys : System) (address_text : Bytes → Bytes) where
  unfoldable pub first_checks : Bytes → List Endpoint → Report
  first_checks port [] = returns []
  first_checks port (e ∷ es) =
      returns
        ((3 == count_byte b'.' (address_text e.address)) ∷ bytes_eq port (to_string e.port) ∷ [])

  unfoldable pub resolver : Report
  resolver = do
    eps ← get_endpoints sys (codes "google.com") (codes "80")
    first_checks (codes "80") eps

  unfoldable pub resolver_failed : Report
  resolver_failed = returns (
      expect_throw
        (get_endpoints sys (codes "fake_address_that_never_be_resolved.com") (codes "80"))
      ∷ [])

  unfoldable pub udp_resolver : Report
  udp_resolver = do
    eps ← get_endpoints sys (codes "google.com") (codes "80")
    first_checks (codes "80") eps

  unfoldable pub udp_resolver_failed : Report
  udp_resolver_failed = returns (
      expect_throw
        (get_endpoints sys (codes "fake_address_that_never_be_resolved.com") (codes "80"))
      ∷ [])
