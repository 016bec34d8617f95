-- ===== src/Setup/Clients.antt =====
-- asiolib/clients.hpp: the clients that only connect, and the loop of the test fixture of
-- basics/server-client.cpp that connects while it waits for the socket of its server.
use boost_asio_samples.Base.{
  ℕ, ◌≡◌, ◌↔◌, refl, Bool, true, false, Option, none, some, List, [], ◌∷◌, ◌++◌, All, Bytes, codes,
}
use boost_asio_samples.Errors.{failed}
use boost_asio_samples.IoBuffers.Calls.{Exception, runtime_error}
use boost_asio_samples.Setup.Tried.{
  Tried as Attempt, returns, throws, ◌>>=◌, ◌>>◌, Endpoint, System, raise, what_of,
}
use boost_asio_samples.Setup.{create_endpoint, create_socket, code_message}

module _ (sys : System) where
  -- What `RunClient` prints, if it prints something: it catches what the two calls throw, but not what
  -- is thrown before them.
  abbrev caught_text : Attempt (Unit {0}) → Attempt (Option Bytes)
  caught_text (returns u) = returns none
  caught_text (throws x) = returns (some (what_of sys x))

  unfoldable pub run_client : Bytes → ℕ → Attempt (Option Bytes)
  run_client ip port = do
    endpoint ← create_endpoint sys ip port
    caught_text do create_socket sys; raise (sys.connect endpoint)

  -- The socket that it returns is connected to this end point.
  unfoldable pub get_connected_socket : Bytes → ℕ → Attempt Endpoint
  get_connected_socket ip port = do
    endpoint ← create_endpoint sys ip port
    create_socket sys
    raise (sys.connect endpoint)
    returns endpoint

abbrev is_connected : Option Endpoint → Attempt Endpoint → Option Endpoint
is_connected (some e) t = some e
is_connected none (returns e) = some e
is_connected none (throws x) = none

-- The loop of `ClientServerScenario::SetUp`: one system for each round in which the future of the server
-- is not ready; what an attempt throws is dropped.
unfoldable pub set_up : Bytes → ℕ → List System → Option Endpoint → Option Endpoint
set_up ip port [] socket = socket
set_up ip port (sys ∷ rounds) socket =
    set_up ip port rounds (is_connected socket (get_connected_socket sys ip port))

-- A socket that is connected is kept.
set_up_keeps :
    (ip : Bytes) (port : ℕ) (rounds : List System) (e : Endpoint)
    → set_up ip port rounds (some e) ≡ some e
unfolding set_up
set_up_keeps ip port [] e = refl
set_up_keeps ip port (sys ∷ rounds) e = set_up_keeps ip port rounds e

-- The fixture makes no socket if every attempt throws, and otherwise that of the first attempt which
-- does not.
pub set_up_first :
    (ip : Bytes) (port : ℕ) (before after : List System) (sys : System) (e : Endpoint)
    → All (λ s. (x : Exception) × (get_connected_socket s ip port ≡ throws x)) before
    → get_connected_socket sys ip port ≡ returns e
    → (set_up ip port before none ≡ none) × (set_up ip port (before ++ sys ∷ after) none ≡ some e)
unfolding set_up
set_up_first ip port [] after sys e fails works =
    (refl, rw (works, set_up) (set_up_keeps ip port after e))
set_up_first ip port (s ∷ before) after sys e fails works =
    rw (fails.0.1, set_up) (set_up_first ip port before after sys e fails.1 works)

caught_returns :
    (sys : System) (t : Attempt (Unit {0}))
    → ((x : Exception) × (caught_text sys t ≡ throws x))
    → false ≡ true
caught_returns sys (returns u) h = (let e = h.1 in absurd cc)
caught_returns sys (throws y) h = (let e = h.1 in absurd cc)

run_client_from :
    (sys : System) (ip : Bytes) (port : ℕ) (b : Bool)
    → failed (sys.from_string ip).0 ≡ b
    → ((x : Exception) × (run_client sys ip port ≡ throws x)) ↔ (b ≡ true)
unfolding run_client create_endpoint
run_client_from sys ip port true h = (
  (λ t. refl),
  λ t. (
    runtime_error (
        code_message sys (codes "Failed to parse the IP address. Error code = ")
          (codes ". Message: ") (sys.from_string ip).0),
    rw h refl,
  ),
)
run_client_from sys ip port false h = ((λ t. caught_returns sys _ (rw h at t)), λ e. absurd cc)

-- An exception leaves `RunClient` exactly when the address is not one.
pub run_client_throws :
    (sys : System) (ip : Bytes) (port : ℕ)
    → ((x : Exception) × (run_client sys ip port ≡ throws x))
      ↔ (failed (sys.from_string ip).0 ≡ true)
run_client_throws sys ip port = run_client_from sys ip port (failed (sys.from_string ip).0) refl
