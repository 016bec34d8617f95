-- ===== src/Setup.antt =====
-- asiolib/endpoints.hpp, sockets.hpp, binding.hpp, dns-resolve.hpp and servers.hpp: end points, sockets
-- and name resolution, with the exceptions they make of error codes, and the servers of the tests.
pub mod Tried
pub mod Servers
pub mod Clients
pub mod Machine
mod Tests
use boost_asio_samples.Base.{
  ℕ, Bool, true, Option, some, none, List, [], ◌∷◌, ◌++◌, Bytes, codes, if◌then◌else◌,
}
use boost_asio_samples.Errors.{ErrorCode, failed}
use boost_asio_samples.IoBuffers.Calls.{Exception, system_error, runtime_error}
use Tried.{Tried as Attempt, returns, throws, ◌>>=◌, ◌>>◌, Endpoint, System, what_of, raise}

module _ (sys : System) where
  -- The code and its message, as four of the functions print them.
  abbrev pub code_message : Bytes → Bytes → ErrorCode → Bytes
  code_message text before ec = text ++ (sys.value_text ec ++ (before ++ sys.message ec))

  abbrev pub check_code : Bytes → Bytes → ErrorCode → Attempt (Unit {0})
  check_code text before ec =
      if failed ec then throws (runtime_error (code_message text before ec)) else returns tt

  -- `catch (system_error& e)` that prints the code and `what()`.
  abbrev pub rethrow_code : Option ErrorCode → Attempt (Unit {0})
  rethrow_code none = returns tt
  rethrow_code (some e) = throws (
      runtime_error (
        codes "Error occured! Error code = "
        ++ (sys.code_text e ++ (codes ". Message: " ++ sys.what e))))

  -- `CreateEndpoint` of an address, and of any address of a version of IP
  unfoldable pub create_endpoint : Bytes → ℕ → Attempt Endpoint
  create_endpoint ip port = do
    check_code (codes "Failed to parse the IP address. Error code = ") (codes ". Message: ")
        (sys.from_string ip).0
    returns (record { address = (sys.from_string ip).1; port = port })

  abbrev pub any_endpoint : ℕ → Endpoint
  any_endpoint port = record { address = sys.any; port = port }

  -- `CreateAndOpenAcceptor` of a protocol
  unfoldable pub create_and_open_acceptor : Attempt (Unit {0})
  create_and_open_acceptor =
      check_code (codes "Failed to open the acceptor socket!Error code = ") (codes ". Message: ")
        sys.open_acceptor

  unfoldable pub create_socket : Attempt (Unit {0})
  create_socket = rethrow_code sys.make_socket

  -- `CreateAndOpenSocket` of a protocol
  unfoldable pub create_and_open_socket_of : Attempt (Unit {0})
  create_and_open_socket_of = rethrow_code sys.make_open_socket

  -- `CreateAndOpenSocket` of version 4
  unfoldable pub create_and_open_socket : Attempt (Unit {0})
  create_and_open_socket =
      check_code (codes "Failed to open the socket! Error code = ") (codes ". Message: ")
        sys.open_socket

  unfoldable pub bind : Endpoint → Attempt (Unit {0})
  bind endpoint =
      check_code (codes "Failed to bind the acceptor socket.Error code = ") (codes ". Message: ")
        (sys.bind endpoint)

  unfoldable pub connect : Endpoint → Attempt (Unit {0})
  connect endpoint = rethrow_code (sys.connect endpoint)

  unfoldable pub get_endpoints_itr : Bytes → Bytes → Attempt (List Endpoint)
  get_endpoints_itr host port = do
    check_code (codes "Failed to resolve a DNS name.Error code = ") (codes ". Message = ")
        (sys.resolve host port).0
    returns (sys.resolve host port).1

  -- The loop of `GetEndpoints`: `emplace_back` of each end point.
  unfoldable pub collect : List Endpoint → List Endpoint → List Endpoint
  collect output [] = output
  collect output (e ∷ es) = collect (output ++ e ∷ []) es

  unfoldable pub get_endpoints : Bytes → Bytes → Attempt (List Endpoint)
  get_endpoints host port = do
    check_code (codes "Failed to resolve a DNS name.Error code = ") (codes ". Message = ")
        (sys.resolve host port).0
    returns (collect [] (sys.resolve host port).1)

-- What a promise holds, and how a function ends that was given one: it returns, or an exception leaves
-- it, which `set_exception` throws where the promise is settled already.
pub data Promise (A : Type 0) : Type 0 where
  unset : Promise A
  value : A → Promise A
  failure : Bytes → Promise A

pub data Ended (A : Type 0) : Type 0 where
  finished escaped : Promise A → Ended A

abbrev pub set_exception : {A : Type 0} → Bytes → Promise A → Ended A
set_exception what unset = finished (failure what)
set_exception what (value a) = escaped (value a)
set_exception what (failure b) = escaped (failure b)

module _ (sys : System) where
  -- What both servers do before they accept.
  unfoldable pub listening : ℕ → ℕ → Attempt (Unit {0})
  listening backlog port = do
    create_and_open_acceptor sys
    bind sys (any_endpoint sys port)
    raise (sys.listen backlog)
    create_socket sys

  abbrev pub caught : {A : Type 0} → Promise A → (Unit {0} → Ended A) → Attempt (Unit {0}) → Ended A
  caught promise f (returns u) = f u
  caught promise f (throws x) = set_exception (what_of sys x) promise

  unfoldable pub run_server : ℕ → ℕ → Ended Bool
  run_server backlog port =
      caught unset (λ _. caught (value true) (λ _. finished (value true)) (raise sys.accept))
        (listening backlog port)

  -- The socket that the promise is given stands for itself.
  unfoldable pub get_single_client_socket : ℕ → ℕ → Ended (Unit {0})
  get_single_client_socket backlog port =
      caught unset (λ u. finished (value u)) do listening backlog port; raise sys.accept
