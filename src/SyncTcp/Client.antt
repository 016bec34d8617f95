-- ===== src/SyncTcp/Client.antt =====
-- asiolib/tcp-client-sync.hpp: `SyncTCPClient` from its constructor to its destructor, as a block uses it
-- that connects and makes one request.
use boost_asio_samples.Base.{ℕ, Bytes}
use boost_asio_samples.IoBuffers.Calls.{
  Socket, Action, Outcome, Exception, done, threw, endless, Result, call, ◌>>◌,
}
use boost_asio_samples.Setup.Tried as Attempts
use boost_asio_samples.Setup.Tried.{Tried as Attempt, returns, throws, Endpoint, System}
use boost_asio_samples.Setup.{create_endpoint, create_and_open_socket_of}
use boost_asio_samples.SyncTcp.{emulate_long_comp_op}

-- The further calls of Asio on the socket of a client, and the socket that was opened.
pub record ClientCalls (k : Socket) : Type 0 where
  pub opened : k.State
  pub connect : Endpoint → k.State → Result k.State (Unit {0})
  pub shutdown_both : k.State → Result k.State (Unit {0})
  pub close : k.State → Result k.State (Unit {0})

-- How a block ends: with the response, by an exception, or with the program, where the destructor of the
-- client throws.
pub data BlockEnd (S : Type 0) : Type 0 where
  responded : Bytes → S → BlockEnd S
  left_by : Exception → S → BlockEnd S
  not_constructed : Exception → BlockEnd S
  terminated : Exception → BlockEnd S
  never_ends : BlockEnd S

module _ (sys : System) (k : Socket) (calls : ClientCalls k) where
  pub record SyncTcpClient : Type 0 where
    pub endpoint : Endpoint
    pub socket : k.State

  -- `SyncTCPClient::SyncTCPClient`
  abbrev opened_client : Endpoint → Attempt (Unit {0}) → Attempt SyncTcpClient
  opened_client e (throws x) = throws x
  opened_client e (returns u) = returns (record { endpoint = e; socket = calls.opened })

  unfoldable pub create_client : Bytes → ℕ → Attempt SyncTcpClient
  create_client ip port =
      Attempts.◌>>=◌ (create_endpoint sys ip port)
        λ e. opened_client e (create_and_open_socket_of sys)

  -- `Connect` and `Close`
  unfoldable pub connect_client : Endpoint → Action k.State (Unit {0})
  connect_client endpoint = call (calls.connect endpoint)

  unfoldable pub close_client : Action k.State (Unit {0})
  close_client = call calls.shutdown_both >> call calls.close

  -- `~SyncTCPClient`, at the end of a block that ends with `b` otherwise.
  abbrev destroyed : (k.State → BlockEnd k.State) → Outcome k.State (Unit {0}) → BlockEnd k.State
  destroyed b (done u t) = b t
  destroyed b (threw x t) = terminated x
  destroyed b endless = never_ends

  abbrev block_end : Outcome k.State Bytes → BlockEnd k.State
  block_end (done text t) = destroyed (λ u. responded text u) (close_client t)
  block_end (threw x t) = destroyed (λ u. left_by x u) (close_client t)
  block_end endless = never_ends

  abbrev used : ℕ → Attempt SyncTcpClient → BlockEnd k.State
  used duration_sec (throws x) = not_constructed x
  used duration_sec (returns c) =
      block_end ((connect_client c.endpoint >> emulate_long_comp_op k duration_sec) c.socket)

  -- `{ SyncTCPClient client(ip, port); client.Connect(); client.EmulateLongComputationOp(…); }`
  unfoldable pub use_client : Bytes → ℕ → ℕ → BlockEnd k.State
  use_client ip port duration_sec = used duration_sec (create_client ip port)
