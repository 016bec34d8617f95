-- ===== src/AsyncExchange/Tests.antt =====
-- The request of basics/tcp-client-server-async.cpp.
use boost_asio_samples.Base.{ℕ, ◌≡◌, refl, [], ◌∷◌, ◌++◌, codes, none, lt_wf}
use native.Mathlib.Decide.{dec_lt}
use boost_asio_samples.Decimal.{to_string}
use boost_asio_samples.Errors.{success, windows}
use boost_asio_samples.TcpClient.{emulate_long_computation_op}
use boost_asio_samples.TcpClient.Sessions as Client
use boost_asio_samples.TcpClient.Sessions.{AsyncTcpClient, Session, new_session, new_client}
use boost_asio_samples.TcpClient.Steps as ClientSteps
use boost_asio_samples.TcpClient.Active.{Answered}
use boost_asio_samples.TcpServer.Connections.{new_acceptor}
use boost_asio_samples.AsyncExchange.{response_line, Serves, async_exchange}

abbrev store : ℕ → Session
store a = new_session [] 0 [] 0 0

abbrev client : AsyncTcpClient
client = new_client store

async_exchange_example :
    let reply = response_line 12 ++ b'\n' ∷ [] in
    let c₁ = emulate_long_computation_op none 12 (codes "127.0.0.1") 6969 7 1 client in
    let c₂ =
      ClientSteps.handle windows (Client.connect 0) success [] (record c₁ { pending = [] }) in
    let c₃ = ClientSteps.handle windows (Client.write 0) success [] (record c₂ { pending = [] }) in
    let c₄ =
      ClientSteps.handle windows (Client.read_until 0) success reply (record c₃ { pending = [] }) in
    Serves new_acceptor (c₂.sessions 0).request reply
    × Answered windows 0 7 1 (response_line 12) client c₁ c₂ c₃ c₄
async_exchange_example =
    async_exchange windows 12 (codes "127.0.0.1") 6969 7 1 client new_acceptor refl

expected : response_line 12 ≡ codes "request is processed!: EMULATE_LONG_CALC_OP 12"
unfolding to_string lt_wf dec_lt
expected = refl
