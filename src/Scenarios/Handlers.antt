-- ===== src/Scenarios/Handlers.antt =====
-- The callbacks of basics/tcp-client-server-async.cpp and basics/http-server-client.cpp. `FAIL()` returns
-- from the function, so that what stands behind it is not done.
use boost_asio_samples.Base.{
  ℕ, ◌≡◌, ◌↔◌, refl, ap, ◌∙◌, Bool, true, false, List, [], ◌∷◌, ◌++◌, Bytes, codes, bytes_eq, none,
  if◌then◌else◌, Bool-cases, inl, inr,
}
use boost_asio_samples.Errors.{ErrorCode, failed}
use boost_asio_samples.Setup.{Promise, unset, value, failure, Ended, finished, escaped}
use native.Mathlib.Decide.{dec_lt}
use boost_asio_samples.Base.{lt_wf}
use boost_asio_samples.Decimal.{to_string}
use boost_asio_samples.Errors.{AsioError, success}
use boost_asio_samples.TcpClient.{emulate_long_computation_op}
use boost_asio_samples.TcpClient.Sessions as Client
use boost_asio_samples.TcpClient.Steps as ClientSteps
use boost_asio_samples.TcpServer.Connections.{AsyncAcceptor}
use boost_asio_samples.AsyncExchange.{response_line, Serves, async_exchange}

-- `set_value`: it throws where the promise is settled already.
abbrev pub set_value : {A : Type 0} → A → Promise A → Ended A
set_value a unset = finished (value a)
set_value a (value b) = escaped (value b)
set_value a (failure b) = escaped (failure b)

-- The checks of a callback, and how it ends.
pub record Called : Type 0 where
  pub checks : List Bool
  pub promise : Ended Bool

unfoldable pub testhandler : Bytes → ErrorCode → Promise Bool → Called
testhandler response ec promise =
    if failed ec then record { checks = false ∷ []; promise = finished promise } else record {
      checks = bytes_eq (codes "request is processed!: EMULATE_LONG_CALC_OP 12") response ∷ [];
      promise = set_value true promise;
    }

unfoldable pub testhandler2 : ErrorCode → Promise Bool → Called
testhandler2 ec promise =
    if failed ec
    then record { checks = false ∷ []; promise = finished promise }
    else record { checks = []; promise = set_value true promise }

-- What follows a call: nothing where an exception left it.
abbrev pub continued : List Bool → Ended Bool → (Promise Bool → Called) → Called
continued checks (escaped p) rest = record { checks = checks; promise = escaped p }
continued checks (finished p) rest = record {
  checks = checks ++ (rest p).checks;
  promise = (rest p).promise;
}

-- The calls of the callback in the order in which they come, up to one that throws.
unfoldable pub all_called : List Client.Call → Promise Bool → Called
all_called [] promise = record { checks = []; promise = finished promise }
all_called (k ∷ ks) promise =
    let r = testhandler k.response k.ec promise in
    continued r.checks r.promise (λ p. all_called ks p)

promise_after :
    (k : Client.Call) (r : Called)
    → testhandler k.response k.ec unset ≡ r
    → (all_called (k ∷ []) unset).promise ≡ (continued r.checks r.promise (all_called [])).promise
unfolding all_called
promise_after k r e = ap (λ (r : Called). (continued r.checks r.promise (all_called [])).promise) e

-- The future of the test, for which it waits with no limit, is ready after the call of the callback
-- exactly where this is told of no error: the test of a request that fails never ends.
pub waits_iff :
    (k : Client.Call)
    → ((all_called (k ∷ []) unset).promise ≡ finished unset) ↔ (failed k.ec ≡ true)
unfolding all_called testhandler
waits_iff k = elim (Bool-cases (failed k.ec)) [
  | inl bad ↦
      let waits =
        promise_after k (record { checks = false ∷ []; promise = finished unset }) (rw bad refl) in
      ((λ h. bad), (λ h. waits))
  | inr fine ↦
      let held = bytes_eq (codes "request is processed!: EMULATE_LONG_CALC_OP 12") k.response in
      let ready =
        promise_after k (record { checks = held ∷ []; promise = finished (value true) })
          (rw fine refl) in
      ((λ h. absurd (cc)), (λ h. absurd (cc)))
]

right_answer :
    (callback id : ℕ)
    → all_called
        (record {
          session = 0;
          callback = callback;
          request_id = id;
          response = response_line 12;
          ec = success;
        }
          ∷ [])
        unset
      ≡ record { checks = true ∷ []; promise = finished (value true) }
unfolding all_called testhandler to_string lt_wf dec_lt bytes_eq
right_answer callback id = refl

module _ (asio : AsioError) where
  -- The test tcp_client_server_async, of a new client and any server: where neither end meets an error,
  -- its one check holds and its future is ready.
  pub async_test_passes :
      (store : ℕ → Client.Session) (ip : Bytes) (port callback id : ℕ) (d : AsyncAcceptor)
      → let c = Client.new_client store in
        let reply = response_line 12 ++ b'\n' ∷ [] in
        let c₁ = emulate_long_computation_op none 12 ip port callback id c in
        let c₂ =
          ClientSteps.handle asio (Client.connect 0) success [] (record c₁ { pending = [] }) in
        let c₃ = ClientSteps.handle asio (Client.write 0) success [] (record c₂ { pending = [] }) in
        let c₄ =
          ClientSteps.handle asio
            (Client.read_until 0)
            success
            reply
            (record c₃ { pending = [] }) in
        Serves d (c₂.sessions 0).request reply
        × (all_called c₄.calls unset
            ≡ record { checks = true ∷ []; promise = finished (value true) })
  async_test_passes store ip port callback id d =
      let both = async_exchange asio 12 ip port callback id (Client.new_client store) d refl in
      (both.0, ap (λ ks. all_called ks unset) both.1.4 ∙ right_answer callback id)
