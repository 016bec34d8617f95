-- ===== src/AsyncExchange.antt =====
-- asiolib/tcp-client-async.hpp against asiolib/tcp-server-async.hpp, as in
-- basics/tcp-client-server-async.cpp.
mod Tests
use boost_asio_samples.Base.{
  ℕ, ◌+◌, ◌≡◌, refl, ap, sym, ◌∙◌, Bool, true, List, [], ◌∷◌, ◌++◌, Bytes, codes, none, Without,
  Without-append, free-Without, append_assoc, if◌then◌else◌, Bool-cases, inl, inr,
}
use mathlib.Core.Path.{subst}
use boost_asio_samples.Decimal.{to_string}
use boost_asio_samples.Decimal.RoundTrip.{to_string-Without}
use boost_asio_samples.Errors.{AsioError, success}
use boost_asio_samples.TcpClient.{emulate_long_computation_op, request_text}
use boost_asio_samples.TcpClient.Sessions as Client
use boost_asio_samples.TcpClient.Sessions.{AsyncTcpClient}
use boost_asio_samples.TcpClient.Steps as ClientSteps
use boost_asio_samples.TcpClient.Active.{Answered, answered, going_on, begin_stored}
use boost_asio_samples.TcpClient.Reuse.{self_eq}
use boost_asio_samples.TcpServer.{
  processed, on_accept, serve, init, recieve_request, send_answer, clean, process_request,
}
use boost_asio_samples.TcpServer.Connections as Server
use boost_asio_samples.TcpServer.Connections.{AsyncAcceptor}
use boost_asio_samples.TcpServer.Steps as ServerSteps
use boost_asio_samples.TcpServer.Stopping.{request_answered}

-- The request without its line end.
abbrev request_line : ℕ → Bytes
request_line duration = codes "EMULATE_LONG_CALC_OP " ++ to_string duration

-- What the callback of the client is given, and what the server writes.
abbrev pub response_line : ℕ → Bytes
response_line duration = codes "request is processed!: " ++ request_line duration

request_line-Without : (duration : ℕ) → Without b'\n' (request_line duration)
request_line-Without duration =
    Without-append b'\n' (codes "EMULATE_LONG_CALC_OP ") (to_string duration)
      (free-Without b'\n' (codes "EMULATE_LONG_CALC_OP ") refl)
      (to_string-Without b'\n' duration refl)

response_line-Without : (duration : ℕ) → Without b'\n' (response_line duration)
response_line-Without duration =
    Without-append b'\n' (codes "request is processed!: ") (request_line duration)
      (free-Without b'\n' (codes "request is processed!: ") refl) (request_line-Without duration)

-- What an acceptor waits for when it has accepted a connection: for the next one, unless it was stopped.
abbrev pub accepts_again : AsyncAcceptor → List Server.Op
accepts_again c = if c.stop_flag then [] else Server.accept ∷ []

accept_lem :
    (c : AsyncAcceptor)
    → let d = ServerSteps.handle Server.accept success [] c in
      (d.pending ≡ c.pending ++ Server.read_until c.next ∷ accepts_again c)
      × (d.services ≡ (serve c).services)
unfolding ServerSteps.handle on_accept serve init Server.start
accept_lem c = elim (Bool-cases c.stop_flag) [
  | inl stopped ↦ rw stopped (refl, refl)
  | inr goes_on ↦
      rw goes_on (append_assoc c.pending (Server.read_until c.next ∷ []) (Server.accept ∷ []), refl)
]

accept_new :
    (c : AsyncAcceptor)
    → ((ServerSteps.handle Server.accept success [] c).services c.next) ≡ Server.new_service
unfolding serve Server.start
accept_new c =
    ap (λ (f : ℕ → Server.ServiceFakeAsync). f c.next) (accept_lem c).1 ∙ rw (self_eq c.next) refl

-- The server at one connection: it accepts it and waits for its request, which brings it to write the
-- reply and nothing else; once that is written, the service is deleted. Each handler runs with its own
-- operation taken out of those that wait.
abbrev pub Serves : AsyncAcceptor → Bytes → Bytes → Type 0
Serves d request reply =
    let others = d.pending ++ accepts_again d in
    let d₁ = ServerSteps.handle Server.accept success [] d in
    let d₂ =
      ServerSteps.handle (Server.read_until d.next) success request
        (record d₁ { pending = others }) in
    let d₃ =
      ServerSteps.handle (Server.write d.next reply) success [] (record d₂ { pending = others }) in
    (d₁.pending ≡ d.pending ++ Server.read_until d.next ∷ accepts_again d)
    × (d₂.pending ≡ others ++ Server.write d.next reply ∷ [])
    × (d₃.pending ≡ others)
    × ((d₃.services d.next).deletes ≡ 1)

-- A request that is answered, and its answer that is written, delete the service once.
answered_deletes :
    (a : ℕ) (request reply : Bytes) (ops : List Server.Op) (c : AsyncAcceptor)
    → (c.services a).deletes ≡ 0
    → let d = ServerSteps.handle (Server.read_until a) success request c in
      ((ServerSteps.handle (Server.write a reply) success [] (record d { pending = ops })).services
        a).deletes
      ≡ 1
unfolding ServerSteps.handle recieve_request send_answer clean process_request Server.start
answered_deletes a request reply ops c zero = rw (self_eq a) (ap (λ n. n + 1) zero)

written_pending :
    (a : ℕ) (reply : Bytes) (c : AsyncAcceptor)
    → (ServerSteps.handle (Server.write a reply) success [] c).pending ≡ c.pending
unfolding ServerSteps.handle send_answer clean
written_pending a reply c = refl

line-Serves :
    (line : Bytes) (d : AsyncAcceptor)
    → Without b'\n' line
    → Serves d (line ++ b'\n' ∷ []) (processed line)
line-Serves line d plain =
    let others = d.pending ++ accepts_again d in
    let d₁ = ServerSteps.handle Server.accept success [] d in
    let left = record d₁ { pending = others } in
    let request = line ++ b'\n' ∷ [] in
    let d₂ = ServerSteps.handle (Server.read_until d.next) success request left in
    (
      (accept_lem d).0,
      request_answered d.next line [] left
          (ap (λ (s : Server.ServiceFakeAsync). s.buffer) (accept_new d)) plain,
      written_pending d.next (processed line) (record d₂ { pending = others }),
      answered_deletes d.next request (processed line) others left
          (ap (λ (s : Server.ServiceFakeAsync). s.deletes) (accept_new d)),
    )

module _ (asio : AsioError) where
  -- What the first write of a request sends.
  sent :
      (duration : ℕ) (ip : Bytes) (port callback id : ℕ) (c : AsyncTcpClient)
      → let c₁ = emulate_long_computation_op none duration ip port callback id c in
        ((ClientSteps.handle asio
            (Client.connect c.next)
            success
            []
            (record c₁ { pending = [] })).sessions
          c.next).request
        ≡ request_line duration ++ b'\n' ∷ []
  unfolding ClientSteps.handle Client.start
  sent duration ip port callback id c =
      let c₁ = emulate_long_computation_op none duration ip port callback id c in
      let stored = begin_stored asio duration ip port callback id c in
      let steps =
        going_on asio c.next (record c₁ { pending = [] })
          (ap (λ (s : Client.Session). s.was_cancelled) stored) in
      ap (λ (t : AsyncTcpClient). (t.sessions c.next).request) steps.0
      ∙ ap (λ (s : Client.Session). s.request) stored

  -- A request is begun when no other waits, its connection is accepted and neither end meets an error:
  -- the server then waits for the request of this connection; what the client writes makes it write an
  -- answer, after which the service of the connection is deleted; and that answer makes the client call
  -- its callback once, with the text of the server and the request, and the number is free again.
  pub async_exchange :
      (duration : ℕ) (ip : Bytes) (port callback id : ℕ) (c : AsyncTcpClient) (d : AsyncAcceptor)
      → c.pending ≡ []
      → let a = c.next in
        let reply = response_line duration ++ b'\n' ∷ [] in
        let c₁ = emulate_long_computation_op none duration ip port callback id c in
        let c₂ =
          ClientSteps.handle asio (Client.connect a) success [] (record c₁ { pending = [] }) in
        let c₃ = ClientSteps.handle asio (Client.write a) success [] (record c₂ { pending = [] }) in
        let c₄ =
          ClientSteps.handle asio
            (Client.read_until a)
            success
            reply
            (record c₃ { pending = [] }) in
        Serves d (c₂.sessions a).request reply
        × Answered asio a callback id (response_line duration) c c₁ c₂ c₃ c₄
  async_exchange duration ip port callback id c d idle = (
    rw (sent duration ip port callback id c)
        (line-Serves (request_line duration) d (request_line-Without duration)),
    answered asio duration ip port callback id (response_line duration) [] c idle
        (response_line-Without duration),
  )
