-- ===== src/SyncServer/Served.antt =====
-- asiolib/tcp-server-sync.hpp: what `Server<AcceptorCl>` with `ServiceFake` has done for its clients.
use boost_asio_samples.Base.{
  ℕ, ◌≡◌, refl, ap, List, [], ◌∷◌, ◌++◌, All, All-append, Bytes, before, inl, inr,
}
use mathlib.Core.Path.{subst}
use boost_asio_samples.Errors.{AsioError}
use boost_asio_samples.IoBuffers.Calls.{
  Socket, SocketLaws, Outcome, done, threw, endless, returned, Result-cases,
}
use boost_asio_samples.Setup.Tried.{Tried as Attempt, returns, throws, System}
use boost_asio_samples.Setup.{create_socket, any_endpoint}
use boost_asio_samples.SyncTcp.{answer, handle_request}
use boost_asio_samples.SyncTcp.Exchange.{Exchanged, handle_request-Exchanged}
use boost_asio_samples.SyncServer.Acceptors.{
  Listener, AcceptorCl, accept_and_serve, acceptor_cl, service_fake, handled, listening_acceptor,
}
use boost_asio_samples.SyncServer.{
  Server, Event, idle, running, run_all, new_server, with_acceptor_cl, create_server,
}
use boost_asio_samples.SyncServer.Keeping.{Ends, Holds, run_all-Holds}

abbrev pub firsts : {A B : Type 0} → List (A × B) → List A
firsts [] = []
firsts (p ∷ ps) = p.0 ∷ firsts ps

pub firsts-append :
    {A B : Type 0} (ps qs : List (A × B)) → firsts (ps ++ qs) ≡ firsts ps ++ firsts qs
firsts-append [] qs = refl
firsts-append (p ∷ ps) qs = ap (◌∷◌ p.0) (firsts-append ps qs)

-- The connections that a listening socket has accepted, in order.
pub data Accepts {k : Socket} (l : Listener k) (s : l.State) : List k.State → l.State → Type 0 where
  none_yet : Accepts l s [] s
  one_more :
      {xs : List k.State} {t u : l.State} (socket : k.State)
      → Accepts l s xs t
      → l.accept t ≡ returned socket u
      → Accepts l s (xs ++ socket ∷ []) u

module _ (asio : AsioError) (sys : System) (k : Socket) (law : SocketLaws asio k) where
  -- The first line that the client sent was answered behind the text of the service.
  abbrev pub Answered : Bytes → k.State × k.State → Type 0
  Answered task p = law.sent p.1 ≡ law.sent p.0 ++ answer task (before b'\n' (law.incoming p.0))

  abbrev pub AllAnswered : (l : Listener k) (task : Bytes) → AcceptorCl sys l → Type 0
  AllAnswered l task c = All (Answered task) c.served

  module _ (l : Listener k) (task : Bytes) (opened : l.State) where
    abbrev pub Serves : AcceptorCl sys l → Type 0
    Serves c = Accepts l opened (firsts c.served) c.listener × All (Answered task) c.served

    -- A service that returned has answered.
    handled-Serves :
        (socket : k.State) (o : Outcome k.State ℕ) (c : AcceptorCl sys l) (t : l.State)
        → Serves c
        → l.accept c.listener ≡ returned socket t
        → Exchanged asio k law
            (λ m. Unit)
            (answer task (before b'\n' (law.incoming socket)))
            socket
            o
        → Ends Serves (AllAnswered l task) (
            handled sys l socket
              (elim o [ done m u ↦ done tt u | threw x u ↦ threw x u | endless ↦ endless ])
              (record c { listener = t }))
    handled-Serves socket (done m u) c t h e x = (
      rw (firsts-append c.served ((socket, u) ∷ [])) (one_more socket h.0 e),
      All-append (Answered task) c.served ((socket, u) ∷ []) h.1 (x.1, tt),
    )
    handled-Serves socket (threw x u) c t h e k = h.1
    handled-Serves socket endless c t h e k = tt

    accept-Serves :
        (c : AcceptorCl sys l) (made : Attempt (Unit {0}))
        → create_socket sys ≡ made
        → Serves c
        → Ends Serves (AllAnswered l task) (accept_and_serve sys l (service_fake k task) c)
    unfolding accept_and_serve
    accept-Serves c (throws x) e h = rw (e, Ends) h.1
    accept-Serves c (returns u) e h = elim (Result-cases (l.accept c.listener)) [
      | inl (code, t, e') ↦ rw (e, e', Ends) h.1
      | inr (socket, t, e') ↦
          rw (e, e', Ends)
            (handled-Serves socket (handle_request k task socket) c t h e'
              (handle_request-Exchanged asio k law task socket))
    ]

    new-Serves :
        (es : List Event)
        → Holds
            (acceptor_cl sys l (service_fake k task))
            Serves
            (AllAnswered l task)
            (run_all es (running idle (new_server (record { listener = opened; served = [] }))))
    new-Serves es =
        run_all-Holds (acceptor_cl sys l (service_fake k task)) Serves (AllAnswered l task)
          (λ c h. accept-Serves c (create_socket sys) refl h) (λ n c r h e. absurd cc) es
          (running idle (new_server (record { listener = opened; served = [] }))) (none_yet, tt)

  from_created :
      (l : Listener k) (task : Bytes) (s : Server (acceptor_cl sys l (service_fake k task)))
      (made : Attempt l.State) (es : List Event)
      → with_acceptor_cl sys l (service_fake k task) made ≡ returns s
      → Holds
          (acceptor_cl sys l (service_fake k task))
          (Serves l task s.acceptor.listener)
          (AllAnswered l task)
          (run_all es (running idle s))
  from_created l task s (throws x) es e = absurd cc
  from_created l task s (returns opened) es e =
      let same : new_server (record { listener = opened; served = [] }) ≡ s = cc in
      subst
        (λ (t : Server (acceptor_cl sys l (service_fake k task))).
          Holds (acceptor_cl sys l (service_fake k task)) (Serves l task t.acceptor.listener)
            (AllAnswered l task) (run_all es (running idle t)))
        same (new-Serves l task opened es)

  -- From the constructor of a server on, in every schedule of its thread and its caller: the
  -- connections it has served are those that its socket accepted, in order and without a gap, and the
  -- first line of each was answered. Where an exception has ended the program, those that it had
  -- served before were answered.
  pub server-Serves :
      (l : Listener k) (task : Bytes) (port : ℕ) (es : List Event)
      (s : Server (acceptor_cl sys l (service_fake k task)))
      → create_server sys l (service_fake k task) port ≡ returns s
      → Holds
          (acceptor_cl sys l (service_fake k task))
          (Serves l task s.acceptor.listener)
          (AllAnswered l task)
          (run_all es (running idle s))
  unfolding create_server
  server-Serves l task port es s e =
      from_created l task s (listening_acceptor l (any_endpoint sys port)) es e
