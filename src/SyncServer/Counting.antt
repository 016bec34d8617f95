-- ===== src/SyncServer/Counting.antt =====
-- asiolib/tcp-server-sync.hpp: how many connections one `Accept` of each acceptor serves, and that it
-- returns or throws.
use boost_asio_samples.Base.{
  ℕ, ◌+◌, ◌≤◌, ◌≡◌, refl, Option, some, none, List, [], ◌∷◌, Bytes, before, inl, inr, length,
  length-append, arith,
}
use mathlib.Core.Path.{subst}
use boost_asio_samples.Errors.{AsioError}
use boost_asio_samples.IoBuffers.Calls.{
  Socket, SocketLaws, Action, Outcome, done, threw, endless, Result-cases,
}
use boost_asio_samples.Setup.Tried.{Tried as Attempt, returns, throws, System}
use boost_asio_samples.Setup.{create_socket}
use boost_asio_samples.SyncTcp.{answer, handle_request}
use boost_asio_samples.SyncTcp.Exchange.{handle_request-Exchanged, Exchanged}
use boost_asio_samples.SyncServer.Acceptors.{
  Listener, AcceptorCl, accept_and_serve, acceptor_cl, service_fake, handled, ParallelAcceptor,
  accept_and_detach, detach_handle, parallel_acceptor, parallel_task, pick, deleted, handle_picked,
  handle_detached,
}
use boost_asio_samples.SyncServer.Stopping.{AcceptorLaws, Leaves}
use boost_asio_samples.SyncServer.Returning.{Finishes}

module _ (sys : System) {k : Socket} (l : Listener k) where
  handled_counts :
      (socket : k.State) (o : Outcome k.State (Unit {0})) (c : AcceptorCl sys l) (t : l.State)
      → Leaves
          (λ (d : AcceptorCl sys l). length d.served ≤ length c.served + 1)
          (handled sys l socket o (record c { listener = t }))
  handled_counts socket (done u t) c s = omega (arith, length-append c.served ((socket, t) ∷ []))
  handled_counts socket (threw x t) c s = omega arith
  handled_counts socket endless c s = tt

  accept_counts :
      (service : Action k.State (Unit {0})) (c : AcceptorCl sys l) (made : Attempt (Unit {0}))
      → create_socket sys ≡ made
      → Leaves
          (λ (d : AcceptorCl sys l). length d.served ≤ length c.served + 1)
          (accept_and_serve sys l service c)
  unfolding accept_and_serve
  accept_counts service c (throws x) e = rw (e, Leaves) (omega arith)
  accept_counts service c (returns u) e = elim (Result-cases (l.accept c.listener)) [
    | inl (code, t, e') ↦ rw (e, e', Leaves) (omega arith)
    | inr (socket, t, e') ↦ rw (e, e', Leaves) (handled_counts socket (service socket) c t)
  ]

  pub acceptor_cl_laws :
      (service : Action k.State (Unit {0})) → AcceptorLaws (acceptor_cl sys l service)
  acceptor_cl_laws service = record {
    served = λ c. length c.served;
    accept_lem = λ c. accept_counts service c (create_socket sys) refl;
    other_lem = λ n c o e. absurd cc;
  }

  detach_counts :
      (c : ParallelAcceptor sys l) (made : Attempt (Unit {0}))
      → create_socket sys ≡ made
      → Leaves
          (λ (d : ParallelAcceptor sys l). d.services ≤ c.services + 1)
          (accept_and_detach sys l c)
  unfolding accept_and_detach detach_handle
  detach_counts c (throws x) e = rw (e, Leaves) (omega arith)
  detach_counts c (returns u) e = elim (Result-cases (l.accept c.listener)) [
    | inl (code, t, e') ↦ rw (e, e', Leaves) (omega arith)
    | inr (socket, t, e') ↦ rw (e, e', Leaves) (omega arith)
  ]

  deleted_counts :
      (socket : k.State) (o : Outcome k.State ℕ) (c d : ParallelAcceptor sys l)
      → d.services ≡ c.services
      → Leaves (λ (e : ParallelAcceptor sys l). e.services ≡ c.services) (deleted sys l socket o d)
  deleted_counts socket (done m u) c d h = h
  deleted_counts socket (threw x u) c d h = h
  deleted_counts socket endless c d h = tt

  other_counts :
      (n : ℕ) (c : ParallelAcceptor sys l) (p : Option (k.State × List k.State))
      (r : Outcome (ParallelAcceptor sys l) (Unit {0}))
      → handle_picked sys l p c ≡ some r
      → Leaves (λ (e : ParallelAcceptor sys l). e.services ≡ c.services) r
  other_counts n c none r e = absurd cc
  other_counts n c (some p) r e =
      let d = record c { detached = p.1 } in
      let same : deleted sys l p.0 (handle_request k parallel_task p.0) d ≡ r = cc in
      subst (Leaves (λ (e : ParallelAcceptor sys l). e.services ≡ c.services)) same
        (deleted_counts p.0 (handle_request k parallel_task p.0) c d refl)

  pub parallel_acceptor_laws : AcceptorLaws (parallel_acceptor sys l)
  unfolding handle_detached
  parallel_acceptor_laws = record {
    served = λ c. c.services;
    accept_lem = λ c. detach_counts c (create_socket sys) refl;
    other_lem = λ n c o e. other_counts n c (pick n c.detached) o e;
  }

module _ (asio : AsioError) (sys : System) (k : Socket) (law : SocketLaws asio k)
    (l : Listener k) where
  handled-Finishes :
      (bytes : Bytes) (socket : k.State) (o : Outcome k.State ℕ) (c : AcceptorCl sys l)
      → Exchanged asio k law (λ m. Unit) bytes socket o
      → Finishes (
          handled sys l socket
            (elim o [ done m u ↦ done tt u | threw x u ↦ threw x u | endless ↦ endless ])
            c)
  handled-Finishes bytes socket (done m u) c h = tt
  handled-Finishes bytes socket (threw x u) c h = tt
  handled-Finishes bytes socket endless c h = elim h [ ]

  pub accept-Finishes :
      (task : Bytes) (c : AcceptorCl sys l) (made : Attempt (Unit {0}))
      → create_socket sys ≡ made
      → Finishes (accept_and_serve sys l (service_fake k task) c)
  unfolding accept_and_serve
  accept-Finishes task c (throws x) e = rw (e, Finishes) tt
  accept-Finishes task c (returns u) e = elim (Result-cases (l.accept c.listener)) [
    | inl (code, t, e') ↦ rw (e, e', Finishes) tt
    | inr (socket, t, e') ↦
        rw (e, e', Finishes)
          (handled-Finishes (answer task (before b'\n' (law.incoming socket))) socket
            (handle_request k task socket) (record c { listener = t })
            (handle_request-Exchanged asio k law task socket))
  ]
