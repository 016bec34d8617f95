-- ===== src/SyncServer/Detached.antt =====
-- asiolib/tcp-server-sync.hpp: the services of `Server<ParallelAcceptor>`, each on its detached thread.
use mathlib.Core.List.{Perm}
use mathlib.Core.List.Perm
use boost_asio_samples.Base.{
  ℕ, zero, suc, ◌+◌, ◌≤◌, ◌≡◌, refl, Option, some, none, List, [], ◌∷◌, ◌++◌, All, All-append,
  before, inl, inr, length, length-append, append_assoc, Option-cases, arith,
}
use mathlib.Core.Path.{subst}
use boost_asio_samples.Errors.{AsioError}
use boost_asio_samples.IoBuffers.Calls.{
  Socket, SocketLaws, Outcome, done, threw, endless, Result-cases,
}
use boost_asio_samples.Setup.Tried.{Tried as Attempt, returns, throws, System}
use boost_asio_samples.Setup.{create_socket, any_endpoint}
use boost_asio_samples.SyncTcp.{answer, handle_request}
use boost_asio_samples.SyncTcp.Exchange.{Exchanged, handle_request-Exchanged}
use boost_asio_samples.SyncServer.Acceptors.{
  Listener, ParallelAcceptor, accept_and_detach, detach_handle, parallel_acceptor, parallel_task,
  pick, deleted, handle_picked, handle_detached, listening_acceptor,
}
use boost_asio_samples.SyncServer.{
  Event, idle, running, Server, run_all, new_server, with_parallel_acceptor, create_parallel_server,
}
use boost_asio_samples.SyncServer.Keeping.{Ends, Holds, run_all-Holds}
use boost_asio_samples.SyncServer.Served.{
  firsts, firsts-append, Accepts, none_yet, one_more, Answered,
}

-- One element and the others.
pick_lem :
    {A : Type 0} (n : ℕ) (xs : List A) (p : A × List A)
    → pick n xs ≡ some p
    → Perm xs (p.0 ∷ p.1) × (length xs ≡ length p.1 + 1)
pick_lem n [] p e = absurd cc
pick_lem zero (x ∷ xs) p e =
    let same : (x, xs) ≡ p = cc in
    subst (λ q. Perm (x ∷ xs) (q.0 ∷ q.1) × (length (x ∷ xs) ≡ length q.1 + 1)) same
      (Perm.refl (x ∷ xs), omega arith)
pick_lem (suc n) (x ∷ xs) p e = elim (Option-cases (pick n xs)) [
  | inl none_left ↦ absurd (let e' = rw none_left at e in cc)
  | inr (q, found) ↦
      let ih = pick_lem n xs q found in
      let same : (q.0, x ∷ q.1) ≡ p = (let e' = rw found at e in cc) in
      subst (λ r. Perm (x ∷ xs) (r.0 ∷ r.1) × (length (x ∷ xs) ≡ length r.1 + 1)) same
        (Perm.trans (Perm.cons x ih.0) (Perm.swap q.0 x q.1), omega (arith, ih.1))
]

module _ (asio : AsioError) (sys : System) (k : Socket) (law : SocketLaws asio k) where
  -- What holds of the services where an exception has ended the program.
  abbrev pub Left : (l : Listener k) → ParallelAcceptor sys l → Type 0
  Left l c =
      (c.deletes + length c.detached ≤ c.services)
      × (c.services ≤ c.deletes + length c.detached + 1)
      × (c.deletes ≡ length c.answered)
      × All (Answered asio sys k law parallel_task) c.answered

  module _ (l : Listener k) (opened : l.State) where
    -- Every service that was made runs, or has answered and was deleted; what was accepted is what is
    -- served or was, in some order.
    abbrev pub Balanced : ParallelAcceptor sys l → Type 0
    Balanced c =
        (c.services ≡ c.deletes + length c.detached)
        × (c.deletes ≡ length c.answered)
        × All (Answered asio sys k law parallel_task) c.answered
        × ((accepted : List k.State) × Accepts l opened accepted c.listener
            × Perm accepted (firsts c.answered ++ c.detached))

    Balanced-Left : (c : ParallelAcceptor sys l) → Balanced c → Left l c
    Balanced-Left c h = (omega (arith, h.0), omega (arith, h.0), h.1, h.2)

    accept-Balanced :
        (c : ParallelAcceptor sys l) (made : Attempt (Unit {0}))
        → create_socket sys ≡ made
        → Balanced c
        → Ends Balanced (Left l) (accept_and_detach sys l c)
    unfolding accept_and_detach detach_handle
    accept-Balanced c (throws x) e h = rw (e, Ends) (Balanced-Left c h)
    accept-Balanced c (returns u) e h = elim (Result-cases (l.accept c.listener)) [
      | inl (code, t, e') ↦ rw (e, e', Ends) (Balanced-Left c h)
      | inr (socket, t, e') ↦
          rw (e, e', Ends)
            (
              omega (arith, h.0, length-append c.detached (socket ∷ [])),
              h.1,
              h.2,
              (
                h.3.0 ++ socket ∷ [],
                one_more socket h.3.1 e',
                subst (Perm (h.3.0 ++ socket ∷ []))
                    (append_assoc (firsts c.answered) c.detached (socket ∷ []))
                    (Perm.append_right (socket ∷ []) h.3.2),
              ),
            )
    ]

    deleted-Balanced :
        (socket : k.State) (others : List k.State) (o : Outcome k.State ℕ)
        (c : ParallelAcceptor sys l)
        → Balanced c
        → Perm c.detached (socket ∷ others)
        → length c.detached ≡ length others + 1
        → Exchanged asio k law
            (λ m. Unit)
            (answer parallel_task (before b'\n' (law.incoming socket)))
            socket
            o
        → Ends Balanced (Left l) (deleted sys l socket o (record c { detached = others }))
    deleted-Balanced socket others (done m u) c h picked fewer x = (
      omega (arith, h.0),
      omega (arith, h.1, length-append c.answered ((socket, u) ∷ [])),
      All-append (Answered asio sys k law parallel_task) c.answered ((socket, u) ∷ []) h.2
          (x.1, tt),
      (
        h.3.0,
        h.3.1,
        rw (firsts-append c.answered ((socket, u) ∷ []), append_assoc)
            (Perm.trans h.3.2 (Perm.append_left (firsts c.answered) picked)),
      ),
    )
    deleted-Balanced socket others (threw x u) c h picked fewer _ =
        (omega (arith, h.0), omega (arith, h.0), h.1, h.2)
    deleted-Balanced socket others endless c h picked fewer x = tt

    other-Balanced :
        (n : ℕ) (c : ParallelAcceptor sys l) (o : Option (k.State × List k.State))
        (r : Outcome (ParallelAcceptor sys l) (Unit {0}))
        → pick n c.detached ≡ o
        → Balanced c
        → handle_picked sys l o c ≡ some r
        → Ends Balanced (Left l) r
    other-Balanced n c none r e h is = absurd cc
    other-Balanced n c (some p) r e h is =
        let same : deleted sys l p.0 (handle_request k parallel_task p.0)
              (record c { detached = p.1 })
            ≡ r =
          cc in
        let at = pick_lem n c.detached p e in
        subst (Ends Balanced (Left l)) same (
          deleted-Balanced p.0 p.1 (handle_request k parallel_task p.0) c h at.0 at.1
            (handle_request-Exchanged asio k law parallel_task p.0))

    abbrev pub new_parallel : ParallelAcceptor sys l
    new_parallel = record {
      listener = opened;
      detached = [];
      answered = [];
      services = 0;
      deletes = 0;
    }

    new-Balanced :
        (es : List Event)
        → Holds
            (parallel_acceptor sys l)
            Balanced
            (Left l)
            (run_all es (running idle (new_server new_parallel)))
    unfolding handle_detached
    new-Balanced es =
        run_all-Holds (parallel_acceptor sys l) Balanced (Left l)
          (λ c h. accept-Balanced c (create_socket sys) refl h)
          (λ n c r h is. other-Balanced n c (pick n c.detached) r refl h is) es
          (running idle (new_server new_parallel)) (refl, refl, tt, ([], none_yet, Perm.nil))

  from_created :
      (l : Listener k) (s : Server (parallel_acceptor sys l)) (made : Attempt l.State)
      (es : List Event)
      → with_parallel_acceptor sys l made ≡ returns s
      → Holds
          (parallel_acceptor sys l)
          (Balanced l s.acceptor.listener)
          (Left l)
          (run_all es (running idle s))
  from_created l s (throws x) es e = absurd cc
  from_created l s (returns opened) es e =
      let same : new_server (new_parallel l opened) ≡ s = cc in
      subst
        (λ (t : Server (parallel_acceptor sys l)).
          Holds (parallel_acceptor sys l) (Balanced l t.acceptor.listener) (Left l)
            (run_all es (running idle t)))
        same (new-Balanced l opened es)

  -- From the constructor of a server on, in every schedule of its thread, its caller and the detached
  -- threads: every connection that was accepted is served by a service that still runs, or its first
  -- line was answered and its service was deleted once, and there are no other services. An exception
  -- that ends the program leaves at most one service more that was not deleted.
  pub parallel_server-Balanced :
      (l : Listener k) (port : ℕ) (es : List Event) (s : Server (parallel_acceptor sys l))
      → create_parallel_server sys l port ≡ returns s
      → Holds
          (parallel_acceptor sys l)
          (Balanced l s.acceptor.listener)
          (Left l)
          (run_all es (running idle s))
  unfolding create_parallel_server
  parallel_server-Balanced l port es s e =
      from_created l s (listening_acceptor l (any_endpoint sys port)) es e
