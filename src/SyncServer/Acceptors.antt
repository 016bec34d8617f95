-- ===== src/SyncServer/Acceptors.antt =====
-- asiolib/tcp-server-sync.hpp: the acceptors, which are the type parameter `T` of `Server`. `AcceptorCl`
-- serves a connection before it accepts the next one; `ParallelAcceptor` gives each connection a service
-- of its own on a detached thread.
use boost_asio_samples.Base.{
  ℕ, zero, suc, ◌+◌, Option, some, none, List, [], ◌∷◌, ◌++◌, ◌⊎◌, inl, inr, Bytes, codes,
}
use boost_asio_samples.Errors.{ErrorCode}
use boost_asio_samples.IoBuffers.Calls.{
  Socket, Action, Outcome, system_error, Result, failed_with, returned, done, threw, endless, ◌>>=◌,
  ◌>>◌,
}
use boost_asio_samples.Setup.Tried as Attempts
use boost_asio_samples.Setup.Tried.{Tried as Attempt, returns, throws, Endpoint, System}
use boost_asio_samples.Setup.{create_socket}
use boost_asio_samples.SyncTcp.{handle_request}

-- What `Server` asks of an acceptor: `Accept`, which its thread calls. The threads that the acceptor has
-- detached run beside: `other` lets the one of a number run to its end.
pub record Acceptor : Type 1 where
  pub State : Type 0
  pub accept : Action State (Unit {0})
  pub other : ℕ → State → Option (Outcome State (Unit {0}))

-- The calls of Asio on a listening socket: the constructor that opens and binds it, `listen`, and
-- `accept`, which connects a new socket.
pub record Listener (k : Socket) : Type 1 where
  pub State : Type 0
  pub open_at : Endpoint → ErrorCode ⊎ State
  pub listen : ℕ → State → Result State (Unit {0})
  pub accept : State → Result State k.State

-- A function that throws or returns as a part of one that keeps a state.
abbrev pub attempt : {S A : Type 0} → Attempt A → Action S A
attempt (returns a) s = done a s
attempt (throws x) s = threw x s

abbrev pub backlog_size : ℕ
backlog_size = 10

module _ {k : Socket} (l : Listener k) where
  -- `CreateAndOpenAcceptor` of an end point, and `listen`
  abbrev created : ErrorCode ⊎ l.State → Attempt l.State
  created (inl e) = throws (system_error e)
  created (inr s) = returns s

  abbrev listens : Result l.State (Unit {0}) → Attempt l.State
  listens (failed_with e s) = throws (system_error e)
  listens (returned u s) = returns s

  unfoldable pub create_and_open_acceptor_at : Endpoint → Attempt l.State
  create_and_open_acceptor_at endpoint = created (l.open_at endpoint)

  unfoldable pub listening_acceptor : Endpoint → Attempt l.State
  listening_acceptor endpoint =
      Attempts.◌>>=◌ (create_and_open_acceptor_at endpoint) λ s. listens (l.listen backlog_size s)

-- `ServiceFake::HandleRequest` as the `Service` that an acceptor is given.
abbrev pub service_fake : (k : Socket) → Bytes → Action k.State (Unit {0})
service_fake k task = handle_request k task >> λ s. done tt s

module _ (sys : System) {k : Socket} (l : Listener k) where
  -- `served` has each connection as it was accepted and as its service left it.
  pub record AcceptorCl : Type 0 where
    pub listener : l.State
    pub served : List (k.State × k.State)

  abbrev accepted : Result l.State k.State → AcceptorCl → Outcome AcceptorCl k.State
  accepted (failed_with e t) c = threw (system_error e) (record c { listener = t })
  accepted (returned socket t) c = done socket (record c { listener = t })

  -- The socket is local: where the service throws, it is gone.
  abbrev pub handled :
      k.State → Outcome k.State (Unit {0}) → AcceptorCl → Outcome AcceptorCl (Unit {0})
  handled socket (done u t) c = done tt (record c { served = c.served ++ (socket, t) ∷ [] })
  handled socket (threw x t) c = threw x c
  handled socket endless c = endless

  -- `AcceptorCl::Accept`
  unfoldable pub accept_and_serve : Action k.State (Unit {0}) → Action AcceptorCl (Unit {0})
  accept_and_serve service = do
    attempt (create_socket sys)
    socket ← λ c. accepted (l.accept c.listener) c
    λ c. handled socket (service socket) c

  abbrev pub acceptor_cl : Action k.State (Unit {0}) → Acceptor
  acceptor_cl service = record {
    State = AcceptorCl;
    accept = accept_and_serve service;
    other = λ n s. none;
  }

  -- `detached` has the connections whose threads still run, `answered` those whose threads have ended.
  -- `services` counts the calls of `new ServiceFake`, `deletes` those of `delete this`.
  pub record ParallelAcceptor : Type 0 where
    pub listener : l.State
    pub detached : List k.State
    pub answered : List (k.State × k.State)
    pub services : ℕ
    pub deletes : ℕ

  abbrev connected : Result l.State k.State → ParallelAcceptor → Outcome ParallelAcceptor k.State
  connected (failed_with e t) c = threw (system_error e) (record c { listener = t })
  connected (returned socket t) c = done socket (record c { listener = t })

  -- `new ServiceFake`, and `DetachHandle`, which starts its thread
  unfoldable pub detach_handle : k.State → Action ParallelAcceptor (Unit {0})
  detach_handle socket c =
      done tt (record c { services = c.services + 1; detached = c.detached ++ socket ∷ [] })

  -- `ParallelAcceptor::Accept`
  unfoldable pub accept_and_detach : Action ParallelAcceptor (Unit {0})
  accept_and_detach = do
    attempt (create_socket sys)
    socket ← λ c. connected (l.accept c.listener) c
    detach_handle socket

abbrev pub parallel_task : Bytes
parallel_task = codes "Task will be done: "

abbrev pub pick : {A : Type 0} → ℕ → List A → Option (A × List A)
pick n [] = none
pick zero (x ∷ xs) = some (x, xs)
pick (suc n) (x ∷ xs) = elim (pick n xs) [ none ↦ none | some p ↦ some (p.0, x ∷ p.1) ]

module _ (sys : System) {k : Socket} (l : Listener k) where
  -- The end of `HandleRequest` of a shared pointer: `delete this`, which an exception leaves out.
  abbrev pub deleted :
      k.State
      → Outcome k.State ℕ
      → ParallelAcceptor sys l
      → Outcome (ParallelAcceptor sys l) (Unit {0})
  deleted socket (done m t) c =
      done tt (record c { deletes = c.deletes + 1; answered = c.answered ++ (socket, t) ∷ [] })
  deleted socket (threw x t) c = threw x c
  deleted socket endless c = endless

  abbrev pub handle_picked :
      Option (k.State × List k.State)
      → ParallelAcceptor sys l
      → Option (Outcome (ParallelAcceptor sys l) (Unit {0}))
  handle_picked none c = none
  handle_picked (some p) c =
      some (deleted p.0 (handle_request k parallel_task p.0) (record c { detached = p.1 }))

  -- The thread of one of the connections runs `HandleRequest` to its end.
  unfoldable pub handle_detached :
      ℕ → ParallelAcceptor sys l → Option (Outcome (ParallelAcceptor sys l) (Unit {0}))
  handle_detached n c = handle_picked (pick n c.detached) c

  abbrev pub parallel_acceptor : Acceptor
  parallel_acceptor = record {
    State = ParallelAcceptor sys l;
    accept = accept_and_detach sys l;
    other = handle_detached;
  }
