-- ===== src/TcpServer/Hosting.antt =====
-- asiolib/tcp-server-async.hpp: `AsyncServer`, which makes an acceptor and the threads that run its
-- handlers. A schedule is a list of events. `io_context::stop` lets no thread run a further handler, and
-- nothing calls `restart`.
use boost_asio_samples.Base.{
  ℕ, zero, suc, ◌≡◌, refl, ap, Bool, true, false, Option, none, some, List, [], ◌∷◌, ◌++◌, ◌⊎◌, inl,
  inr, Bytes, if◌then◌else◌,
}
use boost_asio_samples.Errors.{ErrorCode}
use boost_asio_samples.TcpServer.Connections
use boost_asio_samples.TcpServer.Connections.{AsyncAcceptor, Op, new_acceptor}
use boost_asio_samples.TcpServer.{init, stop, thread_pool_size}
use boost_asio_samples.TcpServer.Steps.{handle}

-- A thread of the pool: in `run`, back from it, or joined.
pub data PoolThread : Type 0 where
  in_run returned joined : PoolThread

-- `stopped` is what `ioc_.stop()` sets; `acceptor` is null until `Start`.
pub record AsyncServer : Type 0 where
  pub acceptor : Option AsyncAcceptor
  pub stopped : Bool
  pub thread_pool : List PoolThread

-- A server; or a program in which `Stop` has used the null pointer, or `Start` has destroyed an acceptor
-- to which a handler that will still run points.
pub data Hosted : Type 0 where
  hosted : AsyncServer → Hosted
  null_used dangling : Hosted

abbrev pub new_async_server : AsyncServer
new_async_server = record { acceptor = none; stopped = false; thread_pool = [] }

-- `emplace_back` of a number of threads.
abbrev emplace : ℕ → List PoolThread → List PoolThread
emplace zero ts = ts
emplace (suc n) ts = emplace n (ts ++ in_run ∷ [])

-- What the calls in `Start` throw, if they do: the constructor of the acceptor, and its `listen`.
pub record Thrown : Type 0 where
  pub open_error : Option ErrorCode
  pub listen_error : Option ErrorCode

-- The acceptor and the threads that `AsyncServer::Start` makes.
abbrev pub started_server : Option ErrorCode → Option ErrorCode → ℕ → AsyncServer → AsyncServer
started_server (some e) l size s = s
started_server none (some e) size s = record s { acceptor = some new_acceptor }
started_server none none size s = record s {
  acceptor = some (init new_acceptor);
  thread_pool = emplace (thread_pool_size size) s.thread_pool;
}

-- The operations of an acceptor that is replaced run no handler where the context is stopped.
abbrev pub replaced : Option ErrorCode → Option AsyncAcceptor → Bool → AsyncServer → Hosted
replaced none (some c) false s = dangling
replaced e c b s = hosted s

-- `AsyncServer::Start`
unfoldable pub start_server : Thrown → ℕ → AsyncServer → Hosted
start_server thrown size s =
    replaced thrown.open_error s.acceptor s.stopped
      (started_server thrown.open_error thrown.listen_error size s)

-- `AsyncServer::Stop`, until it waits for the first thread
unfoldable pub stop_server : AsyncServer → Hosted
stop_server s = elim s.acceptor [
  | none ↦ null_used
  | some c ↦ hosted (record s { acceptor = some (stop c); stopped = true })
]

-- The loop of `Stop`: it joins the first thread that can be joined, if that has returned.
unfoldable pub join_pool : List PoolThread → List PoolThread
join_pool [] = []
join_pool (joined ∷ ts) = joined ∷ join_pool ts
join_pool (returned ∷ ts) = joined ∷ ts
join_pool (in_run ∷ ts) = in_run ∷ ts

abbrev pub runs : List PoolThread → Bool
runs [] = false
runs (in_run ∷ ts) = true
runs (t ∷ ts) = runs ts

-- The first thread that is in `run` returns.
abbrev pub leave : List PoolThread → List PoolThread
leave [] = []
leave (in_run ∷ ts) = returned ∷ ts
leave (t ∷ ts) = t ∷ leave ts

-- The operation of a number, and the others.
abbrev pub taken : ℕ → List Op → Option (Op × List Op)
taken n [] = none
taken zero (op ∷ ops) = some (op, ops)
taken (suc n) (op ∷ ops) = elim (taken n ops) [ none ↦ none | some p ↦ some (p.0, op ∷ p.1) ]

abbrev pub completed : Option (Op × List Op) → ErrorCode → Bytes → AsyncAcceptor → AsyncAcceptor
completed none ec bytes c = c
completed (some p) ec bytes c = handle p.0 ec bytes (record c { pending = p.1 })

-- A thread runs the handler of one operation, where one is in `run` and the context is not stopped.
unfoldable pub run_handler : ℕ → ErrorCode → Bytes → AsyncServer → AsyncServer
run_handler n ec bytes s =
    if s.stopped
    then s
    else if runs s.thread_pool
    then record s {
      acceptor = elim s.acceptor [
        | none ↦ none
        | some c ↦ some (completed (taken n c.pending) ec bytes c)
      ];
    }
    else s

pub data Event : Type 0 where
  starting : Thrown → ℕ → Event
  stopping joining leaving : Event
  handling : ℕ → ErrorCode → Bytes → Event

unfoldable pub step : Event → Hosted → Hosted
step e null_used = null_used
step e dangling = dangling
step (starting thrown size) (hosted s) = start_server thrown size s
step stopping (hosted s) = stop_server s
step joining (hosted s) = hosted (record s { thread_pool = join_pool s.thread_pool })
step leaving (hosted s) =
    hosted (if s.stopped then record s { thread_pool = leave s.thread_pool } else s)
step (handling n ec bytes) (hosted s) = hosted (run_handler n ec bytes s)

unfoldable pub run_all : List Event → Hosted → Hosted
run_all [] h = h
run_all (e ∷ es) h = run_all es (step e h)

-- The acceptor of a server that was stopped: as it was at `Stop`, or a new one that has served nobody.
abbrev pub Silent : AsyncAcceptor → AsyncAcceptor → Type 0
Silent c d = (d ≡ stop c) ⊎ (d.next ≡ 0)

-- The context is stopped, and the acceptor serves nobody any more.
abbrev pub Quiet : AsyncAcceptor → Hosted → Type 0
Quiet c (hosted s) = (s.stopped ≡ true) × ((d : AsyncAcceptor) × (s.acceptor ≡ some d) × Silent c d)
Quiet c null_used = ⊥
Quiet c dangling = ⊥

stop-Silent : (c d : AsyncAcceptor) → Silent c d → Silent c (stop d)
unfolding stop
stop-Silent c d (inl e) = inl (ap stop e)
stop-Silent c d (inr e) = inr e

start-Quiet :
    (c : AsyncAcceptor) (o l : Option ErrorCode) (size : ℕ) (s : AsyncServer)
    → Quiet c (hosted s)
    → Quiet c (replaced o s.acceptor s.stopped (started_server o l size s))
unfolding init Connections.start
start-Quiet c (some e) l size s q = q
start-Quiet c none (some e) size s q = rw (q.0, q.1.1, Quiet) (refl, (new_acceptor, refl, inr refl))
start-Quiet c none none size s q =
    rw (q.0, q.1.1, Quiet) (refl, (init new_acceptor, refl, inr refl))

step-Quiet : (c : AsyncAcceptor) (e : Event) (h : Hosted) → Quiet c h → Quiet c (step e h)
unfolding step stop_server run_handler start_server
step-Quiet c (starting thrown size) (hosted s) q =
    start-Quiet c thrown.open_error thrown.listen_error size s q
step-Quiet c stopping (hosted s) q =
    rw (q.1.1, Quiet) (refl, (stop q.1.0, refl, stop-Silent c q.1.0 q.1.2))
step-Quiet c joining (hosted s) q = q
step-Quiet c leaving (hosted s) q = rw (q.0, Quiet) (refl, q.1)
step-Quiet c (handling n ec bytes) (hosted s) q = rw (q.0, Quiet) (refl, q.1)
step-Quiet c e null_used q = elim q [ ]
step-Quiet c e dangling q = elim q [ ]

run_all-Quiet :
    (c : AsyncAcceptor) (es : List Event) (h : Hosted) → Quiet c h → Quiet c (run_all es h)
unfolding run_all
run_all-Quiet c [] h q = q
run_all-Quiet c (e ∷ es) h q = run_all-Quiet c es (step e h) (step-Quiet c e h q)

-- A server that was started is silent from `Stop` on, whatever follows, a later `Start` included: no
-- handler runs any more, so that no connection is accepted and no request that waits is answered.
pub stopped_host_silent :
    (es : List Event) (s : AsyncServer) (c : AsyncAcceptor)
    → s.acceptor ≡ some c
    → Quiet c (run_all es (stop_server s))
unfolding stop_server
stopped_host_silent es s c made =
    run_all-Quiet c es (stop_server s) (rw (made, Quiet) (refl, (stop c, refl, inl refl)))
