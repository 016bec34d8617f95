-- ===== src/SyncServer.antt =====
-- asiolib/tcp-server-sync.hpp: `Server` with its thread and its flag, over any acceptor. A schedule is a
-- list of events: what the caller of `Start` and `Stop` does, and how far the other threads come.
pub mod Acceptors
pub mod Stopping
pub mod Returning
pub mod Keeping
pub mod Counting
pub mod Served
pub mod Detached
mod Tests
use boost_asio_samples.Base.{ℕ, Bool, true, false, Option, some, none, List, [], ◌∷◌, if◌then◌else◌}
use boost_asio_samples.IoBuffers.Calls.{Outcome, done, threw, endless}
use boost_asio_samples.IoBuffers.Calls.{Socket, Action}
use boost_asio_samples.Setup.{any_endpoint}
use boost_asio_samples.Setup.Tried.{Tried as Attempt, returns, throws, System}
use Acceptors.{
  Acceptor, Listener, AcceptorCl, ParallelAcceptor, listening_acceptor, acceptor_cl,
  parallel_acceptor,
}

-- Where `Run` stands: at the test of `liveFlag`, in `Accept`, or returned.
pub data Phase : Type 0 where
  testing accepting ended : Phase

-- The caller of `Start` and `Stop` does something else, or waits in `join`.
pub data Caller : Type 0 where
  idle joining : Caller

module _ (T : Acceptor) where
  -- `thread` is `none` where `thread_` is not joinable.
  pub record Server : Type 0 where
    pub thread : Option Phase
    pub live_flag : Bool
    pub acceptor : T.State

  -- A program that runs, or one that an exception has ended which left a thread.
  pub data Program : Type 0 where
    running : Caller → Server → Program
    terminated : T.State → Program

pub data Event : Type 0 where
  start stop join run : Event
  other : ℕ → Event

module _ {T : Acceptor} where
  abbrev pub new_server : T.State → Server T
  new_server s = record { thread = none; live_flag = true; acceptor = s }

  -- `Server::Start`
  unfoldable pub start_thread : Server T → Server T
  start_thread s = elim s.thread [ none ↦ record s { thread = some testing } | some p ↦ s ]

  -- `Server::Stop`, until it waits for the thread, where there is one
  unfoldable pub stop_thread : Server T → Program T
  stop_thread s =
      let t = record s { live_flag = false } in
      elim s.thread [ none ↦ running idle t | some p ↦ running joining t ]

  -- `join` returns once the thread has ended.
  unfoldable pub join_thread : Server T → Program T
  join_thread s = elim s.thread [
    | none ↦ running idle s
    | some ended ↦ running idle (record s { thread = none })
    | some p ↦ running joining s
  ]

  -- What a thread does to the acceptor of `s`, which leaves `s'`; one that never returns changes nothing.
  abbrev pub outcome : Caller → Server T → Server T → Outcome T.State (Unit {0}) → Program T
  outcome c s s' (done u t) = running c (record s' { acceptor = t })
  outcome c s s' (threw x t) = terminated t
  outcome c s s' endless = running c s

  -- One step of `Server::Run`.
  unfoldable pub run_thread : Caller → Server T → Program T
  run_thread c s = elim s.thread [
    | none ↦ running c s
    | some testing ↦
        running c (record s { thread = some (if s.live_flag then accepting else ended) })
    | some accepting ↦ outcome c s (record s { thread = some testing }) (T.accept s.acceptor)
    | some ended ↦ running c s
  ]

  abbrev pub other_outcome : Caller → Server T → Option (Outcome T.State (Unit {0})) → Program T
  other_outcome c s none = running c s
  other_outcome c s (some o) = outcome c s s o

  unfoldable pub run_other : ℕ → Caller → Server T → Program T
  run_other n c s = other_outcome c s (T.other n s.acceptor)

  -- An event that cannot happen changes nothing.
  unfoldable pub step : Event → Program T → Program T
  step start (running idle s) = running idle (start_thread s)
  step stop (running idle s) = stop_thread s
  step join (running joining s) = join_thread s
  step run (running c s) = run_thread c s
  step (other n) (running c s) = run_other n c s
  step e p = p

  unfoldable pub run_all : List Event → Program T → Program T
  run_all [] p = p
  run_all (e ∷ es) p = run_all es (step e p)

-- The constructors of `Server`: what the constructor of its acceptor throws leaves them.
module _ (sys : System) {k : Socket} (l : Listener k) where
  abbrev pub with_acceptor_cl :
      (service : Action k.State (Unit {0}))
      → Attempt l.State
      → Attempt (Server (acceptor_cl sys l service))
  with_acceptor_cl service (throws x) = throws x
  with_acceptor_cl service (returns s) = returns (new_server (record { listener = s; served = [] }))

  unfoldable pub create_server :
      (service : Action k.State (Unit {0})) → ℕ → Attempt (Server (acceptor_cl sys l service))
  create_server service port =
      with_acceptor_cl service (listening_acceptor l (any_endpoint sys port))

  abbrev pub with_parallel_acceptor : Attempt l.State → Attempt (Server (parallel_acceptor sys l))
  with_parallel_acceptor (throws x) = throws x
  with_parallel_acceptor (returns s) = returns (
      new_server (record { listener = s; detached = []; answered = []; services = 0; deletes = 0 }))

  unfoldable pub create_parallel_server : ℕ → Attempt (Server (parallel_acceptor sys l))
  create_parallel_server port =
      with_parallel_acceptor (listening_acceptor l (any_endpoint sys port))
